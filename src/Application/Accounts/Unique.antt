-- ===== src/Application/Accounts/Unique.antt =====
-- No use case brings two rows of users into conflict: the rules of Keeps for the methods of the
-- service.
use fast_stream_template.Common.{Option, List, String, Uuid, [], ◌∷◌, none, some, ◌≡◌, refl, true}
use fast_stream_template.Errors.{Result, err, ok}
use fast_stream_template.Domain.User.{User}
use fast_stream_template.Domain.Session.{SessionAggregate}
use fast_stream_template.Infrastructure.UserRepo
use fast_stream_template.Infrastructure.UserRepo.Unique.{all_apart, all_apart-add, all_apart-update}
use fast_stream_template.Application.UnitOfWork.{Database, Work, register}
use fast_stream_template.Application.RefreshToken.{save_session}
use fast_stream_template.Application.Login.{save_user, saved}
use fast_stream_template.Application.Transaction.{change}
use fast_stream_template.Application.Transaction.Keeps.{Keeps, Keeps-change, keeps_rules, OnUsers}
use fast_stream_template.Application.UserService
use fast_stream_template.Application.UserService.{
  Request, add_user, inserted, save_sessions, revoke_found,
}
use fast_stream_template.Application.Accounts.Registration
use fast_stream_template.Application.Accounts.Registration.{CreateUserInput, valid_email}
use fast_stream_template.Application.Accounts.PasswordReset
use fast_stream_template.Application.Accounts.Profile
use fast_stream_template.Application.Accounts.Profile.{UpdateProfileInput, valid_username}
use fast_stream_template.Application.Accounts.Sessions
use fast_stream_template.Application.Accounts.ManageTwoFactor

-- No two rows of users have the same id, username or e-mail address.
abbrev pub Unique : Database → Type 0
Unique = OnUsers (λ users. all_apart users ≡ true)

saved_Unique :
    (w : Work) (r : Result (User × List User))
    → ((v : User) (users : List User) → r ≡ ok (v, users) → all_apart users ≡ true)
    → Unique w.db
    → Unique (saved w r).1.db
unfolding register
saved_Unique w (ok (v, users)) f h = f v users refl
saved_Unique w (err e) f h = h

pub Keeps-save_user : (u : User) → Keeps Unique (save_user u)
unfolding save_user
Keeps-save_user u = record {
  at = λ w h.
      saved_Unique w (UserRepo.update u w.db.users)
        (λ v users e. all_apart-update u v w.db.users users h e) h;
}

inserted_Unique :
    (u : User) (w : Work) (r : Result (List User))
    → ((users : List User) → r ≡ ok users → all_apart users ≡ true)
    → Unique w.db
    → Unique (inserted u w r).1.db
unfolding register
inserted_Unique u w (ok users) f h = f users refl
inserted_Unique u w (err e) f h = h

pub Keeps-add_user : (u : User) → Keeps Unique (add_user u)
unfolding add_user
Keeps-add_user u = record {
  at = λ w h.
      inserted_Unique u w (UserRepo.add u w.db.users)
        (λ users e. all_apart-add u w.db.users users h e) h;
}

pub users-save_sessions :
    (ss : List SessionAggregate) (w : Work) → (save_sessions ss w).db.users ≡ w.db.users
unfolding save_session register
users-save_sessions [] w = refl
users-save_sessions (s ∷ ss) w = users-save_sessions ss (save_session s w)

pub Keeps-save_sessions : (ss : List SessionAggregate) → Keeps Unique (change (save_sessions ss))
Keeps-save_sessions ss = Keeps-change (save_sessions ss) λ w h. rw (users-save_sessions ss w) h

ruleset statements = (keeps_rules, Keeps-save_user, Keeps-add_user, Keeps-save_sessions)

pub Keeps-revoke_all : (user_id : Uuid) → Keeps Unique (UserService.revoke_all_sessions user_id)
unfolding UserService.revoke_all_sessions
Keeps-revoke_all user_id = search statements

pub Keeps-get_user_by_id : (user_id : Uuid) → Keeps Unique (UserService.get_user_by_id user_id)
unfolding UserService.get_user_by_id
Keeps-get_user_by_id user_id = search statements

pub Keeps-create :
    (q : Request) (user_id : Uuid) (username password : String) (email : Option String)
    → Keeps Unique (UserService.create q user_id username password email)
unfolding UserService.create
Keeps-create q user_id username password email = search statements depth 20

pub Keeps-valid_email : (email : Option String) → Keeps Unique (valid_email email)
Keeps-valid_email none = search statements
Keeps-valid_email (some email) = search statements

pub Keeps-valid_username : (username : Option String) → Keeps Unique (valid_username username)
Keeps-valid_username none = search statements
Keeps-valid_username (some username) = search statements

pub Keeps-register :
    (q : Request) (user_id : Uuid) (input : CreateUserInput)
    → Keeps Unique (Registration.register_user q user_id input)
unfolding Registration.register_user
Keeps-register q user_id input = search (Keeps-create, Keeps-valid_email, statements) depth 20

pub Keeps-verify_email :
    (q : Request) (token : String) → Keeps Unique (UserService.verify_email q token)
unfolding UserService.verify_email
Keeps-verify_email q token = search statements depth 20

pub Keeps-reset_for :
    (q : Request) (found : Option User) → Keeps Unique (UserService.reset_for q found)
Keeps-reset_for q none = search statements
Keeps-reset_for q (some u) = search statements

pub Keeps-ask_reset :
    (q : Request) (email : String) → Keeps Unique (PasswordReset.ask_reset q email)
unfolding PasswordReset.ask_reset UserService.request_password_reset
Keeps-ask_reset q email = search (Keeps-reset_for, statements) depth 20

pub Keeps-confirm_reset :
    (q : Request) (token new_password : String)
    → Keeps Unique (PasswordReset.confirm_reset q token new_password)
unfolding PasswordReset.confirm_reset UserService.reset_password
Keeps-confirm_reset q token new_password = search (Keeps-revoke_all, statements) depth 20

pub Keeps-replace_password :
    (q : Request) (user_id : Uuid) (old_password new_password : String)
    → Keeps Unique (Profile.replace_password q user_id old_password new_password)
unfolding Profile.replace_password UserService.change_password
Keeps-replace_password q user_id old_password new_password =
    search (Keeps-revoke_all, Keeps-get_user_by_id, statements) depth 20

pub Keeps-rename :
    (q : Request) (user : User) (username : Option String)
    → Keeps Unique (UserService.rename q user username)
Keeps-rename q user none = search statements
Keeps-rename q user (some username) = search statements depth 20

pub Keeps-readdress :
    (q : Request) (held : Option String) (user : User) (email : Option String)
    → Keeps Unique (UserService.readdress q held user email)
Keeps-readdress q held user none = search statements
Keeps-readdress q held user (some email) = search statements depth 20

pub Keeps-update_user :
    (q : Request) (user : User) (username email : Option String)
    → Keeps Unique (UserService.update_user q user username email)
unfolding UserService.update_user
Keeps-update_user q user username email =
    search (Keeps-rename, Keeps-readdress, statements) depth 20

pub Keeps-edit_profile :
    (q : Request) (input : UpdateProfileInput) → Keeps Unique (Profile.edit_profile q input)
unfolding Profile.edit_profile
Keeps-edit_profile q input =
    search
      (Keeps-update_user, Keeps-get_user_by_id, Keeps-valid_username, Keeps-valid_email, statements)
      depth 20

pub Keeps-remove_account :
    (q : Request) (user_id : Uuid) → Keeps Unique (Profile.remove_account q user_id)
unfolding Profile.remove_account UserService.delete_user
Keeps-remove_account q user_id = search (Keeps-revoke_all, statements) depth 20

pub Keeps-confirm_enrolment :
    (q : Request) (user_id : Uuid) (code : String)
    → Keeps Unique (ManageTwoFactor.confirm_enrolment q user_id code)
unfolding ManageTwoFactor.confirm_enrolment
Keeps-confirm_enrolment q user_id code =
    search (Keeps-update_user, Keeps-get_user_by_id, statements) depth 20

pub Keeps-begin_enrolment :
    (q : Request) (user_id : Uuid) (secret : String) (drawn_codes : List String)
    → Keeps Unique (ManageTwoFactor.begin_enrolment q user_id secret drawn_codes)
unfolding ManageTwoFactor.begin_enrolment
Keeps-begin_enrolment q user_id secret drawn_codes =
    search (Keeps-update_user, Keeps-get_user_by_id, statements) depth 20

pub Keeps-end_enrolment :
    (q : Request) (user_id : Uuid) (password : String)
    → Keeps Unique (ManageTwoFactor.end_enrolment q user_id password)
unfolding ManageTwoFactor.end_enrolment
Keeps-end_enrolment q user_id password =
    search (Keeps-update_user, Keeps-get_user_by_id, statements) depth 20

pub Keeps-revoke_each : (user_id : Uuid) → Keeps Unique (Sessions.revoke_each user_id)
unfolding Sessions.revoke_each
Keeps-revoke_each user_id = search (Keeps-revoke_all, statements) depth 20
