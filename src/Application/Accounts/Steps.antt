-- ===== src/Application/Accounts/Steps.antt =====
-- The requests that write the rows of users, as a step relation: what any sequence of them, refused
-- ones included, leaves of the unique indexes. Requests run one after the other.
use fast_stream_template.Common.{
  Bool, Bool-cases, Option, List, String, Uuid, Time, ℕ, none, some, ◌≡◌, refl, true, inl, inr,
}
use fast_stream_template.Errors.{Result, err, ok}
use fast_stream_template.Domain.Ports.{Crypto}
use fast_stream_template.Domain.Names.{CharClasses, validate_user_id}
use fast_stream_template.Domain.User
use fast_stream_template.Domain.User.{User}
use fast_stream_template.Infrastructure.UserRepo
use fast_stream_template.Infrastructure.UserRepo.Unique.{all_apart, all_apart-update}
use fast_stream_template.Infrastructure.RateLimiter.{Limiter, RateLimitConfig}
use fast_stream_template.Application.UnitOfWork.{Database, begin, commit}
use fast_stream_template.Application.RefreshToken.{refresh_token_use_case}
use fast_stream_template.Application.Login.{System, Draws, LoginInput}
use fast_stream_template.Application.LoginUseCase.{login}
use fast_stream_template.Application.CompleteTwoFactor.{Second, complete_two_factor, is_updated}
use fast_stream_template.Application.Transaction.{Tx, Nothing, transact}
use fast_stream_template.Application.Transaction.Keeps.{Keeps, transact_users}
use fast_stream_template.Application.UserService.{Request}
use fast_stream_template.Application.Accounts.{behind, limited}
use fast_stream_template.Application.Accounts.Registration
use fast_stream_template.Application.Accounts.Registration.{CreateUserInput}
use fast_stream_template.Application.Accounts.PasswordReset
use fast_stream_template.Application.Accounts.Profile
use fast_stream_template.Application.Accounts.Profile.{UpdateProfileInput}
use fast_stream_template.Application.Accounts.Sessions
use fast_stream_template.Application.Accounts.Sessions.{HydraSessions, settle_found}
use fast_stream_template.Application.Accounts.ManageTwoFactor
use fast_stream_template.Application.Accounts.ManageTwoFactor.{
  settle_check, check_answer, check_found, check_named,
}
use fast_stream_template.Application.Accounts.Unique
use fast_stream_template.Application.Accounts.Unique.{Unique}
use fast_stream_template.Application.Accounts.UniqueLogin.{login_Unique}
use fast_stream_template.Application.Accounts.UniqueSecondFactor.{
  complete_two_factor_Unique, refresh_Unique,
}

-- One request: the rows before it and after it
pub data Step : Database → Database → Type 0 where
  create_user :
      (q : Request) (config : RateLimitConfig) (user_id : Uuid) (input : CreateUserInput)
      (db : Database) (limiter : Limiter)
      → Step db (Registration.create_user q config user_id input (db, limiter)).1.0
  verify_email :
      (q : Request) (token : String) (db : Database)
      → Step db (Registration.verify_email_use_case q token db).1
  request_password_reset :
      (q : Request) (config : RateLimitConfig) (ip : Option String) (email : String) (db : Database)
      (limiter : Limiter)
      → Step db (PasswordReset.request_password_reset q config ip email (db, limiter)).1.0
  reset_password :
      (q : Request) (config : RateLimitConfig) (ip : Option String) (token new_password : String)
      (db : Database) (limiter : Limiter)
      → Step db (PasswordReset.reset_password q config ip token new_password (db, limiter)).1.0
  change_password :
      (q : Request) (user_id : Uuid) (old_password new_password : String) (db : Database)
      → Step db (Profile.change_password q user_id old_password new_password db).1
  update_profile :
      (q : Request) (input : UpdateProfileInput) (db : Database)
      → Step db (Profile.update_profile q input db).1
  delete_me :
      (q : Request) (user_id : Uuid) (db : Database) → Step db (Profile.delete_me q user_id db).1
  confirm_two_factor :
      (q : Request) (user_id : Uuid) (code : String) (db : Database)
      → Step db (ManageTwoFactor.confirm_two_factor q user_id code db).1
  enable_two_factor :
      (q : Request) (uri : String → String → String) (user_id : Uuid) (secret : String)
      (drawn : List String) (db : Database)
      → Step db (ManageTwoFactor.enable_two_factor q uri user_id secret drawn db).1
  disable_two_factor :
      (q : Request) (user_id : Uuid) (password : String) (db : Database)
      → Step db (ManageTwoFactor.disable_two_factor q user_id password db).1
  verify_two_factor :
      (q : Request) (user_id : Uuid) (code : String) (db : Database)
      → Step db (ManageTwoFactor.verify_two_factor q user_id code db).1
  revoke_all_sessions :
      (hydra : HydraSessions) (id_of : ℕ → Uuid) (now : Time) (user_id : Uuid) (db : Database)
      → Step db (Sessions.revoke_all hydra id_of now user_id db).1
  login_tried :
      (draws : Draws) (input : LoginInput) (config : RateLimitConfig) (crypto : Crypto)
      (classes : CharClasses) (lower : String → String) (sys : System)
      → Step sys.db (login draws input config crypto classes lower sys).1.db
  second_factor :
      (crypto : Crypto) (key : Uuid → String → String) (draws : Draws) (token code : String)
      (sys : Second)
      → Step sys.db (complete_two_factor crypto key draws token code sys).1.db
  session_refreshed :
      (crypto : Crypto) (token raw : String) (id : Uuid) (id_of : ℕ → Uuid) (now : Time)
      (db : Database)
      → Step db (refresh_token_use_case crypto raw id id_of now token db).1

pub data Reach (start : Database) : Database → Type 0 where
  here : Reach start start
  next : {db db' : Database} → Reach start db → Step db db' → Reach start db'

transact_Unique :
    {A : Type 0} (m : Tx A) (id_of : ℕ → Uuid) (now : Time) (db : Database)
    → Keeps Unique m
    → Unique db
    → Unique (transact id_of now m db).1
transact_Unique m id_of now db km h =
    transact_users (λ users. all_apart users ≡ true) m id_of now db km h

behind_Unique :
    {A : Type 0} (m : Tx A) (id_of : ℕ → Uuid) (now : Time) (db : Database)
    (r : Result Nothing × Limiter)
    → Keeps Unique m
    → Unique db
    → Unique (behind (transact id_of now m) db r).1.0
behind_Unique m id_of now db (ok o, l) km h = transact_Unique m id_of now db km h
behind_Unique m id_of now db (err e, l) km h = h

enrolment_Unique :
    (q : Request) (uri : String → String → String) (r : Result (User × List String) × Database)
    → Unique r.1
    → Unique (ManageTwoFactor.enrolment_output q uri r).1
enrolment_Unique q uri (ok (u, c), db) h = h
enrolment_Unique q uri (err e, db) h = h

settle_check_Unique :
    (id_of : ℕ → Uuid) (now : Time) (db : Database) (success : Bool) (updated : User)
    (r : Result (User × List User))
    → ((v : User) (users : List User) → r ≡ ok (v, users) → all_apart users ≡ true)
    → Unique db
    → Unique (settle_check id_of now db success updated r).1
unfolding commit begin
settle_check_Unique id_of now db success updated (ok (v, users)) f h = f v users refl
settle_check_Unique id_of now db success updated (err e) f h = h

module _ (q : Request) where
  check_answer_Unique :
      (db : Database) (user : User) (r : Bool × User)
      → Unique db
      → Unique (check_answer q db user r).1
  check_answer_Unique db user (success, updated) h = elim (Bool-cases (is_updated user updated)) [
    | inr e ↦ rw e h
    | inl e ↦ rw e (
        settle_check_Unique q.id_of q.now db success updated (UserRepo.update updated db.users)
          (λ v users ran. all_apart-update updated v db.users users h ran) h)
  ]

  check_found_Unique :
      (code : String) (db : Database) (found : Option User)
      → Unique db
      → Unique (check_found q code db found).1
  check_found_Unique code db none h = h
  check_found_Unique code db (some u) h =
      check_answer_Unique db u (User.verify_two_factor q.crypto u code q.now) h

  check_named_Unique :
      (user_id : Uuid) (code : String) (db : Database) (r : Result Nothing)
      → Unique db
      → Unique (check_named q user_id code db r).1
  check_named_Unique user_id code db (err e) h = h
  check_named_Unique user_id code db (ok o) h =
      check_found_Unique code db (UserRepo.acquire_by_id user_id db.users) h

Step-Unique : {db db' : Database} → Step db db' → Unique db → Unique db'
unfolding Registration.create_user Registration.verify_email_use_case
    PasswordReset.request_password_reset PasswordReset.reset_password Profile.change_password
    Profile.update_profile Profile.delete_me ManageTwoFactor.confirm_two_factor
    ManageTwoFactor.enable_two_factor ManageTwoFactor.disable_two_factor
    ManageTwoFactor.verify_two_factor Sessions.revoke_all
Step-Unique (create_user q config user_id input db l) h =
    behind_Unique _ q.id_of q.now db (limited config "register:" q.now input.ip_address l)
      (Unique.Keeps-register q user_id input) h
Step-Unique (verify_email q token db) h =
    transact_Unique _ q.id_of q.now db (Unique.Keeps-verify_email q token) h
Step-Unique (request_password_reset q config ip email db l) h =
    behind_Unique _ q.id_of q.now db (limited config "password-reset-request:" q.now ip l)
      (Unique.Keeps-ask_reset q email) h
Step-Unique (reset_password q config ip token n db l) h =
    behind_Unique _ q.id_of q.now db (limited config "password-reset-confirm:" q.now ip l)
      (Unique.Keeps-confirm_reset q token n) h
Step-Unique (change_password q user_id o n db) h =
    transact_Unique _ q.id_of q.now db (Unique.Keeps-replace_password q user_id o n) h
Step-Unique (update_profile q input db) h =
    transact_Unique _ q.id_of q.now db (Unique.Keeps-edit_profile q input) h
Step-Unique (delete_me q user_id db) h =
    transact_Unique _ q.id_of q.now db (Unique.Keeps-remove_account q user_id) h
Step-Unique (confirm_two_factor q user_id code db) h =
    transact_Unique _ q.id_of q.now db (Unique.Keeps-confirm_enrolment q user_id code) h
Step-Unique (enable_two_factor q uri user_id s drawn db) h =
    enrolment_Unique q uri
      (transact q.id_of q.now (ManageTwoFactor.begin_enrolment q user_id s drawn) db)
      (transact_Unique _ q.id_of q.now db (Unique.Keeps-begin_enrolment q user_id s drawn) h)
Step-Unique (disable_two_factor q user_id p db) h =
    transact_Unique _ q.id_of q.now db (Unique.Keeps-end_enrolment q user_id p) h
Step-Unique (verify_two_factor q user_id code db) h =
    check_named_Unique q user_id code db (validate_user_id user_id) h
Step-Unique (revoke_all_sessions hydra id_of now user_id db) h =
    transact_Unique _ id_of now db (Unique.Keeps-revoke_each user_id) h
Step-Unique (login_tried draws input config crypto classes lower sys) h =
    login_Unique draws input config crypto classes lower sys h
Step-Unique (second_factor crypto key draws token code sys) h =
    complete_two_factor_Unique crypto key draws token code sys h
Step-Unique (session_refreshed crypto token raw id id_of now db) h =
    refresh_Unique crypto token raw id id_of now db h

-- Whatever requests run on rows of users of which no two share an id, a username or an e-mail
-- address, granted or refused, in any order: no two rows share one after them.
pub Reach-Unique : {db db' : Database} → Unique db → Reach db db' → Unique db'
Reach-Unique h here = h
Reach-Unique h (next r s) = Step-Unique s (Reach-Unique h r)
