-- ===== src/Application/UserService.antt =====
-- src/application/user/services.py, UserService, but for `authenticate` (Application/Login.antt) and
-- `refresh_session` (Application/RefreshToken.antt). A Username, an Email or a PlainPassword that a
-- method takes was checked where it was made. A Request is what one request draws and reads.
use fast_stream_template.Common.{
  ℕ, Option, Time, Uuid, String, List, [], ◌∷◌, map, if◌then◌else◌, none, some, not, opt_str_eq,
  str_eq, ◌==◌,
}
use fast_stream_template.Errors.{
  Result, err, ok, username_already_exists, email_already_exists, invalid_token, user_not_found,
  user_is_deleted,
}
use fast_stream_template.Domain.Ports.{Crypto}
use fast_stream_template.Domain.Names.{CharClasses, validate_hashed_password}
use fast_stream_template.Domain.Tokens.{from_raw}
use fast_stream_template.Domain.User
use fast_stream_template.Domain.User.{User}
use fast_stream_template.Domain.Session
use fast_stream_template.Domain.Session.{SessionAggregate}
use fast_stream_template.Infrastructure.UserRepo
use fast_stream_template.Infrastructure.SessionRepo
use fast_stream_template.Application.UnitOfWork.{Work, register}
use fast_stream_template.Application.RefreshToken.{save_session}
use fast_stream_template.Application.Login.{save_user}
use fast_stream_template.Application.Transaction.{
  Tx, Nothing, give, checked, query, required, refuse_if, change, ◌>>=◌, ◌>>◌,
}

-- The libraries that a request calls, what it draws, and its one reading of the clock. `drawn` is
-- the text that `secrets` or `uuid4` returns, `salt` what bcrypt draws.
pub record Request : Type 0 where
  pub crypto : Crypto
  pub classes : CharClasses
  pub salt : ℕ
  pub drawn : String
  pub id_of : ℕ → Uuid
  pub now : Time

-- The rows after an INSERT, if it raises nothing
abbrev pub inserted : User → Work → Result (List User) → Result User × Work
inserted u w (err e) = (err e, w)
inserted u w (ok users) =
    (ok u, register u.events (record w { db = record w.db { users = users } }))

-- `self._user_repo.add` and `self._uow.register` of one user
unfoldable pub add_user : User → Tx User
unfolding register
add_user u w = inserted u w (UserRepo.add u w.db.users)

-- `self._session_repo.update` and `self._uow.register` of each session
abbrev pub save_sessions : List SessionAggregate → Work → Work
save_sessions [] w = w
save_sessions (s ∷ ss) w = save_sessions ss (save_session s w)

-- update_session
unfoldable pub update_session : SessionAggregate → Tx Nothing
unfolding save_session
update_session s = change (save_session s)

-- get_user_sessions
unfoldable pub get_user_sessions : Uuid → Tx (List SessionAggregate)
get_user_sessions user_id = query λ db. SessionRepo.acquire_by_user_id db.sessions user_id

-- revoke_all_sessions
unfoldable pub revoke_all_sessions : Uuid → Tx (List SessionAggregate)
revoke_all_sessions user_id = do
  sessions ← query λ db. SessionRepo.acquire_by_user_id db.sessions user_id
  let revoked_sessions = map Session.revoke sessions
  change (save_sessions revoked_sessions)
  give revoked_sessions

abbrev pub revoke_found : Uuid → Option SessionAggregate → Tx (Option SessionAggregate)
revoke_found user_id none = give none
revoke_found user_id (some session) =
    if session.user_id == user_id
    then change (save_session (Session.revoke session)) >> give (some (Session.revoke session))
    else give none

-- revoke_session
unfoldable pub revoke_session : Uuid → Uuid → Tx (Option SessionAggregate)
revoke_session session_id user_id = do
  found ← query λ db. SessionRepo.acquire_by_session_id db.sessions session_id
  revoke_found user_id found

-- get_user_by_id
unfoldable pub get_user_by_id : Uuid → Tx User
get_user_by_id user_id = do
  found ← query λ db. UserRepo.acquire_by_id user_id db.users
  user ← required user_not_found found
  refuse_if (User.is_deleted user) user_is_deleted
  give user

module _ (q : Request) where
  -- HashedPassword(await self._crypt.hash(...))
  abbrev pub hashed : String → Tx String
  hashed password =
      let digest = q.crypto.hash_password q.salt password in
      checked (validate_hashed_password digest) >> give digest

  -- create, without a verification token of the caller's
  unfoldable pub create : Uuid → String → String → Option String → Tx User
  create user_id username password email = do
    username_exists ← query λ db. UserRepo.check_username_exists username db.users
    refuse_if username_exists username_already_exists
    email_exists ← query λ db. UserRepo.check_email_exists email db.users
    refuse_if email_exists email_already_exists
    hashed_password ← hashed password
    add_user (User.create q.crypto user_id username email hashed_password q.drawn q.now)

  -- verify_email
  unfoldable pub verify_email : String → Tx User
  verify_email token = do
    found ← query λ db. UserRepo.acquire_by_verification_token (from_raw q.crypto token) db.users
    user ← required invalid_token found
    refuse_if (not (User.verify_email q.crypto user token q.now)) invalid_token
    save_user (User.mark_email_verified user q.now)

  abbrev pub reset_for : Option User → Tx (Option User)
  reset_for none = give none
  reset_for (some user) = do
    updated_user ← save_user (User.request_password_reset q.crypto user 1 q.drawn q.now)
    give (some updated_user)

  -- request_password_reset
  unfoldable pub request_password_reset : String → Tx (Option User)
  request_password_reset email = do
    found ← query λ db. UserRepo.acquire_by_email email db.users
    reset_for found

  -- reset_password
  unfoldable pub reset_password : String → String → Tx User
  reset_password token new_password = do
    found ← query λ db. UserRepo.acquire_by_reset_token (from_raw q.crypto token) db.users
    user ← required invalid_token found
    new_hashed_password ← hashed new_password
    updated ← checked (User.reset_password q.crypto user token new_hashed_password q.now)
    updated_user ← save_user updated
    revoke_all_sessions user.id
    give updated_user

  -- change_password
  unfoldable pub change_password : User → String → String → Tx User
  change_password user old_password new_password = do
    new_hashed_password ← hashed new_password
    updated ← checked (User.change_password q.crypto user old_password new_hashed_password)
    updated_user ← save_user updated
    revoke_all_sessions user.id
    give updated_user

  abbrev pub delete_found : User → Tx User
  delete_found user =
      if User.is_deleted user
      then give user
      else (revoke_all_sessions user.id >> save_user (User.delete user q.now))

  -- delete_user
  unfoldable pub delete_user : Uuid → Tx User
  delete_user user_id = do
    found ← query λ db. UserRepo.acquire_by_id user_id db.users
    user ← required user_not_found found
    delete_found user

  abbrev pub rename : User → Option String → Tx User
  rename user none = give user
  rename user (some username) = if str_eq username user.username then give user else do
    username_exists ← query λ db. UserRepo.check_username_exists username db.users
    refuse_if username_exists username_already_exists
    give (User.update_username user username)

  -- `email` is not None here where it is an address
  abbrev pub readdress : Option String → User → Option String → Tx User
  readdress held updated none = give updated
  readdress held updated (some email) = if opt_str_eq (some email) held then give updated else do
    email_exists ← query λ db. UserRepo.check_email_exists (some email) db.users
    refuse_if email_exists email_already_exists
    give (User.update_email q.crypto updated (some email) q.drawn q.now)

  -- update_user
  unfoldable pub update_user : User → Option String → Option String → Tx User
  update_user user username email = do
    refuse_if (User.is_deleted user) user_is_deleted
    renamed ← rename user username
    updated ← readdress user.email renamed email
    save_user updated
