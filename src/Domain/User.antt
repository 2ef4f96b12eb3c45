-- ===== src/Domain/User.antt =====
-- src/domain/user/entities/user.py: the User aggregate. Each method returns a new entity that
-- carries the events not yet pulled (DomainEventDispatcher._with) and appends its own
-- (_record_event). `now` is the clock's reading; `drawn` is the text that `secrets` returns.
pub mod Lifecycle
pub mod Passwords
pub mod SecondFactor
use fast_stream_template.Common.{
  ℕ, String, Bool, true, false, not, ◌&&◌, Option, none, some, List, [], ◌∷◌, ◌++◌, str_eq,
  if◌then◌else◌, is_some, opt_str_eq, or_empty, Time, Uuid, Bytes,
}
use fast_stream_template.Errors.{
  invalid_credentials, invalid_token, two_factor_already_enabled, two_factor_not_enrolled, Result,
  ok, err,
}
use fast_stream_template.Domain.Ports.{Crypto}
use fast_stream_template.Domain.AccountLock
use fast_stream_template.Domain.AccountLock.{AccountLockInfo}
use fast_stream_template.Domain.Tokens
use fast_stream_template.Domain.Tokens.{EmailVerification, PasswordResetToken, DeletionTime}
use fast_stream_template.Domain.TwoFactor
use fast_stream_template.Domain.TwoFactor.{TwoFactorSecret}
use fast_stream_template.Domain.Events.{
  Event, user_created, user_authenticated, user_profile_updated, user_deleted, account_was_locked,
  account_unlocked, password_reset_requested, password_reset_completed, password_changed,
  email_verification_requested, email_verified, two_factor_enabled, two_factor_disabled,
  user_role_assigned, user_role_revoked,
}

pub record User : Type 0 where
  pub id : Uuid
  pub username : String
  pub email : Option String
  pub hashed_password : Bytes
  pub deleted_at : DeletionTime
  pub account_lock : AccountLockInfo
  pub email_verification : EmailVerification
  pub password_reset_token : Option PasswordResetToken
  pub two_factor_secret : Option TwoFactorSecret
  pub version : ℕ
  pub events : List Event

-- DomainEventDispatcher._record_event
abbrev pub record_event : User → Event → User
record_event u e = record u { events = u.events ++ e ∷ [] }

-- User.create
unfoldable pub create : Crypto → Uuid → String → Option String → Bytes → String → Time → User
create crypto user_id username email hashed_password verification_token now = record {
  id = user_id;
  username = username;
  email = email;
  hashed_password = hashed_password;
  deleted_at = Tokens.create_not_deleted;
  account_lock = AccountLock.create;
  email_verification = Tokens.create_unverified crypto verification_token 24 now;
  password_reset_token = none;
  two_factor_secret = none;
  version = 0;
  events =
      user_created user_id username email
      ∷ email_verification_requested user_id (or_empty email) verification_token
      ∷ [];
}

unfoldable pub is_deleted : User → Bool
is_deleted u = is_some u.deleted_at

unfoldable pub is_locked : User → Time → Bool
is_locked u now = AccountLock.is_locked_out u.account_lock now

-- `secret is not None and secret.enabled_at is not None`
abbrev pub enabled : Option TwoFactorSecret → Bool
enabled none = false
enabled (some s) = is_some s.enabled_at

unfoldable pub has_two_factor : User → Bool
has_two_factor u = enabled u.two_factor_secret

unfoldable pub verify_password : Crypto → User → String → Bool
verify_password crypto u plain_password = crypto.compare_hashes plain_password u.hashed_password

-- The result of `consume_backup_code` as the last test of `verify_two_factor`.
abbrev pub spend : User → Option TwoFactorSecret → Bool × User
spend u none = (false, u)
spend u (some consumed) = (true, record u { two_factor_secret = some consumed })

abbrev pub verify_secret : Crypto → User → TwoFactorSecret → String → Time → Bool × User
verify_secret crypto u s code now =
    if not (is_some s.enabled_at)
    then (false, u)
    else if crypto.verify_code now s.secret code
    then (true, u)
    else spend u (TwoFactor.consume_backup_code crypto s code)

-- `not self.two_factor_secret`: the guard on an account without an enrolment
abbrev pub verify_enrolled : Crypto → User → Option TwoFactorSecret → String → Time → Bool × User
verify_enrolled crypto u none code now = (false, u)
verify_enrolled crypto u (some s) code now = verify_secret crypto u s code now

unfoldable pub verify_two_factor : Crypto → User → String → Time → Bool × User
verify_two_factor crypto u code now = verify_enrolled crypto u u.two_factor_secret code now

unfoldable pub record_failed_login_attempt : ℕ → ℕ → Time → User → User
record_failed_login_attempt max_attempts lockout_duration_minutes now u =
    let new_lock_info =
      AccountLock.record_failed_attempt max_attempts lockout_duration_minutes now u.account_lock in
    let new_user : User = record u { account_lock = new_lock_info } in
    if new_lock_info.is_locked && not u.account_lock.is_locked
    then record_event new_user
        (account_was_locked u.id "Too many failed login attempts" new_lock_info.lock_until)
    else new_user

unfoldable pub record_successful_login : User → User
record_successful_login u =
    record_event (record u { account_lock = AccountLock.record_successful_login u.account_lock })
      (user_authenticated u.id u.username)

unfoldable pub unlock : User → User
unlock u =
    record_event (record u { account_lock = AccountLock.unlock u.account_lock })
      (account_unlocked u.id)

unfoldable pub lock : User → String → Time → User
lock u reason now =
    record_event (record u { account_lock = AccountLock.create_locked reason none now })
      (account_was_locked u.id reason none)

unfoldable pub verify_email : Crypto → User → String → Time → Bool
verify_email crypto u token now = Tokens.verify crypto u.email_verification token now

unfoldable pub mark_email_verified : User → Time → User
mark_email_verified u now =
    record_event (record u { email_verification = Tokens.mark_verified u.email_verification now })
      (email_verified u.id (or_empty u.email))

unfoldable pub request_password_reset : Crypto → User → ℕ → String → Time → User
request_password_reset crypto u expires_in_hours drawn now =
    let secure_token = Tokens.create_secure drawn expires_in_hours now in
    record_event
      (record u {
        password_reset_token =
            some (Tokens.create_reset crypto secure_token.value expires_in_hours now);
      })
      (password_reset_requested u.id (or_empty u.email) secure_token.value)

abbrev pub reset_with :
    Crypto → User → Option PasswordResetToken → String → Bytes → Time → Result User
reset_with crypto u none token new_hashed_password now = err invalid_token
reset_with crypto u (some held) token new_hashed_password now =
    if not (Tokens.reset_is_valid held now)
    then err invalid_token
    else if not (Tokens.matches crypto held token)
    then err invalid_token
    else ok (
        record_event
          (record u {
            hashed_password = new_hashed_password;
            account_lock = AccountLock.unlock u.account_lock;
            password_reset_token = some (Tokens.mark_used held);
          })
          (password_reset_completed u.id))

unfoldable pub reset_password : Crypto → User → String → Bytes → Time → Result User
reset_password crypto u token new_hashed_password now =
    reset_with crypto u u.password_reset_token token new_hashed_password now

-- `secret` is what TwoFactorInterface.generate_secret returns, `codes` what `secrets` draws.
unfoldable pub begin_two_factor_enrolment :
    Crypto → User → String → List String → User × List String
begin_two_factor_enrolment crypto u secret codes =
    let (enrolment, shown) = TwoFactor.create crypto secret codes in
    (record u { two_factor_secret = some enrolment }, shown)

-- The entity that a right code leaves, with its event.
abbrev pub activate : User → TwoFactorSecret → Time → User
activate u s now =
    record_event (record u { two_factor_secret = some (TwoFactor.enable s now) })
      (two_factor_enabled u.id (TwoFactor.remaining_backup_codes s))

abbrev pub confirm_secret : Crypto → User → Option TwoFactorSecret → String → Time → Result User
confirm_secret crypto u none code now = err two_factor_not_enrolled
confirm_secret crypto u (some s) code now =
    if is_some s.enabled_at
    then err two_factor_already_enabled
    else if not (crypto.verify_code now s.secret code)
    then err invalid_credentials
    else ok (activate u s now)

unfoldable pub confirm_two_factor : Crypto → User → String → Time → Result User
confirm_two_factor crypto u code now = confirm_secret crypto u u.two_factor_secret code now

unfoldable pub disable_two_factor : User → User
disable_two_factor u =
    record_event (record u { two_factor_secret = none }) (two_factor_disabled u.id)

unfoldable pub update_username : User → String → User
update_username u new_username =
    if not (str_eq new_username u.username)
    then record_event (record u { username = new_username })
        (user_profile_updated u.id ("username" ∷ []))
    else u

unfoldable pub update_email : Crypto → User → Option String → String → Time → User
update_email crypto u new_email drawn now =
    if not (opt_str_eq new_email u.email)
    then (let secure_token = Tokens.create_secure drawn 24 now in
        record_event
          (record_event
            (record u {
              email = new_email;
              email_verification = Tokens.create_unverified crypto secure_token.value 24 now;
            })
            (user_profile_updated u.id ("email" ∷ [])))
          (email_verification_requested u.id (or_empty new_email) secure_token.value))
    else u

unfoldable pub delete : User → Time → User
delete u now =
    if not (is_some u.deleted_at)
    then record_event (record u { deleted_at = Tokens.create_deleted now }) (user_deleted u.id)
    else u

unfoldable pub assign_role : User → Uuid → Option Uuid → User
assign_role u role_id assigned_by = record_event u (user_role_assigned u.id role_id assigned_by)

unfoldable pub revoke_role : User → Uuid → User
revoke_role u role_id = record_event u (user_role_revoked u.id role_id none)

unfoldable pub change_password : Crypto → User → String → Bytes → Result User
unfolding verify_password
change_password crypto u old_password new_password =
    if not (verify_password crypto u old_password)
    then err invalid_credentials
    else ok (
        record_event
          (record u {
            hashed_password = new_password;
            account_lock = AccountLock.unlock u.account_lock;
            password_reset_token = none;
          })
          (password_changed u.id))
