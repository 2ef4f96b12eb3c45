-- ===== src/Application/Accounts/ManageTwoFactor.antt =====
-- src/application/user/commands/manage_2fa.py. `secret` is what TwoFactorInterface.generate_secret
-- returns, `codes` the drawn backup codes, `uri` is get_provisioning_uri.
use fast_stream_template.Common.{
  Bool, List, Option, String, Uuid, if◌then◌else◌, not, none, some, false, ℕ, Time,
}
use fast_stream_template.Errors.{
  Result, err, ok, two_factor_already_enabled, two_factor_not_enrolled, invalid_credentials,
}
use fast_stream_template.Domain.TwoFactor.{TwoFactorSecret}
use fast_stream_template.Domain.User
use fast_stream_template.Domain.User.{User}
use fast_stream_template.Domain.Names.{codes, validate_password, validate_user_id}
use fast_stream_template.Infrastructure.UserRepo
use fast_stream_template.Application.UnitOfWork.{Database, begin, commit}
use fast_stream_template.Application.CompleteTwoFactor.{is_updated}
use fast_stream_template.Application.Transaction.{
  Tx, Nothing, give, checked, refuse_if, transact, ◌>>=◌, ◌>>◌,
}
use fast_stream_template.Application.UserService
use fast_stream_template.Application.UserService.{Request}

pub record EnrolmentOutput : Type 0 where
  pub secret : String
  pub backup_codes : List String
  pub provisioning_uri : String

-- What a second factor's check leaves: the update of the spent code, which registers no event
abbrev pub settle_check :
    (ℕ → Uuid) → Time → Database → Bool → User → Result (User × List User) → Result Bool × Database
settle_check id_of now db success updated (err e) = (err e, db)
settle_check id_of now db success updated (ok (u, users)) =
    (ok success, commit id_of now (begin (record db { users = users })))

module _ (q : Request) where
  -- Confirm2FAUseCase before its commit
  unfoldable pub confirm_enrolment : Uuid → String → Tx User
  confirm_enrolment user_id code = do
    checked (validate_user_id user_id)
    user ← UserService.get_user_by_id user_id
    confirmed ← checked (User.confirm_two_factor q.crypto user code q.now)
    UserService.update_user q confirmed none none

  -- Confirm2FAUseCase; it returns nothing
  unfoldable pub confirm_two_factor : Uuid → String → Database → Result User × Database
  confirm_two_factor user_id code db = transact q.id_of q.now (confirm_enrolment user_id code) db

  -- Enable2FAUseCase before its commit: the stored user and the codes that are shown
  unfoldable pub begin_enrolment : Uuid → String → List String → Tx (User × List String)
  begin_enrolment user_id secret drawn_codes = do
    checked (validate_user_id user_id)
    user ← UserService.get_user_by_id user_id
    refuse_if (User.has_two_factor user) two_factor_already_enabled
    let enrolled = User.begin_two_factor_enrolment q.crypto user secret drawn_codes
    pending ← UserService.update_user q enrolled.0 none none
    give (pending, enrolled.1)

  abbrev pub shown_secret :
      (String → String → String)
      → User
      → List String
      → Option TwoFactorSecret
      → Result EnrolmentOutput
  shown_secret uri user backup_codes none = err two_factor_not_enrolled
  shown_secret uri user backup_codes (some s) = ok (record {
    secret = s.secret;
    backup_codes = backup_codes;
    provisioning_uri = uri s.secret user.username;
  })

  abbrev pub enrolment_output :
      (String → String → String)
      → Result (User × List String) × Database
      → Result EnrolmentOutput × Database
  enrolment_output uri (err e, db) = (err e, db)
  enrolment_output uri (ok (user, backup_codes), db) =
      (shown_secret uri user backup_codes user.two_factor_secret, db)

  -- Enable2FAUseCase
  unfoldable pub enable_two_factor :
      (String → String → String)
      → Uuid
      → String
      → List String
      → Database
      → Result EnrolmentOutput × Database
  enable_two_factor uri user_id secret drawn_codes db =
      enrolment_output uri (transact q.id_of q.now (begin_enrolment user_id secret drawn_codes) db)

  -- Disable2FAUseCase before its commit
  unfoldable pub end_enrolment : Uuid → String → Tx User
  end_enrolment user_id current_password = do
    checked (validate_user_id user_id)
    user ← UserService.get_user_by_id user_id
    checked (validate_password q.classes (codes current_password))
    refuse_if (not (User.verify_password q.crypto user current_password)) invalid_credentials
    UserService.update_user q (User.disable_two_factor user) none none

  -- Disable2FAUseCase; it returns nothing
  unfoldable pub disable_two_factor : Uuid → String → Database → Result User × Database
  disable_two_factor user_id current_password db =
      transact q.id_of q.now (end_enrolment user_id current_password) db

  abbrev pub check_answer : Database → User → Bool × User → Result Bool × Database
  check_answer db user (success, updated) =
      if is_updated user updated
      then settle_check q.id_of q.now db success updated (UserRepo.update updated db.users)
      else (ok success, db)

  abbrev pub check_found : String → Database → Option User → Result Bool × Database
  check_found code db none = (ok false, db)
  check_found code db (some user) =
      check_answer db user (User.verify_two_factor q.crypto user code q.now)

  abbrev pub check_named : Uuid → String → Database → Result Nothing → Result Bool × Database
  check_named user_id code db (err e) = (err e, db)
  check_named user_id code db (ok o) = check_found code db (UserRepo.acquire_by_id user_id db.users)

  -- Verify2FAUseCase
  unfoldable pub verify_two_factor : Uuid → String → Database → Result Bool × Database
  verify_two_factor user_id code db = check_named user_id code db (validate_user_id user_id)
