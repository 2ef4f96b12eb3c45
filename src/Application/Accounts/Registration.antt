-- ===== src/Application/Accounts/Registration.antt =====
-- src/application/user/commands/create_user.py and verify_email.py.
use fast_stream_template.Common.{Option, String, Uuid, none, some}
use fast_stream_template.Errors.{Result}
use fast_stream_template.Domain.User.{User}
use fast_stream_template.Domain.Names.{
  codes, validate_email, validate_password, validate_user_id, validate_username,
}
use fast_stream_template.Infrastructure.RateLimiter.{Limiter, RateLimitConfig}
use fast_stream_template.Application.UnitOfWork.{Database}
use fast_stream_template.Application.Login.{truthy}
use fast_stream_template.Application.Transaction.{Tx, Nothing, give, checked, transact, ◌>>=◌, ◌>>◌}
use fast_stream_template.Application.UserService
use fast_stream_template.Application.UserService.{Request}
use fast_stream_template.Application.Accounts.{Answer, behind, limited}

pub record CreateUserInput : Type 0 where
  pub username : String
  pub password : String
  pub email : Option String
  pub ip_address : Option String

-- `Email(data.email) if data.email else None`, and the same of another optional text
abbrev pub valid_email : Option String → Tx Nothing
valid_email none = give tt
valid_email (some email) = checked (validate_email (some (codes email)))

module _ (q : Request) where
  -- CreateUserUseCase behind the limit; `user_id` is the drawn id
  unfoldable pub register_user : Uuid → CreateUserInput → Tx Uuid
  register_user user_id input = do
    checked (validate_user_id user_id)
    checked (validate_username (codes input.username))
    valid_email (truthy input.email)
    checked (validate_password q.classes (codes input.password))
    user ← UserService.create q user_id input.username input.password (truthy input.email)
    give user.id

  -- CreateUserUseCase
  unfoldable pub create_user :
      RateLimitConfig → Uuid → CreateUserInput → Database × Limiter → Answer Uuid
  create_user config user_id input (db, limiter) =
      behind (transact q.id_of q.now (register_user user_id input)) db
        (limited config "register:" q.now input.ip_address limiter)

  -- VerifyEmailUseCase; it returns nothing but `success=True`
  unfoldable pub verify_email_use_case : String → Database → Result User × Database
  verify_email_use_case token db = transact q.id_of q.now (UserService.verify_email q token) db
