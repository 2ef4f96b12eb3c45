-- ===== src/Application/Accounts/PasswordReset.antt =====
-- src/application/user/commands/reset_password.py.
use fast_stream_template.Common.{Option, String, some}
use fast_stream_template.Domain.User.{User}
use fast_stream_template.Domain.Names.{codes, validate_email, validate_password}
use fast_stream_template.Infrastructure.RateLimiter.{Limiter, RateLimitConfig}
use fast_stream_template.Application.UnitOfWork.{Database}
use fast_stream_template.Application.Transaction.{Tx, Nothing, give, checked, transact, ◌>>◌}
use fast_stream_template.Application.UserService
use fast_stream_template.Application.UserService.{Request}
use fast_stream_template.Application.Accounts.{Answer, behind, limited}

module _ (q : Request) where
  -- RequestPasswordResetUseCase behind the limit: it returns `success=True`, whoever has the address
  unfoldable pub ask_reset : String → Tx Nothing
  ask_reset email = do
    checked (validate_email (some (codes email)))
    UserService.request_password_reset q email
    give tt

  -- RequestPasswordResetUseCase
  unfoldable pub request_password_reset :
      RateLimitConfig → Option String → String → Database × Limiter → Answer Nothing
  request_password_reset config ip_address email (db, limiter) =
      behind (transact q.id_of q.now (ask_reset email)) db
        (limited config "password-reset-request:" q.now ip_address limiter)

  -- ResetPasswordUseCase behind the limit
  unfoldable pub confirm_reset : String → String → Tx User
  confirm_reset token new_password = do
    checked (validate_password q.classes (codes new_password))
    UserService.reset_password q token new_password

  -- ResetPasswordUseCase; it returns nothing but `success=True`
  unfoldable pub reset_password :
      RateLimitConfig → Option String → String → String → Database × Limiter → Answer User
  reset_password config ip_address token new_password (db, limiter) =
      behind (transact q.id_of q.now (confirm_reset token new_password)) db
        (limited config "password-reset-confirm:" q.now ip_address limiter)
