-- ===== src/Application/Accounts.antt =====
-- The use cases of one account, src/application/user/commands but for login.py and refresh_token.py.
-- This file is about what several of them begin with: the limit on requests of one address.
pub mod Registration
pub mod PasswordReset
pub mod Profile
pub mod Sessions
pub mod ManageTwoFactor
pub mod SignedOut
pub mod SignsOut
pub mod Unique
pub mod UniqueLogin
pub mod UniqueSecondFactor
pub mod Outcome
pub mod PasswordChange
pub mod Steps
pub mod Disclosure
use Prim.Native.String.{◌++◌ as append_text}
use fast_stream_template.Common.{Option, String, Time, if◌then◌else◌, none, not, some}
use fast_stream_template.Errors.{Result, err, ok, value_error, too_many_login_attempts}
use fast_stream_template.Infrastructure.RateLimiter
use fast_stream_template.Infrastructure.RateLimiter.{
  Limiter, RateLimitConfig, RateLimitResult, retry_after_seconds,
}
use fast_stream_template.Application.UnitOfWork.{Database}
use fast_stream_template.Application.Login.{truthy}
use fast_stream_template.Application.Transaction.{Nothing}

-- What the limiter says of the address
abbrev pub decide : Time → Option RateLimitResult → Result Nothing
decide now none = err value_error
decide now (some limit) =
    if not limit.allowed
    then err (too_many_login_attempts (retry_after_seconds limit now))
    else ok tt

module _ (config : RateLimitConfig) (label : String) (now : Time) where
  abbrev pub limit_address : Option String → Limiter → Result Nothing × Limiter
  limit_address none limiter = (ok tt, limiter)
  limit_address (some ip) limiter =
      let (next, limit) = RateLimiter.check config (append_text label ip) now limiter in
      (decide now limit, next)

  -- `if data.ip_address: limit = ...`
  unfoldable pub limited : Option String → Limiter → Result Nothing × Limiter
  limited ip_address limiter = limit_address (truthy ip_address) limiter

-- What the request answers, and what it leaves of the rows and of the limiter
abbrev pub Answer : Type 0 → Type 0
Answer A = Result A × (Database × Limiter)

-- The use case behind the limit
abbrev pub behind :
    {A : Type 0} → (Database → Result A × Database) → Database → Result Nothing × Limiter → Answer A
behind body db (err e, limiter) = (err e, (db, limiter))
behind body db (ok o, limiter) = let (r, db') = body db in (r, (db', limiter))
