-- ===== src/Application/LoginUseCase.antt =====
-- LoginUseCase of src/application/user/commands/login.py, over Application/Login.antt.
pub mod Branches
pub mod Factors
use fast_stream_template.Errors.{
  account_locked, value_error, too_many_login_attempts, invalid_credentials, Result, err, ok,
}
use fast_stream_template.Common.{Option, String, Time, false, if◌then◌else◌, none, not, some, true}
use Prim.Native.String.{◌++◌ as append_text}
use fast_stream_template.Domain.Ports.{Crypto}
use fast_stream_template.Domain.User
use fast_stream_template.Domain.User.{User}
use fast_stream_template.Domain.Names.{CharClasses, codes, validate_password}
use fast_stream_template.Domain.Session.{SessionAggregate, device_of}
use fast_stream_template.Infrastructure.RateLimiter
use fast_stream_template.Infrastructure.RateLimiter.{
  RateLimitConfig, RateLimitResult, retry_after_seconds,
}
use fast_stream_template.Infrastructure.ChallengeStore
use fast_stream_template.Infrastructure.ChallengeStore.{TwoFactorChallenge}
use fast_stream_template.Infrastructure.SessionRepo
use fast_stream_template.Application.UnitOfWork.{Work, begin, commit, register}
use fast_stream_template.Application.Login.{
  System, Draws, LoginInput, LoginOutput, AuthResult, attempt_key, authenticate,
}

module _ (config : RateLimitConfig) (now : Time) where
  -- What the two limiters say of a key, when the first has been asked
  abbrev pub gate_result : String → System → Option RateLimitResult → Result (Unit {0}) × System
  gate_result key sys none = (err value_error, sys)
  gate_result key sys (some limit) =
      if not limit.allowed
      then (err (too_many_login_attempts (retry_after_seconds limit now)), sys)
      else if RateLimiter.is_locked config key now sys.login_attempt_limiter
      then (err (too_many_login_attempts none), sys)
      else (ok tt, sys)

  -- `if attempt_key is not None`: the checks before the password
  unfoldable pub gate : System → Option String → Result (Unit {0}) × System
  gate sys none = (ok tt, sys)
  gate sys (some key) =
      let (limiter, limit) =
        RateLimiter.check config (append_text "login:" key) now sys.rate_limiter in
      gate_result key (record sys { rate_limiter = limiter }) limit

  -- record_failed_login, if there is a key
  unfoldable pub count_failure : Option String → System → System
  count_failure none sys = sys
  count_failure (some key) sys = record sys {
    login_attempt_limiter =
        (RateLimiter.record_failed_login config key now sys.login_attempt_limiter).0;
  }

-- reset, if there is a key
unfoldable pub forgive : Option String → System → System
forgive none sys = sys
forgive (some key) sys = record sys {
  login_attempt_limiter = RateLimiter.reset key sys.login_attempt_limiter;
}

-- UserService.persist_session
unfoldable pub persist_session : SessionAggregate → Work → Work
unfolding register
persist_session s w =
    register s.events (record w { db = record w.db { sessions = SessionRepo.add s w.db.sessions } })

-- The construction of the PlainPassword, which raises before the login begins
abbrev pub when_valid :
    Result (Unit {0}) → System → Result LoginOutput × System → Result LoginOutput × System
when_valid (err e) sys r = (err e, sys)
when_valid (ok o) sys r = r

module _ (draws : Draws) (input : LoginInput) where
  -- The challenge of an account with a second factor
  unfoldable pub pending_challenge : User → TwoFactorChallenge
  pending_challenge u = record {
    user_id = u.id;
    device_info = device_of input.user_agent input.ip_address;
    attempts = 0;
    login_challenge = input.login_challenge;
  }

  unfoldable pub demand_second_factor : User → Work → System → Result LoginOutput × System
  unfolding commit
  demand_second_factor u w sys = (
    ok (record {
      user_id = u.id;
      session_id = none;
      refresh_token = none;
      requires_two_factor = true;
      challenge_token = some draws.challenge_token;
    }),
    record sys {
      db = commit draws.id_of draws.now w;
      challenges =
          ChallengeStore.issue sys.challenges (pending_challenge u) draws.challenge_token draws.now;
    },
  )

  unfoldable pub open_session :
      User → SessionAggregate → String → Work → System → Result LoginOutput × System
  unfolding commit persist_session
  open_session u s raw w sys = (
    ok (record {
      user_id = u.id;
      session_id = some s.session_id;
      refresh_token = some raw;
      requires_two_factor = false;
      challenge_token = none;
    }),
    record sys { db = commit draws.id_of draws.now (persist_session s w) },
  )

  -- The use case behind `authenticate`
  unfoldable pub finish :
      RateLimitConfig
      → Option String
      → System
      → Result AuthResult × Work
      → Result LoginOutput × System
  unfolding commit
  finish config key sys (err e, w) = (err e, sys)
  finish config key sys (ok (none, s), w) =
      (err invalid_credentials, count_failure config draws.now key sys)
  finish config key sys (ok (some u, none), w) = (
    if User.is_locked u draws.now then err account_locked else err invalid_credentials,
    record (count_failure config draws.now key sys) { db = commit draws.id_of draws.now w },
  )
  finish config key sys (ok (some u, some (s, raw)), w) =
      if User.has_two_factor u
      then demand_second_factor u w (forgive key sys)
      else open_session u s raw w (forgive key sys)

  module _ (config : RateLimitConfig) (crypto : Crypto) (classes : CharClasses) where
    -- The password's check and the login behind the gate
    unfoldable pub attempt :
        Option String → Result (Unit {0}) × System → Result LoginOutput × System
    unfolding begin
    attempt key (err e, sys) = (err e, sys)
    attempt key (ok o, sys) =
        when_valid (validate_password classes (codes input.password)) sys
          (finish config key sys (authenticate crypto draws input (begin sys.db)))

    -- LoginUseCase
    unfoldable pub login : (String → String) → System → Result LoginOutput × System
    login lower sys =
        let key = attempt_key lower input in attempt key (gate config draws.now sys key)
