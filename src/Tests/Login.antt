-- ===== src/Tests/Login.antt =====
-- A login of an account with a second factor on concrete rows.
use fast_stream_template.Application.Login.{build_session, find_identified, attempt_key}
use fast_stream_template.Application.LoginUseCase.{attempt, gate}
use fast_stream_template.Common.{ℕ, [], false, none, refl, some, true, ◌+◌, ◌||◌, ◌∷◌, ◌≡◌}
use fast_stream_template.Errors.{ok}
use fast_stream_template.Domain.Ports.{plain_crypto}
use fast_stream_template.Domain.User
use fast_stream_template.Domain.User.{User}
use fast_stream_template.Domain.Names
use fast_stream_template.Domain.Names.{CharClasses, between, digit, letter}
use fast_stream_template.Domain.Session.{device_of}
use fast_stream_template.Infrastructure.RateLimiter.{RateLimitConfig}
use fast_stream_template.Infrastructure.RateLimiter.Limit.{start}
use fast_stream_template.Application.UnitOfWork.{Database}
use fast_stream_template.Application.Login.{System, Draws, LoginInput, LoginOutput}
use fast_stream_template.Application.LoginUseCase.{login}
use fast_stream_template.Application.LoginUseCase.Factors.{login_lem, Given}

abbrev carol : User
carol = record (User.create plain_crypto 9 "carol" none "Passw0rd!" "t0k" 100) {
  events = [];
  two_factor_secret =
      some (record { secret = "seed"; backup_code_hashes = []; enabled_at = some 150 });
}

abbrev limits : RateLimitConfig
limits = record {
  max_requests = 5;
  window_seconds = 60;
  max_login_attempts = 5;
  lockout_seconds = 900;
  cleanup_interval_seconds = 300;
  max_keys = 1000;
}

abbrev ascii : CharClasses
ascii = record {
  is_lower = between b'a' b'z';
  is_upper = between b'A' b'Z';
  is_digit = digit;
  is_alnum = λ c. letter c || digit c;
}

abbrev running : System
running = record {
  db = record { users = carol ∷ []; sessions = record { sessions = []; tokens = [] }; outbox = [] };
  rate_limiter = start 0;
  login_attempt_limiter = start 0;
  challenges = [];
}

abbrev drawn : Draws
drawn = record {
  raw = "r1";
  session_id = 30;
  token_id = 31;
  challenge_token = "c1";
  id_of = λ n. 500 + n;
  now = 400;
}

abbrev typed_in : LoginInput
typed_in = record {
  password = "Passw0rd!";
  username = some "carol";
  email = none;
  user_agent = none;
  ip_address = some "10.0.0.1";
  login_challenge = none;
}

abbrev answered : LoginOutput
answered = record {
  user_id = 9;
  session_id = none;
  refresh_token = none;
  requires_two_factor = true;
  challenge_token = some "c1";
}

abbrev left : System
left = (login drawn typed_in limits plain_crypto ascii (λ t. t) running).1

login_lem_example :
    (u : User) × (find_identified plain_crypto drawn typed_in (carol ∷ []) ≡ ok (some u))
    × (User.is_locked u 400 ≡ false)
    × (User.is_deleted u ≡ false)
    × (User.verify_password plain_crypto u "Passw0rd!" ≡ true)
    × Given drawn typed_in u answered
        (build_session plain_crypto drawn u (device_of none (some "10.0.0.1"))).0
        running.db.sessions
        left
unfolding login attempt_key gate attempt fast_stream_template.Infrastructure.RateLimiter.check
    fast_stream_template.Infrastructure.RateLimiter.admit
    fast_stream_template.Infrastructure.RateLimiter.cleanup
    fast_stream_template.Infrastructure.RateLimiter.is_locked
    fast_stream_template.Infrastructure.RateLimiter.bucket
    fast_stream_template.Infrastructure.RateLimiter.recent fast_stream_template.Common.Dict.lookup
    Names.validate_password Names.has_required_mix Names.utf8_length Names.utf8_width
    Names.validate_username Names.letter_then Names.class_run
    fast_stream_template.Application.LoginUseCase.finish
    fast_stream_template.Application.Login.authenticate find_identified build_session
    fast_stream_template.Application.Login.authenticate_user
    fast_stream_template.Application.Login.save_user
    fast_stream_template.Application.UnitOfWork.register
    fast_stream_template.Application.UnitOfWork.begin
    fast_stream_template.Application.LoginUseCase.demand_second_factor
    fast_stream_template.Infrastructure.UserRepo.acquire_by_username
    fast_stream_template.Infrastructure.UserRepo.first_user
    fast_stream_template.Infrastructure.UserRepo.update User.create User.is_locked User.is_deleted
    User.verify_password User.has_two_factor User.record_successful_login
    fast_stream_template.Domain.AccountLock.is_locked_out
login_lem_example =
    login_lem (λ t. t) limits plain_crypto ascii drawn typed_in running left answered refl
