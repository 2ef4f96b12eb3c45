-- ===== src/Application/Login.antt =====
-- src/application/user/commands/login.py and UserService.authenticate (src/application/user/
-- services.py). `raw`, `session_id`, `token_id` and `challenge_token` are what the request draws,
-- `id_of` the ids of its outbox rows. `lower` is Python's str.lower. Metrics are not modelled.
use fast_stream_template.Common.{
  ℕ, Bool, List, Option, String, Time, Uuid, if◌then◌else◌, none, not, seconds, some, str_eq, ◌+◌,
}
use fast_stream_template.Errors.{Result, err, ok}
use Prim.Native.String.{◌++◌ as append_text}
use fast_stream_template.Domain.Ports.{Crypto}
use fast_stream_template.Domain.Tokens.{from_raw}
use fast_stream_template.Domain.User
use fast_stream_template.Domain.User.{User}
use fast_stream_template.Domain.Names.{codes, validate_email, validate_username}
use fast_stream_template.Domain.Session
use fast_stream_template.Domain.Session.{SessionAggregate, DeviceInfo, device_of}
use fast_stream_template.Infrastructure.RateLimiter.{Limiter}
use fast_stream_template.Infrastructure.ChallengeStore.{Challenges}
use fast_stream_template.Infrastructure.UserRepo
use fast_stream_template.Application.UnitOfWork.{Database, Work, register}
use fast_stream_template.Application.RefreshToken.{
  session_expire_seconds, refresh_token_expire_seconds,
}

pub record LoginInput : Type 0 where
  pub password : String
  pub username : Option String
  pub email : Option String
  pub user_agent : Option String
  pub ip_address : Option String
  pub login_challenge : Option String

pub record LoginOutput : Type 0 where
  pub user_id : Uuid
  pub session_id : Option Uuid
  pub refresh_token : Option String
  pub requires_two_factor : Bool
  pub challenge_token : Option String

-- What a login reads and writes: the committed rows, and what is kept outside of transactions.
pub record System : Type 0 where
  pub db : Database
  pub rate_limiter : Limiter
  pub login_attempt_limiter : Limiter
  pub challenges : Challenges

-- What the request draws, and its one reading of the clock
pub record Draws : Type 0 where
  pub raw : String
  pub session_id : Uuid
  pub token_id : Uuid
  pub challenge_token : String
  pub id_of : ℕ → Uuid
  pub now : Time

-- The text, if it is neither None nor empty
abbrev pub truthy : Option String → Option String
truthy none = none
truthy (some t) = if str_eq t "" then none else some t

-- `a or b` where only the truth of the result and a true result matter
abbrev pub first_of : Option String → Option String → Option String
first_of none b = b
first_of (some a) b = some a

abbrev pub joined : (String → String) → Option String → Option String → Option String
joined lower none identifier = none
joined lower (some ip) none = none
joined lower (some ip) (some identifier) =
    some (append_text ip (append_text "|" (lower identifier)))

-- _attempt_key
unfoldable pub attempt_key : (String → String) → LoginInput → Option String
attempt_key lower input =
    joined lower (truthy input.ip_address) (first_of (truthy input.username) (truthy input.email))

abbrev pub max_failed_attempts : ℕ
max_failed_attempts = 5

abbrev pub lockout_duration_minutes : ℕ
lockout_duration_minutes = 15

-- A user, if one was found, and a session with its refresh token, if the login succeeded
abbrev pub AuthResult : Type 0
AuthResult = Option User × Option (SessionAggregate × String)

-- `self._user_repo.update` and `self._uow.register` of one user
abbrev pub saved : Work → Result (User × List User) → Result User × Work
saved w (err e) = (err e, w)
saved w (ok (u, users)) =
    (ok u, register u.events (record w { db = record w.db { users = users } }))

unfoldable pub save_user : User → Work → Result User × Work
unfolding register
save_user u w = saved w (UserRepo.update u w.db.users)

abbrev pub with_session :
    Option (SessionAggregate × String) → Result User × Work → Result AuthResult × Work
with_session s (err e, w) = (err e, w)
with_session s (ok u, w) = (ok (some u, s), w)

module _ (crypto : Crypto) (draws : Draws) where
  -- _build_session
  unfoldable pub build_session : User → DeviceInfo → SessionAggregate × String
  build_session u device_info = (
    Session.add_refresh_token
        (Session.create u.id device_info session_expire_seconds draws.session_id draws.now)
        (Session.new_refresh_token (from_raw crypto draws.raw) draws.token_id
          (draws.now + seconds refresh_token_expire_seconds) draws.now),
    draws.raw,
  )

  -- The body of `authenticate` behind the search for the user
  unfoldable pub authenticate_user :
      String → DeviceInfo → Work → Option User → Result AuthResult × Work
  authenticate_user password device_info w none = (ok (none, none), w)
  authenticate_user password device_info w (some u) =
      if User.is_locked u draws.now
      then (ok (some u, none), w)
      else if User.is_deleted u
      then (ok (some u, none), w)
      else if not (User.verify_password crypto u password)
      then with_session none (
          save_user
            (User.record_failed_login_attempt max_failed_attempts lockout_duration_minutes draws.now
              u)
            w)
      else with_session (some (build_session (User.record_successful_login u) device_info))
          (save_user (User.record_successful_login u) w)

  -- The search for the user: a username that is given comes first
  unfoldable pub find_identified : LoginInput → List User → Result (Option User)
  find_identified input users = elim (truthy input.username) [
    | some name ↦ elim (validate_username (codes name)) [
      | err e ↦ err e
      | ok u ↦ ok (UserRepo.acquire_by_username name users)
    ]
    | none ↦ elim (truthy input.email) [
      | none ↦ ok none
      | some email ↦ elim (validate_email (some (codes email))) [
        | err e ↦ err e
        | ok u ↦ ok (UserRepo.acquire_by_email email users)
      ]
    ]
  ]

  abbrev pub for_found : LoginInput → Work → Result (Option User) → Result AuthResult × Work
  for_found input w (err e) = (err e, w)
  for_found input w (ok found) =
      authenticate_user input.password (device_of input.user_agent input.ip_address) w found

  -- UserService.authenticate
  unfoldable pub authenticate : LoginInput → Work → Result AuthResult × Work
  authenticate input w = for_found input w (find_identified input w.db.users)
