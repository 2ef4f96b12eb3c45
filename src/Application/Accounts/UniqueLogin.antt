-- ===== src/Application/Accounts/UniqueLogin.antt =====
-- No login, no second factor and no refresh brings two rows of users into conflict.
use fast_stream_template.Common.{
  Bool-cases, Option, String, Time, none, some, ◌≡◌, refl, inl, inr, arith,
}
use fast_stream_template.Errors.{Result, err, ok}
use fast_stream_template.Domain.Ports.{Crypto}
use fast_stream_template.Domain.User
use fast_stream_template.Domain.User.{User}
use fast_stream_template.Domain.Names.{CharClasses, codes, validate_password}
use fast_stream_template.Domain.Session.{SessionAggregate, DeviceInfo, device_of}
use fast_stream_template.Infrastructure.RateLimiter.{RateLimitConfig, RateLimitResult}
use fast_stream_template.Application.UnitOfWork.{Work, begin, commit, register}
use fast_stream_template.Application.Login.{
  save_user, attempt_key, LoginInput, LoginOutput, System, Draws, AuthResult, authenticate,
  authenticate_user, for_found, find_identified, with_session, build_session, max_failed_attempts,
  lockout_duration_minutes,
}
use fast_stream_template.Application.LoginUseCase.{
  login, attempt, finish, gate, gate_result, when_valid, persist_session, count_failure, forgive,
  open_session, demand_second_factor,
}
use fast_stream_template.Application.Accounts.Unique.{Unique, Keeps-save_user}

with_session_Unique :
    (s : Option (SessionAggregate × String)) (r : Result User × Work)
    → Unique r.1.db
    → Unique (with_session s r).1.db
with_session_Unique s (ok u, w) h = h
with_session_Unique s (err e, w) h = h

stored :
    (s : Option (SessionAggregate × String)) (u : User) (w : Work)
    → Unique w.db
    → Unique (with_session s (save_user u w)).1.db
stored s u w h = with_session_Unique s (save_user u w) ((Keeps-save_user u).at w h)

module _ (crypto : Crypto) (draws : Draws) where
  authenticate_user_Unique :
      (password : String) (device : DeviceInfo) (w : Work) (found : Option User)
      → Unique w.db
      → Unique (authenticate_user crypto draws password device w found).1.db
  unfolding authenticate_user
  authenticate_user_Unique password device w none h = h
  authenticate_user_Unique password device w (some u) h =
      elim (Bool-cases (User.is_locked u draws.now)) [
        | inl e ↦ rw e h
        | inr e ↦ rw e elim (Bool-cases (User.is_deleted u)) [
          | inl d ↦ rw d h
          | inr d ↦ rw d elim (Bool-cases (User.verify_password crypto u password)) [
            | inl v ↦ rw v (
                stored (some (build_session crypto draws (User.record_successful_login u) device))
                  (User.record_successful_login u) w h)
            | inr v ↦ rw v (
                stored none
                  (User.record_failed_login_attempt max_failed_attempts lockout_duration_minutes
                    draws.now u)
                  w h)
          ]
        ]
      ]

  for_found_Unique :
      (input : LoginInput) (w : Work) (r : Result (Option User))
      → Unique w.db
      → Unique (for_found crypto draws input w r).1.db
  for_found_Unique input w (err e) h = h
  for_found_Unique input w (ok found) h =
      authenticate_user_Unique input.password (device_of input.user_agent input.ip_address) w found
        h

  authenticate_Unique :
      (input : LoginInput) (w : Work)
      → Unique w.db
      → Unique (authenticate crypto draws input w).1.db
  unfolding authenticate
  authenticate_Unique input w h =
      for_found_Unique input w (find_identified crypto draws input w.db.users) h

count_failure_db :
    (config : RateLimitConfig) (now : Time) (key : Option String) (sys : System)
    → (count_failure config now key sys).db ≡ sys.db
unfolding count_failure
count_failure_db config now none sys = refl
count_failure_db config now (some k) sys = refl

forgive_db : (key : Option String) (sys : System) → (forgive key sys).db ≡ sys.db
unfolding forgive
forgive_db none sys = refl
forgive_db (some k) sys = refl

gate_result_db :
    (config : RateLimitConfig) (now : Time) (key : String) (sys : System)
    (r : Option RateLimitResult)
    → (gate_result config now key sys r).1.db ≡ sys.db
gate_result_db config now key sys none = refl
gate_result_db config now key sys (some l) = ground arith

gate_db :
    (config : RateLimitConfig) (now : Time) (sys : System) (key : Option String)
    → (gate config now sys key).1.db ≡ sys.db
unfolding gate
gate_db config now sys none = refl
gate_db config now sys (some key) = gate_result_db config now key _ _

module _ (draws : Draws) (input : LoginInput) where
  finish_Unique :
      (config : RateLimitConfig) (key : Option String) (sys : System) (r : Result AuthResult × Work)
      → Unique sys.db
      → Unique r.1.db
      → Unique (finish draws input config key sys r).1.db
  unfolding finish commit demand_second_factor open_session persist_session register
  finish_Unique config key sys (err e, w) h k = h
  finish_Unique config key sys (ok (none, s), w) h k =
      rw (count_failure_db config draws.now key sys) h
  finish_Unique config key sys (ok (some u, none), w) h k = k
  finish_Unique config key sys (ok (some u, some (s, raw)), w) h k =
      elim (Bool-cases (User.has_two_factor u)) [ inl e ↦ rw e k | inr e ↦ rw e k ]

  when_valid_Unique :
      (v : Result (Unit {0})) (sys : System) (r : Result LoginOutput × System)
      → Unique sys.db
      → Unique r.1.db
      → Unique (when_valid v sys r).1.db
  when_valid_Unique (err e) sys r h k = h
  when_valid_Unique (ok o) sys r h k = k

  attempt_Unique :
      (config : RateLimitConfig) (crypto : Crypto) (classes : CharClasses) (key : Option String)
      (r : Result (Unit {0}) × System)
      → Unique r.1.db
      → Unique (attempt draws input config crypto classes key r).1.db
  unfolding attempt begin
  attempt_Unique config crypto classes key (err e, sys) h = h
  attempt_Unique config crypto classes key (ok o, sys) h =
      when_valid_Unique (validate_password classes (codes input.password)) sys
        (finish draws input config key sys (authenticate crypto draws input (begin sys.db))) h
        (finish_Unique config key sys (authenticate crypto draws input (begin sys.db)) h
          (authenticate_Unique crypto draws input (begin sys.db) h))

  pub login_Unique :
      (config : RateLimitConfig) (crypto : Crypto) (classes : CharClasses) (lower : String → String)
      (sys : System)
      → Unique sys.db
      → Unique (login draws input config crypto classes lower sys).1.db
  unfolding login
  login_Unique config crypto classes lower sys h =
      let key = attempt_key lower input in
      attempt_Unique config crypto classes key (gate config draws.now sys key)
        (rw (gate_db config draws.now sys key) h)
