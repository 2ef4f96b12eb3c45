-- ===== src/Application/LoginUseCase/Branches.antt =====
-- The branches of a login taken backwards, from what it returned to what it read.
use fast_stream_template.Common.{
  Bool-cases, List, Option, String, Time, any, ap, arith, false, inl, inr, none, refl, some, sym,
  true, ◌+◌, ◌≡◌, if◌then◌else◌,
}
use fast_stream_template.Errors.{Result, err, ok}
use fast_stream_template.Domain.Ports.{Crypto}
use fast_stream_template.Domain.User
use fast_stream_template.Domain.User.{User}
use fast_stream_template.Domain.Names.{CharClasses, codes, validate_password}
use fast_stream_template.Domain.Session.{SessionAggregate, DeviceInfo, device_of}
use fast_stream_template.Infrastructure.RateLimiter.{RateLimitConfig, RateLimitResult}
use fast_stream_template.Infrastructure.UserRepo
use fast_stream_template.Application.UnitOfWork.{Database, Work, begin}
use fast_stream_template.Application.Login.{
  System, Draws, LoginInput, AuthResult, authenticate_user, build_session, save_user, saved,
  with_session, authenticate, for_found, lockout_duration_minutes, max_failed_attempts,
}
use fast_stream_template.Application.LoginUseCase.{
  LoginOutput, gate, gate_result, attempt, demand_second_factor, finish, forgive, open_session,
  when_valid,
}

gate_result_db :
    (config : RateLimitConfig) (now : Time) (key : String) (sys sys' : System)
    (limit : Option RateLimitResult)
    → gate_result config now key sys limit ≡ (ok tt, sys')
    → sys'.db ≡ sys.db
gate_result_db config now key sys sys' none h = absurd (cc h)
gate_result_db config now key sys sys' (some l) h = ground arith

pub gate_db :
    (config : RateLimitConfig) (now : Time) (sys sys' : System) (key : Option String)
    → gate config now sys key ≡ (ok tt, sys')
    → sys'.db ≡ sys.db
unfolding gate
gate_db config now sys sys' none h = ap (λ (r : Result (Unit {0}) × System). r.1.db) (sym h)
gate_db config now sys sys' (some key) h = gate_result_db config now key _ sys' _ h

saved_lem :
    (w w' : Work) (r : Result (User × List User)) (s sr : Option (SessionAggregate × String))
    (u' : User)
    → with_session s (saved w r) ≡ (ok (some u', sr), w')
    → (users : List User) × (r ≡ ok (u', users)) × (sr ≡ s) × (w'.db.sessions ≡ w.db.sessions)
unfolding fast_stream_template.Application.UnitOfWork.register
saved_lem w w' (err e) s sr u' h = absurd (cc h)
saved_lem w w' (ok (u, users)) s sr u' h =
    (users, cc h, cc h, ap (λ (r : Result AuthResult × Work). r.1.db.sessions) (sym h))

update_lem :
    (u u' : User) (users users' : List User)
    → UserRepo.update u users ≡ ok (u', users')
    → u' ≡ record u { version = u.version + 1 }
unfolding UserRepo.update
update_lem u u' users users' h = elim (Bool-cases (any (UserRepo.same_version u) users)) [
  | inl e ↦ ground arith
  | inr e ↦ absurd (ground arith)
]

no_session :
    (r : Result User × Work) (u' : Option User) (x : SessionAggregate × String) (w' : Work)
    → with_session none r ≡ (ok (u', some x), w')
    → ⊥
no_session (err e, w) u' x w' h = absurd (cc h)
no_session (ok u, w) u' x w' h = absurd (cc h)

module _ (crypto : Crypto) (draws : Draws) where
  abbrev pub Authenticated : LoginInput → Option User → User → Type 0
  Authenticated input found u =
      (found ≡ some u)
      × (User.is_locked u draws.now ≡ false)
      × (User.is_deleted u ≡ false)
      × (User.verify_password crypto u input.password ≡ true)

  pub authenticate_user_lem :
      (password : String) (device : DeviceInfo) (w w' : Work) (found : Option User) (u' : User)
      (s : SessionAggregate) (raw : String)
      → authenticate_user crypto draws password device w found ≡ (ok (some u', some (s, raw)), w')
      → (u : User) × (found ≡ some u)
        × (User.is_locked u draws.now ≡ false)
        × (User.is_deleted u ≡ false)
        × (User.verify_password crypto u password ≡ true)
        × (with_session
              (some (build_session crypto draws (User.record_successful_login u) device))
              (save_user (User.record_successful_login u) w)
            ≡ (ok (some u', some (s, raw)), w'))
  unfolding authenticate_user save_user
  authenticate_user_lem password device w w' none u' s raw h = absurd (cc h)
  authenticate_user_lem password device w w' (some u) u' s raw h =
      elim (Bool-cases (User.is_locked u draws.now)) [
        | inl l ↦ absurd (ground arith)
        | inr l ↦ elim (Bool-cases (User.is_deleted u)) [
          | inl d ↦ absurd (ground arith)
          | inr d ↦ elim (Bool-cases (User.verify_password crypto u password)) [
            | inr v ↦ absurd (
                no_session
                  (save_user
                    (User.record_failed_login_attempt max_failed_attempts lockout_duration_minutes
                      draws.now u)
                    w)
                  (some u') (s, raw) w' (ground arith))
            | inl v ↦ (u, refl, l, d, v, ground arith)
          ]
        ]
      ]

  pub for_found_lem :
      (input : LoginInput) (w w' : Work) (r : Result (Option User)) (o : AuthResult)
      → for_found crypto draws input w r ≡ (ok o, w')
      → (found : Option User) × (r ≡ ok found)
        × (authenticate_user crypto draws input.password
              (device_of input.user_agent input.ip_address)
              w
              found
            ≡ (ok o, w'))
  for_found_lem input w w' (err e) o h = absurd (cc h)
  for_found_lem input w w' (ok found) o h = (found, refl, h)

valid_lem :
    (v : Result (Unit {0})) (sys : System) (r : Result LoginOutput × System) (out : LoginOutput)
    (sys' : System)
    → when_valid v sys r ≡ (ok out, sys')
    → r ≡ (ok out, sys')
valid_lem (err e) sys r out sys' h = absurd (cc h)
valid_lem (ok o) sys r out sys' h = h

module _ (draws : Draws) (input : LoginInput) (config : RateLimitConfig) (key : Option String) where
  pub finish_lem :
      (sys sys' : System) (r : Result AuthResult × Work) (out : LoginOutput)
      → finish draws input config key sys r ≡ (ok out, sys')
      → (u : User) × (s : SessionAggregate) × (raw : String) × (w : Work) × (r
          ≡ (ok (some u, some (s, raw)), w))
        × ((if User.has_two_factor u
              then demand_second_factor draws input u w (forgive key sys)
              else open_session draws input u s raw w (forgive key sys))
            ≡ (ok out, sys'))
  unfolding finish
  finish_lem sys sys' (err e, w) out h = absurd (cc h)
  finish_lem sys sys' (ok (none, s), w) out h = absurd (cc h)
  finish_lem sys sys' (ok (some u, none), w) out h =
      elim (Bool-cases (User.is_locked u draws.now)) [
        | inl l ↦ absurd (ground arith)
        | inr l ↦ absurd (ground arith)
      ]
  finish_lem sys sys' (ok (some u, some (s, raw)), w) out h = (u, s, raw, w, refl, h)

  pub attempt_lem :
      (crypto : Crypto) (classes : CharClasses) (sys' : System) (g : Result (Unit {0}) × System)
      (out : LoginOutput)
      → attempt draws input config crypto classes key g ≡ (ok out, sys')
      → (sys : System) × (g ≡ (ok tt, sys))
        × (finish draws input config key sys (authenticate crypto draws input (begin sys.db))
            ≡ (ok out, sys'))
  unfolding attempt
  attempt_lem crypto classes sys' (err e, sys) out h = absurd (cc h)
  attempt_lem crypto classes sys' (ok o, sys) out h =
      (sys, refl, valid_lem (validate_password classes (codes input.password)) sys _ out sys' h)

pub account_lem :
    (u u' : User) (w w' : Work) (s sr : Option (SessionAggregate × String))
    → with_session s (save_user (User.record_successful_login u) w) ≡ (ok (some u', sr), w')
    → (u'.id ≡ u.id)
      × (User.has_two_factor u' ≡ User.has_two_factor u)
      × (sr ≡ s)
      × (w'.db.sessions ≡ w.db.sessions)
unfolding save_user User.record_successful_login User.has_two_factor
account_lem u u' w w' s sr h =
    let (users, updated, same, kept) =
      saved_lem w w' (UserRepo.update (User.record_successful_login u) w.db.users) s sr u' h in
    let shape = update_lem (User.record_successful_login u) u' w.db.users users updated in
    (ap (λ (v : User). v.id) shape, ap (λ (v : User). User.has_two_factor v) shape, same, kept)
