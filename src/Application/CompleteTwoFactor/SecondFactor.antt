-- ===== src/Application/CompleteTwoFactor/SecondFactor.antt =====
-- What the completion of a login needs, and what it uses up.
use fast_stream_template.Domain.User
use fast_stream_template.Infrastructure.UserRepo
use fast_stream_template.Application.CompleteTwoFactor.{
  after_save, for_verified, for_used, for_account, for_challenge, fail, is_updated,
}
use fast_stream_template.Application.Login.{save_user}
use fast_stream_template.Application.UnitOfWork.{begin}
use fast_stream_template.Common.{Bool, true, false, ◌||◌, Option, none, some, Bool-cases, ap, sym}
use fast_stream_template.Errors.{Result, ok, err, two_factor_challenge_expired}
use fast_stream_template.Infrastructure.ChallengeStore.{read}
use fast_stream_template.Common.{String, Time, Uuid, arith, ltb, refl, seconds, ◌+◌, ◌≡◌, inl, inr}
use fast_stream_template.Domain.Ports.{Crypto}
use fast_stream_template.Domain.User.{User}
use fast_stream_template.Infrastructure.Cache.{get-set}
use fast_stream_template.Infrastructure.ChallengeStore
use fast_stream_template.Infrastructure.ChallengeStore.{Challenges, UsedCodes, TwoFactorChallenge}
use fast_stream_template.Application.UnitOfWork.{Work}
use fast_stream_template.Application.Login.{Draws}
use fast_stream_template.Application.CompleteTwoFactor.{
  Second, CompleteTwoFactorOutput, start, complete_two_factor,
}

module _ (crypto : Crypto) (key : Uuid → String → String) (draws : Draws) (token code : String)
    (out : CompleteTwoFactorOutput) (sys' : Second) where
  -- The login's end: the challenge is gone and the code is remembered.
  abbrev pub Closed : TwoFactorChallenge → Type 0
  Closed c =
      (out.login_challenge ≡ c.login_challenge)
      × ((later : Time)
          → (ChallengeStore.read sys'.challenges token later).0 ≡ err two_factor_challenge_expired)
      × ((later : Time)
          → (ChallengeStore.was_used key sys'.used_codes c.user_id code later).0
            ≡ ltb later (draws.now + seconds 120))

  start_lem :
      (c : TwoFactorChallenge) (u : User) (w : Work) (sys : Second)
      → start crypto key draws token code c u w sys ≡ (ok out, sys')
      → Closed c
  unfolding start
  start_lem c u w sys h =
      let gone : ChallengeStore.discard sys.challenges token ≡ sys'.challenges =
        ap (λ (r : Result CompleteTwoFactorOutput × Second). r.1.challenges) h in
      let noted : ChallengeStore.remember key sys.used_codes c.user_id code draws.now
          ≡ sys'.used_codes =
        ap (λ (r : Result CompleteTwoFactorOutput × Second). r.1.used_codes) h in
      (
        cc h,
        λ later. rw (sym gone) (
            unfold ChallengeStore.read ChallengeStore.discard in
            (rw ((get-set {V = TwoFactorChallenge} sys.challenges token token c 0 0 later).2)
              refl)),
        λ later. rw (sym noted) (
            unfold ChallengeStore.was_used ChallengeStore.remember in
            (rw
              ((get-set sys.used_codes (key c.user_id code) (key c.user_id code) tt 120 draws.now
                later).0)
              (ground arith))),
      )

  after_save_lem :
      (c : TwoFactorChallenge) (sys : Second) (r : Result User × Work)
      → after_save crypto key draws token code c sys r ≡ (ok out, sys')
      → Closed c
  after_save_lem c sys (err e, w) h = absurd (cc h)
  after_save_lem c sys (ok u, w) h = start_lem c u w sys h

  for_verified_lem :
      (c : TwoFactorChallenge) (u : User) (sys : Second) (r : Bool × User)
      → for_verified crypto key draws token code c u sys r ≡ (ok out, sys')
      → (r.0 ≡ true) × Closed c
  unfolding fail
  for_verified_lem c u sys (false, u') h = absurd (cc h)
  for_verified_lem c u sys (true, u') h = elim (Bool-cases (is_updated u u')) [
    | inl e ↦ (refl, after_save_lem c sys (save_user u' (begin sys.db)) (ground arith))
    | inr e ↦ (refl, start_lem c u' (begin sys.db) sys (ground arith))
  ]

  for_used_lem :
      (c : TwoFactorChallenge) (u : User) (sys : Second) (r : Bool × UsedCodes)
      → for_used crypto key draws token code c u sys r ≡ (ok out, sys')
      → (r.0 ≡ false) × ((User.verify_two_factor crypto u code draws.now).0 ≡ true) × Closed c
  unfolding fail
  for_used_lem c u sys (true, codes) h = absurd (cc h)
  for_used_lem c u sys (false, codes) h =
      let (right, closed) =
        for_verified_lem c u (record sys { used_codes = codes })
          (User.verify_two_factor crypto u code draws.now) h in
      (refl, right, closed)

  -- The account is there, and neither deleted nor locked; its code was not used and is right.
  abbrev pub Proved : TwoFactorChallenge → UsedCodes → Option User → Type 0
  Proved c used found =
      (u : User) × (found ≡ some u)
      × (User.is_deleted u ≡ false)
      × (User.is_locked u draws.now ≡ false)
      × ((ChallengeStore.was_used key used c.user_id code draws.now).0 ≡ false)
      × ((User.verify_two_factor crypto u code draws.now).0 ≡ true)
      × Closed c

  for_account_lem :
      (c : TwoFactorChallenge) (sys : Second) (found : Option User)
      → for_account crypto key draws token code c sys found ≡ (ok out, sys')
      → Proved c sys.used_codes found
  unfolding for_account
  for_account_lem c sys none h = absurd (cc h)
  for_account_lem c sys (some u) h =
      elim (Bool-cases (User.is_deleted u || User.is_locked u draws.now)) [
        | inl e ↦ absurd (ground arith)
        | inr e ↦
            let (unused, right, closed) =
              for_used_lem c u sys
                (ChallengeStore.was_used key sys.used_codes c.user_id code draws.now)
                (ground arith) in
            (u, refl, ground arith, ground arith, unused, right, closed)
      ]

  for_challenge_lem :
      (sys : Second) (r : Result TwoFactorChallenge × Challenges)
      → for_challenge crypto key draws token code sys r ≡ (ok out, sys')
      → (c : TwoFactorChallenge) × (r.0 ≡ ok c)
        × Proved c sys.used_codes (UserRepo.acquire_by_id c.user_id sys.db.users)
  for_challenge_lem sys (err e, ch) h = absurd (cc h)
  for_challenge_lem sys (ok c, ch) h = (
    c,
    refl,
    for_account_lem c (record sys { challenges = ch })
        (UserRepo.acquire_by_id c.user_id sys.db.users) h,
  )

-- A completed login had a challenge that could be read, of an account that is neither deleted nor
-- locked, and a code that was not used before and that the account's second factor accepts. The
-- challenge cannot be read again, at any time, and the code counts as used for 120 seconds; the
-- interrupted login is the challenge's.
pub complete_two_factor_lem :
    (crypto : Crypto) (key : Uuid → String → String) (draws : Draws) (token code : String)
    (out : CompleteTwoFactorOutput) (sys sys' : Second)
    → complete_two_factor crypto key draws token code sys ≡ (ok out, sys')
    → (c : TwoFactorChallenge) × ((ChallengeStore.read sys.challenges token draws.now).0 ≡ ok c)
      × Proved crypto key draws token code out sys' c sys.used_codes
          (UserRepo.acquire_by_id c.user_id sys.db.users)
unfolding complete_two_factor
complete_two_factor_lem crypto key draws token code out sys sys' h =
    for_challenge_lem crypto key draws token code out sys' sys
      (ChallengeStore.read sys.challenges token draws.now) h
