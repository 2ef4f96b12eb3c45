-- ===== src/Application/Accounts/UniqueSecondFactor.antt =====
-- No second factor and no refresh brings two rows of users into conflict.
use fast_stream_template.Common.{
  Bool, Bool-cases, Option, String, Uuid, Time, ℕ, none, some, ◌≡◌, refl, true, false, inl, inr,
  ◌||◌,
}
use fast_stream_template.Errors.{Result, err, ok, Error}
use fast_stream_template.Domain.Ports.{Crypto}
use fast_stream_template.Domain.User
use fast_stream_template.Domain.User.{User}
use fast_stream_template.Infrastructure.UserRepo
use fast_stream_template.Infrastructure.ChallengeStore
use fast_stream_template.Infrastructure.ChallengeStore.{TwoFactorChallenge, Challenges, UsedCodes}
use fast_stream_template.Application.UnitOfWork.{Database, Work, begin, commit, register}
use fast_stream_template.Application.RefreshToken.{Refreshed, refresh_token_use_case}
use fast_stream_template.Application.RefreshToken.Outcome.{refresh_outcome}
use fast_stream_template.Application.Login.{save_user, Draws}
use fast_stream_template.Application.LoginUseCase.{persist_session}
use fast_stream_template.Application.CompleteTwoFactor.{
  Second, complete_two_factor, for_challenge, for_account, for_used, for_verified, after_save,
  start, fail, is_updated,
}
use fast_stream_template.Application.Accounts.Unique.{Unique, Keeps-save_user}

module _ (crypto : Crypto) (key : Uuid → String → String) (draws : Draws)
    (token code : String) where
  start_Unique :
      (challenge : TwoFactorChallenge) (updated : User) (w : Work) (sys : Second)
      → Unique w.db
      → Unique (start crypto key draws token code challenge updated w sys).1.db
  unfolding start commit persist_session register
  start_Unique challenge updated w sys h = h

  after_save_Unique :
      (challenge : TwoFactorChallenge) (sys : Second) (r : Result User × Work)
      → Unique sys.db
      → Unique r.1.db
      → Unique (after_save crypto key draws token code challenge sys r).1.db
  after_save_Unique challenge sys (err e, w) h k = h
  after_save_Unique challenge sys (ok u, w) h k = start_Unique challenge u w sys k

  for_verified_Unique :
      (challenge : TwoFactorChallenge) (user : User) (sys : Second) (r : Bool × User)
      → Unique sys.db
      → Unique (for_verified crypto key draws token code challenge user sys r).1.db
  unfolding fail begin
  for_verified_Unique challenge user sys (false, u) h = h
  for_verified_Unique challenge user sys (true, u) h = elim (Bool-cases (is_updated user u)) [
    | inl e ↦ rw e (
        after_save_Unique challenge sys (save_user u (begin sys.db)) h
          ((Keeps-save_user u).at (begin sys.db) h))
    | inr e ↦ rw e (start_Unique challenge u (begin sys.db) sys h)
  ]

  for_used_Unique :
      (challenge : TwoFactorChallenge) (user : User) (sys : Second) (r : Bool × UsedCodes)
      → Unique sys.db
      → Unique (for_used crypto key draws token code challenge user sys r).1.db
  unfolding fail
  for_used_Unique challenge user sys (true, c) h = h
  for_used_Unique challenge user sys (false, c) h =
      for_verified_Unique challenge user (record sys { used_codes = c })
        (User.verify_two_factor crypto user code draws.now) h

  for_account_Unique :
      (challenge : TwoFactorChallenge) (sys : Second) (found : Option User)
      → Unique sys.db
      → Unique (for_account crypto key draws token code challenge sys found).1.db
  unfolding for_account
  for_account_Unique challenge sys none h = h
  for_account_Unique challenge sys (some u) h =
      elim (Bool-cases (User.is_deleted u || User.is_locked u draws.now)) [
        | inl e ↦ rw e h
        | inr e ↦ rw e (
            for_used_Unique challenge u sys
              (ChallengeStore.was_used key sys.used_codes challenge.user_id code draws.now) h)
      ]

  for_challenge_Unique :
      (sys : Second) (r : Result TwoFactorChallenge × Challenges)
      → Unique sys.db
      → Unique (for_challenge crypto key draws token code sys r).1.db
  for_challenge_Unique sys (err e, c) h = h
  for_challenge_Unique sys (ok challenge, c) h =
      for_account_Unique challenge (record sys { challenges = c })
        (UserRepo.acquire_by_id challenge.user_id sys.db.users) h

  pub complete_two_factor_Unique :
      (sys : Second)
      → Unique sys.db
      → Unique (complete_two_factor crypto key draws token code sys).1.db
  unfolding complete_two_factor
  complete_two_factor_Unique sys h =
      for_challenge_Unique sys (ChallengeStore.read sys.challenges token draws.now) h

refreshed_Unique :
    (db : Database) (r : Result Refreshed × Database)
    → ((e : Error) → r ≡ (err e, r.1) → r.1 ≡ db)
    → ((out : Refreshed) → r ≡ (ok out, r.1) → r.1.users ≡ db.users)
    → Unique db
    → Unique r.1
refreshed_Unique db (ok out, db') f g h = rw (g out refl) h
refreshed_Unique db (err e, db') f g h = rw (f e refl) h

pub refresh_Unique :
    (crypto : Crypto) (token raw : String) (id : Uuid) (id_of : ℕ → Uuid) (now : Time)
    (db : Database)
    → Unique db
    → Unique (refresh_token_use_case crypto raw id id_of now token db).1
refresh_Unique crypto token raw id id_of now db h =
    let r = refresh_token_use_case crypto raw id id_of now token db in
    let both = refresh_outcome crypto token raw id id_of now db r.1 in
    refreshed_Unique db r both.0
      (λ out granted.
        let (s, p, u, loaded, valid, held, active, users, outbox, returned) = both.1 out granted in
        users)
      h
