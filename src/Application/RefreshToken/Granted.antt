-- ===== src/Application/RefreshToken/Granted.antt =====
-- What a granted refresh has read: the branches of `refresh_session` taken backwards.
use fast_stream_template.Infrastructure.UserRepo
use fast_stream_template.Common.{
  ℕ, Bool-cases, Option, String, Time, Uuid, arith, false, inl, inr, none, refl, some, true, ◌≡◌,
}
use fast_stream_template.Errors.{Result, err, ok}
use fast_stream_template.Domain.Ports.{Crypto}
use fast_stream_template.Domain.Tokens.{TokenHash}
use fast_stream_template.Domain.User
use fast_stream_template.Domain.User.{User}
use fast_stream_template.Domain.Session
use fast_stream_template.Domain.Session.{
  SessionAggregate, RefreshToken, find_refresh_token, token_is_valid,
}
use fast_stream_template.Application.UnitOfWork.{Database, Work, commit}
use fast_stream_template.Application.RefreshToken.{
  Refreshed, committed, for_session, for_token, for_user, renew,
}

-- The user may refresh: it exists, is not deleted and not locked.
abbrev pub Active : Time → Option User → User → Type 0
Active now found u = (found ≡ some u) × (User.is_deleted u ≡ false) × (User.is_locked u now ≡ false)

module _ (crypto : Crypto) (raw : String) (id : Uuid) (now : Time) (w w' : Work)
    (out : Refreshed) where
  abbrev pub ForUser : SessionAggregate → RefreshToken → Option User → Type 0
  ForUser s p found =
      (u : User) × Active now found u × (renew crypto raw id now w s p u ≡ (ok out, w'))

  for_user-ok :
      (s : SessionAggregate) (p : RefreshToken) (found : Option User)
      → for_user crypto raw id now w s p found ≡ (ok out, w')
      → ForUser s p found
  unfolding for_user
  for_user-ok s p none h = absurd (cc h)
  for_user-ok s p (some u) h = elim (Bool-cases (User.is_deleted u)) [
    | inl d ↦ absurd (ground arith)
    | inr d ↦ elim (Bool-cases (User.is_locked u now)) [
      | inl l ↦ absurd (ground arith)
      | inr l ↦ (u, (refl, d, l), ground arith)
    ]
  ]

  abbrev pub ForToken : SessionAggregate → Option RefreshToken → Type 0
  ForToken s found =
      (p : RefreshToken) × (found ≡ some p)
      × (token_is_valid p now ≡ true)
      × ForUser s p (UserRepo.acquire_by_id s.user_id w.db.users)

  for_token-ok :
      (s : SessionAggregate) (found : Option RefreshToken)
      → for_token crypto raw id now w s found ≡ (ok out, w')
      → ForToken s found
  unfolding for_token
  for_token-ok s none h = absurd (cc h)
  for_token-ok s (some p) h = elim (Bool-cases (token_is_valid p now)) [
    | inl v ↦
        (p, refl, v, for_user-ok s p (UserRepo.acquire_by_id s.user_id w.db.users) (ground arith))
    | inr v ↦ absurd (ground arith)
  ]

  abbrev pub ForSession : TokenHash → Option SessionAggregate → Type 0
  ForSession t found =
      (s : SessionAggregate) × (found ≡ some s)
      × (Session.is_expired s now ≡ false)
      × ForToken s (find_refresh_token s t)

  pub for_session-ok :
      (t : TokenHash) (found : Option SessionAggregate)
      → for_session crypto raw id now w t found ≡ (ok out, w')
      → ForSession t found
  unfolding for_session
  for_session-ok t none h = absurd (cc h)
  for_session-ok t (some s) h = elim (Bool-cases (Session.is_expired s now)) [
    | inl e ↦ absurd (ground arith)
    | inr e ↦ (s, refl, e, for_token-ok s (find_refresh_token s t) (ground arith))
  ]

-- A commit ends the request with what the transaction returned.
pub committed-ok :
    (id_of : ℕ → Uuid) (now : Time) (db db' : Database) (r : Result Refreshed × Work)
    (out : Refreshed)
    → committed id_of now db r ≡ (ok out, db')
    → (w' : Work) × (r ≡ (ok out, w')) × (commit id_of now w' ≡ db')
unfolding committed
committed-ok id_of now db db' (ok o, w) out h = (w, cc h, cc h)
committed-ok id_of now db db' (err e, w) out h = absurd (cc h)
