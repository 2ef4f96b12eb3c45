-- ===== src/Application/RefreshToken/Outcome.antt =====
-- What a refresh needs, and what it writes.
use fast_stream_template.Infrastructure.UserRepo
use fast_stream_template.Domain.Session.{SessionAggregate, find_valid_refresh_token}
use fast_stream_template.Domain.Tokens.{TokenHash, from_raw}
use fast_stream_template.Application.RefreshToken.Granted.{for_session-ok, committed-ok, Active}
use fast_stream_template.Errors.{Error, err}
use fast_stream_template.Common.{
  ℕ, String, Time, Uuid, [], ap, sym, ◌++◌, ◌∙◌, ◌∷◌, ◌≡◌, some, true,
}
use fast_stream_template.Errors.{Error, Result, ok}
use fast_stream_template.Domain.Ports.{Crypto}
use fast_stream_template.Domain.Tokens.{from_raw}
use fast_stream_template.Domain.User.{User}
use fast_stream_template.Domain.Events.{token_refreshed}
use fast_stream_template.Domain.Session
use fast_stream_template.Domain.Session.{SessionAggregate, RefreshToken}
use fast_stream_template.Infrastructure.Outbox.{outbox_event}
use fast_stream_template.Infrastructure.SessionRepo.{acquire_by_token_hash}
use fast_stream_template.Application.UnitOfWork.{Database, Work, begin, commit, register}
use fast_stream_template.Application.RefreshToken.{
  Refreshed, renew, committed, refresh_session, refresh_token_use_case,
}
use fast_stream_template.Application.RefreshToken.Granted.{for_session-ok}
use fast_stream_template.Application.RefreshToken.Replay.{acquire_by_token_hash_lem}

written :
    (crypto : Crypto) (raw : String) (id : Uuid) (id_of : ℕ → Uuid) (now : Time) (db db' : Database)
    (w' : Work) (out : Refreshed) (s : SessionAggregate) (p : RefreshToken) (u : User)
    → s.events ≡ []
    → renew crypto raw id now (begin db) s p u ≡ (ok out, w')
    → commit id_of now w' ≡ db'
    → (db'.users ≡ db.users)
      × (db'.outbox
          ≡ db.outbox ++ outbox_event (id_of 0) now (token_refreshed s.session_id s.user_id) ∷ [])
      × (out.1 ≡ (u, raw))
unfolding renew commit begin register
written crypto raw id id_of now db db' w' out s p u quiet renewed done = (
  ap (λ (d : Database). d.users) (sym done)
      ∙ ap (λ (r : Result Refreshed × Work). r.1.db.users) (sym renewed),
  ap (λ (d : Database). d.outbox) (sym done)
      ∙ ap (λ (r : Result Refreshed × Work). (commit id_of now r.1).outbox) (sym renewed)
      ∙ rw quiet,
  cc renewed,
)

refused_lem :
    (id_of : ℕ → Uuid) (now : Time) (db db' : Database) (r : Result Refreshed × Work) (e : Error)
    → committed id_of now db r ≡ (err e, db')
    → db' ≡ db
unfolding committed
refused_lem id_of now db db' (ok o, w) e h = absurd (cc h)
refused_lem id_of now db db' (err f, w) e h = cc h

-- A refresh that is granted has found a session that is neither revoked nor expired, in it the
-- presented token, neither revoked nor expired, and a user that is neither deleted nor locked; it
-- returns that user and the drawn token, changes no user, and writes one event to the outbox, the
-- refresh of that session. A refused refresh, for whatever reason, writes nothing.
pub refresh_outcome :
    (crypto : Crypto) (token raw : String) (id : Uuid) (id_of : ℕ → Uuid) (now : Time)
    (db db' : Database)
    → ((e : Error)
        → refresh_token_use_case crypto raw id id_of now token db ≡ (err e, db')
        → db' ≡ db)
      × ((out : Refreshed)
          → refresh_token_use_case crypto raw id id_of now token db ≡ (ok out, db')
          → (s : SessionAggregate) × (p : RefreshToken) × (u : User) × (acquire_by_token_hash
                db.sessions
                (from_raw crypto token)
              ≡ some s)
            × (Session.is_valid s now ≡ true)
            × (find_valid_refresh_token s (from_raw crypto token) now ≡ some p)
            × Active now (UserRepo.acquire_by_id s.user_id db.users) u
            × (db'.users ≡ db.users)
            × (db'.outbox
                ≡ db.outbox
                  ++ outbox_event (id_of 0) now (token_refreshed s.session_id s.user_id) ∷ [])
            × (out.1 ≡ (u, raw)))
unfolding refresh_token_use_case Session.is_valid find_valid_refresh_token
refresh_outcome crypto token raw id id_of now db db' = (
  λ e refused.
      refused_lem id_of now db db' (refresh_session crypto raw id now (begin db) token) e refused,
  λ out granted.
      let h : TokenHash = from_raw crypto token in
      let (w', ran, done) =
        committed-ok id_of now db db' (refresh_session crypto raw id now (begin db) token) out
          granted in
      let (s, found, live, (p, held, valid, (u, active, renewed))) =
        for_session-ok crypto raw id now (begin db) w' out h (acquire_by_token_hash db.sessions h)
          ran in
      let (held_tokens, unrevoked, quiet) = acquire_by_token_hash_lem db.sessions h s found in
      let (users, outbox, returned) =
        written crypto raw id id_of now db db' w' out s p u quiet renewed done in
      (s, p, u, found, rw unrevoked (rw live), rw held (rw valid), active, users, outbox, returned),
)
