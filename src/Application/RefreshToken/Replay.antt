-- ===== src/Application/RefreshToken/Replay.antt =====
-- A refresh token that is presented again after it was exchanged.
use fast_stream_template.Domain.User.{User}
use fast_stream_template.Errors.{Result}
use fast_stream_template.Domain.Session.{new_refresh_token}
use fast_stream_template.Application.UnitOfWork.{commit, begin}
use fast_stream_template.Application.RefreshToken.{
  renew, refresh_session, refresh_token_expire_seconds, session_expire_seconds,
}
use fast_stream_template.Application.RefreshToken.Granted.{committed-ok}
use fast_stream_template.Common.{◌∙◌, ap, seconds, ◌+◌}
use fast_stream_template.Infrastructure.SessionRepo
use fast_stream_template.Domain.Ports.{Crypto}
use fast_stream_template.Domain.Session.Rotation.{rotate}
use fast_stream_template.Domain.Session.{SessionAggregate}
use fast_stream_template.Infrastructure.SessionRepo.{
  SessionTables, SessionRow, acquire_by_token_hash, find_live_token, find_session,
  session_from_rows, upsert_all,
}
use fast_stream_template.Application.UnitOfWork.{Database, Work}
use fast_stream_template.Application.RefreshToken.{Refreshed, refresh_token_use_case}
use fast_stream_template.Application.RefreshToken.Granted.{for_session-ok}
use fast_stream_template.Infrastructure.SessionRepo.Spent.{all-append_two}
use fast_stream_template.Domain.Tokens.{from_raw}
use fast_stream_template.Errors.{ok, err, invalid_credentials}
use fast_stream_template.Common.{Time}
use fast_stream_template.Common.{
  List, Uuid, [], all, any, arith, false, map, refl, some, str_eq, str_eq_iff, true, ◌==◌, ◌∷◌, ◌≡◌,
  Bool-cases, Option, String, Time, inl, inr, none, sym, ℕ, ◌++◌,
}
use fast_stream_template.Domain.Tokens.{TokenHash, from_raw}
use fast_stream_template.Domain.Session.{
  RefreshToken, find_token, revoke_by_id, revoked, SessionAggregate, find_refresh_token,
}
use fast_stream_template.Infrastructure.SessionRepo.{
  TokenRow, refresh_token_from_row, tokens_of, SessionRow, SessionTables, acquire_by_token_hash,
  find_live_token, find_session, session_from_rows, upsert_all,
}
use fast_stream_template.Infrastructure.SessionRepo.Spent.{
  owned, all-append_two, any-append_two, find_live_token-spent, harmless, harmless-revoke_by_id,
  spent-upsert_all,
}

-- The unique index on token_hash
abbrev pub UniqueHashes : List TokenRow → Type 0
UniqueHashes [] = Unit
UniqueHashes (r ∷ rs) =
    (any (λ (q : TokenRow). str_eq q.token_hash r.token_hash) rs ≡ false) × UniqueHashes rs

owned-absent :
    (h : TokenHash) (id : Uuid) (rows : List TokenRow)
    → any (λ (q : TokenRow). str_eq q.token_hash h) rows ≡ false
    → all (owned h id) rows ≡ true
owned-absent h id [] none_has = refl
owned-absent h id (r ∷ rs) none_has = ground (arith, owned-absent h id rs)

module _ (h : TokenHash) (s : Uuid) (p : RefreshToken) where
  held_in_row :
      (rows : List TokenRow)
      → find_token h (tokens_of s rows) ≡ some p
      → any (λ (q : TokenRow). str_eq q.token_hash h) rows ≡ true
  unfolding find_token tokens_of refresh_token_from_row
  held_in_row [] found = absurd (cc found)
  held_in_row (r ∷ rs) found = ground (arith, held_in_row rs)

  -- The token that is found is the only one with the hash.
  owned-find_token :
      (rows : List TokenRow)
      → UniqueHashes rows
      → find_token h (tokens_of s rows) ≡ some p
      → all (owned h p.id) rows ≡ true
  unfolding find_token tokens_of refresh_token_from_row
  owned-find_token [] u found = refl
  owned-find_token (r ∷ rs) (new, u) found = ground (
    arith,
    owned-find_token rs u,
    owned-absent h p.id rs,
    held_in_row rs,
    str_eq_iff r.token_hash h,
  )

  fresh_id :
      (id : Uuid) (rows : List TokenRow)
      → any (λ (q : TokenRow). q.id == id) rows ≡ false
      → find_token h (tokens_of s rows) ≡ some p
      → id == p.id ≡ false
  unfolding find_token tokens_of refresh_token_from_row
  fresh_id id [] fresh found = absurd (cc found)
  fresh_id id (r ∷ rs) fresh found = ground (arith, fresh_id id rs)

held_by_id :
    (h : TokenHash) (p : RefreshToken) (ts : List RefreshToken)
    → find_token h ts ≡ some p
    → any (λ (t : RefreshToken). t.id == p.id) (map (revoke_by_id p.id) ts) ≡ true
unfolding find_token revoke_by_id revoked
held_by_id h p [] found = absurd (cc found)
held_by_id h p (t ∷ ts) found = ground (arith, held_by_id h p ts)

load_lem :
    (tokens : List TokenRow) (row : Option SessionRow) (s : SessionAggregate)
    → SessionRepo.load tokens (SessionRepo.not_revoked row) ≡ some s
    → (s.refresh_tokens ≡ tokens_of s.session_id tokens) × (s.is_revoked ≡ false) × (s.events ≡ [])
unfolding session_from_rows
load_lem tokens none s h = absurd (cc h)
load_lem tokens (some row) s h = elim (Bool-cases row.is_revoked) [
  | inl e ↦ absurd (ground arith)
  | inr e ↦ ground arith
]

session_of_lem :
    (db : SessionTables) (row : Option TokenRow) (s : SessionAggregate)
    → SessionRepo.session_of db row ≡ some s
    → (s.refresh_tokens ≡ tokens_of s.session_id db.tokens)
      × (s.is_revoked ≡ false)
      × (s.events ≡ [])
session_of_lem db none s h = absurd (cc h)
session_of_lem db (some t) s h = load_lem db.tokens (find_session t.session_id db.sessions) s h

-- A session that is found by a token hash is not revoked, has the tokens of the table and no events.
pub acquire_by_token_hash_lem :
    (db : SessionTables) (h : TokenHash) (s : SessionAggregate)
    → acquire_by_token_hash db h ≡ some s
    → (s.refresh_tokens ≡ tokens_of s.session_id db.tokens)
      × (s.is_revoked ≡ false)
      × (s.events ≡ [])
unfolding acquire_by_token_hash
acquire_by_token_hash_lem db h s found = session_of_lem db (find_live_token h db.tokens) s found

-- Once the session of a presented token was rotated and written, no session is found by the token.
pub acquire-update-rotate :
    (db : SessionTables) (h : TokenHash) (s : SessionAggregate) (p next : RefreshToken) (secs : ℕ)
    (now : Time)
    → UniqueHashes db.tokens
    → s.refresh_tokens ≡ tokens_of s.session_id db.tokens
    → find_refresh_token s h ≡ some p
    → any (λ (q : TokenRow). q.id == next.id) db.tokens ≡ false
    → str_eq next.token_hash h ≡ false
    → acquire_by_token_hash (SessionRepo.update (rotate s p next secs now) db) h ≡ none
unfolding acquire_by_token_hash SessionRepo.update rotate find_refresh_token
acquire-update-rotate db h s p next secs now unique held found fresh other =
    let found_row : find_token h (tokens_of s.session_id db.tokens) ≡ some p =
      rw (sym held) found in
    let own = owned-find_token h s.session_id p db.tokens unique found_row in
    let kept = map (revoke_by_id p.id) (tokens_of s.session_id db.tokens) in
    let safe : all (harmless h p.id) (kept ++ next ∷ []) ≡ true = ground (
      arith,
      all-append_two (harmless h p.id) kept (next ∷ []),
      harmless-revoke_by_id h p.id s.session_id db.tokens own,
      fresh_id h s.session_id p next.id db.tokens fresh found_row,
    ) in
    let has : any (λ (t : RefreshToken). t.id == p.id) (kept ++ next ∷ []) ≡ true = ground (
      arith,
      any-append_two (λ (t : RefreshToken). t.id == p.id) kept (next ∷ []),
      held_by_id h p (tokens_of s.session_id db.tokens) found_row,
    ) in
    rw held (
      rw (
        find_live_token-spent h p.id (upsert_all s.session_id (kept ++ next ∷ []) db.tokens) (
          spent-upsert_all h p.id s.session_id (kept ++ next ∷ []) db.tokens safe own
            (ground (arith, has)))))

-- What a granted refresh leaves of the session tables.
pub stored_sessions :
    (crypto : Crypto) (raw : String) (id : Uuid) (id_of : ℕ → Uuid) (now : Time) (db db' : Database)
    (w' : Work) (out : Refreshed) (s : SessionAggregate) (p : RefreshToken) (u : User)
    → renew crypto raw id now (begin db) s p u ≡ (ok out, w')
    → commit id_of now w' ≡ db'
    → SessionRepo.update
        (rotate s p
          (new_refresh_token
            (from_raw crypto raw)
            id
            (now + seconds refresh_token_expire_seconds)
            now)
          session_expire_seconds
          now)
        db.sessions
      ≡ db'.sessions
unfolding renew commit begin
stored_sessions crypto raw id id_of now db db' w' out s p u renewed done =
    ap (λ (r : Result Refreshed × Work). r.1.db.sessions) renewed
    ∙ ap (λ (d : Database). d.sessions) done

-- A refresh token that was exchanged is refused when it is presented again, whoever presents it and
-- whenever, as an unknown one would be; and nothing is written: the session is not revoked. The
-- token hashes of the table are unique, the new token's id is not in it, and the new token has
-- another hash than the presented one.
pub replay_unnoticed :
    (crypto : Crypto) (token raw raw' : String) (id id' : Uuid) (id_of id_of' : ℕ → Uuid)
    (now later : Time) (db db' : Database) (out : Refreshed)
    → UniqueHashes db.sessions.tokens
    → any (λ (q : TokenRow). q.id == id) db.sessions.tokens ≡ false
    → str_eq (from_raw crypto raw) (from_raw crypto token) ≡ false
    → refresh_token_use_case crypto raw id id_of now token db ≡ (ok out, db')
    → refresh_token_use_case crypto raw' id' id_of' later token db' ≡ (err invalid_credentials, db')
unfolding refresh_token_use_case new_refresh_token
replay_unnoticed crypto token raw raw' id id' id_of id_of' now later db db' out unique fresh other
      granted =
    let h : TokenHash = from_raw crypto token in
    let (w', ran, done) =
      committed-ok id_of now db db' (refresh_session crypto raw id now (begin db) token) out
        granted in
    let (s, found, live, (p, held, valid, (u, active, renewed))) =
      for_session-ok crypto raw id now (begin db) w' out h (acquire_by_token_hash db.sessions h)
        ran in
    let gone : acquire_by_token_hash db'.sessions h ≡ none =
      rw (sym (stored_sessions crypto raw id id_of now db db' w' out s p u renewed done)) (
        acquire-update-rotate db.sessions h s p
          (new_refresh_token (from_raw crypto raw) id (now + seconds refresh_token_expire_seconds)
            now)
          session_expire_seconds now unique (acquire_by_token_hash_lem db.sessions h s found).0 held
          fresh other) in
    rw gone
