-- ===== src/Infrastructure/SessionRepo/Revoked.antt =====
-- What is left of a user's sessions when each of them was revoked and written.
use fast_stream_template.Common.{
  Bool, List, Option, Uuid, [], ◌∷◌, all, any, arith, keep, map, none, not, refl, some, true, false,
  ◌&&◌, ◌||◌, ◌==◌, ◌≡◌, Bool-cases, inl, inr,
}
use fast_stream_template.Domain.Tokens.{TokenHash}
use fast_stream_template.Domain.Session
use fast_stream_template.Domain.Session.{SessionAggregate}
use fast_stream_template.Infrastructure.SessionRepo.{
  SessionRow, SessionTables, TokenRow, acquire_by_token_hash, acquire_by_user_id, find_live_token,
  find_session, load, not_revoked, session_from_rows, session_of, tokens_of, update, update_row,
}

-- A row that is not a live session of the user's
abbrev pub closed : Uuid → SessionRow → Bool
closed user_id r = not (r.user_id == user_id) || r.is_revoked

-- A row that is closed, or that one of these sessions will be written to
abbrev pub covered : Uuid → List SessionAggregate → SessionRow → Bool
covered user_id ss r =
    closed user_id r || any (λ (s : SessionAggregate). s.session_id == r.session_id) ss

-- The writes of the sessions, one after the other
abbrev pub update_each : List SessionAggregate → SessionTables → SessionTables
update_each [] db = db
update_each (s ∷ ss) db = update_each ss (update s db)

covered-update_row :
    (user_id : Uuid) (s : SessionAggregate) (ss : List SessionAggregate) (rows : List SessionRow)
    → s.is_revoked ≡ true
    → all (covered user_id (s ∷ ss)) rows ≡ true
    → all (covered user_id ss) (map (update_row s) rows) ≡ true
unfolding update_row
covered-update_row user_id s ss [] h k = refl
covered-update_row user_id s ss (r ∷ rs) h k = ground (arith, covered-update_row user_id s ss rs h)

closed-update_each :
    (user_id : Uuid) (ss : List SessionAggregate) (db : SessionTables)
    → all (λ (s : SessionAggregate). s.is_revoked) ss ≡ true
    → all (covered user_id ss) db.sessions ≡ true
    → all (covered user_id []) (update_each ss db).sessions ≡ true
unfolding update
closed-update_each user_id [] db h k = k
closed-update_each user_id (s ∷ ss) db h k =
    closed-update_each user_id ss (update s db) (ground arith)
      (covered-update_row user_id s ss db.sessions (ground arith) k)

abbrev load_row : List TokenRow → SessionRow → SessionAggregate
load_row tokens r = session_from_rows r (tokens_of r.session_id tokens)

abbrev live_row : Uuid → SessionRow → Bool
live_row user_id r = r.user_id == user_id && not r.is_revoked

all-revoke :
    (ss : List SessionAggregate)
    → all (λ (s : SessionAggregate). s.is_revoked) (map Session.revoke ss) ≡ true
unfolding Session.revoke
all-revoke [] = refl
all-revoke (s ∷ ss) = all-revoke ss

-- One more session covers no less.
covered_more :
    (user_id : Uuid) (s : SessionAggregate) (ss : List SessionAggregate) (rows : List SessionRow)
    → all (covered user_id ss) rows ≡ true
    → all (covered user_id (s ∷ ss)) rows ≡ true
covered_more user_id s ss [] h = refl
covered_more user_id s ss (r ∷ rs) h = ground (arith, covered_more user_id s ss rs)

covered_live :
    (user_id : Uuid) (tokens : List TokenRow) (rows : List SessionRow)
    → all
        (covered user_id
          (map Session.revoke (map (load_row tokens) (keep (live_row user_id) rows))))
        rows
      ≡ true
unfolding Session.revoke session_from_rows
covered_live user_id tokens [] = refl
covered_live user_id tokens (r ∷ rs) = ground (
  arith,
  covered_live user_id tokens rs,
  covered_more user_id (Session.revoke (load_row tokens r))
      (map Session.revoke (map (load_row tokens) (keep (live_row user_id) rs))) rs,
)

-- No row of the user is live after each of its live sessions was revoked and written.
pub closed-revoke :
    (user_id : Uuid) (db : SessionTables)
    → all
        (covered user_id [])
        (update_each (map Session.revoke (acquire_by_user_id db user_id)) db).sessions
      ≡ true
unfolding acquire_by_user_id
closed-revoke user_id db =
    closed-update_each user_id (map Session.revoke (acquire_by_user_id db user_id)) db
      (all-revoke (acquire_by_user_id db user_id)) (covered_live user_id db.tokens db.sessions)

find_session-closed :
    (user_id id : Uuid) (rows : List SessionRow) (r : SessionRow)
    → all (covered user_id []) rows ≡ true
    → find_session id rows ≡ some r
    → closed user_id r ≡ true
unfolding find_session
find_session-closed user_id id [] r h k = absurd (cc k)
find_session-closed user_id id (x ∷ xs) r h k = elim (Bool-cases (x.session_id == id)) [
  | inl e ↦ ground arith
  | inr e ↦ find_session-closed user_id id xs r (ground arith) (ground arith)
]

loaded-closed :
    (user_id : Uuid) (tokens : List TokenRow) (found : Option SessionRow) (s : SessionAggregate)
    → ((r : SessionRow) → found ≡ some r → closed user_id r ≡ true)
    → load tokens (not_revoked found) ≡ some s
    → s.user_id == user_id ≡ false
unfolding session_from_rows
loaded-closed user_id tokens none s h k = absurd (cc k)
loaded-closed user_id tokens (some r) s h k = elim (Bool-cases r.is_revoked) [
  | inl e ↦ absurd (ground arith)
  | inr e ↦ ground (arith, h r refl)
]

session_of-closed :
    (user_id : Uuid) (db : SessionTables) (t : Option TokenRow) (s : SessionAggregate)
    → all (covered user_id []) db.sessions ≡ true
    → session_of db t ≡ some s
    → s.user_id == user_id ≡ false
session_of-closed user_id db none s h k = absurd (cc k)
session_of-closed user_id db (some t) s h k =
    loaded-closed user_id db.tokens (find_session t.session_id db.sessions) s
      (λ r f. find_session-closed user_id t.session_id db.sessions r h f) k

-- Where no row of the user is live, no token's session is the user's.
pub acquire_by_token_hash-closed :
    (user_id : Uuid) (db : SessionTables) (h : TokenHash) (s : SessionAggregate)
    → all (covered user_id []) db.sessions ≡ true
    → acquire_by_token_hash db h ≡ some s
    → s.user_id == user_id ≡ false
unfolding acquire_by_token_hash
acquire_by_token_hash-closed user_id db h s c k =
    session_of-closed user_id db (find_live_token h db.tokens) s c k
