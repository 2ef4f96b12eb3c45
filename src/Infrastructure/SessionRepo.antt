-- ===== src/Infrastructure/SessionRepo.antt =====
-- src/infrastructure/db/sqlalchemy/repositories/session.py over its two tables, each a list of
-- rows. A query without an order takes the rows in the order of the list.
pub mod Spent
pub mod Revoked
use fast_stream_template.Common.{
  Bool, List, Option, Time, Uuid, [], any, if◌then◌else◌, keep, ltb, map, none, not, some, str_eq,
  ◌&&◌, ◌++◌, ◌==◌, ◌∷◌,
}
use fast_stream_template.Domain.Tokens.{TokenHash}
use fast_stream_template.Domain.Session.{DeviceInfo, RefreshToken, SessionAggregate}

-- _SessionRow; its six columns of the device are one field
pub record SessionRow : Type 0 where
  pub session_id : Uuid
  pub user_id : Uuid
  pub device_info : DeviceInfo
  pub created_at : Time
  pub expires_at : Time
  pub is_revoked : Bool

-- _RefreshTokenRow
pub record TokenRow : Type 0 where
  pub id : Uuid
  pub session_id : Uuid
  pub token_hash : TokenHash
  pub expires_at : Time
  pub is_revoked : Bool
  pub created_at : Time

pub record SessionTables : Type 0 where
  pub sessions : List SessionRow
  pub tokens : List TokenRow

-- _session_from_rows
unfoldable pub session_from_rows : SessionRow → List RefreshToken → SessionAggregate
session_from_rows row refresh_tokens = record {
  session_id = row.session_id;
  user_id = row.user_id;
  device_info = row.device_info;
  created_at = row.created_at;
  expires_at = row.expires_at;
  is_revoked = row.is_revoked;
  refresh_tokens = refresh_tokens;
  events = [];
}

-- _refresh_token_from_row
unfoldable pub refresh_token_from_row : TokenRow → RefreshToken
refresh_token_from_row row = record {
  token_hash = row.token_hash;
  id = row.id;
  expires_at = row.expires_at;
  is_revoked = row.is_revoked;
  created_at = row.created_at;
}

-- The values of the statements that insert a session and a token.
unfoldable pub session_row : SessionAggregate → SessionRow
session_row s = record {
  session_id = s.session_id;
  user_id = s.user_id;
  device_info = s.device_info;
  created_at = s.created_at;
  expires_at = s.expires_at;
  is_revoked = s.is_revoked;
}

unfoldable pub token_row : Uuid → RefreshToken → TokenRow
token_row session_id t = record {
  id = t.id;
  session_id = session_id;
  token_hash = t.token_hash;
  expires_at = t.expires_at;
  is_revoked = t.is_revoked;
  created_at = t.created_at;
}

-- The tokens of a session: the query, and the rows made into entities.
unfoldable pub tokens_of : Uuid → List TokenRow → List RefreshToken
unfolding refresh_token_from_row
tokens_of id [] = []
tokens_of id (r ∷ rs) =
    let rest = tokens_of id rs in
    if r.session_id == id then refresh_token_from_row r ∷ rest else rest

-- The first session row of an id
unfoldable pub find_session : Uuid → List SessionRow → Option SessionRow
find_session id [] = none
find_session id (r ∷ rs) = if r.session_id == id then some r else find_session id rs

abbrev pub load : List TokenRow → Option SessionRow → Option SessionAggregate
load tokens none = none
load tokens (some row) = some (session_from_rows row (tokens_of row.session_id tokens))

-- acquire_by_session_id
unfoldable pub acquire_by_session_id : SessionTables → Uuid → Option SessionAggregate
acquire_by_session_id db session_id = load db.tokens (find_session session_id db.sessions)

-- acquire_by_user_id, with _refresh_tokens_for inside
unfoldable pub acquire_by_user_id : SessionTables → Uuid → List SessionAggregate
acquire_by_user_id db user_id =
    map (λ (r : SessionRow). session_from_rows r (tokens_of r.session_id db.tokens))
      (keep (λ (r : SessionRow). r.user_id == user_id && not r.is_revoked) db.sessions)

-- The token row that acquire_by_token_hash looks for: not a revoked one
unfoldable pub find_live_token : TokenHash → List TokenRow → Option TokenRow
find_live_token token_hash [] = none
find_live_token token_hash (r ∷ rs) =
    if str_eq r.token_hash token_hash && not r.is_revoked
    then some r
    else find_live_token token_hash rs

abbrev pub not_revoked : Option SessionRow → Option SessionRow
not_revoked none = none
not_revoked (some row) = if row.is_revoked then none else some row

abbrev pub session_of : SessionTables → Option TokenRow → Option SessionAggregate
session_of db none = none
session_of db (some t) = load db.tokens (not_revoked (find_session t.session_id db.sessions))

-- acquire_by_token_hash
unfoldable pub acquire_by_token_hash : SessionTables → TokenHash → Option SessionAggregate
acquire_by_token_hash db token_hash = session_of db (find_live_token token_hash db.tokens)

-- add, on a session with fresh ids
unfoldable pub add : SessionAggregate → SessionTables → SessionTables
unfolding session_row token_row
add s db = record {
  sessions = db.sessions ++ session_row s ∷ [];
  tokens = db.tokens ++ map (token_row s.session_id) s.refresh_tokens;
}

-- The UPDATE of a session row
unfoldable pub update_row : SessionAggregate → SessionRow → SessionRow
update_row s r =
    if r.session_id == s.session_id
    then record r { is_revoked = s.is_revoked; expires_at = s.expires_at }
    else r

-- DO UPDATE SET is_revoked, expires_at of the row that conflicts
unfoldable pub overwrite : RefreshToken → TokenRow → TokenRow
overwrite t r =
    if r.id == t.id then record r { is_revoked = t.is_revoked; expires_at = t.expires_at } else r

-- INSERT ... ON CONFLICT (id) of a token row
unfoldable pub upsert : Uuid → RefreshToken → List TokenRow → List TokenRow
unfolding overwrite token_row
upsert session_id t rows =
    if any (λ (r : TokenRow). r.id == t.id) rows
    then map (overwrite t) rows
    else rows ++ token_row session_id t ∷ []

-- The loop of `update` over the session's tokens
unfoldable pub upsert_all : Uuid → List RefreshToken → List TokenRow → List TokenRow
upsert_all session_id [] rows = rows
upsert_all session_id (t ∷ ts) rows = upsert_all session_id ts (upsert session_id t rows)

-- update
unfoldable pub update : SessionAggregate → SessionTables → SessionTables
update s db = record {
  sessions = map (update_row s) db.sessions;
  tokens = upsert_all s.session_id s.refresh_tokens db.tokens;
}

-- delete
unfoldable pub delete : Uuid → SessionTables → SessionTables
delete session_id db = record {
  sessions = keep (λ (r : SessionRow). not (r.session_id == session_id)) db.sessions;
  tokens = keep (λ (t : TokenRow). not (t.session_id == session_id)) db.tokens;
}

-- The tokens that the foreign key leaves when only these sessions stay
unfoldable pub cascade : List SessionRow → List TokenRow → List TokenRow
cascade sessions tokens =
    keep (λ (t : TokenRow). any (λ (r : SessionRow). r.session_id == t.session_id) sessions) tokens

unfoldable pub keep_sessions : (SessionRow → Bool) → SessionTables → SessionTables
unfolding cascade
keep_sessions p db =
    let kept = keep p db.sessions in record { sessions = kept; tokens = cascade kept db.tokens }

-- delete_by_user_id
unfoldable pub delete_by_user_id : Uuid → SessionTables → SessionTables
delete_by_user_id user_id db = keep_sessions (λ (r : SessionRow). not (r.user_id == user_id)) db

-- delete_expired
unfoldable pub delete_expired : Time → SessionTables → SessionTables
delete_expired before db = keep_sessions (λ (r : SessionRow). not (ltb r.expires_at before)) db
