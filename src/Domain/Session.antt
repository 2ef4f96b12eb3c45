-- ===== src/Domain/Session.antt =====
-- src/domain/user/entities/session.py: device, refresh tokens and the session aggregate. `now` is
-- the clock's reading; ids that the source draws (uuid4) are arguments. `expires_at` of a token is
-- given by every caller.
pub mod Rotation
use fast_stream_template.Common.{
  ℕ, ◌+◌, String, Bool, true, false, not, ◌&&◌, Option, none, some, List, [], ◌∷◌, ◌++◌, map,
  str_eq, leb, ◌==◌, if◌then◌else◌, Time, seconds, Uuid,
}
use fast_stream_template.Domain.Tokens.{TokenHash}
use fast_stream_template.Domain.Events.{Event, session_created, session_revoked, token_refreshed}

pub record DeviceInfo : Type 0 where
  pub user_agent : Option String
  pub ip_address : Option String
  pub device_name : Option String
  pub browser : Option String
  pub os : Option String
  pub is_mobile : Bool

-- DeviceInfo()
abbrev pub no_device : DeviceInfo
no_device = record {
  user_agent = none;
  ip_address = none;
  device_name = none;
  browser = none;
  os = none;
  is_mobile = false;
}

-- DeviceInfo(user_agent=..., ip_address=...)
abbrev pub device_of : Option String → Option String → DeviceInfo
device_of user_agent ip_address = record no_device {
  user_agent = user_agent;
  ip_address = ip_address;
}

pub record RefreshToken : Type 0 where
  pub token_hash : TokenHash
  pub id : Uuid
  pub expires_at : Time
  pub is_revoked : Bool
  pub created_at : Time

-- RefreshToken(token_hash=..., expires_at=...) with the drawn id and the clock's reading
unfoldable pub new_refresh_token : TokenHash → Uuid → Time → Time → RefreshToken
new_refresh_token token_hash id expires_at now = record {
  token_hash = token_hash;
  id = id;
  expires_at = expires_at;
  is_revoked = false;
  created_at = now;
}

-- RefreshToken.is_valid, with is_expired inside
unfoldable pub token_is_valid : RefreshToken → Time → Bool
token_is_valid t now = not t.is_revoked && not (leb t.expires_at now)

-- RefreshToken.revoked
unfoldable pub revoked : RefreshToken → RefreshToken
revoked t = record t { is_revoked = true }

pub record SessionAggregate : Type 0 where
  pub session_id : Uuid
  pub user_id : Uuid
  pub device_info : DeviceInfo
  pub created_at : Time
  pub expires_at : Time
  pub is_revoked : Bool
  pub refresh_tokens : List RefreshToken
  pub events : List Event

abbrev pub record_event : SessionAggregate → Event → SessionAggregate
record_event s e = record s { events = s.events ++ e ∷ [] }

-- SessionAggregate.create
unfoldable pub create : Uuid → DeviceInfo → ℕ → Uuid → Time → SessionAggregate
create user_id device_info session_expire_seconds session_id now = record {
  session_id = session_id;
  user_id = user_id;
  device_info = device_info;
  created_at = now;
  expires_at = now + seconds session_expire_seconds;
  is_revoked = false;
  refresh_tokens = [];
  events =
      session_created session_id user_id device_info.user_agent device_info.ip_address
        device_info.device_name
      ∷ [];
}

unfoldable pub is_expired : SessionAggregate → Time → Bool
is_expired s now = leb s.expires_at now

unfoldable pub is_valid : SessionAggregate → Time → Bool
unfolding is_expired
is_valid s now = not s.is_revoked && not (is_expired s now)

unfoldable pub add_refresh_token : SessionAggregate → RefreshToken → SessionAggregate
add_refresh_token s token = record s { refresh_tokens = s.refresh_tokens ++ token ∷ [] }

-- The loop of `find_refresh_token`
unfoldable pub find_token : TokenHash → List RefreshToken → Option RefreshToken
find_token token_hash [] = none
find_token token_hash (token ∷ tokens) =
    if str_eq token.token_hash token_hash then some token else find_token token_hash tokens

unfoldable pub find_refresh_token : SessionAggregate → TokenHash → Option RefreshToken
unfolding find_token
find_refresh_token s token_hash = find_token token_hash s.refresh_tokens

unfoldable pub only_valid : Option RefreshToken → Time → Option RefreshToken
unfolding token_is_valid
only_valid none now = none
only_valid (some t) now = if token_is_valid t now then some t else none

unfoldable pub find_valid_refresh_token : SessionAggregate → TokenHash → Time → Option RefreshToken
unfolding find_refresh_token only_valid
find_valid_refresh_token s token_hash now = only_valid (find_refresh_token s token_hash) now

unfoldable pub revoke_by_id : Uuid → RefreshToken → RefreshToken
unfolding revoked
revoke_by_id token_id t = if t.id == token_id then revoked t else t

unfoldable pub revoke_token : SessionAggregate → Uuid → SessionAggregate
unfolding revoke_by_id
revoke_token s token_id = record s { refresh_tokens = map (revoke_by_id token_id) s.refresh_tokens }

unfoldable pub revoke : SessionAggregate → SessionAggregate
unfolding revoked
revoke s =
    record_event (record s { is_revoked = true; refresh_tokens = map revoked s.refresh_tokens })
      (session_revoked s.session_id s.user_id)

unfoldable pub refresh : SessionAggregate → ℕ → Time → SessionAggregate
refresh s new_expire_seconds now =
    record_event (record s { expires_at = now + seconds new_expire_seconds })
      (token_refreshed s.session_id s.user_id)
