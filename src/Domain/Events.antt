-- ===== src/Domain/Events.antt =====
-- src/domain/user/events.py: one constructor for each event class, with the fields that its
-- payload carries. Event ids and timestamps are left out; `locked_until` is an instant.
pub mod Payload
use fast_stream_template.Common.{ℕ, String, Option, List, [], ◌∷◌, Time, Uuid}

pub data Event : Type 0 where
  user_created : (user_id : Uuid) (username : String) (email : Option String) → Event
  user_authenticated : (user_id : Uuid) (username : String) → Event
  user_profile_updated : (user_id : Uuid) (updated_fields : List String) → Event
  user_deleted : (user_id : Uuid) → Event
  session_created :
      (session_id user_id : Uuid) (user_agent ip_address device_name : Option String) → Event
  session_revoked : (session_id user_id : Uuid) → Event
  token_refreshed : (session_id user_id : Uuid) → Event
  role_created : (role_id : Uuid) (name : String) → Event
  role_updated : (role_id : Uuid) (updated_fields : List String) → Event
  role_deleted : (role_id : Uuid) → Event
  user_role_assigned : (user_id role_id : Uuid) (assigned_by : Option Uuid) → Event
  user_role_revoked : (user_id role_id : Uuid) (revoked_by : Option Uuid) → Event
  account_was_locked : (user_id : Uuid) (reason : String) (locked_until : Option Time) → Event
  account_unlocked : (user_id : Uuid) → Event
  password_reset_requested : (user_id : Uuid) (email reset_token : String) → Event
  password_reset_completed : (user_id : Uuid) → Event
  password_changed : (user_id : Uuid) → Event
  email_verification_requested : (user_id : Uuid) (email verification_token : String) → Event
  email_verified : (user_id : Uuid) (email : String) → Event
  two_factor_enabled : (user_id : Uuid) (codes_issued : ℕ) → Event
  two_factor_disabled : (user_id : Uuid) → Event

pub data Aggregate : Type 0 where
  user_aggregate session_aggregate role_aggregate : Aggregate

-- EVENT_AGGREGATE and event_aggregate: every class of the table is here, so 'Unknown' is not.
unfoldable pub event_aggregate : Event → Aggregate × Uuid
event_aggregate (user_created u _ _) = (user_aggregate, u)
event_aggregate (user_authenticated u _) = (user_aggregate, u)
event_aggregate (user_profile_updated u _) = (user_aggregate, u)
event_aggregate (user_deleted u) = (user_aggregate, u)
event_aggregate (account_was_locked u _ _) = (user_aggregate, u)
event_aggregate (account_unlocked u) = (user_aggregate, u)
event_aggregate (password_reset_requested u _ _) = (user_aggregate, u)
event_aggregate (password_reset_completed u) = (user_aggregate, u)
event_aggregate (password_changed u) = (user_aggregate, u)
event_aggregate (email_verification_requested u _ _) = (user_aggregate, u)
event_aggregate (email_verified u _) = (user_aggregate, u)
event_aggregate (two_factor_enabled u _) = (user_aggregate, u)
event_aggregate (two_factor_disabled u) = (user_aggregate, u)
event_aggregate (session_created s _ _ _ _) = (session_aggregate, s)
event_aggregate (session_revoked s _) = (session_aggregate, s)
event_aggregate (token_refreshed s _) = (session_aggregate, s)
event_aggregate (role_created r _) = (role_aggregate, r)
event_aggregate (role_updated r _) = (role_aggregate, r)
event_aggregate (role_deleted r) = (role_aggregate, r)
event_aggregate (user_role_assigned _ r _) = (role_aggregate, r)
event_aggregate (user_role_revoked _ r _) = (role_aggregate, r)

-- The classes' `sensitive_fields`, sorted.
unfoldable pub sensitive_fields : Event → List String
sensitive_fields (password_reset_requested _ _ _) = "reset_token" ∷ []
sensitive_fields (email_verification_requested _ _ _) = "verification_token" ∷ []
sensitive_fields _ = []
