-- ===== src/Domain/Events/Payload.antt =====
-- The payloads and the wire names of the events (src/domain/user/events.py, `to_payload`, and
-- BaseEvent.wire_name). The texts of UUIDs and instants are constructors of their own.
use fast_stream_template.Common.{ℕ, List, Option, String, Time, Uuid, [], none, some, ◌∷◌}
use fast_stream_template.Common.Dict.{Dict}
use fast_stream_template.Domain.Events.{
  Event, account_unlocked, account_was_locked, email_verification_requested, email_verified,
  password_changed, password_reset_completed, password_reset_requested, role_created, role_deleted,
  role_updated, session_created, session_revoked, token_refreshed, two_factor_disabled,
  two_factor_enabled, user_authenticated, user_created, user_deleted, user_profile_updated,
  user_role_assigned, user_role_revoked,
}

pub data JsonValue : Type 0 where
  null : JsonValue
  str : String → JsonValue
  num : ℕ → JsonValue
  uuid : Uuid → JsonValue
  instant : Time → JsonValue
  strs : List String → JsonValue
  device : (user_agent ip_address device_name : Option String) → JsonValue

abbrev pub opt_str : Option String → JsonValue
opt_str none = null
opt_str (some s) = str s

abbrev pub opt_uuid : Option Uuid → JsonValue
opt_uuid none = null
opt_uuid (some u) = uuid u

abbrev pub opt_instant : Option Time → JsonValue
opt_instant none = null
opt_instant (some t) = instant t

unfoldable pub to_payload : Event → Dict JsonValue
to_payload (user_created u n e) =
    ("user_id", uuid u) ∷ ("username", str n) ∷ ("email", opt_str e) ∷ []
to_payload (user_authenticated u n) = ("user_id", uuid u) ∷ ("username", str n) ∷ []
to_payload (user_profile_updated u fs) = ("user_id", uuid u) ∷ ("updated_fields", strs fs) ∷ []
to_payload (user_deleted u) = ("user_id", uuid u) ∷ []
to_payload (session_created s u a i d) =
    ("session_id", uuid s) ∷ ("user_id", uuid u) ∷ ("device_info", device a i d) ∷ []
to_payload (session_revoked s u) = ("session_id", uuid s) ∷ ("user_id", uuid u) ∷ []
to_payload (token_refreshed s u) = ("session_id", uuid s) ∷ ("user_id", uuid u) ∷ []
to_payload (role_created r n) = ("role_id", uuid r) ∷ ("name", str n) ∷ []
to_payload (role_updated r fs) = ("role_id", uuid r) ∷ ("updated_fields", strs fs) ∷ []
to_payload (role_deleted r) = ("role_id", uuid r) ∷ []
to_payload (user_role_assigned u r b) =
    ("user_id", uuid u) ∷ ("role_id", uuid r) ∷ ("assigned_by", opt_uuid b) ∷ []
to_payload (user_role_revoked u r b) =
    ("user_id", uuid u) ∷ ("role_id", uuid r) ∷ ("revoked_by", opt_uuid b) ∷ []
to_payload (account_was_locked u why t) =
    ("user_id", uuid u) ∷ ("reason", str why) ∷ ("locked_until", opt_instant t) ∷ []
to_payload (account_unlocked u) = ("user_id", uuid u) ∷ []
to_payload (password_reset_requested u e t) =
    ("user_id", uuid u) ∷ ("email", str e) ∷ ("reset_token", str t) ∷ []
to_payload (password_reset_completed u) = ("user_id", uuid u) ∷ []
to_payload (password_changed u) = ("user_id", uuid u) ∷ []
to_payload (email_verification_requested u e t) =
    ("user_id", uuid u) ∷ ("email", str e) ∷ ("verification_token", str t) ∷ []
to_payload (email_verified u e) = ("user_id", uuid u) ∷ ("email", str e) ∷ []
to_payload (two_factor_enabled u n) = ("user_id", uuid u) ∷ ("codes_issued", num n) ∷ []
to_payload (two_factor_disabled u) = ("user_id", uuid u) ∷ []

-- BaseEvent.wire_name: the name of the class
unfoldable pub wire_name : Event → String
wire_name (user_created _ _ _) = "UserCreatedEvent"
wire_name (user_authenticated _ _) = "UserAuthenticatedEvent"
wire_name (user_profile_updated _ _) = "UserProfileUpdatedEvent"
wire_name (user_deleted _) = "UserDeletedEvent"
wire_name (session_created _ _ _ _ _) = "SessionCreatedEvent"
wire_name (session_revoked _ _) = "SessionRevokedEvent"
wire_name (token_refreshed _ _) = "TokenRefreshedEvent"
wire_name (role_created _ _) = "RoleCreatedEvent"
wire_name (role_updated _ _) = "RoleUpdatedEvent"
wire_name (role_deleted _) = "RoleDeletedEvent"
wire_name (user_role_assigned _ _ _) = "UserRoleAssignedEvent"
wire_name (user_role_revoked _ _ _) = "UserRoleRevokedEvent"
wire_name (account_was_locked _ _ _) = "AccountLockedEvent"
wire_name (account_unlocked _) = "AccountUnlockedEvent"
wire_name (password_reset_requested _ _ _) = "PasswordResetRequestedEvent"
wire_name (password_reset_completed _) = "PasswordResetCompletedEvent"
wire_name (password_changed _) = "PasswordChangedEvent"
wire_name (email_verification_requested _ _ _) = "EmailVerificationRequestedEvent"
wire_name (email_verified _ _) = "EmailVerifiedEvent"
wire_name (two_factor_enabled _ _) = "TwoFactorEnabledEvent"
wire_name (two_factor_disabled _) = "TwoFactorDisabledEvent"
