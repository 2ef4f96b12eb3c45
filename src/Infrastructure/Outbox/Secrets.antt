-- ===== src/Infrastructure/Outbox/Secrets.antt =====
-- Credentials in a payload reach neither the broker nor a processed row.
use fast_stream_template.Common.{
  Bool, List, String, Time, Uuid, [], any, arith, if◌then◌else◌, is_some, none, refl, some, str_eq,
  str_eq_iff, ◌&&◌, ◌∷◌, ◌≡◌,
}
use fast_stream_template.Common.Dict.{Dict, insert, lookup, lookup-insert, lookup-remove, remove}
use fast_stream_template.Domain.Events.{email_verification_requested, password_reset_requested}
use fast_stream_template.Domain.Events.Payload.{JsonValue, str}
use fast_stream_template.Infrastructure.Outbox.{
  OutboxEvent, keys_of, mark_processed, outbox_event, redact, redacted, scrub, wire_payload,
}

-- Whether a key is among the sensitive ones.
abbrev pub listed : String → List String → Bool
listed j ks = any (λ k. str_eq k j) ks

lookup-redact :
    (ks : List String) (j : String) (p : Dict JsonValue)
    → lookup j (redact ks p)
      ≡ (if listed j ks && is_some (lookup j p) then some redacted else lookup j p)
unfolding redact
lookup-redact [] j p = refl
lookup-redact (k ∷ ks) j p = ground (
  arith,
  lookup-redact ks j p,
  lookup-redact ks j (insert k redacted p),
  lookup-insert k j redacted p,
  str_eq_iff k j,
)

lookup-scrub :
    (ks : List String) (j : String) (p : Dict JsonValue)
    → lookup j (scrub ks p) ≡ (if listed j ks then none else lookup j p)
unfolding scrub
lookup-scrub [] j p = refl
lookup-scrub (k ∷ ks) j p =
    ground (arith, lookup-scrub ks j (remove k p), lookup-remove k j p, str_eq_iff k j)

-- Of any row, the broker is sent "[redacted]" in place of each sensitive value and every other value
-- as it is; marking the row processed drops the sensitive values, keeps the others, and leaves no key
-- marked.
pub secrets_stay_inside :
    (e : OutboxEvent) (j : String) (now : Time)
    → (lookup j (wire_payload e) ≡ (
        if listed j (keys_of e) && is_some (lookup j e.payload)
        then some redacted
        else lookup j e.payload))
      × (lookup j (mark_processed now e).payload
          ≡ (if listed j (keys_of e) then none else lookup j e.payload))
      × (keys_of (mark_processed now e) ≡ [])
unfolding wire_payload mark_processed
secrets_stay_inside e j now =
    (lookup-redact (keys_of e) j e.payload, lookup-scrub (keys_of e) j e.payload, refl)

-- The rows that the unit of work writes for a reset and for a verification request carry the token
-- for the email; the broker gets "[redacted]" for it, and the processed row no longer has it.
pub tokens_stay_inside :
    (id u : Uuid) (email token : String) (made now : Time)
    → let reset = outbox_event id made (password_reset_requested u email token) in
      let check = outbox_event id made (email_verification_requested u email token) in
      (lookup "reset_token" reset.payload ≡ some (str token))
      × (lookup "reset_token" (wire_payload reset) ≡ some redacted)
      × (lookup "reset_token" (mark_processed now reset).payload ≡ none)
      × (lookup "verification_token" check.payload ≡ some (str token))
      × (lookup "verification_token" (wire_payload check) ≡ some redacted)
      × (lookup "verification_token" (mark_processed now check).payload ≡ none)
unfolding outbox_event wire_payload mark_processed lookup
tokens_stay_inside id u email token made now = (refl, refl, refl, refl, refl, refl)
