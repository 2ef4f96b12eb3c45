-- ===== src/Tests/Delivery.antt =====
-- The outbox on concrete rows.
use fast_stream_template.Common.{
  leb, ◌+◌, Bool, List, Option, String, Time, [], any, arith, false, if◌then◌else◌, is_some, none,
  refl, seconds, some, true, ◌&&◌, ◌<◌, ◌==◌, ◌∷◌, ◌≡◌, ◌≤◌,
}
use fast_stream_template.Common.Dict.{lookup}
use fast_stream_template.Domain.Events.{password_reset_requested}
use fast_stream_template.Infrastructure.Outbox.{
  OutboxEvent, get_unprocessed, is_due, keys_of, mark_processed, outbox_event, process_batch,
  redacted, replay, reschedule, wire_payload,
}
use fast_stream_template.Infrastructure.Outbox.Secrets.{secrets_stay_inside, listed}
use fast_stream_template.Infrastructure.Outbox.Delivery.{process_batch-Outcome, Each, Outcome}
use fast_stream_template.Infrastructure.Outbox.Retries.{
  dead_letter_after_eight, retry_waits, fail_all,
}

abbrev reset_row : OutboxEvent
reset_row = outbox_event 31 100 (password_reset_requested 7 "ann@example.org" "r3set")

secrets_stay_inside_example :
    (lookup "reset_token" (wire_payload reset_row) ≡ (
      if listed "reset_token" (keys_of reset_row)
        && is_some (lookup "reset_token" reset_row.payload)
      then some redacted
      else lookup "reset_token" reset_row.payload))
    × (lookup "reset_token" (mark_processed 200 reset_row).payload ≡ (
        if listed "reset_token" (keys_of reset_row)
        then none
        else lookup "reset_token" reset_row.payload))
    × (keys_of (mark_processed 200 reset_row) ≡ [])
secrets_stay_inside_example = secrets_stay_inside reset_row "reset_token" 200

abbrev broker : OutboxEvent → Option String
broker e = if e.id == 31 then some "unreachable" else none

abbrev free : OutboxEvent → Bool
free e = false

process_batch-Outcome_example :
    Each
      (Outcome broker free 200 (get_unprocessed free 200 10 (reset_row ∷ [])))
      (reset_row ∷ [])
      (process_batch broker free 10 200 (reset_row ∷ []))
process_batch-Outcome_example =
    process_batch-Outcome broker free 10 200 (reset_row ∷ []) (λ a b a_in b_in same. ground arith)

abbrev failures : List (Time × String)
failures =
    (1, "e") ∷ (2, "e") ∷ (3, "e") ∷ (4, "e") ∷ (5, "e") ∷ (6, "e") ∷ (7, "e") ∷ (8, "e") ∷ []

dead_letter_after_eight_example :
    (is_some (fail_all failures reset_row).failed_at ≡ true)
    × (8 ≤ 8 → is_due 300 (fail_all failures reset_row) ≡ false)
    × (8 ≤ 8
        → any (λ id. id == (fail_all failures reset_row).id) (31 ∷ []) ≡ true
        → (is_due 300 (replay (31 ∷ []) (fail_all failures reset_row)) ≡ true)
          × ((replay (31 ∷ []) (fail_all failures reset_row)).attempts ≡ 0))
unfolding outbox_event
dead_letter_after_eight_example =
    dead_letter_after_eight reset_row failures 300 (31 ∷ []) refl refl refl

retry_waits_example :
    (1 < 7
      → ((reschedule 5 "e" (fail_all ((1, "e") ∷ []) reset_row)).next_attempt_at
          ≡ some (5 + seconds 4))
        × (4 ≤ 128)
        × (is_due 300 (reschedule 5 "e" (fail_all ((1, "e") ∷ []) reset_row))
            ≡ leb (5 + seconds 4) 300))
    × (7 ≤ 1
        → ((reschedule 5 "e" (fail_all ((1, "e") ∷ []) reset_row)).next_attempt_at ≡ none)
          × ((reschedule 5 "e" (fail_all ((1, "e") ∷ []) reset_row)).failed_at ≡ some 5))
unfolding outbox_event
retry_waits_example = retry_waits reset_row ((1, "e") ∷ []) 5 300 "e" refl refl refl
