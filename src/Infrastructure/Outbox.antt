-- ===== src/Infrastructure/Outbox.antt =====
-- src/infrastructure/queue (event_publisher.py, outbox_worker.py) and
-- src/infrastructure/db/sqlalchemy/repositories/outbox.py over the rows of the outbox table. The
-- broker is a function from an event to the error that it raises, if any; `now` is the clock.
pub mod Delivery
pub mod Secrets
pub mod Retries
use fast_stream_template.Common.{
  ℕ, Bool, List, Option, String, Time, Uuid, [], any, false, if◌then◌else◌, is_some, keep, leb, ltb,
  map, min, none, not, seconds, some, take, true, ◌&&◌, ◌+◌, ◌==◌, ◌^◌, ◌||◌, ◌∷◌,
}
use fast_stream_template.Common.Dict.{Dict, lookup, insert, remove}
use fast_stream_template.Domain.Events.{Event, Aggregate, event_aggregate, sensitive_fields}
use fast_stream_template.Domain.Events.Payload.{JsonValue, str, to_payload, wire_name}

pub record OutboxEvent : Type 0 where
  pub id : Uuid
  pub aggregate_type : Aggregate
  pub aggregate_id : Uuid
  pub event_type : String
  pub payload : Dict JsonValue
  pub sensitive_keys : Option (List String)
  pub created_at : Time
  pub processed_at : Option Time
  pub attempts : ℕ
  pub last_error : Option String
  pub next_attempt_at : Option Time
  pub failed_at : Option Time

-- `sensitive or None`
abbrev pub or_none : List String → Option (List String)
or_none [] = none
or_none (k ∷ ks) = some (k ∷ ks)

-- SQLAlchemyUoW._persist_outbox_event, with the drawn id
unfoldable pub outbox_event : Uuid → Time → Event → OutboxEvent
unfolding event_aggregate sensitive_fields to_payload wire_name
outbox_event id now event = record {
  id = id;
  aggregate_type = (event_aggregate event).0;
  aggregate_id = (event_aggregate event).1;
  event_type = wire_name event;
  payload = to_payload event;
  sensitive_keys = or_none (sensitive_fields event);
  created_at = now;
  processed_at = none;
  attempts = 0;
  last_error = none;
  next_attempt_at = none;
  failed_at = none;
}

abbrev pub max_attempts : ℕ
max_attempts = 8

abbrev pub backoff_cap_seconds : ℕ
backoff_cap_seconds = 300

-- backoff_delay
unfoldable pub backoff_delay : ℕ → Time
backoff_delay attempts = seconds (min (2 ^ attempts) backoff_cap_seconds)

abbrev pub reached : Option Time → Time → Bool
reached none now = true
reached (some t) now = leb t now

-- The `where` of get_unprocessed
unfoldable pub is_due : Time → OutboxEvent → Bool
is_due now e =
    not (is_some e.processed_at) && not (is_some e.failed_at) && reached e.next_attempt_at now

-- order_by(created_at, id)
abbrev pub before : OutboxEvent → OutboxEvent → Bool
before a b = ltb a.created_at b.created_at || (a.created_at == b.created_at && leb a.id b.id)

unfoldable pub insert_ordered : OutboxEvent → List OutboxEvent → List OutboxEvent
insert_ordered e [] = e ∷ []
insert_ordered e (d ∷ ds) =
    let rest = insert_ordered e ds in if before e d then e ∷ d ∷ ds else d ∷ rest

unfoldable pub ordered : List OutboxEvent → List OutboxEvent
unfolding insert_ordered
ordered [] = []
ordered (e ∷ es) = insert_ordered e (ordered es)

-- get_unprocessed; `locked` are the rows that other workers hold (SKIP LOCKED)
unfoldable pub get_unprocessed :
    (OutboxEvent → Bool) → Time → ℕ → List OutboxEvent → List OutboxEvent
get_unprocessed locked now limit rows =
    take limit (ordered (keep (λ e. is_due now e && not (locked e)) rows))

-- `event.sensitive_keys or ()`
abbrev pub keys_of : OutboxEvent → List String
keys_of e = elim e.sensitive_keys [ none ↦ [] | some ks ↦ ks ]

-- payload.pop(key, None) for each key
unfoldable pub scrub : List String → Dict JsonValue → Dict JsonValue
unfolding remove
scrub [] payload = payload
scrub (k ∷ ks) payload = scrub ks (remove k payload)

-- OutboxRepository.mark_processed on one event
unfoldable pub mark_processed : Time → OutboxEvent → OutboxEvent
unfolding scrub
mark_processed now e = record e {
  payload = scrub (keys_of e) e.payload;
  sensitive_keys = none;
  processed_at = some now;
  last_error = none;
}

-- OutboxRepository.reschedule; `error` is the text already cut to 2000 characters
unfoldable pub reschedule : Time → String → OutboxEvent → OutboxEvent
unfolding backoff_delay
reschedule now error e =
    let attempts : ℕ = e.attempts + 1 in
    if leb max_attempts attempts
    then record e {
      attempts = attempts;
      last_error = some error;
      failed_at = some now;
      next_attempt_at = none;
    }
    else record e {
      attempts = attempts;
      last_error = some error;
      next_attempt_at = some (now + backoff_delay attempts);
    }

abbrev pub redacted : JsonValue
redacted = str "[redacted]"

-- The loop of `wire_payload` over the sensitive keys
unfoldable pub redact : List String → Dict JsonValue → Dict JsonValue
unfolding lookup insert
redact [] payload = payload
redact (k ∷ ks) payload =
    redact ks (if is_some (lookup k payload) then insert k redacted payload else payload)

-- The 'payload' of `wire_payload`: what the broker is sent of the event's own fields
unfoldable pub wire_payload : OutboxEvent → Dict JsonValue
unfolding redact
wire_payload e = redact (keys_of e) e.payload

-- EventPublisherAMQP.publish_outbox: the failures, by event id
unfoldable pub publish_outbox :
    (OutboxEvent → Option String) → List OutboxEvent → List (Uuid × String)
publish_outbox publish [] = []
publish_outbox publish (e ∷ es) =
    let rest = publish_outbox publish es in
    elim (publish e) [ none ↦ rest | some error ↦ (e.id, error) ∷ rest ]

-- errors[event.id]: the last failure of an id wins
unfoldable pub error_of : Uuid → List (Uuid × String) → Option String
error_of id [] = none
error_of id ((i, error) ∷ fs) = elim (error_of id fs) [
  | some later ↦ some later
  | none ↦ if i == id then some error else none
]

abbrev pub has_id : Uuid → List OutboxEvent → Bool
has_id id es = any (λ e. e.id == id) es

-- What a batch does to one of its events.
unfoldable pub settle : Time → List (Uuid × String) → OutboxEvent → OutboxEvent
settle now failures e = elim (error_of e.id failures) [
  | none ↦ mark_processed now e
  | some error ↦ reschedule now error e
]

unfoldable pub settle_row :
    Time → List (Uuid × String) → List OutboxEvent → OutboxEvent → OutboxEvent
settle_row now failures events row = if has_id row.id events then settle now failures row else row

-- OutboxWorker._process_batch on the table, less the emails, which change no row: rows are claimed
-- by id, the published ones are marked processed and the failed ones rescheduled.
unfoldable pub process_batch :
    (OutboxEvent → Option String)
    → (OutboxEvent → Bool)
    → ℕ
    → Time
    → List OutboxEvent
    → List OutboxEvent
process_batch publish locked batch_size now rows =
    let events = get_unprocessed locked now batch_size rows in
    map (settle_row now (publish_outbox publish events) events) rows

-- The delay of OutboxWorker.start, in poll intervals, after so many failures in a row
unfoldable pub worker_backoff : ℕ → ℕ
worker_backoff consecutive_failures = min (2 ^ consecutive_failures) 30

-- OutboxRepository.replay
unfoldable pub replay : List Uuid → OutboxEvent → OutboxEvent
replay event_ids e =
    if any (λ id. id == e.id) event_ids && is_some e.failed_at
    then record e { failed_at = none; attempts = 0; next_attempt_at = none; last_error = none }
    else e

abbrev pub processed_before : Option Time → Time → Bool
processed_before none before = false
processed_before (some t) before = ltb t before

-- OutboxRepository.delete_processed_older_than
unfoldable pub delete_processed_older_than : Time → List OutboxEvent → List OutboxEvent
delete_processed_older_than cutoff rows =
    keep (λ e. not (processed_before e.processed_at cutoff)) rows
