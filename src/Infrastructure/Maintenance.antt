-- ===== src/Infrastructure/Maintenance.antt =====
-- src/infrastructure/maintenance/worker.py, MaintenanceWorker.run_once, over the rows of its tables.
-- `up` says of each job whether the database serves it: where it does not, the job raises, and so it
-- does where the cutoff would be before the first instant. `hex_of` is the text of a UUID without
-- its dashes.
pub mod Runs
use Prim.Native.String.{◌++◌ as append_text}
use fast_stream_template.Common.{
  Bool, false, List, Option, String, Uuid, Time, ℕ, [], ◌∷◌, any, days, is_some, keep, length, ltb,
  map, none, some, not, if◌then◌else◌, ◌&&◌, ◌-◌,
}
use fast_stream_template.Common.Dict.{Dict}
use fast_stream_template.Domain.Events.Payload.{JsonValue}
use fast_stream_template.Infrastructure.Outbox
use fast_stream_template.Infrastructure.Outbox.{OutboxEvent}
use fast_stream_template.Infrastructure.SessionRepo
use fast_stream_template.Infrastructure.SessionRepo.{SessionTables}
use fast_stream_template.Infrastructure.UserRows.{UserRow}

-- MaintenanceConfig, but for the interval
pub record MaintenanceConfig : Type 0 where
  pub session_grace_days : ℕ
  pub outbox_retention_days : ℕ
  pub audit_retention_days : ℕ
  pub deleted_user_retention_days : ℕ
  pub dry_run : Bool

-- A row of AUDIT_LOGS_TABLE
pub record AuditLog : Type 0 where
  pub id : Uuid
  pub user_id : Option Uuid
  pub action : String
  pub entity_type : String
  pub entity_id : Option Uuid
  pub details : Dict JsonValue
  pub ip_address : Option String
  pub user_agent : Option String
  pub timestamp : Time
  pub success : Bool

-- The tables that the jobs read and write
pub record Tables : Type 0 where
  pub sessions : SessionTables
  pub outbox : List OutboxEvent
  pub audit_logs : List AuditLog
  pub users : List UserRow

-- `now - timedelta(days=...)`, which raises where the result is no instant
unfoldable pub cutoff : Time → ℕ → Option Time
cutoff now retention_days =
    if ltb now (days retention_days) then none else some (now - days retention_days)

-- A job in its transaction: the number of rows that it affects and the tables after it
abbrev pub Job : Type 0
Job = Option (ℕ × Tables)

-- _purge_expired_sessions
unfoldable pub purge_expired_sessions : Option Time → Tables → Job
purge_expired_sessions none t = none
purge_expired_sessions (some before) t =
    let kept = SessionRepo.delete_expired before t.sessions in
    some (length t.sessions.sessions - length kept.sessions, record t { sessions = kept })

-- _prune_outbox
unfoldable pub prune_outbox : Option Time → Tables → Job
prune_outbox none t = none
prune_outbox (some before) t =
    let kept = Outbox.delete_processed_older_than before t.outbox in
    some (length t.outbox - length kept, record t { outbox = kept })

-- _prune_audit_log
unfoldable pub prune_audit_log : Option Time → Tables → Job
prune_audit_log none t = none
prune_audit_log (some before) t =
    let kept = keep (λ (a : AuditLog). not (ltb a.timestamp before)) t.audit_logs in
    some (length t.audit_logs - length kept, record t { audit_logs = kept })

abbrev pub deleted_before : Option Time → Time → Bool
deleted_before none before = false
deleted_before (some t) before = ltb t before

-- The WHERE of the anonymisation
abbrev pub is_stale : Time → UserRow → Bool
is_stale before row = deleted_before row.deleted_at before && is_some row.email

module _ (hex_of : Uuid → String) where
  -- The values of the anonymisation
  unfoldable pub anonymised : UserRow → UserRow
  anonymised row = record row {
    username = append_text "deleted_" (hex_of row.id);
    email = none;
    hashed_password = "";
    two_factor_secret = none;
    two_factor_backup_codes = none;
    email_verification_token_hash = none;
    password_reset_token_hash = none;
  }

  -- The UPDATE of one row
  unfoldable pub anonymise : Time → UserRow → UserRow
  unfolding anonymised
  anonymise before row = if is_stale before row then anonymised row else row

  -- _anonymise_deleted_users
  unfoldable pub anonymise_deleted_users : Option Time → Tables → Job
  unfolding anonymise
  anonymise_deleted_users none t = none
  anonymise_deleted_users (some before) t =
      some (
        length (keep (is_stale before) t.users),
        record t { users = map (anonymise before) t.users },
      )

-- The names of _jobs
pub data JobName : Type 0 where
  expired_sessions processed_outbox old_audit_entries deleted_users : JobName

-- One turn of the loop of run_once: the number that it reports, none for -1, and the tables
abbrev pub finish_job : Bool → Tables → Job → Option ℕ × Tables
finish_job dry_run t none = (none, t)
finish_job dry_run t (some (affected, t')) = (some affected, if dry_run then t else t')

-- The job is called if the database serves it
abbrev pub run_job : Bool → Bool → Tables → Job → Option ℕ × Tables
run_job up dry_run t job = if up then finish_job dry_run t job else (none, t)

module _ (hex_of : Uuid → String) (config : MaintenanceConfig) (now : Time)
    (up : JobName → Bool) where
  -- The jobs' bodies
  abbrev pub job_of : JobName → Tables → Job
  job_of expired_sessions t = purge_expired_sessions (cutoff now config.session_grace_days) t
  job_of processed_outbox t = prune_outbox (cutoff now config.outbox_retention_days) t
  job_of old_audit_entries t = prune_audit_log (cutoff now config.audit_retention_days) t
  job_of deleted_users t =
      anonymise_deleted_users hex_of (cutoff now config.deleted_user_retention_days) t

  -- The loop of run_once
  unfoldable pub run_jobs : List JobName → Tables → List (JobName × Option ℕ) × Tables
  run_jobs [] t = ([], t)
  run_jobs (name ∷ names) t =
      let (result, t') = run_job (up name) config.dry_run t (job_of name t) in
      let (results, last) = run_jobs names t' in ((name, result) ∷ results, last)

  -- run_once
  unfoldable pub run_once : Tables → List (JobName × Option ℕ) × Tables
  unfolding run_jobs
  run_once t =
      run_jobs (expired_sessions ∷ processed_outbox ∷ old_audit_entries ∷ deleted_users ∷ []) t
