-- ===== src/Infrastructure/Maintenance/Runs.antt =====
-- What one run, and two runs at the same instant, leave of the tables.
use fast_stream_template.Common.{
  Bool, Option, String, Uuid, Time, ℕ, keep, ltb, map, none, some, not, if◌then◌else◌, ◌&&◌, ◌≡◌,
  ◌≢◌, refl, true, false, arith,
}
use fast_stream_template.Errors.{Result, err, ok}
use fast_stream_template.Domain.User.{User}
use fast_stream_template.Domain.Names.{
  codes, validate_email, validate_user_id, validate_username, validate_hashed_password,
}
use fast_stream_template.Infrastructure.Outbox
use fast_stream_template.Infrastructure.Outbox.{OutboxEvent}
use fast_stream_template.Infrastructure.SessionRepo
use fast_stream_template.Infrastructure.SessionRepo.{SessionTables}
use fast_stream_template.Infrastructure.UserRows.{Cipher, UserRow, after_check, row_to_user}
use fast_stream_template.Infrastructure.Maintenance.{
  AuditLog, JobName, MaintenanceConfig, Tables, anonymise, anonymised, cutoff, deleted_users,
  expired_sessions, is_stale, old_audit_entries, processed_outbox, run_job, run_once,
  anonymise_deleted_users, prune_audit_log, prune_outbox, purge_expired_sessions,
}

-- The cutoff of a job that is served and not rehearsed
abbrev pub applied : Bool → Bool → Option Time → Option Time
applied up dry_run before = if up && not dry_run then before else none

-- A table after a job with that cutoff
abbrev pub after_cutoff : {A : Type 0} → (Time → A → A) → Option Time → A → A
after_cutoff f none a = a
after_cutoff f (some before) a = f before a

step_sessions :
    (t : Tables) (u d : Bool) (c : Option Time)
    → (run_job u d t (purge_expired_sessions c t)).1
      ≡ record t { sessions = after_cutoff SessionRepo.delete_expired (applied u d c) t.sessions }
unfolding purge_expired_sessions
step_sessions t false d c = refl
step_sessions t true false none = refl
step_sessions t true true none = refl
step_sessions t true false (some before) = refl
step_sessions t true true (some before) = refl

step_outbox :
    (t : Tables) (u d : Bool) (c : Option Time)
    → (run_job u d t (prune_outbox c t)).1 ≡ record t {
      outbox = after_cutoff Outbox.delete_processed_older_than (applied u d c) t.outbox;
    }
unfolding prune_outbox
step_outbox t false d c = refl
step_outbox t true false none = refl
step_outbox t true true none = refl
step_outbox t true false (some before) = refl
step_outbox t true true (some before) = refl

step_audit :
    (t : Tables) (u d : Bool) (c : Option Time)
    → (run_job u d t (prune_audit_log c t)).1 ≡ record t {
      audit_logs =
          after_cutoff
            (λ before rows. keep (λ (a : AuditLog). not (ltb a.timestamp before)) rows)
            (applied u d c)
            t.audit_logs;
    }
unfolding prune_audit_log
step_audit t false d c = refl
step_audit t true false none = refl
step_audit t true true none = refl
step_audit t true false (some before) = refl
step_audit t true true (some before) = refl

step_users :
    (hex_of : Uuid → String) (t : Tables) (u d : Bool) (c : Option Time)
    → (run_job u d t (anonymise_deleted_users hex_of c t)).1 ≡ record t {
      users =
          after_cutoff (λ before rows. map (anonymise hex_of before) rows) (applied u d c) t.users;
    }
unfolding anonymise_deleted_users
step_users hex_of t false d c = refl
step_users hex_of t true false none = refl
step_users hex_of t true true none = refl
step_users hex_of t true false (some before) = refl
step_users hex_of t true true (some before) = refl

module _ (hex_of : Uuid → String) (config : MaintenanceConfig) (now : Time)
    (up : JobName → Bool) where
  abbrev pub applied_to : JobName → ℕ → Option Time
  applied_to name retention_days = applied (up name) config.dry_run (cutoff now retention_days)

  -- One run leaves each table as its own job leaves it, whatever becomes of the other jobs: a job that
  -- the database does not serve, or whose cutoff is no instant, and any job of a rehearsal (dry_run),
  -- leaves its table as it was.
  pub run_once_lem :
      (t : Tables)
      → (run_once hex_of config now up t).1 ≡ record {
        sessions =
            after_cutoff SessionRepo.delete_expired
              (applied_to expired_sessions config.session_grace_days)
              t.sessions;
        outbox =
            after_cutoff Outbox.delete_processed_older_than
              (applied_to processed_outbox config.outbox_retention_days)
              t.outbox;
        audit_logs =
            after_cutoff
              (λ before rows. keep (λ (a : AuditLog). not (ltb a.timestamp before)) rows)
              (applied_to old_audit_entries config.audit_retention_days)
              t.audit_logs;
        users =
            after_cutoff
              (λ before rows. map (anonymise hex_of before) rows)
              (applied_to deleted_users config.deleted_user_retention_days)
              t.users;
      }
  unfolding run_once
  run_once_lem t =
      rw
        (step_sessions t (up expired_sessions) config.dry_run
          (cutoff now config.session_grace_days))
        (rw
          (step_outbox _ (up processed_outbox) config.dry_run
            (cutoff now config.outbox_retention_days))
          (rw
            (step_audit _ (up old_audit_entries) config.dry_run
              (cutoff now config.audit_retention_days))
            (step_users hex_of _ (up deleted_users) config.dry_run
              (cutoff now config.deleted_user_retention_days))))

loaded_lem :
    (cipher : Cipher) (row : UserRow) (u : User) (a b c : Result (Unit {0})) (r : Result User)
    → after_check cipher a (
        after_check cipher b
          (after_check cipher c (after_check cipher (validate_hashed_password "") r)))
      ≡ ok u
    → ⊥
unfolding validate_hashed_password
loaded_lem cipher row u (err e) b c r h = cc h
loaded_lem cipher row u (ok x) (err e) c r h = cc h
loaded_lem cipher row u (ok x) (ok y) (err e) r h = cc h
loaded_lem cipher row u (ok x) (ok y) (ok z) r h = cc h

refused_lem :
    (hex_of : Uuid → String) (cipher : Cipher) (row : UserRow) (u : User)
    → row_to_user cipher (anonymised hex_of row) ≢ ok u
unfolding anonymised row_to_user
refused_lem hex_of cipher row u h =
    loaded_lem cipher row u (validate_user_id row.id)
      (validate_username (codes (anonymised hex_of row).username)) (validate_email none) _ h

-- A row that a run has anonymised has no e-mail address, password hash or secret left, is left alone
-- by every later run, and loads as no user: the value objects refuse it. A deleted user's row without
-- an e-mail address is not anonymised, however old it is.
pub anonymise_lem :
    (hex_of : Uuid → String) (cipher : Cipher) (before : Time) (row : UserRow)
    → (is_stale before row ≡ true
        → let row' = anonymise hex_of before row in
          (row'.email ≡ none)
          × (row'.hashed_password ≡ "")
          × (row'.two_factor_secret ≡ none)
          × ((later : Time) → anonymise hex_of later row' ≡ row')
          × ((u : User) → row_to_user cipher row' ≢ ok u))
      × (row.email ≡ none → anonymise hex_of before row ≡ row)
unfolding anonymise anonymised
anonymise_lem hex_of cipher before row = (
  λ stale.
      rw stale (refl, refl, refl, λ later. ground arith, λ u h. refused_lem hex_of cipher row u h),
  λ no_email. rw no_email (ground arith),
)
