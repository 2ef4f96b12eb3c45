-- ===== src/Tests/RoleService.antt =====
-- The service of roles, the rows of users and the janitor on concrete rows.
use fast_stream_template.Common.{
  List, Bool, String, Uuid, Time, [], any, false, keep, ltb, map, none, not, refl, some, true, ◌+◌,
  ◌∷◌, ◌≡◌, ◌≢◌, if◌then◌else◌, Bool-cases, inl, inr, str_eq, str_eq_iff,
}
use fast_stream_template.Errors.{err, ok, permission_denied}
use fast_stream_template.Domain.Ports.{plain_crypto}
use fast_stream_template.Domain.User
use fast_stream_template.Domain.User.{User}
use fast_stream_template.Infrastructure.Outbox
use fast_stream_template.Infrastructure.RoleRepo
use fast_stream_template.Infrastructure.RoleRepo.{RoleTables}
use fast_stream_template.Infrastructure.SessionRepo
use fast_stream_template.Infrastructure.UserRows.{Cipher, UserRow, row_to_user, user_to_values}
use fast_stream_template.Infrastructure.UserRows.Loads.{row_to_user-user_to_values}
use fast_stream_template.Infrastructure.Maintenance.{
  AuditLog, JobName, MaintenanceConfig, Tables, anonymise, deleted_users, expired_sessions,
  is_stale, old_audit_entries, processed_outbox, run_once,
}
use fast_stream_template.Infrastructure.Maintenance.Runs.{
  after_cutoff, anonymise_lem, applied_to, run_once_lem,
}
use fast_stream_template.Application.Rbac.{
  delete_role, has_permission, require_permission, revoke_role,
}
use fast_stream_template.Application.Rbac.Checks.{entitles, has_permission_lem}
use fast_stream_template.Application.Rbac.Calls.{
  assign, delete, revoke, Call, Refined, add_permission, run,
}
use fast_stream_template.Application.Rbac.Effects.{holds}
use fast_stream_template.Application.Rbac.Requests.{Request, call, create, named_admin, serve_all}
use fast_stream_template.Application.Rbac.Admin.{serve_all-Stays}
use fast_stream_template.Application.Rbac.Refines.{run-Refined}

abbrev gus : User
gus = record (User.create plain_crypto 7 "gus" none "Passw0rd!" "t0k" 100) { events = [] }

abbrev some_roles : RoleTables
some_roles = record {
  permissions = record { id = 50; name = "posts:read"; description = none } ∷ [];
  roles =
      record { id = 60; name = "admin"; description = none }
      ∷ record { id = 61; name = "writer"; description = none }
      ∷ [];
  links = record { role_id = 60; permission_id = 50 } ∷ [];
  user_roles = record { user_id = 7; role_id = 61; assigned_at = 100; assigned_by = none } ∷ [];
}

abbrev widened : Call
widened = add_permission 51 61 "posts:write"

abbrev after_widened : RoleTables
after_widened = elim (run (gus ∷ []) (λ n. 52 + n) widened some_roles) [
  | some db ↦ db
  | none ↦ some_roles
]

run-Refined_example : Refined widened some_roles after_widened
unfolding fast_stream_template.Application.Rbac.add_permission_to_role RoleRepo.acquire_by_id
    RoleRepo.acquire_permission fast_stream_template.Domain.Names.validate_permission
run-Refined_example =
    run-Refined (gus ∷ []) (λ n. 52 + n) widened some_roles after_widened ((refl, tt), tt) refl refl

has_permission_lem_example :
    (has_permission some_roles 7 "posts:read"
      ≡ any (entitles some_roles 7 "posts:read") some_roles.user_roles)
    × (require_permission some_roles 7 "posts:read" ≡ (
        if any (entitles some_roles 7 "posts:read") some_roles.user_roles
        then ok tt
        else err permission_denied))
has_permission_lem_example = has_permission_lem some_roles 7 "posts:read"

-- The role `admin` is to be taken from its holder, deleted and shadowed, and another role deleted.
abbrev tried : List Request
tried =
    call (gus ∷ []) (λ n. 52 + n) (assign 7 60 none 200)
    ∷ call (gus ∷ []) (λ n. 52 + n) (revoke 7 60)
    ∷ call (gus ∷ []) (λ n. 52 + n) (delete 60)
    ∷ create 60 (λ n. 52 + n) "reader" none
    ∷ call (gus ∷ []) (λ n. 52 + n) (delete 61)
    ∷ []

abbrev admin_held : RoleTables
admin_held = record some_roles {
  user_roles = record { user_id = 7; role_id = 60; assigned_at = 100; assigned_by = none } ∷ [];
}

serve_all-Stays_example :
    (named_admin 60 (serve_all tried admin_held) ≡ true)
    × ((u : Uuid) → holds admin_held u 60 ≡ true → holds (serve_all tried admin_held) u 60 ≡ true)
serve_all-Stays_example = serve_all-Stays 60 tried admin_held refl

-- A cipher that writes one character before the text
abbrev without_first : String → String
without_first String.[] = ""
without_first (String.◌∷◌ c s) = s

not_empty : (s : String) → str_eq (String.◌∷◌ "k" s) "" ≡ false
not_empty s = elim (Bool-cases (str_eq (String.◌∷◌ "k" s) "")) [
  | inl e ↦ absurd (cc ((str_eq_iff (String.◌∷◌ "k" s) "").0 e))
  | inr e ↦ e
]

abbrev plain_cipher : Cipher
plain_cipher = record {
  encrypt = λ s. String.◌∷◌ "k" s;
  decrypt = without_first;
  hex = λ b. b;
  fromhex = λ s. s;
}

row_to_user-user_to_values_example :
    row_to_user plain_cipher (user_to_values plain_cipher gus) ≡ ok gus
unfolding User.create fast_stream_template.Domain.Names.validate_user_id
    fast_stream_template.Domain.Names.validate_username
    fast_stream_template.Domain.Names.validate_email
    fast_stream_template.Domain.Names.validate_hashed_password
    fast_stream_template.Domain.Tokens.create_unverified
row_to_user-user_to_values_example =
    row_to_user-user_to_values plain_cipher (λ s. refl, λ s. not_empty s, λ b. refl) gus
      (refl, refl, refl, refl, refl, tt, tt)

abbrev left_user : UserRow
left_user = record (user_to_values plain_cipher gus) {
  deleted_at = some 200;
  email = some "gus@example.org";
}

anonymise_lem_example :
    (is_stale 900 left_user ≡ true
      → let row' = anonymise (λ i. "0123") 900 left_user in
        (row'.email ≡ none)
        × (row'.hashed_password ≡ "")
        × (row'.two_factor_secret ≡ none)
        × ((later : Time) → anonymise (λ i. "0123") later row' ≡ row')
        × ((u : User) → row_to_user plain_cipher row' ≢ ok u))
    × (left_user.email ≡ none → anonymise (λ i. "0123") 900 left_user ≡ left_user)
anonymise_lem_example = anonymise_lem (λ i. "0123") plain_cipher 900 left_user

abbrev week : MaintenanceConfig
week = record {
  session_grace_days = 7;
  outbox_retention_days = 7;
  audit_retention_days = 365;
  deleted_user_retention_days = 30;
  dry_run = false;
}

abbrev kept_tables : Tables
kept_tables = record {
  sessions = record { sessions = []; tokens = [] };
  outbox = [];
  audit_logs = [];
  users = left_user ∷ [];
}

abbrev served : JobName → Bool
served processed_outbox = false
served _ = true

run_once_lem_example : (run_once (λ i. "0123") week 9000000000000 served kept_tables).1 ≡ record {
  sessions =
      after_cutoff SessionRepo.delete_expired
        (applied_to (λ i. "0123") week 9000000000000 served expired_sessions 7)
        kept_tables.sessions;
  outbox =
      after_cutoff Outbox.delete_processed_older_than
        (applied_to (λ i. "0123") week 9000000000000 served processed_outbox 7)
        kept_tables.outbox;
  audit_logs =
      after_cutoff
        (λ before rows. keep (λ (a : AuditLog). not (ltb a.timestamp before)) rows)
        (applied_to (λ i. "0123") week 9000000000000 served old_audit_entries 365)
        kept_tables.audit_logs;
  users =
      after_cutoff
        (λ before rows. map (anonymise (λ i. "0123") before) rows)
        (applied_to (λ i. "0123") week 9000000000000 served deleted_users 30)
        kept_tables.users;
}
run_once_lem_example = run_once_lem (λ i. "0123") week 9000000000000 served kept_tables
