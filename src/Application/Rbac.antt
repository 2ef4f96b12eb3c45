-- ===== src/Application/Rbac.antt =====
-- src/application/user/rbac_service.py. `drawn` is the id of a new role or permission, `id_of` draws
-- those of other permissions, `now` is the one reading of the clock.
pub mod UseCases
pub mod Effects
pub mod Checks
pub mod Calls
pub mod Granted
pub mod Refines
pub mod Requests
pub mod Admin
use fast_stream_template.Common.{
  Bool, List, Option, String, Uuid, Time, ℕ, [], ◌∷◌, ◌++◌, any, map, none, some, not, str_eq,
  is_some, if◌then◌else◌, ◌==◌,
}
use fast_stream_template.Errors.{
  Error, Result, err, ok, permission_denied, role_already_exists, role_not_found, user_not_found,
}
use fast_stream_template.Domain.Events.{Event}
use fast_stream_template.Domain.User
use fast_stream_template.Domain.User.{User}
use fast_stream_template.Domain.Role
use fast_stream_template.Domain.Role.{Permission, Role, UserRole}
use fast_stream_template.Domain.Names.{
  codes, validate_permission, validate_role_id, validate_role_name, validate_user_id,
}
use fast_stream_template.Infrastructure.Outbox.{OutboxEvent}
use fast_stream_template.Infrastructure.UserRepo
use fast_stream_template.Infrastructure.RoleRepo
use fast_stream_template.Infrastructure.RoleRepo.{RoleTables}
use fast_stream_template.Application.UnitOfWork.{persist}

-- The rows that the use cases of roles read and write
pub record RoleDatabase : Type 0 where
  pub users : List User
  pub tables : RoleTables
  pub outbox : List OutboxEvent

-- DEFAULT_ROLE_ADMIN
abbrev pub default_role_admin : String
default_role_admin = "admin"

-- The tables that a method leaves, and the events of the aggregate that it registers
abbrev pub Written : Type 0 → Type 0
Written A = Result (A × (RoleTables × List Event))

-- Role, tables and events of a role that was written
abbrev pub wrote : Role → RoleTables → Written Role
wrote r db = ok (r, (db, r.events))

-- The events of a user, without a write of its row
abbrev pub recorded : User → RoleTables → Written User
recorded u db = ok (u, (db, u.events))

-- create_role
unfoldable pub create_role : Uuid → (ℕ → Uuid) → String → Option String → RoleTables → Written Role
create_role drawn id_of name description db =
    if is_some (RoleRepo.acquire_by_name db name)
    then err role_already_exists
    else (let role = Role.create name description drawn in wrote role (RoleRepo.add id_of role db))

abbrev pub delete_found : RoleTables → Uuid → Option Role → Written Role
delete_found db role_id none = err role_not_found
delete_found db role_id (some role) =
    if str_eq role.name default_role_admin
    then err permission_denied
    else wrote (Role.delete role) (RoleRepo.delete role_id db)

-- delete_role
unfoldable pub delete_role : Uuid → RoleTables → Written Role
delete_role role_id db = delete_found db role_id (RoleRepo.acquire_by_id db role_id)

abbrev pub assign_found :
    RoleTables → Uuid → Uuid → Option Uuid → Time → Option User → Option Role → Written User
assign_found db user_id role_id assigned_by now none role = err user_not_found
assign_found db user_id role_id assigned_by now (some user) none = err role_not_found
assign_found db user_id role_id assigned_by now (some user) (some role) =
    if is_some (RoleRepo.acquire_by_user_and_role db user_id role_id)
    then ok (user, (db, []))
    else recorded (User.assign_role user role_id assigned_by) (
        RoleRepo.add_user_role
          (record {
            user_id = user_id;
            role_id = role_id;
            assigned_at = now;
            assigned_by = assigned_by;
          })
          db)

-- assign_role
unfoldable pub assign_role :
    List User → Uuid → Uuid → Option Uuid → Time → RoleTables → Written User
assign_role users user_id role_id assigned_by now db =
    assign_found db user_id role_id assigned_by now (UserRepo.acquire_by_id user_id users)
      (RoleRepo.acquire_by_id db role_id)

abbrev pub revoke_found : RoleTables → Uuid → Uuid → Option User → Option Role → Written User
revoke_found db user_id role_id none role = err user_not_found
revoke_found db user_id role_id (some user) none = err role_not_found
revoke_found db user_id role_id (some user) (some role) =
    if str_eq role.name default_role_admin
    then err permission_denied
    else recorded (User.revoke_role user role_id) (RoleRepo.delete_user_role user_id role_id db)

-- revoke_role
unfoldable pub revoke_role : List User → Uuid → Uuid → RoleTables → Written User
revoke_role users user_id role_id db =
    revoke_found db user_id role_id (UserRepo.acquire_by_id user_id users)
      (RoleRepo.acquire_by_id db role_id)

abbrev pub cons_found : Option Role → List Role → List Role
cons_found none roles = roles
cons_found (some role) roles = role ∷ roles

-- The loop of get_user_roles
unfoldable pub roles_of : RoleTables → List UserRole → List Role
roles_of db [] = []
roles_of db (ur ∷ urs) = cons_found (RoleRepo.acquire_by_id db ur.role_id) (roles_of db urs)

-- get_user_roles
unfoldable pub get_user_roles : RoleTables → Uuid → List Role
unfolding roles_of
get_user_roles db user_id = roles_of db (RoleRepo.acquire_by_user_id db user_id)

-- has_permission
unfoldable pub has_permission : RoleTables → Uuid → String → Bool
unfolding get_user_roles
has_permission db user_id permission =
    any (λ (role : Role). Role.has_permission role permission) (get_user_roles db user_id)

-- require_permission
unfoldable pub require_permission : RoleTables → Uuid → String → Result (Unit {0})
unfolding has_permission
require_permission db user_id permission =
    if not (has_permission db user_id permission) then err permission_denied else ok tt

-- The permission of a name, and the tables with it: made with the drawn id if there is none
abbrev pub made_permission :
    Uuid
    → String
    → RoleTables
    → Option Permission
    → Result (Unit {0})
    → Result (Permission × RoleTables)
made_permission id name db (some p) checked = ok (p, db)
made_permission id name db none (err e) = err e
made_permission id name db none (ok o) =
    let p : Permission = record { name = name; description = none } in
    ok (p, RoleRepo.add_permission id p db)

abbrev pub add_made : (ℕ → Uuid) → Role → Result (Permission × RoleTables) → Written Role
add_made id_of role (err e) = err e
add_made id_of role (ok (p, db)) =
    let updated_role = Role.add_permission role p in
    wrote updated_role (RoleRepo.update id_of updated_role db)

abbrev pub add_found : Uuid → (ℕ → Uuid) → String → RoleTables → Option Role → Written Role
add_found drawn id_of name db none = err role_not_found
add_found drawn id_of name db (some role) = add_made id_of role (
    made_permission drawn name db (RoleRepo.acquire_permission db name)
      (validate_permission (codes name)))

-- add_permission_to_role
unfoldable pub add_permission_to_role :
    Uuid → (ℕ → Uuid) → Uuid → String → RoleTables → Written Role
add_permission_to_role drawn id_of role_id permission_name db =
    add_found drawn id_of permission_name db (RoleRepo.acquire_by_id db role_id)

abbrev pub remove_found : (ℕ → Uuid) → String → RoleTables → Option Role → Written Role
remove_found id_of name db none = err role_not_found
remove_found id_of name db (some role) =
    let updated_role = Role.remove_permission role name in
    wrote updated_role (RoleRepo.update id_of updated_role db)

-- remove_permission_from_role
unfoldable pub remove_permission_from_role : (ℕ → Uuid) → Uuid → String → RoleTables → Written Role
remove_permission_from_role id_of role_id permission_name db =
    remove_found id_of permission_name db (RoleRepo.acquire_by_id db role_id)
