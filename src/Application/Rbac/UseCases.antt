-- ===== src/Application/Rbac/UseCases.antt =====
-- src/application/user/commands/rbac.py. `drawn` is the id of a new role or permission, `id_of` and
-- `row_id_of` draw the ids of other permissions and of outbox rows.
use fast_stream_template.Common.{List, Option, String, Uuid, Time, ℕ, ◌++◌, map, none, some}
use fast_stream_template.Errors.{Result, err, ok}
use fast_stream_template.Domain.Role.{Permission, Role}
use fast_stream_template.Domain.Names.{
  codes, validate_role_id, validate_role_name, validate_user_id,
}
use fast_stream_template.Application.UnitOfWork.{persist}
use fast_stream_template.Application.Rbac.{
  RoleDatabase, Written, add_permission_to_role, assign_role, create_role, delete_role,
  remove_permission_from_role, revoke_role,
}

-- RoleOutput
pub record RoleOutput : Type 0 where
  pub role_id : Uuid
  pub name : String
  pub description : Option String
  pub permissions : List String

-- RoleOutput.from_role
unfoldable pub from_role : Role → RoleOutput
from_role role = record {
  role_id = role.role_id;
  name = role.name;
  description = role.description;
  permissions = map (λ (p : Permission). p.name) role.permissions;
}

-- The commit of a use case, or the end of the transaction without one
abbrev pub settle :
    {A B : Type 0}
    → (ℕ → Uuid)
    → Time
    → (A → B)
    → RoleDatabase
    → Written A
    → Result B × RoleDatabase
settle id_of now f db (err e) = (err e, db)
settle id_of now f db (ok (a, (tables, events))) =
    (ok (f a), record db { tables = tables; outbox = db.outbox ++ persist id_of 0 now events })

-- The construction of an id or a name, which raises before the service is called
abbrev pub unless_refused : {A : Type 0} → Result (Unit {0}) → Written A → Written A
unless_refused (err e) r = err e
unless_refused (ok o) r = r

abbrev pub valid_user : Option Uuid → Result (Unit {0})
valid_user none = ok tt
valid_user (some u) = validate_user_id u

module _ (drawn : Uuid) (id_of row_id_of : ℕ → Uuid) (now : Time) (db : RoleDatabase) where
  -- CreateRoleUseCase
  unfoldable pub create_role_use_case : String → Option String → Result RoleOutput × RoleDatabase
  create_role_use_case name description = settle row_id_of now from_role db (
      unless_refused (validate_role_name (codes name))
        (create_role drawn id_of name description db.tables))

  -- DeleteRoleUseCase
  unfoldable pub delete_role_use_case : Uuid → Result (Unit {0}) × RoleDatabase
  delete_role_use_case role_id =
      settle row_id_of now (λ r. tt) db
        (unless_refused (validate_role_id role_id) (delete_role role_id db.tables))

  -- AssignRoleUseCase
  unfoldable pub assign_role_use_case : Uuid → Uuid → Option Uuid → Result (Unit {0}) × RoleDatabase
  assign_role_use_case user_id role_id assigned_by =
      settle row_id_of now (λ u. tt) db
        (unless_refused (validate_user_id user_id) (
          unless_refused (validate_role_id role_id) (
            unless_refused (valid_user assigned_by)
              (assign_role db.users user_id role_id assigned_by now db.tables))))

  -- RevokeRoleUseCase
  unfoldable pub revoke_role_use_case : Uuid → Uuid → Result (Unit {0}) × RoleDatabase
  revoke_role_use_case user_id role_id =
      settle row_id_of now (λ u. tt) db
        (unless_refused (validate_user_id user_id) (
          unless_refused (validate_role_id role_id)
            (revoke_role db.users user_id role_id db.tables)))

  -- AddPermissionToRoleUseCase
  unfoldable pub add_permission_use_case : Uuid → String → Result RoleOutput × RoleDatabase
  add_permission_use_case role_id permission_name = settle row_id_of now from_role db (
      unless_refused (validate_role_id role_id)
        (add_permission_to_role drawn id_of role_id permission_name db.tables))

  -- RemovePermissionFromRoleUseCase
  unfoldable pub remove_permission_use_case : Uuid → String → Result RoleOutput × RoleDatabase
  remove_permission_use_case role_id permission_name = settle row_id_of now from_role db (
      unless_refused (validate_role_id role_id)
        (remove_permission_from_role id_of role_id permission_name db.tables))
