-- ===== src/Infrastructure/RoleRepo.antt =====
-- src/infrastructure/db/sqlalchemy/repositories/rbac.py over its four tables. A query without an
-- order takes the rows in the order of the table, that of a role's permissions in the order of the
-- permissions. `id_of n` is the n-th id that a call draws. Names were checked before they were
-- stored, and violations of the indexes are not modelled.
pub mod Links
pub mod Updates
pub mod Fresh
use fast_stream_template.Common.{
  Bool, List, Option, String, Uuid, Time, ℕ, suc, [], ◌∷◌, ◌++◌, any, find, keep, map, none, some,
  not, str_eq, is_some, if◌then◌else◌, ◌&&◌, ◌||◌, ◌==◌, true, false,
}
use fast_stream_template.Domain.Role.{Permission, Role, UserRole}

-- _PermissionRow
pub record PermissionRow : Type 0 where
  pub id : Uuid
  pub name : String
  pub description : Option String

-- _RoleRow
pub record RoleRow : Type 0 where
  pub id : Uuid
  pub name : String
  pub description : Option String

-- A row of ROLE_PERMISSIONS_TABLE, whose primary key is both columns
pub record Link : Type 0 where
  pub role_id : Uuid
  pub permission_id : Uuid

-- The tables; a row of USER_ROLES_TABLE has the fields of the entity
pub record RoleTables : Type 0 where
  pub permissions : List PermissionRow
  pub roles : List RoleRow
  pub links : List Link
  pub user_roles : List UserRole

-- The Permission of a row
unfoldable pub permission_of : PermissionRow → Permission
permission_of row = record { name = row.name; description = row.description }

abbrev pub loaded_permission : Option PermissionRow → Option Permission
loaded_permission none = none
loaded_permission (some row) = some (permission_of row)

abbrev pub named : String → PermissionRow → Bool
named name row = str_eq row.name name

-- SQLAlchemyPermissionRepo.acquire_by_name
unfoldable pub acquire_permission : RoleTables → String → Option Permission
acquire_permission db name = loaded_permission (find (named name) db.permissions)

-- SQLAlchemyPermissionRepo.get_all
unfoldable pub get_all_permissions : RoleTables → List Permission
get_all_permissions db = map permission_of db.permissions

-- The row of an INSERT of a permission
abbrev pub permission_row : Uuid → Permission → PermissionRow
permission_row id p = record { id = id; name = p.name; description = p.description }

-- SQLAlchemyPermissionRepo.add, with the drawn id
unfoldable pub add_permission : Uuid → Permission → RoleTables → RoleTables
add_permission id p db = record db { permissions = db.permissions ++ permission_row id p ∷ [] }

-- The links of a role, to a permission
abbrev pub linked : List Link → Uuid → Uuid → Bool
linked links role_id permission_id =
    any (λ (l : Link). l.role_id == role_id && l.permission_id == permission_id) links

-- _get_role_permissions
unfoldable pub role_permissions : RoleTables → Uuid → List Permission
unfolding permission_of
role_permissions db role_id =
    map permission_of
      (keep (λ (row : PermissionRow). linked db.links role_id row.id) db.permissions)

-- The Role of a row
unfoldable pub role_of : RoleTables → RoleRow → Role
role_of db row = record {
  role_id = row.id;
  name = row.name;
  description = row.description;
  permissions = role_permissions db row.id;
  events = [];
}

abbrev pub loaded_role : RoleTables → Option RoleRow → Option Role
loaded_role db none = none
loaded_role db (some row) = some (role_of db row)

-- SQLAlchemyRoleRepo.acquire_by_id
unfoldable pub acquire_by_id : RoleTables → Uuid → Option Role
acquire_by_id db role_id = loaded_role db (find (λ (row : RoleRow). row.id == role_id) db.roles)

-- SQLAlchemyRoleRepo.acquire_by_name
unfoldable pub acquire_by_name : RoleTables → String → Option Role
acquire_by_name db name = loaded_role db (find (λ (row : RoleRow). str_eq row.name name) db.roles)

-- SQLAlchemyRoleRepo.get_all
unfoldable pub get_all : RoleTables → List Role
get_all db = map (role_of db) db.roles

abbrev pub role_row : Role → RoleRow
role_row r = record { id = r.role_id; name = r.name; description = r.description }

-- The INSERT of a permission whose name no row has
unfoldable pub ensure_permission : Uuid → Permission → List PermissionRow → List PermissionRow
ensure_permission id p rows =
    if any (named p.name) rows then rows else rows ++ permission_row id p ∷ []

abbrev pub link_found : Uuid → Option PermissionRow → List Link → List Link
link_found role_id none links = links
link_found role_id (some row) links =
    links ++ (record { role_id = role_id; permission_id = row.id }) ∷ []

-- The loop of `add` over the role's permissions
unfoldable pub add_each : (ℕ → Uuid) → ℕ → Uuid → List Permission → RoleTables → RoleTables
unfolding ensure_permission
add_each id_of n role_id [] db = db
add_each id_of n role_id (p ∷ ps) db =
    let rows = ensure_permission (id_of n) p db.permissions in
    add_each id_of (suc n) role_id ps (record db {
      permissions = rows;
      links = link_found role_id (find (named p.name) rows) db.links;
    })

-- SQLAlchemyRoleRepo.add
unfoldable pub add : (ℕ → Uuid) → Role → RoleTables → RoleTables
unfolding add_each
add id_of r db =
    add_each id_of 0 r.role_id r.permissions (record db { roles = db.roles ++ role_row r ∷ [] })

-- The UPDATE of a role's row
unfoldable pub update_row : Role → RoleRow → RoleRow
update_row r row = if row.id == r.role_id then role_row r else row

-- The loop of `update` over the role's permissions: the ids that they have, or are given
unfoldable pub desired :
    (ℕ → Uuid) → ℕ → List Permission → List PermissionRow → List PermissionRow × List Uuid
desired id_of n [] rows = (rows, [])
desired id_of n (p ∷ ps) rows = elim (find (named p.name) rows) [
  | some row ↦ let (rows', ids) = desired id_of (suc n) ps rows in (rows', row.id ∷ ids)
  | none ↦
      let (rows', ids) = desired id_of (suc n) ps (rows ++ permission_row (id_of n) p ∷ []) in
      (rows', id_of n ∷ ids)
]

-- `current_ids - desired_ids`: the links that the DELETE takes
abbrev pub unwanted : Uuid → List Uuid → Link → Bool
unwanted role_id ids l = l.role_id == role_id && not (any (λ (i : Uuid). i == l.permission_id) ids)

-- `desired_ids - current_ids`: the INSERT of each link that is not there
unfoldable pub link_all : Uuid → List Uuid → List Link → List Link
link_all role_id [] links = links
link_all role_id (i ∷ is) links = link_all role_id is (
    if linked links role_id i
    then links
    else links ++ (record { role_id = role_id; permission_id = i }) ∷ [])

-- SQLAlchemyRoleRepo.update
unfoldable pub update : (ℕ → Uuid) → Role → RoleTables → RoleTables
unfolding desired link_all update_row
update id_of r db =
    let (rows, ids) = desired id_of 0 r.permissions db.permissions in
    record db {
      permissions = rows;
      roles = map (update_row r) db.roles;
      links = link_all r.role_id ids (keep (λ (l : Link). not (unwanted r.role_id ids l)) db.links);
    }

-- SQLAlchemyRoleRepo.delete
unfoldable pub delete : Uuid → RoleTables → RoleTables
delete role_id db = record db {
  links = keep (λ (l : Link). not (l.role_id == role_id)) db.links;
  user_roles = keep (λ (ur : UserRole). not (ur.role_id == role_id)) db.user_roles;
  roles = keep (λ (row : RoleRow). not (row.id == role_id)) db.roles;
}

-- SQLAlchemyUserRoleRepo.acquire_by_user_id
unfoldable pub acquire_by_user_id : RoleTables → Uuid → List UserRole
acquire_by_user_id db user_id = keep (λ (ur : UserRole). ur.user_id == user_id) db.user_roles

abbrev pub assigns : Uuid → Uuid → UserRole → Bool
assigns user_id role_id ur = ur.user_id == user_id && ur.role_id == role_id

-- SQLAlchemyUserRoleRepo.acquire_by_user_and_role
unfoldable pub acquire_by_user_and_role : RoleTables → Uuid → Uuid → Option UserRole
acquire_by_user_and_role db user_id role_id = find (assigns user_id role_id) db.user_roles

-- SQLAlchemyUserRoleRepo.add
unfoldable pub add_user_role : UserRole → RoleTables → RoleTables
add_user_role ur db = record db { user_roles = db.user_roles ++ ur ∷ [] }

-- SQLAlchemyUserRoleRepo.delete
unfoldable pub delete_user_role : Uuid → Uuid → RoleTables → RoleTables
delete_user_role user_id role_id db = record db {
  user_roles = keep (λ (ur : UserRole). not (assigns user_id role_id ur)) db.user_roles;
}

-- SQLAlchemyUserRoleRepo.delete_by_user_id
unfoldable pub delete_roles_of : Uuid → RoleTables → RoleTables
delete_roles_of user_id db = record db {
  user_roles = keep (λ (ur : UserRole). not (ur.user_id == user_id)) db.user_roles;
}
