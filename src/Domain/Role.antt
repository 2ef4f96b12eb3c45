-- ===== src/Domain/Role.antt =====
-- src/domain/user/entities/rbac.py: roles, their permissions and assignments to users. A
-- permission's and a role's name is checked where it is made (Domain/Names.antt).
pub mod Permissions
use fast_stream_template.Common.{
  String, Bool, false, not, ◌||◌, Option, none, some, List, [], ◌∷◌, ◌++◌, str_eq, ◌==◌,
  if◌then◌else◌, opt_str_eq, Time, Uuid, length, any, keep,
}
use fast_stream_template.Domain.Events.{Event, role_created, role_updated, role_deleted}

pub record Permission : Type 0 where
  pub name : String
  pub description : Option String

pub record Role : Type 0 where
  pub role_id : Uuid
  pub name : String
  pub description : Option String
  pub permissions : List Permission
  pub events : List Event

abbrev pub record_event : Role → Event → Role
record_event r e = record r { events = r.events ++ e ∷ [] }

-- Role.create, with the drawn id
unfoldable pub create : String → Option String → Uuid → Role
create name description role_id = record {
  role_id = role_id;
  name = name;
  description = description;
  permissions = [];
  events = role_created role_id name ∷ [];
}

unfoldable pub has_permission : Role → String → Bool
has_permission r permission_name = any (λ p. str_eq p.name permission_name) r.permissions

unfoldable pub add_permission : Role → Permission → Role
unfolding has_permission
add_permission r permission =
    if has_permission r permission.name
    then r
    else record_event (record r { permissions = r.permissions ++ permission ∷ [] })
        (role_updated r.role_id ("permissions" ∷ []))

unfoldable pub remove_permission : Role → String → Role
remove_permission r permission_name =
    let new_permissions =
      keep (λ (p : Permission). not (str_eq p.name permission_name)) r.permissions in
    let role : Role = record r { permissions = new_permissions } in
    if not (length new_permissions == length r.permissions)
    then record_event role (role_updated r.role_id ("permissions" ∷ []))
    else role

-- `name is not None and name != self.name`
abbrev pub new_text : Option String → String → Bool
new_text none current = false
new_text (some t) current = not (str_eq t current)

-- `description is not None and description != self.description`
abbrev pub new_optional : Option String → Option String → Bool
new_optional none current = false
new_optional (some t) current = not (opt_str_eq (some t) current)

abbrev pub get_or : Option String → String → String
get_or none d = d
get_or (some t) d = t

unfoldable pub update : Role → Option String → Option String → Role
update r name description =
    let renamed = new_text name r.name in
    let redescribed = new_optional description r.description in
    let updated_fields =
      (if renamed then "name" ∷ [] else []) ++ (if redescribed then "description" ∷ [] else []) in
    if not (renamed || redescribed)
    then r
    else record_event
        (record r {
          name = if renamed then get_or name r.name else r.name;
          description = if redescribed then description else r.description;
        })
        (role_updated r.role_id updated_fields)

unfoldable pub delete : Role → Role
delete r = record_event r (role_deleted r.role_id)

-- UserRole, with its identity: the user and the role
pub record UserRole : Type 0 where
  pub user_id : Uuid
  pub role_id : Uuid
  pub assigned_at : Time
  pub assigned_by : Option Uuid
