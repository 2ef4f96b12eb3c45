-- ===== src/Application/Rbac/Checks.antt =====
-- What a check of a permission answers.
use fast_stream_template.Common.{
  Bool, Bool-cases, List, Option, String, Uuid, [], ◌∷◌, any, keep, none, some, is_some,
  if◌then◌else◌, ◌&&◌, ◌||◌, ◌==◌, ◌≡◌, refl, ◌∙◌, arith, inl, inr,
}
use fast_stream_template.Errors.{err, ok, permission_denied}
use fast_stream_template.Domain.Role
use fast_stream_template.Domain.Role.{Permission, Role, UserRole}
use fast_stream_template.Infrastructure.RoleRepo
use fast_stream_template.Infrastructure.RoleRepo.{RoleTables, role_permissions}
use fast_stream_template.Infrastructure.RoleRepo.Links.{grants}
use fast_stream_template.Infrastructure.RoleRepo.Fresh.{acquire_by_id_lem}
use fast_stream_template.Application.Rbac.{
  cons_found, get_user_roles, has_permission, require_permission, roles_of,
}

-- An assignment through which the user may do what the permission says
abbrev pub entitles : RoleTables → Uuid → String → UserRole → Bool
entitles db user_id name ur =
    ur.user_id == user_id
    && is_some (RoleRepo.acquire_by_id db ur.role_id)
    && grants db ur.role_id name

any_found :
    (db : RoleTables) (name : String) (role_id : Uuid) (found : Option Role) (roles : List Role)
    → RoleRepo.acquire_by_id db role_id ≡ found
    → any (λ (role : Role). Role.has_permission role name) (cons_found found roles) ≡ (
        (is_some found && grants db role_id name)
        || any (λ (role : Role). Role.has_permission role name) roles)
unfolding Role.has_permission
any_found db name role_id none roles h = refl
any_found db name role_id (some role) roles h =
    let (same, loaded) = acquire_by_id_lem db role_id role h in rw loaded refl

entitled_lem :
    (db : RoleTables) (user_id : Uuid) (name : String) (rows : List UserRole)
    → any
        (λ (role : Role). Role.has_permission role name)
        (roles_of db (keep (λ (ur : UserRole). ur.user_id == user_id) rows))
      ≡ any (entitles db user_id name) rows
unfolding roles_of
entitled_lem db user_id name [] = refl
entitled_lem db user_id name (ur ∷ urs) = elim (Bool-cases (ur.user_id == user_id)) [
  | inr e ↦ rw e (entitled_lem db user_id name urs)
  | inl e ↦ rw e (
      any_found db name ur.role_id (RoleRepo.acquire_by_id db ur.role_id) _ refl
      ∙ rw (entitled_lem db user_id name urs) refl)
]

-- A user has a permission exactly if some assignment gives the user a role that exists and that
-- loads with the permission; requiring the permission raises exactly if the user has it not.
pub has_permission_lem :
    (db : RoleTables) (user_id : Uuid) (name : String)
    → (has_permission db user_id name ≡ any (entitles db user_id name) db.user_roles)
      × (require_permission db user_id name
          ≡ (if any (entitles db user_id name) db.user_roles then ok tt else err permission_denied))
unfolding has_permission get_user_roles RoleRepo.acquire_by_user_id require_permission
has_permission_lem db user_id name =
    let same = entitled_lem db user_id name db.user_roles in (same, rw same (ground arith))
