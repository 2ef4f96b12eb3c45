-- ===== src/Application/Rbac/Granted.antt =====
-- Adding a permission to a role and taking one from it, against the relation of roles and
-- permissions.
use fast_stream_template.Common.{
  Bool, List, Option, String, Uuid, ℕ, [], ◌∷◌, ◌++◌, any, keep, none, some, not, str_eq,
  if◌then◌else◌, ◌&&◌, ◌||◌, ◌==◌, true, ◌≡◌, refl, ◌∙◌, arith,
}
use mathlib.Core.Path.{subst}
use fast_stream_template.Errors.{Result, err, ok}
use fast_stream_template.Domain.Events.{Event}
use fast_stream_template.Domain.Role
use fast_stream_template.Domain.Role.{Permission, Role, UserRole}
use fast_stream_template.Domain.Role.Permissions.{
  has_permission-add_permission, has_permission-remove_permission,
}
use fast_stream_template.Infrastructure.RoleRepo
use fast_stream_template.Infrastructure.RoleRepo.{
  PermissionRow, RoleTables, named, permission_row, role_permissions,
}
use fast_stream_template.Infrastructure.RoleRepo.Links.{Coherent, grants, present}
use fast_stream_template.Infrastructure.RoleRepo.Updates.{permissions-update}
use fast_stream_template.Infrastructure.RoleRepo.Fresh.{
  Coherent-snoc, acquire_permission_lem, fresh, grants-add_permission, present-role_permissions,
  present_last, present_more,
}
use fast_stream_template.Application.Rbac.{add_made, made_permission, remove_found}
use fast_stream_template.Application.Rbac.Effects.{changed_lem, holds}
use fast_stream_template.Application.Rbac.Calls.{
  Call, Refined, add_permission, grants_after, holds_after, remove_permission,
}

present-keep :
    (f : Permission → Bool) (rows : List PermissionRow) (ps : List Permission)
    → present rows ps ≡ true
    → present rows (keep f ps) ≡ true
present-keep f rows [] h = refl
present-keep f rows (p ∷ ps) h = ground (arith, present-keep f rows ps)

present-append :
    (rows : List PermissionRow) (ps qs : List Permission)
    → present rows ps ≡ true
    → present rows qs ≡ true
    → present rows (ps ++ qs) ≡ true
present-append rows [] qs h k = k
present-append rows (p ∷ ps) qs h k = ground (arith, present-append rows ps qs)

-- Every permission of a changed role has a row if those of the role have.
present-removed :
    (rows : List PermissionRow) (role : Role) (name : String)
    → present rows role.permissions ≡ true
    → present rows (Role.remove_permission role name).permissions ≡ true
unfolding Role.remove_permission
present-removed rows role name h =
    let kept =
      present-keep (λ (p : Permission). not (str_eq p.name name)) rows role.permissions h in
    ground arith

present-added :
    (rows : List PermissionRow) (role : Role) (p : Permission)
    → present rows role.permissions ≡ true
    → any (named p.name) rows ≡ true
    → present rows (Role.add_permission role p).permissions ≡ true
unfolding Role.add_permission
present-added rows role p h k =
    let more = present-append rows role.permissions (p ∷ []) h (ground arith) in ground arith

id-added : (role : Role) (p : Permission) → (Role.add_permission role p).role_id ≡ role.role_id
unfolding Role.add_permission
id-added role p = ground arith

id-removed :
    (role : Role) (name : String) → (Role.remove_permission role name).role_id ≡ role.role_id
unfolding Role.remove_permission
id-removed role name = ground arith

-- `update` of a changed role, where every permission of it has a row
update_lem :
    (id_of : ℕ → Uuid) (role v : Role) (db base db' : RoleTables) (call : Call) (role_id : Uuid)
    (f : Bool → String → Bool)
    → Coherent db.permissions
    → present db.permissions role.permissions ≡ true
    → role.role_id ≡ role_id
    → ((name : String) → Role.has_permission role name ≡ f (grants base role_id name) name)
    → ((r : Uuid) (name : String) → grants db r name ≡ grants base r name)
    → RoleRepo.update id_of role db ≡ db'
    → db.user_roles ≡ base.user_roles
    → ((u r : Uuid) → holds base u r ≡ holds_after call (holds base) u r)
    → ((r : Uuid) (name : String)
        → (if role_id == r then f (grants base r name) name else grants base r name)
          ≡ grants_after call (grants base) r name)
    → Refined call base db'
unfolding RoleRepo.update
update_lem id_of role v db base db' call role_id f c p same has old done users held granted =
    subst (Refined call base) done (
      (
        λ u r. rw users (held u r),
        λ r name.
            changed_lem id_of role db (grants base) role_id f c p same has old r name
            ∙ granted r name,
      ),
      rw (permissions-update id_of role db p) c,
    )

loaded_has :
    (role : Role) (db : RoleTables) (role_id : Uuid)
    → role.permissions ≡ role_permissions db role_id
    → (n : String) → Role.has_permission role n ≡ grants db role_id n
unfolding Role.has_permission
loaded_has role db role_id loaded n = rw loaded refl

pub remove_found_lem :
    (id_of : ℕ → Uuid) (db db' : RoleTables) (role_id : Uuid) (name : String) (role v : Role)
    (es : List Event)
    → Coherent db.permissions
    → role.role_id ≡ role_id
    → role.permissions ≡ role_permissions db role_id
    → remove_found id_of name db (some role) ≡ ok (v, (db', es))
    → Refined (remove_permission role_id name) db db'
remove_found_lem id_of db db' role_id name role v es c same loaded h =
    let here : present db.permissions role.permissions ≡ true =
      rw loaded (present-role_permissions db role_id) in
    update_lem id_of (Role.remove_permission role name) v db db db' (remove_permission role_id name)
      role_id (λ b n. b && not (str_eq n name)) c (present-removed db.permissions role name here)
      (id-removed role name ∙ same)
      (λ n.
        has_permission-remove_permission role name n
        ∙ rw (loaded_has role db role_id loaded n) refl)
      (λ r n. refl) (ground arith) refl (λ u r. refl) (λ r n. refl)

add_made_lem :
    (id_of : ℕ → Uuid) (db base db' : RoleTables) (drawn role_id : Uuid) (p : Permission)
    (role v : Role) (es : List Event)
    → Coherent db.permissions
    → role.role_id ≡ role_id
    → role.permissions ≡ role_permissions base role_id
    → present db.permissions role.permissions ≡ true
    → any (named p.name) db.permissions ≡ true
    → ((r : Uuid) (n : String) → grants db r n ≡ grants base r n)
    → db.user_roles ≡ base.user_roles
    → add_made id_of role (ok (p, db)) ≡ ok (v, (db', es))
    → Refined (add_permission drawn role_id p.name) base db'
add_made_lem id_of db base db' drawn role_id p role v es c same loaded here row old users h =
    update_lem id_of (Role.add_permission role p) v db base db'
      (add_permission drawn role_id p.name) role_id (λ b n. b || str_eq p.name n) c
      (present-added db.permissions role p here row) (id-added role p ∙ same)
      (λ n.
        has_permission-add_permission role p n ∙ rw (loaded_has role base role_id loaded n) refl)
      old (ground arith) users (λ u r. refl) (λ r n. refl)

pub add_found_lem :
    (id_of : ℕ → Uuid) (db db' : RoleTables) (drawn role_id : Uuid) (name : String) (role v : Role)
    (es : List Event) (found : Option Permission) (valid : Result (Unit {0}))
    → Coherent db.permissions
    → fresh drawn db ≡ true
    → role.role_id ≡ role_id
    → role.permissions ≡ role_permissions db role_id
    → RoleRepo.acquire_permission db name ≡ found
    → add_made id_of role (made_permission drawn name db found valid) ≡ ok (v, (db', es))
    → Refined (add_permission drawn role_id name) db db'
unfolding RoleRepo.add_permission
add_found_lem id_of db db' drawn role_id name role v es none (err e) c new same loaded found h =
    absurd (cc h)
add_found_lem id_of db db' drawn role_id name role v es none (ok o) c new same loaded found h =
    let p : Permission = record { name = name; description = none } in
    let unnamed = (acquire_permission_lem db name).0 found in
    let here : present db.permissions role.permissions ≡ true =
      rw loaded (present-role_permissions db role_id) in
    add_made_lem id_of (RoleRepo.add_permission drawn p db) db db' drawn role_id p role v es
      (Coherent-snoc drawn p db.permissions (ground arith) unnamed c) same loaded
      (present_more role.permissions db.permissions (permission_row drawn p) here)
      (present_last p db.permissions drawn) (λ r n. grants-add_permission drawn p db r n new) refl h
add_found_lem id_of db db' drawn role_id name role v es (some p) valid c new same loaded found h =
    let (named_so, row) = (acquire_permission_lem db name).1 p found in
    let here : present db.permissions role.permissions ≡ true =
      rw loaded (present-role_permissions db role_id) in
    subst (λ (n : String). Refined (add_permission drawn role_id n) db db') named_so
      (add_made_lem id_of db db db' drawn role_id p role v es c same loaded here (rw named_so row)
        (λ r n. refl) refl h)
