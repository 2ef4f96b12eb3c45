-- ===== src/Application/Rbac/Refines.antt =====
-- The service of roles against the two relations of Calls.antt.
use fast_stream_template.Common.{List, Option, String, Uuid, ℕ, none, some, true, ◌≡◌, refl}
use fast_stream_template.Errors.{ok}
use fast_stream_template.Domain.Events.{Event}
use fast_stream_template.Domain.User.{User}
use fast_stream_template.Domain.Role.{Role}
use fast_stream_template.Domain.Names.{codes, validate_permission}
use fast_stream_template.Infrastructure.UserRepo
use fast_stream_template.Infrastructure.RoleRepo
use fast_stream_template.Infrastructure.RoleRepo.{
  PermissionRow, RoleTables, named, permission_row, role_permissions,
}
use fast_stream_template.Infrastructure.RoleRepo.Links.{Coherent}
use fast_stream_template.Infrastructure.RoleRepo.Fresh.{acquire_by_id_lem, fresh}
use fast_stream_template.Application.Rbac.{
  add_found, add_permission_to_role, assign_role, delete_role, remove_found,
  remove_permission_from_role, revoke_role,
}
use fast_stream_template.Application.Rbac.Effects.{
  assign_found_lem, delete_found_lem, revoke_found_lem,
}
use fast_stream_template.Application.Rbac.Calls.{
  Call, DrawsFresh, Refined, add_permission, assign, delete, remove_permission, revoke, run,
  written_lem,
}
use fast_stream_template.Application.Rbac.Granted.{add_found_lem, remove_found_lem}

for_remove :
    (id_of : ℕ → Uuid) (db db' : RoleTables) (role_id : Uuid) (name : String) (v : Role)
    (es : List Event) (found : Option Role)
    → Coherent db.permissions
    → RoleRepo.acquire_by_id db role_id ≡ found
    → remove_found id_of name db found ≡ ok (v, (db', es))
    → Refined (remove_permission role_id name) db db'
for_remove id_of db db' role_id name v es none c e h = absurd (cc h)
for_remove id_of db db' role_id name v es (some role) c e h =
    let (same, loaded) = acquire_by_id_lem db role_id role e in
    remove_found_lem id_of db db' role_id name role v es c same loaded h

for_add :
    (id_of : ℕ → Uuid) (db db' : RoleTables) (drawn role_id : Uuid) (name : String) (v : Role)
    (es : List Event) (found : Option Role)
    → Coherent db.permissions
    → fresh drawn db ≡ true
    → RoleRepo.acquire_by_id db role_id ≡ found
    → add_found drawn id_of name db found ≡ ok (v, (db', es))
    → Refined (add_permission drawn role_id name) db db'
for_add id_of db db' drawn role_id name v es none c new e h = absurd (cc h)
for_add id_of db db' drawn role_id name v es (some role) c new e h =
    let (same, loaded) = acquire_by_id_lem db role_id role e in
    add_found_lem id_of db db' drawn role_id name role v es (RoleRepo.acquire_permission db name)
      (validate_permission (codes name)) c new same loaded refl h

-- Each of the five calls of the service that returns does to the two relations what the call says, and
-- nothing else: an assignment adds one pair of a user and a role, a revocation takes it away, a deletion
-- takes the role from every user and every permission from the role, and a permission is added to,
-- or taken from, one role. The permissions of the table have the same id exactly if they have the
-- same name, before and after; the id drawn for a new permission is not in the tables.
pub run-Refined :
    (users : List User) (id_of : ℕ → Uuid) (call : Call) (db db' : RoleTables)
    → Coherent db.permissions
    → DrawsFresh call db
    → run users id_of call db ≡ some db'
    → Refined call db db'
unfolding assign_role revoke_role delete_role add_permission_to_role remove_permission_from_role
run-Refined users id_of (assign user_id role_id by now) db db' c new h =
    let (v, es, ran) = written_lem (assign_role users user_id role_id by now db) db' h in
    let (becomes, kept) =
      assign_found_lem db db' user_id role_id by now (UserRepo.acquire_by_id user_id users)
        (RoleRepo.acquire_by_id db role_id) v es ran in
    (becomes, rw kept c)
run-Refined users id_of (revoke user_id role_id) db db' c new h =
    let (v, es, ran) = written_lem (revoke_role users user_id role_id db) db' h in
    let (becomes, kept) =
      revoke_found_lem db db' user_id role_id (UserRepo.acquire_by_id user_id users)
        (RoleRepo.acquire_by_id db role_id) v es ran in
    (becomes, rw kept c)
run-Refined users id_of (delete role_id) db db' c new h =
    let (v, es, ran) = written_lem (delete_role role_id db) db' h in
    let (becomes, kept) =
      delete_found_lem db db' role_id (RoleRepo.acquire_by_id db role_id) v es ran in
    (becomes, rw kept c)
run-Refined users id_of (add_permission drawn role_id name) db db' c new h =
    let (v, es, ran) = written_lem (add_permission_to_role drawn id_of role_id name db) db' h in
    for_add id_of db db' drawn role_id name v es (RoleRepo.acquire_by_id db role_id) c new refl ran
run-Refined users id_of (remove_permission role_id name) db db' c new h =
    let (v, es, ran) = written_lem (remove_permission_from_role id_of role_id name db) db' h in
    for_remove id_of db db' role_id name v es (RoleRepo.acquire_by_id db role_id) c refl ran
