-- ===== src/Application/Rbac/Calls.antt =====
-- The calls of the service of roles, and what each does to two relations: which user holds which
-- role, and which role grants which permission.
use fast_stream_template.Common.{
  Bool, List, Option, String, Uuid, Time, ℕ, none, some, not, str_eq, if◌then◌else◌, ◌&&◌, ◌||◌,
  ◌==◌, true, ◌≡◌, refl,
}
use fast_stream_template.Errors.{err, ok}
use fast_stream_template.Domain.Events.{Event}
use fast_stream_template.Domain.User.{User}
use fast_stream_template.Infrastructure.RoleRepo.{RoleTables}
use fast_stream_template.Infrastructure.RoleRepo.Links.{Coherent, grants}
use fast_stream_template.Infrastructure.RoleRepo.Fresh.{fresh}
use fast_stream_template.Application.Rbac.{
  Written, add_permission_to_role, assign_role, delete_role, remove_permission_from_role,
  revoke_role,
}
use fast_stream_template.Application.Rbac.Effects.{Becomes, holds}

-- A call of the service that changes what users may do; `drawn` is the id of a new permission
pub data Call : Type 0 where
  assign : (user_id role_id : Uuid) (assigned_by : Option Uuid) (now : Time) → Call
  revoke : (user_id role_id : Uuid) → Call
  delete : (role_id : Uuid) → Call
  add_permission : (drawn role_id : Uuid) (name : String) → Call
  remove_permission : (role_id : Uuid) (name : String) → Call

-- The tables after a method, if it has not raised
abbrev pub tables_of : {A : Type 0} → Written A → Option RoleTables
tables_of (ok (a, (db, es))) = some db
tables_of (err e) = none

abbrev pub run : List User → (ℕ → Uuid) → Call → RoleTables → Option RoleTables
run users id_of (assign user_id role_id by now) db =
    tables_of (assign_role users user_id role_id by now db)
run users id_of (revoke user_id role_id) db = tables_of (revoke_role users user_id role_id db)
run users id_of (delete role_id) db = tables_of (delete_role role_id db)
run users id_of (add_permission drawn role_id name) db =
    tables_of (add_permission_to_role drawn id_of role_id name db)
run users id_of (remove_permission role_id name) db =
    tables_of (remove_permission_from_role id_of role_id name db)

-- What the call does to the relation of users and roles
abbrev pub holds_after : Call → (Uuid → Uuid → Bool) → Uuid → Uuid → Bool
holds_after (assign user_id role_id by now) held u r = held u r || (user_id == u && role_id == r)
holds_after (revoke user_id role_id) held u r = held u r && not (user_id == u && role_id == r)
holds_after (delete role_id) held u r = held u r && not (role_id == r)
holds_after (add_permission drawn role_id name) held u r = held u r
holds_after (remove_permission role_id name) held u r = held u r

-- What the call does to the relation of roles and permissions
abbrev pub grants_after : Call → (Uuid → String → Bool) → Uuid → String → Bool
grants_after (assign user_id role_id by now) granted r n = granted r n
grants_after (revoke user_id role_id) granted r n = granted r n
grants_after (delete role_id) granted r n = granted r n && not (role_id == r)
grants_after (add_permission drawn role_id name) granted r n =
    if role_id == r then granted r n || str_eq name n else granted r n
grants_after (remove_permission role_id name) granted r n =
    if role_id == r then granted r n && not (str_eq n name) else granted r n

-- The id that the call may give to a new permission is new.
abbrev pub DrawsFresh : Call → RoleTables → Type 0
DrawsFresh (add_permission drawn role_id name) db = fresh drawn db ≡ true
DrawsFresh _ db = Unit

pub written_lem :
    {A : Type 0} (r : Written A) (db' : RoleTables)
    → tables_of r ≡ some db'
    → (a : A) × (es : List Event) × (r ≡ ok (a, (db', es)))
written_lem (ok (a, (db, es))) db' h = let same : db ≡ db' = cc h in (a, es, rw same refl)
written_lem (err e) db' h = absurd (cc h)

-- What a call leaves
abbrev pub Refined : Call → RoleTables → RoleTables → Type 0
Refined call db db' =
    Becomes db' (holds_after call (holds db)) (grants_after call (grants db))
    × Coherent db'.permissions
