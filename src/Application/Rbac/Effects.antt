-- ===== src/Application/Rbac/Effects.antt =====
-- What each method of the service does to two relations: which user holds which role, and which
-- role grants which permission.
use fast_stream_template.Common.{
  Bool, Bool-cases, List, Option, String, Uuid, Time, ℕ, [], ◌∷◌, ◌++◌, any, find, keep, none, some,
  not, is_some, str_eq, if◌then◌else◌, ◌&&◌, ◌||◌, ◌==◌, true, ◌≡◌, refl, sym, ◌∙◌, arith, ap, inl,
  inr,
}
use fast_stream_template.Errors.{ok}
use fast_stream_template.Domain.Events.{Event}
use fast_stream_template.Domain.User.{User}
use fast_stream_template.Domain.Role
use fast_stream_template.Domain.Role.{Permission, Role, UserRole}
use fast_stream_template.Infrastructure.RoleRepo
use fast_stream_template.Infrastructure.RoleRepo.{
  Link, PermissionRow, RoleTables, RoleRow, assigns, linked, named, permission_row,
  role_permissions,
}
use fast_stream_template.Infrastructure.RoleRepo.Links.{Coherent, any-loaded, grants, present}
use fast_stream_template.Infrastructure.RoleRepo.Updates.{grants-update}
use fast_stream_template.Application.Rbac.{
  assign_found, default_role_admin, delete_found, revoke_found,
}

abbrev pub holds : RoleTables → Uuid → Uuid → Bool
holds db user_id role_id = any (assigns user_id role_id) db.user_roles

pub any_last :
    (f : UserRole → Bool) (rows : List UserRole) (row : UserRole)
    → any f (rows ++ row ∷ []) ≡ (any f rows || f row)
any_last f [] row = ground arith
any_last f (r ∷ rs) row = ground (arith, any_last f rs row)

pub any-keep :
    (u r u' r' : Uuid) (rows : List UserRole)
    → any (assigns u' r') (keep (λ (ur : UserRole). not (assigns u r ur)) rows)
      ≡ (any (assigns u' r') rows && not (u == u' && r == r'))
any-keep u r u' r' [] = refl
any-keep u r u' r' (x ∷ xs) = ground (arith, any-keep u r u' r' xs)

pub any-keep_role :
    (r u' r' : Uuid) (rows : List UserRole)
    → any (assigns u' r') (keep (λ (ur : UserRole). not (ur.role_id == r)) rows)
      ≡ (any (assigns u' r') rows && not (r == r'))
any-keep_role r u' r' [] = refl
any-keep_role r u' r' (x ∷ xs) = ground (arith, any-keep_role r u' r' xs)

held_lem :
    (user_id role_id : Uuid) (rows : List UserRole)
    → is_some (find (assigns user_id role_id) rows) ≡ any (assigns user_id role_id) rows
held_lem user_id role_id [] = refl
held_lem user_id role_id (x ∷ xs) = ground (arith, held_lem user_id role_id xs)

linked-keep_role :
    (r r' i : Uuid) (links : List Link)
    → linked (keep (λ (l : Link). not (l.role_id == r)) links) r' i
      ≡ (linked links r' i && not (r == r'))
linked-keep_role r r' i [] = refl
linked-keep_role r r' i (l ∷ ls) = ground (arith, linked-keep_role r r' i ls)

-- The two relations after a method, as functions of those before it
abbrev pub Becomes : RoleTables → (Uuid → Uuid → Bool) → (Uuid → String → Bool) → Type 0
Becomes db held granted =
    ((u r : Uuid) → holds db u r ≡ held u r)
    × ((r : Uuid) (name : String) → grants db r name ≡ granted r name)

-- One that is held is held once more.
already :
    (user_id role_id u r : Uuid) (rows : List UserRole)
    → any (assigns user_id role_id) rows ≡ true
    → any (assigns u r) rows ≡ (any (assigns u r) rows || (user_id == u && role_id == r))
already user_id role_id u r rows h = elim (Bool-cases (user_id == u && role_id == r)) [
  | inr e ↦ ground arith
  | inl e ↦
      let a : user_id ≡ u = ground arith in
      let b : role_id ≡ r = ground arith in
      let c : any (assigns u r) rows ≡ true = rw (sym a) (rw (sym b) h) in rw c refl
]

pub assign_found_lem :
    (db db' : RoleTables) (user_id role_id : Uuid) (by : Option Uuid) (now : Time)
    (found : Option User) (role : Option Role) (v : User) (es : List Event)
    → assign_found db user_id role_id by now found role ≡ ok (v, (db', es))
    → Becomes db' (λ u r. holds db u r || (user_id == u && role_id == r)) (grants db)
      × (db'.permissions ≡ db.permissions)
unfolding RoleRepo.acquire_by_user_and_role RoleRepo.add_user_role role_permissions
assign_found_lem db db' user_id role_id by now none role v es h = absurd (cc h)
assign_found_lem db db' user_id role_id by now (some user) none v es h = absurd (cc h)
assign_found_lem db db' user_id role_id by now (some user) (some role) v es h =
    elim (Bool-cases (is_some (find (assigns user_id role_id) db.user_roles))) [
      | inl e ↦
          let one : db ≡ db' = ground arith in
          let has : any (assigns user_id role_id) db.user_roles ≡ true =
            sym (held_lem user_id role_id db.user_roles) ∙ e in
          rw (sym one)
            ((λ u r. already user_id role_id u r db.user_roles has, λ r name. refl), refl)
      | inr e ↦
          let row : UserRole = record {
            user_id = user_id;
            role_id = role_id;
            assigned_at = now;
            assigned_by = by;
          } in
          let one : RoleRepo.add_user_role row db ≡ db' = ground arith in
          rw (sym one) ((λ u r. any_last (assigns u r) db.user_roles row, λ r name. refl), refl)
    ]

pub revoke_found_lem :
    (db db' : RoleTables) (user_id role_id : Uuid) (found : Option User) (role : Option Role)
    (v : User) (es : List Event)
    → revoke_found db user_id role_id found role ≡ ok (v, (db', es))
    → Becomes db' (λ u r. holds db u r && not (user_id == u && role_id == r)) (grants db)
      × (db'.permissions ≡ db.permissions)
unfolding RoleRepo.delete_user_role role_permissions
revoke_found_lem db db' user_id role_id none role v es h = absurd (cc h)
revoke_found_lem db db' user_id role_id (some user) none v es h = absurd (cc h)
revoke_found_lem db db' user_id role_id (some user) (some role) v es h =
    elim (Bool-cases (str_eq role.name default_role_admin)) [
      | inl e ↦ absurd (ground arith)
      | inr e ↦
          let one : RoleRepo.delete_user_role user_id role_id db ≡ db' = ground arith in
          rw (sym one) ((λ u r. any-keep user_id role_id u r db.user_roles, λ r name. refl), refl)
    ]

-- The rows that grant, without the links of one role
any-unlinked :
    (role_id r : Uuid) (name : String) (links : List Link) (rows : List PermissionRow)
    → any
        (λ (row : PermissionRow).
          linked (keep (λ (l : Link). not (l.role_id == role_id)) links) r row.id
          && str_eq row.name name)
        rows
      ≡ (any (λ (row : PermissionRow). linked links r row.id && str_eq row.name name) rows
          && not (role_id == r))
any-unlinked role_id r name links [] = refl
any-unlinked role_id r name links (x ∷ xs) =
    ground (arith, any-unlinked role_id r name links xs, linked-keep_role role_id r x.id links)

pub delete_found_lem :
    (db db' : RoleTables) (role_id : Uuid) (found : Option Role) (v : Role) (es : List Event)
    → delete_found db role_id found ≡ ok (v, (db', es))
    → Becomes db'
        (λ u r. holds db u r && not (role_id == r))
        (λ r name. grants db r name && not (role_id == r))
      × (db'.permissions ≡ db.permissions)
unfolding RoleRepo.delete role_permissions
delete_found_lem db db' role_id none v es h = absurd (cc h)
delete_found_lem db db' role_id (some role) v es h =
    elim (Bool-cases (str_eq role.name default_role_admin)) [
      | inl e ↦ absurd (ground arith)
      | inr e ↦
          let one : RoleRepo.delete role_id db ≡ db' = ground arith in
          rw (sym one) (
            (
              λ u r. any-keep_role role_id u r db.user_roles,
              λ r name. rw (any-loaded (RoleRepo.delete role_id db).links r name db.permissions) (
                  rw (any-loaded db.links r name db.permissions)
                    (any-unlinked role_id r name db.links db.permissions)),
            ),
            refl,
          )
    ]

-- After `update` of a role that was loaded from `db` and changed
pub changed_lem :
    (id_of : ℕ → Uuid) (role : Role) (db : RoleTables) (before : Uuid → String → Bool)
    (role_id : Uuid) (f : Bool → String → Bool)
    → Coherent db.permissions
    → present db.permissions role.permissions ≡ true
    → role.role_id ≡ role_id
    → ((name : String) → Role.has_permission role name ≡ f (before role_id name) name)
    → ((r : Uuid) (name : String) → grants db r name ≡ before r name)
    → (r : Uuid) (name : String)
    → grants (RoleRepo.update id_of role db) r name
      ≡ (if role_id == r then f (before r name) name else before r name)
unfolding Role.has_permission
changed_lem id_of role db before role_id f c p same has old r name =
    grants-update id_of role db c p r name
    ∙ rw same (elim (Bool-cases (role_id == r)) [
      | inl e ↦
          let is_r : role_id ≡ r = ground arith in
          rw e (has name ∙ ap (λ (i : Uuid). f (before i name) name) is_r)
      | inr e ↦ rw e (old r name)
    ])
