-- ===== src/Application/Rbac/Admin.antt =====
-- No request of the service of roles changes the role named `admin` or who holds it.
use fast_stream_template.Common.{
  Bool-cases, List, Option, String, Uuid, ℕ, [], ◌∷◌, ◌++◌, find, keep, map, none, some, not,
  is_some, str_eq, ◌==◌, true, false, ◌≡◌, refl, sym, ap, ◌∙◌, arith, inl, inr,
}
use fast_stream_template.Errors.{Result, err, ok}
use fast_stream_template.Domain.Names.{codes, validate_permission}
use fast_stream_template.Domain.User.{User}
use fast_stream_template.Domain.Role
use fast_stream_template.Domain.Role.{Permission, Role, UserRole}
use fast_stream_template.Infrastructure.UserRepo
use fast_stream_template.Infrastructure.RoleRepo
use fast_stream_template.Infrastructure.RoleRepo.{
  RoleRow, RoleTables, assigns, loaded_role, role_row, update_row,
}
use fast_stream_template.Infrastructure.RoleRepo.Fresh.{acquire_by_id_lem}
use fast_stream_template.Application.Rbac.{
  add_found, add_made, add_permission_to_role, assign_found, assign_role, create_role,
  default_role_admin, delete_found, delete_role, made_permission, remove_found,
  remove_permission_from_role, revoke_found, revoke_role,
}
use fast_stream_template.Application.Rbac.Calls.{
  Call, add_permission, assign, delete, remove_permission, revoke, run, tables_of,
}
use fast_stream_template.Application.Rbac.Effects.{any-keep, any-keep_role, any_last}
use fast_stream_template.Application.Rbac.Requests.{
  Request, Stays, after, call, create, is_admin, named_admin, serve, serve_all,
}

Stays-refl : (r : Uuid) (db : RoleTables) → Stays r db db
Stays-refl r db h = (h, λ u k. k)

admin-append :
    (r : Uuid) (rows more : List RoleRow)
    → is_admin (find (λ (row : RoleRow). row.id == r) rows) ≡ true
    → is_admin (find (λ (row : RoleRow). row.id == r) (rows ++ more)) ≡ true
admin-append r [] more h = absurd (cc h)
admin-append r (row ∷ rows) more h = ground (arith, admin-append r rows more)

admin-keep :
    (r other : Uuid) (rows : List RoleRow)
    → other == r ≡ false
    → is_admin (find (λ (row : RoleRow). row.id == r) rows) ≡ true
    → is_admin (
        find
          (λ (row : RoleRow). row.id == r)
          (keep (λ (row : RoleRow). not (row.id == other)) rows))
      ≡ true
admin-keep r other [] d h = h
admin-keep r other (row ∷ rows) d h = ground (arith, admin-keep r other rows d)

admin-update :
    (r : Uuid) (role : Role) (rows : List RoleRow)
    → (role.role_id == r ≡ true → str_eq role.name default_role_admin ≡ true)
    → is_admin (find (λ (row : RoleRow). row.id == r) rows) ≡ true
    → is_admin (find (λ (row : RoleRow). row.id == r) (map (update_row role) rows)) ≡ true
unfolding update_row
admin-update r role [] f h = h
admin-update r role (row ∷ rows) f h = elim (Bool-cases (row.id == role.role_id)) [
  | inl e ↦ rw e (ground (arith, admin-update r role rows f, f))
  | inr e ↦ rw e (ground (arith, admin-update r role rows f, f))
]

-- What a role loads as has the name of its row.
loaded_name :
    (db : RoleTables) (found : Option RoleRow) (role : Role)
    → loaded_role db found ≡ some role
    → is_admin found ≡ str_eq role.name default_role_admin
unfolding RoleRepo.role_of
loaded_name db none role h = absurd (cc h)
loaded_name db (some row) role h =
    ap (λ (o : Option Role). elim o [ none ↦ false | some x ↦ str_eq x.name default_role_admin ]) h

acquired_name :
    (db : RoleTables) (role_id r : Uuid) (role : Role)
    → RoleRepo.acquire_by_id db role_id ≡ some role
    → named_admin r db ≡ true
    → role_id == r ≡ true
    → str_eq role.name default_role_admin ≡ true
unfolding RoleRepo.acquire_by_id
acquired_name db role_id r role h named same =
    let one : role_id ≡ r = ground arith in
    sym (loaded_name db (find (λ (row : RoleRow). row.id == r) db.roles) role (rw (sym one) h))
    ∙ named

-- So a role of another name has another id.
differs :
    (db : RoleTables) (role_id r : Uuid) (role : Role)
    → RoleRepo.acquire_by_id db role_id ≡ some role
    → named_admin r db ≡ true
    → str_eq role.name default_role_admin ≡ false
    → role_id == r ≡ false
differs db role_id r role h named other = elim (Bool-cases (role_id == r)) [
  | inl e ↦ let admin = acquired_name db role_id r role h named e in absurd (ground arith)
  | inr e ↦ e
]

module _ (r : Uuid) (db : RoleTables) where
  deleted-Stays :
      (role_id : Uuid) (found : Option Role)
      → RoleRepo.acquire_by_id db role_id ≡ found
      → Stays r db (after db (tables_of (delete_found db role_id found)))
  unfolding RoleRepo.delete
  deleted-Stays role_id none h = Stays-refl r db
  deleted-Stays role_id (some role) h = elim (Bool-cases (str_eq role.name default_role_admin)) [
    | inl e ↦ rw e (Stays-refl r db)
    | inr e ↦ rw e λ named.
        let other = differs db role_id r role h named e in
        (
          admin-keep r role_id db.roles other named,
          λ u held. any-keep_role role_id u r db.user_roles ∙ rw other (rw held refl),
        )
  ]

  revoked-Stays :
      (user_id role_id : Uuid) (user : Option User) (found : Option Role)
      → RoleRepo.acquire_by_id db role_id ≡ found
      → Stays r db (after db (tables_of (revoke_found db user_id role_id user found)))
  unfolding RoleRepo.delete_user_role
  revoked-Stays user_id role_id none found h = Stays-refl r db
  revoked-Stays user_id role_id (some user) none h = Stays-refl r db
  revoked-Stays user_id role_id (some user) (some role) h =
      elim (Bool-cases (str_eq role.name default_role_admin)) [
        | inl e ↦ rw e (Stays-refl r db)
        | inr e ↦ rw e λ named.
            let other = differs db role_id r role h named e in
            (named, λ u held. any-keep user_id role_id u r db.user_roles ∙ ground arith)
      ]

  assigned-Stays :
      (user_id role_id : Uuid) (user : Option User) (found : Option Role) (by : Option Uuid)
      (now : ℕ)
      → Stays r db (after db (tables_of (assign_found db user_id role_id by now user found)))
  unfolding RoleRepo.add_user_role
  assigned-Stays user_id role_id none found by now = Stays-refl r db
  assigned-Stays user_id role_id (some user) none by now = Stays-refl r db
  assigned-Stays user_id role_id (some user) (some role) by now =
      elim (Bool-cases (is_some (RoleRepo.acquire_by_user_and_role db user_id role_id))) [
        | inl e ↦ rw e (Stays-refl r db)
        | inr e ↦
            rw e λ named. (named, λ u held. any_last (assigns u r) db.user_roles _ ∙ rw held refl)
      ]

  -- `update` of a role that was loaded, its permissions changed
  updated-Stays :
      (id_of : ℕ → Uuid) (role_id : Uuid) (role changed : Role) (base : RoleTables)
      → RoleRepo.acquire_by_id db role_id ≡ some role
      → changed.role_id ≡ role.role_id
      → changed.name ≡ role.name
      → base.roles ≡ db.roles
      → base.user_roles ≡ db.user_roles
      → Stays r db (RoleRepo.update id_of changed base)
  unfolding RoleRepo.update
  updated-Stays id_of role_id role changed base h id name rows held named = (
    rw rows (
        admin-update r changed db.roles
          (λ same. rw name (
            acquired_name db role_id r role h named
              (rw (sym ((acquire_by_id_lem db role_id role h).0)) (rw (sym id) same))))
          named),
    λ u k. rw held k,
  )

  added-Stays :
      (id_of : ℕ → Uuid) (drawn role_id : Uuid) (name : String) (role : Role)
      (found : Option Permission) (valid : Result (Unit {0}))
      → RoleRepo.acquire_by_id db role_id ≡ some role
      → Stays r db
          (after db (tables_of (add_made id_of role (made_permission drawn name db found valid))))
  unfolding RoleRepo.add_permission
  added-Stays id_of drawn role_id name role (some p) valid h =
      updated-Stays id_of role_id role (Role.add_permission role p) db h
        (unfold Role.add_permission in ground arith) (unfold Role.add_permission in ground arith)
        refl refl
  added-Stays id_of drawn role_id name role none (err e) h = Stays-refl r db
  added-Stays id_of drawn role_id name role none (ok o) h =
      let p : Permission = record { name = name; description = none } in
      updated-Stays id_of role_id role (Role.add_permission role p)
        (RoleRepo.add_permission drawn p db) h (unfold Role.add_permission in ground arith)
        (unfold Role.add_permission in ground arith) refl refl

  add_found-Stays :
      (id_of : ℕ → Uuid) (drawn role_id : Uuid) (name : String) (found : Option Role)
      → RoleRepo.acquire_by_id db role_id ≡ found
      → Stays r db (after db (tables_of (add_found drawn id_of name db found)))
  add_found-Stays id_of drawn role_id name none h = Stays-refl r db
  add_found-Stays id_of drawn role_id name (some role) h =
      added-Stays id_of drawn role_id name role (RoleRepo.acquire_permission db name)
        (validate_permission (codes name)) h

  remove_found-Stays :
      (id_of : ℕ → Uuid) (role_id : Uuid) (name : String) (found : Option Role)
      → RoleRepo.acquire_by_id db role_id ≡ found
      → Stays r db (after db (tables_of (remove_found id_of name db found)))
  remove_found-Stays id_of role_id name none h = Stays-refl r db
  remove_found-Stays id_of role_id name (some role) h =
      updated-Stays id_of role_id role (Role.remove_permission role name) db h
        (unfold Role.remove_permission in ground arith)
        (unfold Role.remove_permission in ground arith) refl refl

  created-Stays :
      (drawn : Uuid) (id_of : ℕ → Uuid) (name : String) (description : Option String)
      → Stays r db (after db (tables_of (create_role drawn id_of name description db)))
  unfolding create_role Role.create RoleRepo.add
  created-Stays drawn id_of name description =
      elim (Bool-cases (is_some (RoleRepo.acquire_by_name db name))) [
        | inl e ↦ rw e (Stays-refl r db)
        | inr e ↦ rw e λ named. (admin-append r db.roles _ named, λ u held. held)
      ]

  called-Stays :
      (users : List User) (id_of : ℕ → Uuid) (c : Call)
      → Stays r db (after db (run users id_of c db))
  unfolding assign_role revoke_role delete_role add_permission_to_role remove_permission_from_role
  called-Stays users id_of (assign user_id role_id by now) =
      assigned-Stays user_id role_id (UserRepo.acquire_by_id user_id users)
        (RoleRepo.acquire_by_id db role_id) by now
  called-Stays users id_of (revoke user_id role_id) =
      revoked-Stays user_id role_id (UserRepo.acquire_by_id user_id users)
        (RoleRepo.acquire_by_id db role_id) refl
  called-Stays users id_of (delete role_id) =
      deleted-Stays role_id (RoleRepo.acquire_by_id db role_id) refl
  called-Stays users id_of (add_permission drawn role_id name) =
      add_found-Stays id_of drawn role_id name (RoleRepo.acquire_by_id db role_id) refl
  called-Stays users id_of (remove_permission role_id name) =
      remove_found-Stays id_of role_id name (RoleRepo.acquire_by_id db role_id) refl

  served-Stays : (q : Request) → Stays r db (serve q db)
  served-Stays (create drawn id_of name description) = created-Stays drawn id_of name description
  served-Stays (call users id_of c) = called-Stays users id_of c

-- Whatever requests the service of roles is sent, refused or not, in any order: if the role of an id
-- is the one named `admin`, it still exists after them under that name, and every user who held it
-- still holds it. In particular it is neither deleted nor taken from anyone.
pub serve_all-Stays :
    (r : Uuid) (qs : List Request) (db : RoleTables) → Stays r db (serve_all qs db)
unfolding serve_all
serve_all-Stays r [] db named = Stays-refl r db named
serve_all-Stays r (q ∷ qs) db named =
    let (still, kept) = served-Stays r db q named in
    let (last, all_kept) = serve_all-Stays r qs (serve q db) still in
    (last, λ u held. all_kept u (kept u held))
