-- ===== src/Infrastructure/RoleRepo/Updates.antt =====
-- What `update` of a role leaves of the links, and so of the permissions that roles load with.
use fast_stream_template.Common.{
  Bool, Bool-cases, List, String, Uuid, ℕ, [], ◌∷◌, All, any, keep, not, str_eq, str_eq_iff,
  if◌then◌else◌, ◌&&◌, ◌||◌, ◌==◌, true, false, ◌≡◌, refl, ◌∙◌, arith, inl, inr,
}
use fast_stream_template.Domain.Role.{Permission, Role}
use fast_stream_template.Infrastructure.RoleRepo.{
  Link, PermissionRow, RoleTables, desired, linked, named, role_permissions, unwanted, update,
}
use fast_stream_template.Infrastructure.RoleRepo.Links.{
  grants, linked-link_all, linked-keep, any-loaded, Coherent, present, desired_lem,
}

any_agree :
    (f g : PermissionRow → Bool) (rows : List PermissionRow)
    → All (λ (row : PermissionRow). f row ≡ g row) rows
    → any f rows ≡ any g rows
any_agree f g [] h = refl
any_agree f g (r ∷ rs) (e, h) = rw e (rw (any_agree f g rs h) refl)

no_name :
    (p : Permission) (name : String) (rows : List PermissionRow)
    → any (named p.name) rows ≡ false
    → any (λ (row : PermissionRow). str_eq p.name row.name && str_eq row.name name) rows ≡ false
no_name p name [] h = refl
no_name p name (r ∷ rs) h =
    ground (arith, no_name p name rs, str_eq_iff p.name r.name, str_eq_iff r.name p.name)

no_row :
    (name : String) (rows : List PermissionRow)
    → any (λ (row : PermissionRow). false && str_eq row.name name) rows ≡ false
no_row name [] = refl
no_row name (r ∷ rs) = no_row name rs

-- The rows of a name, against one permission and against all
one_name :
    (p : Permission) (name : String) (rows : List PermissionRow)
    → any (named p.name) rows ≡ true
    → any (λ (row : PermissionRow). str_eq p.name row.name && str_eq row.name name) rows
      ≡ str_eq p.name name
one_name p name [] h = absurd (cc h)
one_name p name (r ∷ rs) h = elim (Bool-cases (any (named p.name) rs)) [
  | inl e ↦ ground (
    arith,
    one_name p name rs e,
    str_eq_iff p.name r.name,
    str_eq_iff r.name name,
    str_eq_iff p.name name,
  )
  | inr e ↦
      let none_else = no_name p name rs e in
      ground (
        arith,
        str_eq_iff p.name r.name,
        str_eq_iff r.name p.name,
        str_eq_iff r.name name,
        str_eq_iff p.name name,
      )
]

split_any :
    (p : Permission) (ps : List Permission) (name : String) (rows : List PermissionRow)
    → any
        (λ (row : PermissionRow).
          (str_eq p.name row.name || any (λ (q : Permission). str_eq q.name row.name) ps)
          && str_eq row.name name)
        rows
      ≡ (any (λ (row : PermissionRow). str_eq p.name row.name && str_eq row.name name) rows
          || any
              (λ (row : PermissionRow).
                any (λ (q : Permission). str_eq q.name row.name) ps && str_eq row.name name)
              rows)
split_any p ps name [] = refl
split_any p ps name (r ∷ rs) = ground (arith, split_any p ps name rs)

names_lem :
    (ps : List Permission) (name : String) (rows : List PermissionRow)
    → present rows ps ≡ true
    → any
        (λ (row : PermissionRow).
          any (λ (q : Permission). str_eq q.name row.name) ps && str_eq row.name name)
        rows
      ≡ any (λ (q : Permission). str_eq q.name name) ps
names_lem [] name rows h = no_row name rows
names_lem (p ∷ ps) name rows h =
    split_any p ps name rows
    ∙ rw (one_name p name rows (ground arith)) (rw (names_lem ps name rows (ground arith)) refl)

All-weaken :
    (P Q : PermissionRow → Type 0) (rows : List PermissionRow)
    → ((row : PermissionRow) → P row → Q row)
    → All P rows
    → All Q rows
All-weaken P Q [] f h = tt
All-weaken P Q (r ∷ rs) f (p, h) = (f r p, All-weaken P Q rs f h)

-- The links after `update`, of which `wanted` are the ids that it wants
linked-update :
    (id_of : ℕ → Uuid) (role : Role) (db : RoleTables) (r i : Uuid)
    → let wanted = any (λ (j : Uuid). j == i) (desired id_of 0 role.permissions db.permissions).1 in
      linked (update id_of role db).links r i
      ≡ (if role.role_id == r then wanted else linked db.links r i)
unfolding update
linked-update id_of role db r i =
    let ids = (desired id_of 0 role.permissions db.permissions).1 in
    linked-link_all role.role_id ids
      (keep (λ (l : Link). not (unwanted role.role_id ids l)) db.links) r i
    ∙ ground (arith, linked-keep role.role_id ids db.links r i)

agree :
    (id_of : ℕ → Uuid) (role : Role) (db : RoleTables) (r : Uuid) (name : String)
    (row : PermissionRow)
    → role.role_id == r ≡ true
    → any (λ (i : Uuid). i == row.id) (desired id_of 0 role.permissions db.permissions).1
      ≡ any (λ (p : Permission). str_eq p.name row.name) role.permissions
    → (linked (update id_of role db).links r row.id && str_eq row.name name)
      ≡ (any (λ (p : Permission). str_eq p.name row.name) role.permissions && str_eq row.name name)
agree id_of role db r name row e k = rw (linked-update id_of role db r row.id) (rw e (rw k refl))

untouched :
    (id_of : ℕ → Uuid) (role : Role) (db : RoleTables) (r : Uuid) (name : String)
    (row : PermissionRow)
    → role.role_id == r ≡ false
    → (linked (update id_of role db).links r row.id && str_eq row.name name)
      ≡ (linked db.links r row.id && str_eq row.name name)
untouched id_of role db r name row e = rw (linked-update id_of role db r row.id) (rw e refl)

-- A role that is written loads with the permissions that it has, by name, and other roles with those
-- that they had: each of its permissions having a row, and rows of one id having one name.
pub grants-update :
    (id_of : ℕ → Uuid) (role : Role) (db : RoleTables)
    → Coherent db.permissions
    → present db.permissions role.permissions ≡ true
    → (r : Uuid) (name : String)
    → grants (update id_of role db) r name ≡ (
        if role.role_id == r
        then any (λ (p : Permission). str_eq p.name name) role.permissions
        else grants db r name)
unfolding update role_permissions
grants-update id_of role db c h r name =
    let (kept, wanted) = desired_lem id_of 0 role.permissions db.permissions h in
    let ids = (desired id_of 0 role.permissions db.permissions).1 in
    rw (any-loaded (update id_of role db).links r name (update id_of role db).permissions) (
      rw (any-loaded db.links r name db.permissions) (
        rw kept (elim (Bool-cases (role.role_id == r)) [
          | inl e ↦ rw e (
              any_agree
                (λ row. linked (update id_of role db).links r row.id && str_eq row.name name)
                (λ row.
                  any (λ (q : Permission). str_eq q.name row.name) role.permissions
                  && str_eq row.name name)
                db.permissions
                (All-weaken _ _ db.permissions
                  (λ row k. agree id_of role db r name row e (wanted row k)) c)
              ∙ names_lem role.permissions name db.permissions h)
          | inr e ↦ rw e (
              any_agree
                (λ row. linked (update id_of role db).links r row.id && str_eq row.name name)
                (λ row. linked db.links r row.id && str_eq row.name name) db.permissions
                (All-weaken _ _ db.permissions (λ row k. untouched id_of role db r name row e) c))
        ])))

pub permissions-update :
    (id_of : ℕ → Uuid) (role : Role) (db : RoleTables)
    → present db.permissions role.permissions ≡ true
    → (update id_of role db).permissions ≡ db.permissions
unfolding update
permissions-update id_of role db h = (desired_lem id_of 0 role.permissions db.permissions h).0
