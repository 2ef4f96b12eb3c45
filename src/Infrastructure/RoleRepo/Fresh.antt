-- ===== src/Infrastructure/RoleRepo/Fresh.antt =====
-- The permissions' table after an INSERT with a drawn id.
use fast_stream_template.Common.{
  Bool, Bool-cases, List, String, Uuid, [], ◌∷◌, ◌++◌, All, All-append, any, find, keep, map, none,
  some, not, str_eq, str_eq_iff, str_eq_refl, ◌&&◌, ◌||◌, ◌==◌, true, false, ◌≡◌, refl, sym, ◌∙◌,
  arith, ap, inl, inr,
}
use fast_stream_template.Domain.Role.{Permission, Role}
use fast_stream_template.Infrastructure.RoleRepo.{
  Link, PermissionRow, RoleTables, RoleRow, acquire_by_id, acquire_permission, add_permission,
  linked, loaded_permission, loaded_role, named, permission_of, permission_row, role_of,
  role_permissions,
}
use fast_stream_template.Infrastructure.RoleRepo.Links.{Coherent, any-loaded, grants, present}

-- No row of a permission and no link has the id.
abbrev pub fresh : Uuid → RoleTables → Bool
fresh id db =
    not (any (λ (row : PermissionRow). row.id == id) db.permissions)
    && not (any (λ (l : Link). l.permission_id == id) db.links)

unlinked :
    (id r : Uuid) (links : List Link)
    → any (λ (l : Link). l.permission_id == id) links ≡ false
    → linked links r id ≡ false
unlinked id r [] h = refl
unlinked id r (l ∷ ls) h = ground (arith, unlinked id r ls)

any_last :
    (f : PermissionRow → Bool) (rows : List PermissionRow) (row : PermissionRow)
    → any f (rows ++ row ∷ []) ≡ (any f rows || f row)
any_last f [] row = ground arith
any_last f (r ∷ rs) row = ground (arith, any_last f rs row)

-- A permission that no role has is granted by none.
pub grants-add_permission :
    (id : Uuid) (p : Permission) (db : RoleTables) (r : Uuid) (name : String)
    → fresh id db ≡ true
    → grants (add_permission id p db) r name ≡ grants db r name
unfolding add_permission role_permissions
grants-add_permission id p db r name h =
    rw (any-loaded db.links r name (db.permissions ++ permission_row id p ∷ [])) (
      rw (any-loaded db.links r name db.permissions) (
        any_last (λ row. linked db.links r row.id && str_eq row.name name) db.permissions
          (permission_row id p)
        ∙ rw (unlinked id r db.links (ground arith)) (ground arith)))

-- The rows against one more row
against :
    (id : Uuid) (p : Permission) (rows : List PermissionRow)
    → any (λ (row : PermissionRow). row.id == id) rows ≡ false
    → any (named p.name) rows ≡ false
    → All (λ (a : PermissionRow). (a.id == id) ≡ str_eq a.name p.name) rows
against id p [] h n = tt
against id p (r ∷ rs) h n = (ground arith, against id p rs (ground arith) (ground arith))

swapped :
    (id : Uuid) (p : Permission) (rows all_rows : List PermissionRow)
    → any (λ (row : PermissionRow). row.id == id) rows ≡ false
    → any (named p.name) rows ≡ false
    → All
        (λ (b : PermissionRow).
          All (λ (a : PermissionRow). (a.id == b.id) ≡ str_eq a.name b.name) all_rows)
        rows
    → All
        (λ (b : PermissionRow).
          All
            (λ (a : PermissionRow). (a.id == b.id) ≡ str_eq a.name b.name)
            (all_rows ++ permission_row id p ∷ []))
        rows
swapped id p [] all_rows h n c = tt
swapped id p (r ∷ rs) all_rows h n (k, c) = (
  All-append (λ (a : PermissionRow). (a.id == r.id) ≡ str_eq a.name r.name) all_rows
      (permission_row id p ∷ []) k
      (ground (arith, str_eq_iff p.name r.name, str_eq_iff r.name p.name), tt),
  swapped id p rs all_rows (ground arith) (ground arith) c,
)

pub Coherent-snoc :
    (id : Uuid) (p : Permission) (rows : List PermissionRow)
    → any (λ (row : PermissionRow). row.id == id) rows ≡ false
    → any (named p.name) rows ≡ false
    → Coherent rows
    → Coherent (rows ++ permission_row id p ∷ [])
Coherent-snoc id p rows h n c =
    All-append
      (λ (b : PermissionRow).
        All (λ (a : PermissionRow). (a.id == b.id) ≡ str_eq a.name b.name)
          (rows ++ permission_row id p ∷ []))
      rows (permission_row id p ∷ []) (swapped id p rows rows h n c)
      (
        All-append (λ (a : PermissionRow). (a.id == id) ≡ str_eq a.name p.name) rows
            (permission_row id p ∷ []) (against id p rows h n)
            (ground (arith, str_eq_refl p.name), tt),
        tt,
      )

-- What a role loads with has rows.
present_kept :
    (f : PermissionRow → Bool) (rows all_rows : List PermissionRow)
    → ((row : PermissionRow)
        → any (named row.name) rows ≡ true
        → any (named row.name) all_rows ≡ true)
    → present all_rows (map permission_of (keep f rows)) ≡ true
unfolding permission_of
present_kept f [] all_rows more = refl
present_kept f (r ∷ rs) all_rows more =
    let here : any (named r.name) all_rows ≡ true = more r (ground (arith, str_eq_refl r.name)) in
    let rest = present_kept f rs all_rows (λ row k. more row (ground arith)) in ground arith

pub present-role_permissions :
    (db : RoleTables) (role_id : Uuid) → present db.permissions (role_permissions db role_id) ≡ true
unfolding role_permissions
present-role_permissions db role_id =
    present_kept (λ (row : PermissionRow). linked db.links role_id row.id) db.permissions
      db.permissions (λ row k. k)

-- One row more
pub present_more :
    (ps : List Permission) (rows : List PermissionRow) (row : PermissionRow)
    → present rows ps ≡ true
    → present (rows ++ row ∷ []) ps ≡ true
present_more [] rows row h = refl
present_more (p ∷ ps) rows row h =
    ground (arith, present_more ps rows row, any_last (named p.name) rows row)

pub present_last :
    (p : Permission) (rows : List PermissionRow) (id : Uuid)
    → any (named p.name) (rows ++ permission_row id p ∷ []) ≡ true
present_last p rows id =
    any_last (named p.name) rows (permission_row id p) ∙ ground (arith, str_eq_refl p.name)

found_lem :
    (name : String) (rows : List PermissionRow)
    → (loaded_permission (find (named name) rows) ≡ none → any (named name) rows ≡ false)
      × ((p : Permission)
          → loaded_permission (find (named name) rows) ≡ some p
          → (p.name ≡ name) × (any (named name) rows ≡ true))
unfolding permission_of
found_lem name [] = (λ h. refl, λ p h. absurd (cc h))
found_lem name (r ∷ rs) = elim (Bool-cases (named name r)) [
  | inl e ↦
      (λ h. absurd (ground arith), λ p h. (ground (arith, str_eq_iff r.name name), ground arith))
  | inr e ↦
      let (missing, found) = found_lem name rs in
      (
        λ h. ground (arith, missing),
        λ p h. let (same, has) = found p (ground arith) in (same, ground arith),
      )
]

loaded_lem :
    (db : RoleTables) (role_id : Uuid) (rows : List RoleRow) (role : Role)
    → loaded_role db (find (λ (row : RoleRow). row.id == role_id) rows) ≡ some role
    → (role.role_id ≡ role_id) × (role.permissions ≡ role_permissions db role_id)
unfolding role_of
loaded_lem db role_id [] role h = absurd (cc h)
loaded_lem db role_id (r ∷ rs) role h = elim (Bool-cases (r.id == role_id)) [
  | inl e ↦
      let same : r.id ≡ role_id = ground arith in
      let one : some (role_of db r) ≡ some role = ground arith in
      let made : role_of db r ≡ role = cc one in
      (
        ap (λ (x : Role). x.role_id) (sym made) ∙ same,
        ap (λ (x : Role). x.permissions) (sym made) ∙ ap (λ (i : Uuid). role_permissions db i) same,
      )
  | inr e ↦ loaded_lem db role_id rs role (ground arith)
]

-- The role of an id has it, and what the links say.
pub acquire_by_id_lem :
    (db : RoleTables) (role_id : Uuid) (role : Role)
    → acquire_by_id db role_id ≡ some role
    → (role.role_id ≡ role_id) × (role.permissions ≡ role_permissions db role_id)
unfolding acquire_by_id
acquire_by_id_lem db role_id role h = loaded_lem db role_id db.roles role h

pub acquire_permission_lem :
    (db : RoleTables) (name : String)
    → (acquire_permission db name ≡ none → any (named name) db.permissions ≡ false)
      × ((p : Permission)
          → acquire_permission db name ≡ some p
          → (p.name ≡ name) × (any (named name) db.permissions ≡ true))
unfolding acquire_permission
acquire_permission_lem db name = found_lem name db.permissions
