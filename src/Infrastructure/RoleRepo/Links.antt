-- ===== src/Infrastructure/RoleRepo/Links.antt =====
-- The links of roles to permissions, and what the loops of `update` of a role make of them.
use fast_stream_template.Common.{
  Bool, Bool-cases, List, String, Uuid, ℕ, suc, [], ◌∷◌, ◌++◌, All, any, all, find, keep, map, some,
  not, str_eq, str_eq_iff, ◌&&◌, ◌||◌, ◌==◌, true, ◌≡◌, refl, ◌∙◌, arith, inl, inr,
}
use mathlib.Core.Path.{subst}
use fast_stream_template.Domain.Role.{Permission}
use fast_stream_template.Infrastructure.RoleRepo.{
  Link, PermissionRow, RoleTables, desired, link_all, linked, named, permission_of,
  role_permissions, unwanted,
}

-- Whether a role loads with a permission of the name
abbrev pub grants : RoleTables → Uuid → String → Bool
grants db role_id name = any (λ (p : Permission). str_eq p.name name) (role_permissions db role_id)

any-link_append :
    (links : List Link) (l : Link) (r i : Uuid)
    → linked (links ++ l ∷ []) r i ≡ (linked links r i || (l.role_id == r && l.permission_id == i))
any-link_append [] l r i = ground arith
any-link_append (m ∷ ms) l r i = ground (arith, any-link_append ms l r i)

pub linked-link_all :
    (role_id : Uuid) (ids : List Uuid) (links : List Link) (r i : Uuid)
    → linked (link_all role_id ids links) r i
      ≡ (linked links r i || (role_id == r && any (λ (j : Uuid). j == i) ids))
unfolding link_all
linked-link_all role_id [] links r i = ground arith
linked-link_all role_id (j ∷ js) links r i = elim (Bool-cases (linked links role_id j)) [
  | inl e ↦ rw e (linked-link_all role_id js links r i ∙ ground arith)
  | inr e ↦ rw e (
      linked-link_all role_id js (links ++ (record { role_id = role_id; permission_id = j }) ∷ []) r
        i
      ∙ ground (arith, any-link_append links (record { role_id = role_id; permission_id = j }) r i))
]

pub linked-keep :
    (role_id : Uuid) (ids : List Uuid) (links : List Link) (r i : Uuid)
    → linked (keep (λ (l : Link). not (unwanted role_id ids l)) links) r i
      ≡ (linked links r i && not (role_id == r && not (any (λ (j : Uuid). j == i) ids)))
linked-keep role_id ids [] r i = refl
linked-keep role_id ids (l ∷ ls) r i = elim (Bool-cases (l.permission_id == i)) [
  | inl e ↦
      let same : l.permission_id ≡ i = ground arith in
      rw same (ground (arith, linked-keep role_id ids ls r i))
  | inr e ↦ ground (arith, linked-keep role_id ids ls r i)
]

pub any-loaded :
    (links : List Link) (role_id : Uuid) (name : String) (rows : List PermissionRow)
    → any
        (λ (p : Permission). str_eq p.name name)
        (map permission_of (keep (λ (row : PermissionRow). linked links role_id row.id) rows))
      ≡ any (λ (row : PermissionRow). linked links role_id row.id && str_eq row.name name) rows
unfolding permission_of
any-loaded links role_id name [] = refl
any-loaded links role_id name (r ∷ rs) = ground (arith, any-loaded links role_id name rs)

-- Two permissions of the table have the same id exactly if they have the same name.
abbrev pub Coherent : List PermissionRow → Type 0
Coherent rows =
    All
      (λ (b : PermissionRow).
        All (λ (a : PermissionRow). (a.id == b.id) ≡ str_eq a.name b.name) rows)
      rows

-- Each of the permissions has a row with its name.
abbrev pub present : List PermissionRow → List Permission → Bool
present rows ps = all (λ (p : Permission). any (named p.name) rows) ps

find_lem :
    (name : String) (rows : List PermissionRow)
    → any (named name) rows ≡ true
    → (row : PermissionRow) × (find (named name) rows ≡ some row) × (row.name ≡ name)
find_lem name [] h = absurd (cc h)
find_lem name (r ∷ rs) h = elim (Bool-cases (named name r)) [
  | inl e ↦ (r, rw e refl, ground (arith, str_eq_iff r.name name))
  | inr e ↦ let (row, found, same) = find_lem name rs (ground arith) in (row, rw e found, same)
]

All-find :
    (P : PermissionRow → Type 0) (q : PermissionRow → Bool) (rows : List PermissionRow)
    (row : PermissionRow)
    → All P rows
    → find q rows ≡ some row
    → P row
All-find P q [] row h e = absurd (cc e)
All-find P q (r ∷ rs) row (p, h) e = elim (Bool-cases (q r)) [
  | inl b ↦ let same : r ≡ row = ground arith in subst P same p
  | inr b ↦ All-find P q rs row h (ground arith)
]

-- Where each permission has a row, `update` adds none, and wants a row's id exactly if a permission
-- has its name.
pub desired_lem :
    (id_of : ℕ → Uuid) (n : ℕ) (ps : List Permission) (rows : List PermissionRow)
    → present rows ps ≡ true
    → ((desired id_of n ps rows).0 ≡ rows)
      × ((b : PermissionRow)
          → All (λ (a : PermissionRow). (a.id == b.id) ≡ str_eq a.name b.name) rows
          → any (λ (i : Uuid). i == b.id) (desired id_of n ps rows).1
            ≡ any (λ (p : Permission). str_eq p.name b.name) ps)
unfolding desired
desired_lem id_of n [] rows h = (refl, λ b c. refl)
desired_lem id_of n (p ∷ ps) rows h =
    let (row, found, same) = find_lem p.name rows (ground arith) in
    let (kept, wanted) = desired_lem id_of (suc n) ps rows (ground arith) in
    rw (found, desired)
      (
        kept,
        λ b c.
            let one =
              All-find (λ (a : PermissionRow). (a.id == b.id) ≡ str_eq a.name b.name) (named p.name)
                rows row c found in
            let rest = wanted b c in rw one (rw same (rw rest refl)),
      )
