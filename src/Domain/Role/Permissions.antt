-- ===== src/Domain/Role/Permissions.antt =====
-- A role's permissions behave as a set of names.
use fast_stream_template.Common.{
  String, ◌≡◌, refl, ◌∙◌, inl, inr, false, not, ◌&&◌, ◌||◌, List, [], ◌∷◌, ◌++◌, arith, str_eq,
  str_eq_iff, Bool-cases, any, keep,
}
use fast_stream_template.Domain.Role.{
  Permission, Role, has_permission, add_permission, remove_permission,
}

any-append :
    (n : String) (ps qs : List Permission)
    → any (λ p. str_eq p.name n) (ps ++ qs)
      ≡ (any (λ p. str_eq p.name n) ps || any (λ p. str_eq p.name n) qs)
any-append n [] qs = refl
any-append n (p ∷ ps) qs = ground (arith, any-append n ps qs)

any-keep :
    (n m : String) (ps : List Permission)
    → any (λ p. str_eq p.name n) (keep (λ p. not (str_eq p.name m)) ps)
      ≡ (any (λ p. str_eq p.name n) ps && not (str_eq n m))
any-keep n m [] = refl
any-keep n m (p ∷ ps) =
    ground (arith, any-keep n m ps, str_eq_iff p.name n, str_eq_iff p.name m, str_eq_iff n m)

-- After adding a permission the role has it and every permission that it had, and no other.
pub has_permission-add_permission :
    (r : Role) (p : Permission) (n : String)
    → has_permission (add_permission r p) n ≡ (has_permission r n || str_eq p.name n)
unfolding has_permission add_permission
has_permission-add_permission r p n = elim (Bool-cases (has_permission r p.name)) [
  | inl held ↦ ground (arith, str_eq_iff p.name n, held)
  | inr new ↦ rw new (any-append n r.permissions (p ∷ []) ∙ ground arith)
]

-- After removing a permission the role has all the others that it had, and not this one.
pub has_permission-remove_permission :
    (r : Role) (m n : String)
    → has_permission (remove_permission r m) n ≡ (has_permission r n && not (str_eq n m))
unfolding has_permission remove_permission
has_permission-remove_permission r m n = ground (arith, any-keep n m r.permissions)

-- No two permissions of the list have the same name.
abbrev DistinctNames : List Permission → Type 0
DistinctNames [] = Unit
DistinctNames (p ∷ ps) = (any (λ q. str_eq q.name p.name) ps ≡ false) × DistinctNames ps

DistinctNames-snoc :
    (ps : List Permission) (p : Permission)
    → DistinctNames ps
    → any (λ q. str_eq q.name p.name) ps ≡ false
    → DistinctNames (ps ++ p ∷ [])
DistinctNames-snoc [] p d new = (refl, tt)
DistinctNames-snoc (q ∷ qs) p (d, ds) new = (
  ground (arith, any-append q.name qs (p ∷ []), str_eq_iff p.name q.name, str_eq_iff q.name p.name),
  DistinctNames-snoc qs p ds (ground arith),
)

DistinctNames-keep :
    (m : String) (ps : List Permission)
    → DistinctNames ps
    → DistinctNames (keep (λ p. not (str_eq p.name m)) ps)
DistinctNames-keep m [] d = d
DistinctNames-keep m (p ∷ ps) (d, ds) =
    ground (arith, any-keep p.name m ps, DistinctNames-keep m ps ds)

-- Adding and removing permissions never gives a role two permissions of one name.
permissions-DistinctNames :
    (r : Role) (p : Permission) (n : String)
    → DistinctNames r.permissions
    → DistinctNames (add_permission r p).permissions
      × DistinctNames (remove_permission r n).permissions
unfolding add_permission remove_permission has_permission
permissions-DistinctNames r p n d = (
  ground (arith, DistinctNames-snoc r.permissions p d),
  ground (arith, DistinctNames-keep n r.permissions d),
)
