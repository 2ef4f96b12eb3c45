-- ===== src/Infrastructure/UserRepo/Rewritten.antt =====
-- When an UPDATE of a row that was read cannot fail.
use fast_stream_template.Common.{
  Bool, Bool-cases, List, [], ◌∷◌, all, any, arith, some, refl, true, false, ◌≡◌, inl, inr, sym,
  ◌∙◌,
}
use mathlib.Core.Path.{subst}
use fast_stream_template.Domain.User.{User}
use fast_stream_template.Infrastructure.UserRepo.{
  clashes_email, clashes_name, first_user, same_version,
}
use fast_stream_template.Infrastructure.UserRepo.Unique.{apart, apart_sym, all_apart}

first_user-all :
    (p f : User → Bool) (users : List User) (u : User)
    → first_user p users ≡ some u
    → all f users ≡ true
    → f u ≡ true
unfolding first_user
first_user-all p f [] u h a = absurd (cc h)
first_user-all p f (x ∷ xs) u h a = elim (Bool-cases (p x)) [
  | inl e ↦ let one : x ≡ u = ground arith in rw (sym one) (ground arith)
  | inr e ↦ first_user-all p f xs u (ground arith) (ground arith)
]

none_clashes :
    (u : User) (xs : List User)
    → all (apart u) xs ≡ true
    → (any (clashes_name u) xs ≡ false) × (any (clashes_email u) xs ≡ false)
none_clashes u [] h = (refl, refl)
none_clashes u (x ∷ xs) h =
    let (a, b) = none_clashes u xs (ground arith) in (ground arith, ground arith)

-- The row is there in its version, and no other row clashes with it.
abbrev pub Writable : List User → User → Type 0
Writable users u =
    (any (same_version u) users ≡ true)
    × (any (clashes_name u) users ≡ false)
    × (any (clashes_email u) users ≡ false)

first-Writable : (x : User) (xs : List User) → all (apart x) xs ≡ true → Writable (x ∷ xs) x
first-Writable x xs h =
    let (a, b) = none_clashes x xs h in (ground arith, ground arith, ground arith)

pub found-Writable :
    (p : User → Bool) (users : List User) (u : User)
    → all_apart users ≡ true
    → first_user p users ≡ some u
    → Writable users u
unfolding first_user
found-Writable p [] u h e = absurd (cc e)
found-Writable p (x ∷ xs) u h e = elim (Bool-cases (p x)) [
  | inl hit ↦
      let one : x ≡ u = ground arith in
      subst (Writable (x ∷ xs)) one (first-Writable x xs (ground arith))
  | inr miss ↦
      let (a, b, c) = found-Writable p xs u (ground arith) (ground arith) in
      let other : apart u x ≡ true =
        apart_sym u x ∙ first_user-all p (apart x) xs u (ground arith) (ground arith) in
      (ground arith, ground arith, ground arith)
]
