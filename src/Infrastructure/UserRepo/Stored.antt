-- ===== src/Infrastructure/UserRepo/Stored.antt =====
-- What is found of an entity that `update` has written.
use fast_stream_template.Common.{
  Bool-cases, List, [], ◌∷◌, all, any, arith, map, some, refl, true, false, ◌==◌, ◌≡◌, inl, inr,
  sym,
}
use fast_stream_template.Errors.{ok}
use fast_stream_template.Domain.User.{User}
use fast_stream_template.Infrastructure.UserRepo.{
  acquire_by_id, first_user, update, as_row, clashes_email, clashes_name, rewrite_row, same_version,
  uniqueness_error,
}
use fast_stream_template.Infrastructure.UserRepo.Unique.{apart, all_apart, next_of}

-- A row has nothing to fear of a row that it is apart from.
no_other :
    (x u : User) (xs : List User)
    → all (apart x) xs ≡ true
    → x.id == u.id ≡ true
    → any (same_version u) xs ≡ false
no_other x u [] h e = refl
no_other x u (y ∷ ys) h e = ground (arith, no_other x u ys)

pub acquire-rewrite :
    (u : User) (users : List User)
    → all_apart users ≡ true
    → any (same_version u) users ≡ true
    → acquire_by_id u.id (map (rewrite_row u (next_of u)) users) ≡ some (as_row (next_of u))
unfolding acquire_by_id first_user
acquire-rewrite u [] h e = absurd (cc e)
acquire-rewrite u (x ∷ xs) h e = elim (Bool-cases (x.id == u.id)) [
  | inl i ↦ elim (Bool-cases (x.version == u.version)) [
    | inl v ↦ rw i (rw v (ground arith))
    | inr v ↦ absurd (ground (arith, no_other x u xs))
  ]
  | inr i ↦ rw i (rw i (acquire-rewrite u xs (ground arith) (ground arith)))
]

-- An update that returns has written the entity's row, where no two rows conflict.
pub update_lem :
    (u v : User) (users users' : List User)
    → all_apart users ≡ true
    → update u users ≡ ok (v, users')
    → (v ≡ next_of u) × (acquire_by_id u.id users' ≡ some (as_row v))
unfolding update uniqueness_error
update_lem u v users users' h e = elim (Bool-cases (any (same_version u) users)) [
  | inr i ↦ absurd (ground arith)
  | inl i ↦ elim (Bool-cases (any (clashes_name u) users)) [
    | inl n ↦ absurd (ground arith)
    | inr n ↦ elim (Bool-cases (any (clashes_email u) users)) [
      | inl m ↦ absurd (ground arith)
      | inr m ↦
          let found = acquire-rewrite u users h i in
          let one : next_of u ≡ v = ground arith in
          let rows : map (rewrite_row u (next_of u)) users ≡ users' = ground arith in
          (sym one, rw (sym rows) (rw (sym one) found))
    ]
  ]
]
