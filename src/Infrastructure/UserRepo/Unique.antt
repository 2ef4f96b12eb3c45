-- ===== src/Infrastructure/UserRepo/Unique.antt =====
-- The unique indexes of the users' table: what `add` and `update` keep.
use fast_stream_template.Common.{
  Bool, Bool-cases, List, Option, String, [], ◌∷◌, ◌++◌, all, any, arith, map, none, some, not,
  refl, str_eq, str_eq_iff, true, false, ◌&&◌, ◌==◌, ◌≡◌, ◌+◌, inl, inr,
}
use fast_stream_template.Errors.{ok}
use fast_stream_template.Domain.User.{User}
use fast_stream_template.Infrastructure.UserRepo.{
  add, update, as_row, clashes_email, clashes_name, rewrite_row, same_email, same_version,
  uniqueness_error,
}

-- Two rows that no unique index sets against each other
abbrev pub apart : User → User → Bool
apart u r =
    not (r.id == u.id) && not (str_eq r.username u.username) && not (same_email u.email r.email)

abbrev pub all_apart : List User → Bool
all_apart [] = true
all_apart (u ∷ us) = all (apart u) us && all_apart us

same_email_sym : (a b : Option String) → same_email a b ≡ same_email b a
same_email_sym none none = refl
same_email_sym none (some b) = refl
same_email_sym (some a) none = refl
same_email_sym (some a) (some b) = ground (arith, str_eq_iff a b, str_eq_iff b a)

pub apart_sym : (u r : User) → apart u r ≡ apart r u
apart_sym u r = ground (
  arith,
  same_email_sym u.email r.email,
  str_eq_iff u.username r.username,
  str_eq_iff r.username u.username,
)

-- A row that no other row clashes with
abbrev pub no_clash : User → User → Bool
no_clash u r = not (clashes_name u r) && not (clashes_email u r)

all-apart_append :
    (u : User) (x : User) (xs : List User)
    → all (apart x) (xs ++ u ∷ []) ≡ (all (apart x) xs && apart x u)
all-apart_append u x [] = ground arith
all-apart_append u x (y ∷ ys) = ground (arith, all-apart_append u x ys)

all_apart-append :
    (u : User) (xs : List User)
    → all_apart xs ≡ true
    → all (λ r. apart u r) xs ≡ true
    → all_apart (xs ++ u ∷ []) ≡ true
all_apart-append u [] h k = refl
all_apart-append u (x ∷ xs) h k =
    ground (arith, all_apart-append u xs, all-apart_append u x xs, apart_sym u x)

apart_new :
    (u : User) (xs : List User)
    → any (λ (r : User). r.id == u.id) xs ≡ false
    → any (clashes_name u) xs ≡ false
    → any (clashes_email u) xs ≡ false
    → all (apart (as_row u)) xs ≡ true
apart_new u [] h n m = refl
apart_new u (x ∷ xs) h n m = ground (arith, apart_new u xs)

pub all_apart-add :
    (u : User) (users users' : List User)
    → all_apart users ≡ true
    → add u users ≡ ok users'
    → all_apart users' ≡ true
unfolding add uniqueness_error
all_apart-add u users users' h e = elim (Bool-cases (any (λ (r : User). r.id == u.id) users)) [
  | inl i ↦ absurd (ground arith)
  | inr i ↦ elim (Bool-cases (any (clashes_name u) users)) [
    | inl n ↦ absurd (ground arith)
    | inr n ↦ elim (Bool-cases (any (clashes_email u) users)) [
      | inl m ↦ absurd (ground arith)
      | inr m ↦ ground (arith, all_apart-append (as_row u) users h (apart_new u users i n m))
    ]
  ]
]

-- What `update` writes
abbrev pub next_of : User → User
next_of u = record u { version = u.version + 1 }

module _ (u : User) where
  -- Rows of other ids stay as they are.
  rewrite_others :
      (x : User) (xs : List User)
      → x.id == u.id ≡ true
      → all (apart x) xs ≡ true
      → (map (rewrite_row u (next_of u)) xs ≡ xs) × (any (λ (r : User). r.id == u.id) xs ≡ false)
  rewrite_others x [] same h = (refl, refl)
  rewrite_others x (y ∷ ys) same h =
      let (kept, none_has) = rewrite_others x ys same (ground arith) in
      let other : y.id == u.id ≡ false = ground arith in (rw other (rw kept), rw other none_has)

  named :
      (x : User)
      → x.id == u.id ≡ false
      → clashes_name u x ≡ false
      → clashes_email u x ≡ false
      → apart (as_row (next_of u)) x ≡ true
  named x other n m = ground arith

  apart_written :
      (x y : User)
      → apart x y ≡ true
      → clashes_name u x ≡ false
      → clashes_email u x ≡ false
      → apart x (rewrite_row u (next_of u) y) ≡ true
  apart_written x y h n m = elim (Bool-cases (y.id == u.id)) [
    | inr e ↦ rw e h
    | inl e ↦
        let other : x.id == u.id ≡ false = ground arith in
        elim (Bool-cases (y.version == u.version)) [
          | inr f ↦ rw e (rw f h)
          | inl f ↦ rw e (rw f (rw (apart_sym x (as_row (next_of u))) (named x other n m)))
        ]
  ]

  all-apart_written :
      (x : User) (ys : List User)
      → all (apart x) ys ≡ true
      → clashes_name u x ≡ false
      → clashes_email u x ≡ false
      → all (apart x) (map (rewrite_row u (next_of u)) ys) ≡ true
  all-apart_written x [] h n m = refl
  all-apart_written x (y ∷ ys) h n m = ground (arith, all-apart_written x ys, apart_written x y)

  all_apart-rewrite :
      (xs : List User)
      → all_apart xs ≡ true
      → any (clashes_name u) xs ≡ false
      → any (clashes_email u) xs ≡ false
      → all_apart (map (rewrite_row u (next_of u)) xs) ≡ true
  all_apart-rewrite [] h n m = refl
  all_apart-rewrite (x ∷ xs) h n m = elim (Bool-cases (same_version u x)) [
    | inl e ↦
        let (kept, none_has) = rewrite_others x xs (ground arith) (ground arith) in
        let new : all (apart (as_row u)) xs ≡ true =
          apart_new u xs none_has (ground arith) (ground arith) in
        rw e (rw kept (ground arith))
    | inr e ↦
        let rest : all_apart (map (rewrite_row u (next_of u)) xs) ≡ true =
          all_apart-rewrite xs (ground arith) (ground arith) (ground arith) in
        let first : all (apart x) (map (rewrite_row u (next_of u)) xs) ≡ true =
          all-apart_written x xs (ground arith) (ground arith) (ground arith) in
        rw e (rw first rest)
  ]

pub all_apart-update :
    (u v : User) (users users' : List User)
    → all_apart users ≡ true
    → update u users ≡ ok (v, users')
    → all_apart users' ≡ true
unfolding update uniqueness_error
all_apart-update u v users users' h e = elim (Bool-cases (any (same_version u) users)) [
  | inr i ↦ absurd (ground arith)
  | inl i ↦ elim (Bool-cases (any (clashes_name u) users)) [
    | inl n ↦ absurd (ground arith)
    | inr n ↦ elim (Bool-cases (any (clashes_email u) users)) [
      | inl m ↦ absurd (ground arith)
      | inr m ↦ let kept = all_apart-rewrite u users h n m in ground arith
    ]
  ]
]
