-- ===== src/Domain/Names/Formats.antt =====
-- What the formats of names accept.
use mathlib.Core.List.{append-nil}
use fast_stream_template.Common.{
  ℕ, suc, ◌-◌, ◌≤◌, ◌<◌, ◌≡◌, refl, sym, ap, ◌∙◌, ◌↔◌, ◌⊎◌, inl, inr, Bool, true, ◌&&◌, Option,
  none, some, List, [], ◌∷◌, ◌++◌, arith, ◌==◌, Bool-cases, length, All,
}
use fast_stream_template.Errors.{ok}
use fast_stream_template.Domain.Names.{
  letter, username_char, role_char, class_run, letter_then, room, less, at_end, validate_username,
  validate_role_name, max_username_length,
}

-- `n` characters fit under an upper bound.
abbrev pub Fits : Option ℕ → ℕ → Type 0
Fits none n = Unit
Fits (some hi) n = n ≤ hi

-- `value` is `body`, or `body` and a newline.
abbrev pub EndsAt : List ℕ → List ℕ → Type 0
EndsAt value body = (value ≡ body) ⊎ (value ≡ body ++ 10 ∷ [])

-- A run of a class, within its bounds, which an optional newline ends.
abbrev pub Run : (ℕ → Bool) → ℕ → Option ℕ → List ℕ → Type 0
Run p lo hi value =
    (body : List ℕ) × All (λ c. p c ≡ true) body
    × EndsAt value body
    × (lo ≤ length body)
    × Fits hi (length body)

EndsAt-cons : (c : ℕ) (value body : List ℕ) → EndsAt value body → EndsAt (c ∷ value) (c ∷ body)
EndsAt-cons c value body (inl e) = inl (ap (λ (l : List ℕ). c ∷ l) e)
EndsAt-cons c value body (inr e) = inr (ap (λ (l : List ℕ). c ∷ l) e)

EndsAt-nil : (c : ℕ) (cs : List ℕ) → at_end (c ∷ cs) ≡ true → EndsAt (c ∷ cs) []
EndsAt-nil c [] h = inr (ap (λ (d : ℕ). d ∷ []) (ground arith))
EndsAt-nil c (d ∷ cs) h = cc

Fits-suc : (hi : Option ℕ) (n : ℕ) → room hi ≡ true → Fits (less hi) n → Fits hi (suc n)
Fits-suc none n r f = tt
Fits-suc (some h) n r f = ground arith

Fits-zero : (hi : Option ℕ) → Fits hi 0
Fits-zero none = tt
Fits-zero (some h) = omega arith

class_run_sound :
    (p : ℕ → Bool) (lo : ℕ) (hi : Option ℕ) (value : List ℕ)
    → class_run p lo hi value ≡ true
    → Run p lo hi value
unfolding class_run
class_run_sound p lo hi [] h = ([], tt, inl refl, ground arith, Fits-zero hi)
class_run_sound p lo hi (c ∷ cs) h = elim (Bool-cases (lo == 0 && at_end (c ∷ cs))) [
  | inl stop ↦ ([], tt, EndsAt-nil c cs (ground arith), ground arith, Fits-zero hi)
  | inr go ↦
      let (body, fits, ends, enough, room_left) =
        class_run_sound p (lo - 1) (less hi) cs (ground arith) in
      (
        c ∷ body,
        (ground arith, fits),
        EndsAt-cons c cs body ends,
        omega arith,
        Fits-suc hi (length body) (ground arith) room_left,
      )
]

Fits-less : (hi : Option ℕ) (n : ℕ) → Fits hi (suc n) → (room hi ≡ true) × Fits (less hi) n
Fits-less none n f = (refl, tt)
Fits-less (some h) n f = (ground arith, omega arith)

class_run_complete :
    (p : ℕ → Bool) (lo : ℕ) (hi : Option ℕ) (body ending : List ℕ)
    → at_end ending ≡ true
    → All (λ c. p c ≡ true) body
    → lo ≤ length body
    → Fits hi (length body)
    → class_run p lo hi (body ++ ending) ≡ true
unfolding class_run
class_run_complete p lo hi [] [] e a enough f = ground arith
class_run_complete p lo hi [] (c ∷ cs) e a enough f = ground arith
class_run_complete p lo hi (c ∷ body) ending e (pc, a) enough f =
    let (r, f') = Fits-less hi (length body) f in
    ground (arith, class_run_complete p (lo - 1) (less hi) body ending e a (omega arith) f')

-- A letter and then a run of a class, which an optional newline ends.
abbrev pub Named : (ℕ → Bool) → ℕ → Option ℕ → List ℕ → Type 0
Named p lo hi [] = ⊥
Named p lo hi (c ∷ cs) = (letter c ≡ true) × Run p lo hi cs

letter_then_iff :
    (p : ℕ → Bool) (lo : ℕ) (hi : Option ℕ) (value : List ℕ)
    → (letter_then p lo hi value ≡ true) ↔ Named p lo hi value
unfolding letter_then
letter_then_iff p lo hi [] = (λ h. absurd (cc h), λ h. absurd h)
letter_then_iff p lo hi (c ∷ cs) = (
  λ h. (ground arith, class_run_sound p lo hi cs (ground arith)),
  λ k.
      let (l, run) = k in
      let (body, fits, ends, enough, bound) = run in
      ground (arith, whole body fits ends enough bound),
)
  where
    whole :
        (body : List ℕ)
        → All (λ d. p d ≡ true) body
        → EndsAt cs body
        → lo ≤ length body
        → Fits hi (length body)
        → class_run p lo hi cs ≡ true
    whole body fits (inl e) enough bound =
        rw (e ∙ sym (append-nil body)) (class_run_complete p lo hi body [] refl fits enough bound)
    whole body fits (inr e) enough bound =
        rw e (class_run_complete p lo hi body (10 ∷ []) refl fits enough bound)

letter_then_cons :
    (p : ℕ → Bool) (lo : ℕ) (hi : Option ℕ) (value : List ℕ)
    → letter_then p lo hi value ≡ true
    → 0 < length value
unfolding letter_then
letter_then_cons p lo hi [] h = absurd (cc h)
letter_then_cons p lo hi (c ∷ cs) h = omega arith

-- A username is accepted exactly if it has at most 32 characters and is an ASCII letter followed by
-- one or more letters, digits or underscores, and then nothing or one newline.
pub validate_username_iff :
    (value : List ℕ)
    → (validate_username value ≡ ok tt)
      ↔ ((length value ≤ max_username_length) × Named username_char 1 none value)
unfolding validate_username
validate_username_iff value =
    let (to, from) = letter_then_iff username_char 1 none value in
    (
      λ h. (ground arith, to (ground arith)),
      λ k. let (fits, named) = k in accept value fits (from named),
    )
  where
    accept :
        (v : List ℕ)
        → length v ≤ max_username_length
        → letter_then username_char 1 none v ≡ true
        → validate_username v ≡ ok tt
    accept v fits h = ground (arith, h, letter_then_cons username_char 1 none v h)

-- A role name is accepted exactly if it is an ASCII letter followed by 2 to 31 letters, digits,
-- underscores or dashes, and then nothing or one newline.
pub validate_role_name_iff :
    (value : List ℕ) → (validate_role_name value ≡ ok tt) ↔ Named role_char 2 (some 31) value
unfolding validate_role_name
validate_role_name_iff value =
    let (to, from) = letter_then_iff role_char 2 (some 31) value in
    (
      λ h. to (ground arith),
      λ k. ground (arith, from k, letter_then_cons role_char 2 (some 31) value (from k)),
    )
