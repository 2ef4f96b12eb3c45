-- ===== src/Domain/Names/PasswordBounds.antt =====
-- The lengths of an accepted password, in characters and in bytes.
use fast_stream_template.Common.{
  ℕ, Bool-cases, refl, ◌+◌, ◌*◌, ◌≤◌, ◌<◌, ◌≡◌, ◌≢◌, true, false, some, none, List, [], ◌∷◌, any,
  arith, length, inl, inr,
}
use fast_stream_template.Errors.{password_too_long, unicode_encode_error, ok, err}
use fast_stream_template.Domain.Names.{
  CharClasses, is_surrogate, min_password_length, max_password_bytes, utf8_width, utf8_length,
  validate_password,
}

utf8_length-surrogate : (cs : List ℕ) → any is_surrogate cs ≡ true → utf8_length cs ≡ none
unfolding utf8_length
utf8_length-surrogate [] h = absurd (cc h)
utf8_length-surrogate (c ∷ cs) h = elim (Bool-cases (is_surrogate c)) [
  | inl e ↦ rw e
  | inr e ↦ rw e (rw (utf8_length-surrogate cs (ground arith)))
]

utf8_length_bounds :
    (cs : List ℕ)
    → any is_surrogate cs ≡ false
    → (n : ℕ) × (utf8_length cs ≡ some n) × (length cs ≤ n) × (n ≤ 4 * length cs)
unfolding utf8_length
utf8_length_bounds [] h = (0, refl, omega arith, omega arith)
utf8_length_bounds (c ∷ cs) h =
    let w : (1 ≤ utf8_width c) × (utf8_width c ≤ 4) = unfold utf8_width in ground arith in
    let plain : is_surrogate c ≡ false = ground arith in
    let (n, same, least, most) = utf8_length_bounds cs (ground arith) in
    (utf8_width c + n, rw plain (rw same), omega arith, omega arith)

-- A password with a surrogate is never accepted: from 8 characters on its encoding raises. One
-- without is refused for its length in bytes (of which bcrypt takes 72) if it has more than 72
-- characters, and never if it has 18 or fewer. One that is accepted has 8 to 72 characters, none of
-- them a surrogate.
pub validate_password_bounds :
    (classes : CharClasses) (value : List ℕ)
    → (any is_surrogate value ≡ true
        → min_password_length ≤ length value
        → validate_password classes value ≡ err unicode_encode_error)
      × (any is_surrogate value ≡ false
          → max_password_bytes < length value
          → validate_password classes value ≡ err password_too_long)
      × (any is_surrogate value ≡ false
          → length value ≤ 18
          → validate_password classes value ≢ err password_too_long)
      × (validate_password classes value ≡ ok tt
          → (min_password_length ≤ length value)
            × (length value ≤ max_password_bytes)
            × (any is_surrogate value ≡ false))
unfolding validate_password
validate_password_bounds classes value = (
  λ bad enough. let raised = utf8_length-surrogate value bad in ground arith,
  λ plain long. let (n, same, least, most) = utf8_length_bounds value plain in ground arith,
  λ plain short refused.
      let (n, same, least, most) = utf8_length_bounds value plain in ground arith,
  λ accepted. elim (Bool-cases (any is_surrogate value)) [
    | inl bad ↦ let raised = utf8_length-surrogate value bad in absurd (ground arith)
    | inr plain ↦
        let (n, same, least, most) = utf8_length_bounds value plain in
        (ground arith, ground arith, plain)
  ],
)
