-- ===== src/Tests/Roles.antt =====
-- The formats of names and passwords on concrete inputs.
use fast_stream_template.Common.{
  List, ℕ, any, false, some, ◌<◌, length, none, refl, true, ◌||◌, ◌↔◌, ◌∷◌, ◌≡◌, ◌≢◌, ◌≤◌,
}
use fast_stream_template.Errors.{err, ok, password_too_long, unicode_encode_error}
use fast_stream_template.Domain.Names.{
  CharClasses, codes, between, digit, letter, max_password_bytes, class_run, letter_then,
  is_surrogate, max_username_length, min_password_length, role_char, username_char,
  validate_password, validate_role_name, validate_username,
}
use fast_stream_template.Domain.Names.Formats.{validate_username_iff, validate_role_name_iff, Named}
use fast_stream_template.Domain.Names.PasswordBounds.{validate_password_bounds}

validate_username_iff_example :
    (validate_username (codes "ann_1") ≡ ok tt)
    ↔ ((length (codes "ann_1") ≤ max_username_length) × Named username_char 1 none (codes "ann_1"))
validate_username_iff_example = validate_username_iff (codes "ann_1")

validate_role_name_iff_example :
    (validate_role_name (codes "writer") ≡ ok tt) ↔ Named role_char 2 (some 31) (codes "writer")
validate_role_name_iff_example = validate_role_name_iff (codes "writer")

-- One newline behind a name is accepted.
trailing_newline :
    (validate_username (codes "ann\n") ≡ ok tt) × (validate_role_name (codes "writer\n") ≡ ok tt)
unfolding validate_username validate_role_name letter_then class_run
trailing_newline = (refl, refl)

-- The ASCII part of the Unicode predicates.
abbrev ascii_classes : CharClasses
ascii_classes = record {
  is_lower = between b'a' b'z';
  is_upper = between b'A' b'Z';
  is_digit = digit;
  is_alnum = λ c. letter c || digit c;
}

-- A password that is fine but for the surrogate before it
abbrev broken : List ℕ
broken = 0xDC80 ∷ codes "Passw0rd!"

validate_password_bounds_example :
    (any is_surrogate broken ≡ true
      → min_password_length ≤ length broken
      → validate_password ascii_classes broken ≡ err unicode_encode_error)
    × (any is_surrogate broken ≡ false
        → max_password_bytes < length broken
        → validate_password ascii_classes broken ≡ err password_too_long)
    × (any is_surrogate broken ≡ false
        → length broken ≤ 18
        → validate_password ascii_classes broken ≢ err password_too_long)
    × (validate_password ascii_classes broken ≡ ok tt
        → (min_password_length ≤ length broken)
          × (length broken ≤ max_password_bytes)
          × (any is_surrogate broken ≡ false))
validate_password_bounds_example = validate_password_bounds ascii_classes broken
