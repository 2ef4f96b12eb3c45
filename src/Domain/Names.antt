-- ===== src/Domain/Names.antt =====
-- The checks of src/domain/user/value_objects (username.py, role_name.py, email.py, password.py,
-- user_id.py, role_id.py) and the permission names of entities/rbac.py, over code points. A regular
-- expression of the source is a function that tries its alternatives as Python's `re` does; `$`
-- holds at the end and before a newline that is the last character.
pub mod Formats
pub mod PasswordBounds
use fast_stream_template.Common.{
  ℕ, ◌+◌, ◌-◌, String, Bool, true, false, not, ◌&&◌, ◌||◌, Option, none, some, List, [], ◌∷◌,
  str_eq, ltb, leb, ◌==◌, if◌then◌else◌, Uuid, Bytes, length, any,
}
use fast_stream_template.Errors.{
  wrong_user_id, wrong_role_id, wrong_role_name, wrong_permission_name, empty_username,
  too_long_username, wrong_username_format, empty_password, password_too_short, password_too_long,
  password_too_weak, empty_email, invalid_email_format, hashed_password_empty, unicode_encode_error,
  Result, ok, err,
}
use Prim.Native.Char.{code}
use Prim.Native.String

-- The code points of a text.
abbrev pub codes : String → List ℕ
codes String.[] = []
codes (String.◌∷◌ c s) = code c ∷ codes s

abbrev pub between : ℕ → ℕ → ℕ → Bool
between lo hi c = leb lo c && leb c hi

-- [A-Za-z]
abbrev pub letter : ℕ → Bool
letter c = between b'A' b'Z' c || between b'a' b'z' c

abbrev pub digit : ℕ → Bool
digit c = between b'0' b'9' c

-- [A-Za-z0-9_]
abbrev pub username_char : ℕ → Bool
username_char c = letter c || digit c || c == b'_'

-- [a-zA-Z0-9_-]
abbrev pub role_char : ℕ → Bool
role_char c = username_char c || c == b'-'

-- [a-zA-Z0-9_:.-]
abbrev pub permission_char : ℕ → Bool
permission_char c = role_char c || c == b':' || c == b'.'

-- `$`
abbrev pub at_end : List ℕ → Bool
at_end [] = true
at_end (c ∷ []) = c == 10
at_end (c ∷ d ∷ cs) = false

-- Whether a bound `{.., hi}` leaves room for one more character, and what it leaves then.
abbrev pub room : Option ℕ → Bool
room none = true
room (some hi) = ltb 0 hi

abbrev pub less : Option ℕ → Option ℕ
less none = none
less (some hi) = some (hi - 1)

-- [class]{lo,hi}$
unfoldable pub class_run : (ℕ → Bool) → ℕ → Option ℕ → List ℕ → Bool
class_run p lo hi [] = lo == 0
class_run p lo hi (c ∷ cs) =
    (lo == 0 && at_end (c ∷ cs)) || (p c && room hi && class_run p (lo - 1) (less hi) cs)

-- ^[A-Za-z][class]{lo,hi}$
unfoldable pub letter_then : (ℕ → Bool) → ℕ → Option ℕ → List ℕ → Bool
unfolding class_run
letter_then p lo hi [] = false
letter_then p lo hi (c ∷ cs) = letter c && class_run p lo hi cs

abbrev pub max_username_length : ℕ
max_username_length = 32

-- Username
unfoldable pub validate_username : List ℕ → Result (Unit {0})
unfolding letter_then
validate_username value =
    if length value == 0
    then err empty_username
    else if ltb max_username_length (length value)
    then err too_long_username
    else if not (letter_then username_char 1 none value)
    then err wrong_username_format
    else ok tt

-- RoleName
unfoldable pub validate_role_name : List ℕ → Result (Unit {0})
unfolding letter_then
validate_role_name value =
    if length value == 0
    then err wrong_role_name
    else if not (letter_then role_char 2 (some 31) value)
    then err wrong_role_name
    else ok tt

-- Permission
unfoldable pub validate_permission : List ℕ → Result (Unit {0})
unfolding letter_then
validate_permission name =
    if not (letter_then permission_char 1 (some 63) name) then err wrong_permission_name else ok tt

-- [a-zA-Z0-9.-]
abbrev pub domain_char : ℕ → Bool
domain_char c = letter c || digit c || c == b'.' || c == b'-'

-- [a-zA-Z0-9._%+-]
abbrev pub local_char : ℕ → Bool
local_char c = domain_char c || c == b'_' || c == b'%' || c == b'+'

-- [a-zA-Z0-9.-]+\.[a-zA-Z]{2,}$, `seen` after the first character of the domain
unfoldable pub domain_part : Bool → List ℕ → Bool
unfolding class_run
domain_part seen [] = false
domain_part seen (c ∷ cs) =
    (seen && c == b'.' && class_run letter 2 none cs) || (domain_char c && domain_part true cs)

-- ^[a-zA-Z0-9._%+-]+@ and the domain, `seen` after the first character
unfoldable pub local_part : Bool → List ℕ → Bool
unfolding domain_part
local_part seen [] = false
local_part seen (c ∷ cs) =
    (seen && c == b'@' && domain_part false cs) || (local_char c && local_part true cs)

-- Email
unfoldable pub validate_email : Option (List ℕ) → Result (Unit {0})
unfolding local_part
validate_email none = ok tt
validate_email (some value) =
    if length value == 0
    then err empty_email
    else if not (local_part false value)
    then err invalid_email_format
    else ok tt

-- The Unicode predicates of Python's `str`, which the source calls.
pub record CharClasses : Type 0 where
  pub is_lower : ℕ → Bool
  pub is_upper : ℕ → Bool
  pub is_digit : ℕ → Bool
  pub is_alnum : ℕ → Bool

abbrev pub min_password_length : ℕ
min_password_length = 8

abbrev pub max_password_bytes : ℕ
max_password_bytes = 72

-- The code points that no text in UTF-8 has
abbrev pub is_surrogate : ℕ → Bool
is_surrogate = between 0xD800 0xDFFF

-- The bytes of one code point in UTF-8
unfoldable pub utf8_width : ℕ → ℕ
utf8_width c = if ltb c 0x80 then 1 else if ltb c 0x800 then 2 else if ltb c 0x10000 then 3 else 4

abbrev pub add_width : ℕ → Option ℕ → Option ℕ
add_width width none = none
add_width width (some rest) = some (width + rest)

-- len(value.encode('utf-8')), or none where `encode` raises: on a surrogate
unfoldable pub utf8_length : List ℕ → Option ℕ
unfolding utf8_width
utf8_length [] = some 0
utf8_length (c ∷ cs) =
    let rest = utf8_length cs in if is_surrogate c then none else add_width (utf8_width c) rest

unfoldable pub has_required_mix : CharClasses → List ℕ → Bool
has_required_mix classes value =
    any classes.is_lower value
    && any classes.is_upper value
    && any classes.is_digit value
    && any (λ c. not (classes.is_alnum c)) value

-- The checks of PlainPassword from the encoding on
abbrev pub when_encoded : CharClasses → List ℕ → Option ℕ → Result (Unit {0})
when_encoded classes value none = err unicode_encode_error
when_encoded classes value (some bytes) =
    if ltb max_password_bytes bytes
    then err password_too_long
    else if not (has_required_mix classes value)
    then err password_too_weak
    else ok tt

-- PlainPassword
unfoldable pub validate_password : CharClasses → List ℕ → Result (Unit {0})
unfolding utf8_length has_required_mix
validate_password classes value =
    if length value == 0
    then err empty_password
    else if ltb (length value) min_password_length
    then err password_too_short
    else when_encoded classes value (utf8_length value)

-- HashedPassword, over the text of its bytes; the ValueError is `hashed_password_empty`
unfoldable pub validate_hashed_password : Bytes → Result (Unit {0})
validate_hashed_password value = if str_eq value "" then err hashed_password_empty else ok tt

-- UserID over a UUID
unfoldable pub validate_user_id : Uuid → Result (Unit {0})
validate_user_id value = if value == 0 then err wrong_user_id else ok tt

-- RoleID over a UUID
unfoldable pub validate_role_id : Uuid → Result (Unit {0})
validate_role_id value = if value == 0 then err wrong_role_id else ok tt
