-- ===== src/Common.antt =====
-- The names that the other modules share: the libraries', passed on, Boolean tests on numbers,
-- lists over the native numbers, and the units of time. An instant is a number of microseconds
-- (the resolution of Python's datetime), a duration too.
mod Lists
pub mod Dict
pub use Lists.*
use Prim.Native.Nat.{compare, Ordering}
pub use Prim.Native.Nat.{ℕ, zero, suc, ◌+◌, ◌-◌, ◌*◌, ◌/◌, ◌%◌, ◌^◌, ◌≤◌, ◌<◌, min, max}
pub use Prim.Native.String.{String}
pub use mathlib.Core.Path.{◌≡◌, refl, sym, ap, ◌∙◌, fun_ext}
pub use mathlib.Core.Logic.{◌≢◌, ◌↔◌, ◌⊎◌, inl, inr}
pub use mathlib.Core.Bool.{Bool, true, false, not, ◌&&◌, ◌||◌}
pub use mathlib.Core.Option.{Option, none, some}
pub use mathlib.Core.List.{List, [], ◌∷◌, ◌++◌, map}
pub use native.Mathlib.Omega.{arith}
pub use text.Mathlib.Text.{◌==◌ as str_eq}
pub use text.Mathlib.TextEquality.{eq_iff as str_eq_iff}
pub use text.Mathlib.TextPositions.{eq_refl as str_eq_refl}

abbrev pub ltb : ℕ → ℕ → Bool
ltb a b = elim (compare a b) [ Ordering.lt ↦ true | _ ↦ false ]

abbrev pub leb : ℕ → ℕ → Bool
leb a b = elim (compare a b) [ Ordering.gt ↦ false | _ ↦ true ]

infix 50 ◌==◌
abbrev pub ◌==◌ : ℕ → ℕ → Bool
a == b = elim (compare a b) [ Ordering.eq ↦ true | _ ↦ false ]

infix 1 if◌then◌else◌
abbrev pub if◌then◌else◌ {ℓ} : {A : Type ℓ} → Bool → A → A → A
if true then x else y = x
if false then x else y = y

pub Bool-cases : (b : Bool) → (b ≡ true) ⊎ (b ≡ false)
Bool-cases true = inl refl
Bool-cases false = inr refl

pub Option-cases {ℓ} : {A : Type ℓ} (o : Option A) → (o ≡ none) ⊎ ((a : A) × (o ≡ some a))
Option-cases none = inl refl
Option-cases (some a) = inr (a, refl)

-- `x is not None`
abbrev pub is_some {ℓ} : {A : Type ℓ} → Option A → Bool
is_some none = false
is_some (some x) = true

-- Equality of optional texts, as Python's `==` on `str | None`.
abbrev pub opt_str_eq : Option String → Option String → Bool
opt_str_eq none none = true
opt_str_eq (some a) (some b) = str_eq a b
opt_str_eq none (some b) = false
opt_str_eq (some a) none = false

-- `x or ''`
abbrev pub or_empty : Option String → String
or_empty none = ""
or_empty (some s) = s

abbrev pub Time : Type 0
Time = ℕ

abbrev pub seconds : ℕ → ℕ
seconds n = n * 1000000

abbrev pub minutes : ℕ → ℕ
minutes n = n * 60000000

abbrev pub hours : ℕ → ℕ
hours n = n * 3600000000

abbrev pub days : ℕ → ℕ
days n = n * 86400000000

-- A UUID as the 128-bit number that it is; `NIL_UUID` is 0.
abbrev pub Uuid : Type 0
Uuid = ℕ

-- A byte string, written as a text of code points below 256.
abbrev pub Bytes : Type 0
Bytes = String
