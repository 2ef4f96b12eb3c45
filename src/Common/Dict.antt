-- ===== src/Common/Dict.antt =====
-- Python's `dict` with text keys, as an association list in the order of insertion.
use Prim.Native.Nat.{◌+◌, ◌≤◌}
use Prim.Native.String.{String}
use mathlib.Core.Path.{◌≡◌, refl}
use mathlib.Core.Bool.{Bool, cond}
use mathlib.Core.Option.{Option, none, some}
use mathlib.Core.List.{List, [], ◌∷◌}
use native.Mathlib.Omega.{arith}
use text.Mathlib.Text.{◌==◌}
use text.Mathlib.TextEquality.{eq_iff}
use fast_stream_template.Common.Lists.{length}

abbrev pub Dict {ℓ} : Type ℓ → Type ℓ
Dict V = List (String × V)

module _ {ℓ} {V : Type ℓ} where
  -- d.get(k)
  unfoldable pub lookup : String → Dict V → Option V
  lookup k [] = none
  lookup k ((j, v) ∷ d) = cond (j == k) (some v) (lookup k d)

  -- d[k] = v
  unfoldable pub insert : String → V → Dict V → Dict V
  insert k v [] = (k, v) ∷ []
  insert k v ((j, w) ∷ d) = let rest = insert k v d in cond (j == k) ((k, v) ∷ d) ((j, w) ∷ rest)

  -- d.pop(k, None)
  unfoldable pub remove : String → Dict V → Dict V
  remove k [] = []
  remove k ((j, v) ∷ d) = let rest = remove k d in cond (j == k) rest ((j, v) ∷ rest)

  -- The entries that pass a test on their value.
  unfoldable pub retain : (V → Bool) → Dict V → Dict V
  retain p [] = []
  retain p ((j, v) ∷ d) = let rest = retain p d in cond (p v) ((j, v) ∷ rest) rest

  pub lookup-insert :
      (k j : String) (v : V) (d : Dict V)
      → lookup j (insert k v d) ≡ cond (k == j) (some v) (lookup j d)
  unfolding lookup insert
  lookup-insert k j v [] = refl
  lookup-insert k j v ((i, w) ∷ d) =
      ground (arith, eq_iff k j, eq_iff i k, eq_iff i j, lookup-insert k j v d)

  pub lookup-remove :
      (k j : String) (d : Dict V) → lookup j (remove k d) ≡ cond (k == j) none (lookup j d)
  unfolding lookup remove
  lookup-remove k j [] = ground arith
  lookup-remove k j ((i, w) ∷ d) =
      ground (arith, eq_iff k j, eq_iff i k, eq_iff i j, lookup-remove k j d)

  pub length-insert : (k : String) (v : V) (d : Dict V) → length (insert k v d) ≤ length d + 1
  unfolding insert
  length-insert k v [] = omega arith
  length-insert k v ((j, w) ∷ d) = ground (arith, length-insert k v d)

  pub length-retain : (p : V → Bool) (d : Dict V) → length (retain p d) ≤ length d
  unfolding retain
  length-retain p [] = omega arith
  length-retain p ((j, v) ∷ d) = ground (arith, length-retain p d)

  -- No key stands twice.
  abbrev pub Distinct : Dict V → Type ℓ
  Distinct [] = Unit
  Distinct ((k, v) ∷ d) = (lookup k d ≡ none) × Distinct d

  pub Distinct-insert : (k : String) (v : V) (d : Dict V) → Distinct d → Distinct (insert k v d)
  unfolding insert
  Distinct-insert k v [] h = (unfold lookup in refl, tt)
  Distinct-insert k v ((j, w) ∷ d) (new, h) =
      ground (arith, Distinct-insert k v d h, lookup-insert k j v d, eq_iff j k, eq_iff k j)

  lookup-retain-none :
      (p : V → Bool) (k : String) (d : Dict V) → lookup k d ≡ none → lookup k (retain p d) ≡ none
  unfolding lookup retain
  lookup-retain-none p k [] h = refl
  lookup-retain-none p k ((j, v) ∷ d) h = ground (arith, lookup-retain-none p k d)

  pub Distinct-retain : (p : V → Bool) (d : Dict V) → Distinct d → Distinct (retain p d)
  unfolding retain
  Distinct-retain p [] h = tt
  Distinct-retain p ((j, v) ∷ d) (new, h) =
      ground (arith, Distinct-retain p d h, lookup-retain-none p j d new)

  abbrev pub passing : (V → Bool) → Option V → Option V
  passing p none = none
  passing p (some v) = cond (p v) (some v) none

  pub lookup-retain :
      (p : V → Bool) (k : String) (d : Dict V)
      → Distinct d
      → lookup k (retain p d) ≡ passing p (lookup k d)
  unfolding lookup retain
  lookup-retain p k [] h = refl
  lookup-retain p k ((j, v) ∷ d) (new, h) =
      ground (arith, lookup-retain p k d h, eq_iff j k, lookup-retain-none p j d new)
