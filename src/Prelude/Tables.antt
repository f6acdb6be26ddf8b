-- ===== src/Prelude/Tables.antt =====
-- A GHashTable with string keys, as an association list. No entry is iterated over where the order
-- matters: `insert` replaces the value of a key that is there, and else adds one at the end.
use Prim.Native.String.{String}
use mathlib.Core.Path.{◌≡◌, refl}
use mathlib.Core.Bool.{Bool, true, false}
use mathlib.Core.Option.{Option, none, some}
use mathlib.Core.List.{List, [], ◌∷◌}
use native.Mathlib.Omega.{arith}
use text.Mathlib.Text.{◌==◌}
use text.Mathlib.TextEquality.{eq_iff}
use gemstone.Prelude.Tests.{if◌then◌else◌}

abbrev pub Table {ℓ} : Type ℓ → Type ℓ
Table V = List (String × V)

abbrev pub is_some {ℓ} : {A : Type ℓ} → Option A → Bool
is_some none = false
is_some (some _) = true

module _ {ℓ} {V : Type ℓ} where
  unfoldable pub lookup : Table V → String → Option V
  lookup [] k = none
  lookup ((j, v) ∷ t) k = if j == k then some v else lookup t k

  abbrev pub contains : Table V → String → Bool
  contains t k = is_some (lookup t k)

  unfoldable pub insert : Table V → String → V → Table V
  insert [] k v = (k, v) ∷ []
  insert ((j, w) ∷ t) k v = if j == k then (k, v) ∷ t else (j, w) ∷ insert t k v

  pub lookup-insert :
      (t : Table V) (k : String) (v : V) (j : String)
      → lookup (insert t k v) j ≡ (if k == j then some v else lookup t j)
  unfolding lookup insert
  lookup-insert [] k v j = refl
  lookup-insert ((i, w) ∷ t) k v j =
      ground (arith, eq_iff k j, eq_iff i k, eq_iff i j, lookup-insert t k v j)
