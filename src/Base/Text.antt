-- ===== src/Base/Text.antt =====
-- Texts: their bytes, search for a byte, and association lists with text keys.
use Prim.Native.Nat.{ℕ}
use Prim.Native.Char.{code}
use Prim.Native.String.{String}
use mathlib.Core.Path.{◌≡◌}
use mathlib.Core.Bool.{Bool, false, ◌||◌}
use mathlib.Core.List.{List, [], ◌∷◌}
use mathlib.Core.Option.{Option, none, some}
use native.Mathlib.Omega.{arith}
use text.Mathlib.Text.{◌==◌}
use text.Mathlib.TextEquality.{eq_iff}
use package.kube_csr.Base.Tests.{if◌then◌else◌}

-- The code points of a text: its bytes, if it is ASCII.
abbrev pub codes : String → List ℕ
codes String.[] = []
codes (String.◌∷◌ c s) = code c ∷ codes s

-- The text is in the list: the test of a set kept as a map.
unfoldable pub has : String → List String → Bool
has h [] = false
has h (x ∷ xs) = x == h || has h xs

-- A Go map with text keys is a list of its entries, a key at most once.
module _ {ℓ} {V : Type ℓ} where
  -- m[key], where a missing key gives `none`
  unfoldable pub lookup : String → List (String × V) → Option V
  lookup key [] = none
  lookup key (entry ∷ rest) = if entry.0 == key then some entry.1 else lookup key rest

  -- delete(m, key)
  unfoldable pub remove : String → List (String × V) → List (String × V)
  remove key [] = []
  remove key (entry ∷ rest) =
      let others = remove key rest in if entry.0 == key then others else entry ∷ others

  -- m[key] = v
  abbrev pub insert : String → V → List (String × V) → List (String × V)
  insert key v entries = (key, v) ∷ remove key entries

  pub lookup-remove :
      (gone key : String) (entries : List (String × V))
      → lookup key (remove gone entries) ≡ (if gone == key then none else lookup key entries)
  unfolding lookup remove
  lookup-remove gone key [] = ground arith
  lookup-remove gone key (entry ∷ rest) =
      ground (
        arith,
        lookup-remove gone key rest,
        eq_iff entry.0 gone,
        eq_iff entry.0 key,
        eq_iff gone key,
      )

  pub lookup-insert :
      (set key : String) (v : V) (entries : List (String × V))
      → lookup key (insert set v entries) ≡ (if set == key then some v else lookup key entries)
  unfolding lookup
  lookup-insert set key v entries = ground (arith, lookup-remove set key entries)
