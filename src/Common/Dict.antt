-- ===== src/Common/Dict.antt =====
-- Go's `map[string]V`: an association list in which the first entry of a key counts. The program
-- reads such maps by key, so what it can observe of one is `lookup`.
use nuclei_security_center.Common.Tests.{if◌then◌else◌}
use nuclei_security_center.Common.Text.{str_eq}
use Prim.Native.String.{String}
use mathlib.Core.Path.{◌≡◌}
use mathlib.Core.Option.{Option, none, some}
use mathlib.Core.List.{List, [], ◌∷◌}
use text.Mathlib.TextEquality.{eq_iff}
use native.Mathlib.Omega.{arith}

abbrev pub Dict {ℓ} : Type ℓ → Type ℓ
Dict V = List (String × V)

module _ {ℓ} {V : Type ℓ} where
  -- `value, ok := m[key]`
  unfoldable pub lookup : String → Dict V → Option V
  lookup key [] = none
  lookup key (entry ∷ rest) = if str_eq entry.0 key then some entry.1 else lookup key rest

  -- `delete(m, key)`
  unfoldable pub remove : String → Dict V → Dict V
  remove key [] = []
  remove key (entry ∷ rest) =
      let others = remove key rest in if str_eq entry.0 key then others else entry ∷ others

  -- `m[key] = value`
  unfoldable pub insert : String → V → Dict V → Dict V
  unfolding remove
  insert key value m = (key, value) ∷ remove key m

  module _ (key other : String) where
    pub lookup-remove :
        (m : Dict V)
        → lookup other (remove key m) ≡ (if str_eq key other then none else lookup other m)
    unfolding remove lookup
    lookup-remove [] = ground arith
    lookup-remove (entry ∷ rest) =
        ground
          (arith, lookup-remove rest, eq_iff entry.0 key, eq_iff entry.0 other, eq_iff key other)

    pub lookup-insert :
        (value : V) (m : Dict V)
        → lookup other (insert key value m)
          ≡ (if str_eq key other then some value else lookup other m)
    unfolding lookup insert
    lookup-insert value m = ground (arith, lookup-remove m)
