-- ===== src/Common/Text.antt =====
-- Text that the program walks is a list of code points; identifiers that it only compares are
-- native strings.
use Prim.Native.Char.{code}
use Prim.Native.Nat.{ℕ}
use Prim.Native.String.{String, ◌++◌}
use text.Mathlib.Text
use mathlib.Core.Path.{◌≡◌, refl}
use mathlib.Core.Bool.{Bool, true, false, ◌&&◌}
use mathlib.Core.List.{List, [], ◌∷◌}
use native.Mathlib.Omega.{arith}
use nuclei_security_center.Common.Tests.{◌==◌}

abbrev pub Chars : Type 0
Chars = List ℕ

abbrev pub codes : String → Chars
codes String.[] = []
codes (String.◌∷◌ c s) = code c ∷ codes s

abbrev pub str_eq : String → String → Bool
str_eq a b = Text.◌==◌ a b

abbrev pub chars_eq : Chars → Chars → Bool
chars_eq [] [] = true
chars_eq [] (d ∷ t) = false
chars_eq (c ∷ s) [] = false
chars_eq (c ∷ s) (d ∷ t) = (c == d) && chars_eq s t

pub chars_eq→eq : (s t : Chars) → chars_eq s t ≡ true → s ≡ t
chars_eq→eq [] [] h = refl
chars_eq→eq [] (d ∷ t) h = ground arith
chars_eq→eq (c ∷ s) [] h = ground arith
chars_eq→eq (c ∷ s) (d ∷ t) h = ground (arith, chars_eq→eq s t)

pub chars_eq_refl : (s : Chars) → chars_eq s s ≡ true
chars_eq_refl [] = refl
chars_eq_refl (c ∷ s) = ground (arith, chars_eq_refl s)

-- Go's `+` on strings.
abbrev pub concat : String → String → String
concat a b = a ++ b
