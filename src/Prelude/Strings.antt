-- ===== src/Prelude/Strings.antt =====
-- Texts as lists of code points (or of bytes), with the tests of Go's `strings` package.
use Prim.Native.Nat.{ℕ}
use Prim.Native.Char.{code}
use Prim.Native.String.{String}
use mathlib.Core.Path.{◌≡◌, refl}
use mathlib.Core.Bool.{Bool, true, false, ◌&&◌}
use mathlib.Core.List.{List, [], ◌∷◌}
use native.Mathlib.Omega.{arith}
use anvil_forge.Prelude.Tests.{◌==◌}

abbrev pub Text : Type 0
Text = List ℕ

abbrev pub codes : String → Text
codes String.[] = []
codes (String.◌∷◌ c s) = code c ∷ codes s

-- `a == b` on strings.
unfoldable pub eq_text : Text → Text → Bool
eq_text [] [] = true
eq_text (a ∷ xs) (b ∷ ys) = a == b && eq_text xs ys
eq_text _ _ = false

pub eq_text-eq : (s t : Text) → eq_text s t ≡ true → s ≡ t
unfolding eq_text
eq_text-eq [] [] h = refl
eq_text-eq (a ∷ xs) (b ∷ ys) h = ground (arith, eq_text-eq xs ys)
eq_text-eq [] (b ∷ ys) h = ground arith
eq_text-eq (a ∷ xs) [] h = ground arith

pub eq_text_refl : (s : Text) → eq_text s s ≡ true
unfolding eq_text
eq_text_refl [] = refl
eq_text_refl (a ∷ s) = ground (arith, eq_text_refl s)
