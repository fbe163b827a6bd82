-- ===== src/Prelude/Chars.antt =====
-- Text as a list of Unicode scalar values: what `str::chars` yields.
use Prim.Native.Nat.{ℕ}
use Prim.Native.Char.{code}
use Prim.Native.String.{String}
use mathlib.Core.Path.{◌≡◌, refl}
use mathlib.Core.Bool.{Bool, true, false, ◌&&◌, ◌||◌}
use mathlib.Core.List.{List, [], ◌∷◌}
use native.Mathlib.Omega.{arith}
use wide_log.Prelude.Tests.{◌==◌}

abbrev pub Str : Type 0
Str = List ℕ

-- The characters of a literal.
abbrev pub chars : String → Str
chars String.[] = []
chars (String.◌∷◌ c s) = code c ∷ chars s

-- `a == b` on strings.
unfoldable pub str_eq : Str → Str → Bool
str_eq [] [] = true
str_eq [] (d ∷ t) = false
str_eq (c ∷ s) [] = false
str_eq (c ∷ s) (d ∷ t) = c == d && str_eq s t

-- `s.contains(c)`, for a character.
unfoldable pub contains : ℕ → Str → Bool
contains c [] = false
contains c (d ∷ s) = d == c || contains c s

pub str_eq_refl : (s : Str) → str_eq s s ≡ true
unfolding str_eq
str_eq_refl [] = refl
str_eq_refl (c ∷ s) = ground (arith, str_eq_refl s)

pub str_eq→eq : (s t : Str) → str_eq s t ≡ true → s ≡ t
unfolding str_eq
str_eq→eq [] [] h = refl
str_eq→eq [] (d ∷ t) h = cc
str_eq→eq (c ∷ s) [] h = cc
str_eq→eq (c ∷ s) (d ∷ t) h = ground (arith, str_eq→eq s t)
