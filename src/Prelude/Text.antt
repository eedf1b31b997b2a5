-- ===== src/Prelude/Text.antt =====
-- C strings as the list of their bytes before the terminator, with the string functions of the C
-- library that the code calls.
use Prim.Native.Char.{code}
use Prim.Native.String.{String}
use Prim.Native.Nat.{ℕ}
use mathlib.Core.Bool.{Bool, true, false}
use mathlib.Core.List.{List, [], ◌∷◌}
use balloon_suchai_flight_so.Prelude.Tests.{ltb, ◌==◌, if◌then◌else◌}

abbrev pub Text : Type 0
Text = List ℕ

-- A literal of the source.
abbrev pub codes : String → Text
codes String.[] = []
codes (String.◌∷◌ c s) = code c ∷ codes s

-- `strcmp(a, b) < 0`: bytes compare as unsigned, and a proper prefix is smaller.
unfoldable pub strcmp_lt : Text → Text → Bool
strcmp_lt a [] = false
strcmp_lt [] (y ∷ b) = true
strcmp_lt (x ∷ a) (y ∷ b) = let rest = strcmp_lt a b in if x == y then rest else ltb x y

-- `strcmp(a, b) == 0`.
unfoldable pub strcmp_eq : Text → Text → Bool
strcmp_eq [] [] = true
strcmp_eq [] (y ∷ b) = false
strcmp_eq (x ∷ a) [] = false
strcmp_eq (x ∷ a) (y ∷ b) = let rest = strcmp_eq a b in if x == y then rest else false
