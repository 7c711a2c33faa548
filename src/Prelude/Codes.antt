-- ===== src/Prelude/Codes.antt =====
-- The bytes of a text literal, which is ASCII wherever it stands for bytes.
use Prim.Native.Char.{code}
use Prim.Native.String.{String}
use Prim.Native.Nat.{ℕ}
use mathlib.Core.List.{List, [], ◌∷◌, ◌++◌}

abbrev pub codes : String → List ℕ
codes String.[] = []
codes (String.◌∷◌ c s) = code c ∷ codes s

-- With the line feed at its end.
abbrev pub line : String → List ℕ
line s = codes s ++ 10 ∷ []
