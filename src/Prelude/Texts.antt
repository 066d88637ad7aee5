-- ===== src/Prelude/Texts.antt =====
-- Texts and byte strings are lists of their units.
use Prim.Native.Nat.{ℕ}
use Prim.Native.Char.{code}
use Prim.Native.String.{String}
use mathlib.Core.List.{List, [], ◌∷◌}

-- A `QByteArray`: its bytes.
abbrev pub Bytes : Type 0
Bytes = List ℕ

-- A `QString`: its UTF-16 code units.
abbrev pub Text : Type 0
Text = List ℕ

-- An ASCII literal.
abbrev pub codes : String → List ℕ
codes String.[] = []
codes (String.◌∷◌ c s) = code c ∷ codes s
