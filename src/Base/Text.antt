-- ===== src/Base/Text.antt =====
-- Text as a list of character codes, for code that walks its strings.
use Prim.Native.Nat.{ℕ}
use Prim.Native.Char.{code}
use Prim.Native.String.{String}
use mathlib.Core.Path.{◌≡◌}
use mathlib.Core.Logic.{◌↔◌}
use mathlib.Core.Bool.{true}
use mathlib.Core.List.{List, [], ◌∷◌}
use openzeppelin_foundry_upg.Base.Tests.{◌==◌, nat_eq, list_eq, list_beq_iff}

abbrev pub Text : Type 0
Text = List ℕ

-- The character codes of a literal.
abbrev pub codes : String → Text
codes String.[] = []
codes (String.◌∷◌ c s) = code c ∷ codes s

pub text_iff : (a b : Text) → ((a == b) ≡ true) ↔ (a ≡ b)
text_iff a b = list_beq_iff a b
