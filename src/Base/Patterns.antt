-- ===== src/Base/Patterns.antt =====
-- The character classes and the regular expressions that the gateway validates its strings with.
use Prim.Native.Nat.{ℕ, ◌+◌}
use mathlib.Core.Bool.{Bool, false, ◌&&◌, ◌||◌}
use mathlib.Core.List.{[], ◌∷◌, map}
use openzeppelin_foundry_upg.Base.Tests.{leb, eqb, if◌then◌else◌}
use openzeppelin_foundry_upg.Base.Lists.{length, all}
use openzeppelin_foundry_upg.Base.Text.{Text}

unfoldable pub is_digit : ℕ → Bool
is_digit c = leb 48 c && leb c 57

-- `[a-z]`
unfoldable pub is_lower : ℕ → Bool
is_lower c = leb 97 c && leb c 122

-- `[0-9a-f]`
unfoldable pub is_hex_lower : ℕ → Bool
unfolding is_digit
is_hex_lower c = is_digit c || (leb 97 c && leb c 102)

-- `[0-9a-fA-F]`
unfoldable pub is_hex : ℕ → Bool
unfolding is_hex_lower
is_hex c = is_hex_lower c || (leb 65 c && leb c 70)

-- `toLowerCase()` of an ASCII character
unfoldable pub lower_char : ℕ → ℕ
lower_char c = if leb 65 c && leb c 90 then c + 32 else c

unfoldable pub to_lower : Text → Text
unfolding lower_char
to_lower = map lower_char

-- `/^0x[0-9a-f]{n}$/i`
unfoldable pub is_prefixed_hex : ℕ → Text → Bool
unfolding is_hex
is_prefixed_hex n (zero_char ∷ x ∷ body) =
    eqb zero_char 48 && (eqb x 120 || eqb x 88) && eqb (length body) n && all is_hex body
is_prefixed_hex n _ = false

-- `/^0x[0-9a-f]{n}$/`
unfoldable pub is_canonical_hex : ℕ → Text → Bool
unfolding is_hex_lower
is_canonical_hex n (zero_char ∷ x ∷ body) =
    eqb zero_char 48 && eqb x 120 && eqb (length body) n && all is_hex_lower body
is_canonical_hex n _ = false

-- `TRANSACTION_HASH_PATTERN` of address-map.ts
unfoldable pub is_transaction_hash : Text → Bool
unfolding is_prefixed_hex
is_transaction_hash = is_prefixed_hex 64

-- `[a-z0-9-]`
unfoldable pub is_kind_char : ℕ → Bool
unfolding is_lower is_digit
is_kind_char c = is_lower c || is_digit c || eqb c 45

-- `CONTRACT_KIND_PATTERN`: `/^[a-z][a-z0-9-]{0,63}$/`
unfoldable pub is_contract_kind : Text → Bool
unfolding is_kind_char is_lower
is_contract_kind [] = false
is_contract_kind (c ∷ rest) = is_lower c && leb (length rest) 63 && all is_kind_char rest

-- `NONCE_PATTERN`: `/^(0|[1-9][0-9]*)$/`
unfoldable pub is_decimal : Text → Bool
unfolding is_digit
is_decimal [] = false
is_decimal (c ∷ []) = is_digit c
is_decimal (c ∷ rest) = is_digit c && leb 49 c && all is_digit rest
