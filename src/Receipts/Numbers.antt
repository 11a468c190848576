-- ===== src/Receipts/Numbers.antt =====
-- rpc-src/receipts.ts: `toBigInt`, `quantity` and the effective gas price.
use openzeppelin_foundry_upg.Base.{
  ℕ, zero, suc, ◌+◌, ◌-◌, ◌*◌, ◌/◌, ◌%◌, ◌^◌, Bool, false, not, ◌&&◌, ◌||◌, [], ◌∷◌, eqb, ltb,
  if◌then◌else◌, is_empty, all,
}
use openzeppelin_foundry_upg.Base.Text.{Text}
use openzeppelin_foundry_upg.Base.Patterns.{is_digit, is_hex, is_lower}
use openzeppelin_foundry_upg.Base.Result.{Result, ok, err, ◌>>=◌}

-- A JSON value where a natural number is expected; `other` is a negative or fractional number, or a
-- value of another type.
pub data Numeric : Type 0 where
  missing other : Numeric
  number bigint : (n : ℕ) → Numeric
  string : (text : Text) → Numeric

-- The value of a digit of either case.
unfoldable pub digit_value : ℕ → ℕ
digit_value c = if is_digit c then c - 48 else if is_lower c then c - 87 else c - 55

-- The number that digits write in a base, after those that are read already.
unfoldable pub read_digits : ℕ → ℕ → Text → ℕ
read_digits base read [] = read
read_digits base read (c ∷ rest) = read_digits base (read * base + digit_value c) rest

-- `/^(?:0x[0-9a-f]+|[0-9]+)$/i` and `BigInt(value)`
unfoldable pub is_prefixed : Text → Bool
is_prefixed (z ∷ x ∷ rest) = eqb z 48 && (eqb x 120 || eqb x 88)
is_prefixed _ = false

unfoldable pub after_prefix : Text → Text
after_prefix (z ∷ x ∷ rest) = rest
after_prefix _ = []

unfoldable pub parse_number : Text → Result ℕ
parse_number value =
    let body = after_prefix value in
    if is_prefixed value && not (is_empty body) && all is_hex body
    then ok (read_digits 16 0 body)
    else if not (is_empty value) && all is_digit value
    then ok (read_digits 10 0 value)
    else err "Invalid number"

unfoldable pub to_big_int : Numeric → Result ℕ
to_big_int missing = ok 0
to_big_int other = err "Invalid number"
to_big_int (number n) = if ltb n (2 ^ 53) then ok n else err "Invalid number"
to_big_int (bigint n) = ok n
to_big_int (string text) = parse_number text

unfoldable pub hex_digit : ℕ → ℕ
hex_digit d = if ltb d 10 then d + 48 else d + 87

-- The digits of a number in base 16 before those of its last places; one step of fuel for each
-- digit, and a number has no more digits than its value.
unfoldable pub hex_digits : ℕ → ℕ → Text → Text
hex_digits zero n digits = digits
hex_digits (suc fuel) n digits =
    let more = hex_digits fuel (n / 16) (hex_digit (n % 16) ∷ digits) in
    if eqb n 0 then digits else more

-- `0x${n.toString(16)}`
unfoldable pub to_quantity : ℕ → Text
to_quantity n = 48 ∷ 120 ∷ (if eqb n 0 then 48 ∷ [] else hex_digits n n [])

unfoldable pub quantity : Numeric → Result Text
quantity value = do n ← to_big_int value; ok (to_quantity n)

-- The energy fee if there is one, else the whole fee, per unit of energy, rounded up.
unfoldable pub price_numerator : ℕ → ℕ → ℕ
price_numerator energy_fee fee = if ltb 0 energy_fee then energy_fee else fee

unfoldable pub effective_gas_price : ℕ → ℕ → ℕ → ℕ
effective_gas_price energy_usage energy_fee fee =
    if eqb energy_usage 0
    then 0
    else (price_numerator energy_fee fee + energy_usage - 1) / energy_usage
