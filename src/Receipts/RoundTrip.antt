-- ===== src/Receipts/RoundTrip.antt =====
-- A quantity that `quantity` prints, `toBigInt` reads back.
use openzeppelin_foundry_upg.Base.{
  ℕ, zero, suc, ◌+◌, ◌*◌, ◌/◌, ◌%◌, ◌≤◌, ◌<◌, ◌≡◌, refl, ap, true, false, [], ◌∷◌, eqb, is_empty,
  all, arith, inl, inr, Bool-cases,
}
use openzeppelin_foundry_upg.Base.Text.{Text}
use openzeppelin_foundry_upg.Base.Patterns.{is_digit, is_hex, is_hex_lower, is_lower}
use openzeppelin_foundry_upg.Base.Result.{ok, Result-cases}
use openzeppelin_foundry_upg.Receipts.Numbers.{
  Numeric, string, digit_value, read_digits, is_prefixed, after_prefix, parse_number, to_big_int,
  hex_digit, hex_digits, to_quantity, quantity,
}

digit_value-hex_digit : (d : ℕ) → d < 16 → digit_value (hex_digit d) ≡ d
unfolding digit_value hex_digit is_digit is_lower
digit_value-hex_digit d h = ground arith

hex_digit-is_hex : (d : ℕ) → d < 16 → is_hex (hex_digit d) ≡ true
unfolding hex_digit is_hex is_hex_lower is_digit
hex_digit-is_hex d h = ground arith

read_digits-hex_digits :
    (fuel n : ℕ) (digits : Text)
    → n ≤ fuel
    → read_digits 16 0 (hex_digits fuel n digits) ≡ read_digits 16 n digits
unfolding hex_digits read_digits
read_digits-hex_digits zero n digits h = ap (λ m. read_digits 16 m digits) (omega arith)
read_digits-hex_digits (suc fuel) n digits h = elim (Bool-cases (eqb n 0)) [
  | inl none_left ↦ ground (arith, none_left)
  | inr left ↦
      let last = hex_digit (n % 16) in
      let rest : read_digits 16 0 (hex_digits fuel (n / 16) (last ∷ digits))
          ≡ read_digits 16 (n / 16) (last ∷ digits) =
        read_digits-hex_digits fuel (n / 16) (last ∷ digits) (ground (arith, left)) in
      let whole : (n / 16) * 16 + digit_value last ≡ n =
        omega (arith, digit_value-hex_digit (n % 16) (omega arith)) in
      let read : read_digits 16 (n / 16) (last ∷ digits) ≡ read_digits 16 n digits =
        ap (λ m. read_digits 16 m digits) whole in
      ground (arith, left, rest, read)
]

hex_digits-is_hex :
    (fuel n : ℕ) (digits : Text)
    → all is_hex digits ≡ true
    → all is_hex (hex_digits fuel n digits) ≡ true
unfolding hex_digits
hex_digits-is_hex zero n digits h = h
hex_digits-is_hex (suc fuel) n digits h =
    let first = hex_digit-is_hex (n % 16) (omega arith) in
    ground (
      arith,
      h,
      hex_digits-is_hex fuel (n / 16) (hex_digit (n % 16) ∷ digits) (ground (arith, first, h)),
    )

hex_digits-is_empty :
    (fuel n : ℕ) (digits : Text)
    → is_empty digits ≡ false
    → is_empty (hex_digits fuel n digits) ≡ false
unfolding hex_digits is_empty
hex_digits-is_empty zero n digits h = h
hex_digits-is_empty (suc fuel) n digits h =
    ground (arith, h, hex_digits-is_empty fuel (n / 16) (hex_digit (n % 16) ∷ digits) refl)

parse_number-to_quantity : (n : ℕ) → parse_number (to_quantity n) ≡ ok n
unfolding parse_number to_quantity is_prefixed after_prefix is_empty hex_digits read_digits is_hex
    is_hex_lower is_digit digit_value
parse_number-to_quantity zero = ground arith
parse_number-to_quantity (suc n) =
    let digits = hex_digits n (suc n / 16) (hex_digit (suc n % 16) ∷ []) in
    ground (
      arith,
      read_digits-hex_digits (suc n) (suc n) [] (omega arith),
      hex_digits-is_hex (suc n) (suc n) [] refl,
      hex_digits-is_empty n (suc n / 16) (hex_digit (suc n % 16) ∷ []) refl,
    )

-- Whatever number a value stands for, the text that is printed for it stands for the same number.
pub to_big_int-quantity :
    (value : Numeric) (text : Text)
    → quantity value ≡ ok text
    → to_big_int (string text) ≡ to_big_int value
unfolding quantity to_big_int
to_big_int-quantity value text h = elim (Result-cases (to_big_int value)) [
  | inl (e, f) ↦ absurd (ground (arith, f))
  | inr (n, f) ↦ ground (arith, f, parse_number-to_quantity n)
]
