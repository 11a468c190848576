-- ===== src/Receipts/Examples.antt =====
-- Tests and witnesses of the receipts.
use openzeppelin_foundry_upg.Base.Tests.{list_beq}
use openzeppelin_foundry_upg.Base.Patterns.{is_hex, to_lower}
use openzeppelin_foundry_upg.Base.{
  inl, is_empty, ◌+◌, ◌*◌, ◌≤◌, ◌<◌, ◌≡◌, ◌↔◌, refl, true, false, some, List, [], ◌∷◌, ◌++◌, all,
  arith, nat_eq, list_eq,
}
use openzeppelin_foundry_upg.Base.Text.{codes}
use openzeppelin_foundry_upg.Base.Result.{ok}
use openzeppelin_foundry_upg.Receipts.Numbers.{
  hex_digit, hex_digits, is_prefixed, number, string, to_big_int, quantity, effective_gas_price,
  to_quantity,
}
use openzeppelin_foundry_upg.Receipts.RoundTrip.{to_big_int-quantity}
use openzeppelin_foundry_upg.Receipts.Price.{price_covers}
use openzeppelin_foundry_upg.Receipts.Creations.{
  filter_attempts, hex_body, is_create_attempt, is_odd_hex, trim_end, trim_start,
  InternalTransaction, is_create_note, is_padding, internal_create_attempts,
}
use openzeppelin_foundry_upg.Receipts.Classification.{
  has_sound_note, creations_of, attempts_iff, padded_create,
}

quantity_300 : quantity (number 300) ≡ ok (codes "0x12c")
unfolding quantity to_big_int to_quantity hex_digits hex_digit internal_create_attempts
    filter_attempts is_create_attempt is_odd_hex hex_body is_prefixed is_hex is_create_note list_beq
    to_lower trim_end trim_start is_padding is_empty
quantity_300 = refl

to_big_int-quantity_example : to_big_int (string (codes "0x12c")) ≡ to_big_int (number 300)
to_big_int-quantity_example = to_big_int-quantity (number 300) (codes "0x12c") quantity_300

price_covers_example :
    (1001 ≤ 10 * effective_gas_price 10 1001 5) × (10 * effective_gas_price 10 1001 5 < 1001 + 10)
price_covers_example = price_covers 10 1001 5 1001 (omega arith) (inl (omega arith, refl))

abbrev transfer : InternalTransaction
transfer = record {
  hash = codes "h";
  caller_address = codes "a";
  transfer_to_address = codes "b";
  note = some (codes "call");
  rejected = false;
}

abbrev creation : InternalTransaction
creation = record transfer { note = some (codes "create ") }

abbrev both : List InternalTransaction
both = transfer ∷ creation ∷ []

creation_found : internal_create_attempts (some both) ≡ ok (creation ∷ [])
unfolding internal_create_attempts filter_attempts is_create_attempt is_odd_hex hex_body is_prefixed
    is_hex is_create_note list_beq to_lower trim_end trim_start is_padding is_empty
creation_found = refl

attempts_iff_example :
    (internal_create_attempts (some both) ≡ ok (creation ∷ []))
    ↔ ((all has_sound_note both ≡ true) × (creation ∷ [] ≡ creations_of both))
attempts_iff_example = attempts_iff both (creation ∷ [])

padding_checked : all is_padding (32 ∷ 0 ∷ []) ≡ true
unfolding is_padding
padding_checked = refl

padded_create_example : is_create_note ((32 ∷ 0 ∷ []) ++ (codes "create" ++ (32 ∷ 0 ∷ []))) ≡ true
padded_create_example = padded_create (32 ∷ 0 ∷ []) (32 ∷ 0 ∷ []) padding_checked padding_checked
