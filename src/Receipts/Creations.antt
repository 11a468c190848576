-- ===== src/Receipts/Creations.antt =====
-- rpc-src/receipts.ts: `internalCreateAttempts` and `internalCreateTransactions`.
use openzeppelin_foundry_upg.Base.{
  ℕ, ◌%◌, Bool, ◌&&◌, ◌||◌, Option, List, [], ◌∷◌, eqb, leb, ◌==◌, nat_eq, list_eq, match_option,
  if◌then◌else◌, is_empty, length, all,
}
use openzeppelin_foundry_upg.Base.Text.{Text, codes}
use openzeppelin_foundry_upg.Base.Patterns.{is_hex, to_lower}
use openzeppelin_foundry_upg.Base.Result.{Result, ok, err, ◌>>=◌}
use openzeppelin_foundry_upg.Receipts.Numbers.{is_prefixed, after_prefix}

pub record InternalTransaction : Type 0 where
  pub hash : Text
  pub caller_address : Text
  pub transfer_to_address : Text
  pub note : Option Text
  pub rejected : Bool

-- `[\s\0]`
unfoldable pub is_padding : ℕ → Bool
is_padding c =
    eqb c 0
    || (leb 9 c && leb c 13)
    || eqb c 32
    || eqb c 160
    || eqb c 5760
    || (leb 8192 c && leb c 8202)
    || eqb c 8232
    || eqb c 8233
    || eqb c 8239
    || eqb c 8287
    || eqb c 12288
    || eqb c 65279

unfoldable pub trim_start : Text → Text
trim_start [] = []
trim_start (c ∷ rest) = let trimmed = trim_start rest in if is_padding c then trimmed else c ∷ rest

unfoldable pub trim_end : Text → Text
trim_end [] = []
trim_end (c ∷ rest) =
    let trimmed = trim_end rest in if is_padding c && is_empty trimmed then [] else c ∷ trimmed

-- `note.replace(/^0x/i, '')`
unfoldable pub hex_body : Text → Text
hex_body note = if is_prefixed note then after_prefix note else note

-- A truncated hex text.
unfoldable pub is_odd_hex : Text → Bool
is_odd_hex note = let body = hex_body note in all is_hex body && eqb (length body % 2) 1

unfoldable pub is_create_note : Text → Bool
is_create_note note = to_lower (trim_end (trim_start note)) == codes "create"

-- The callback of the filter.
unfoldable pub is_create_attempt : InternalTransaction → Result Bool
is_create_attempt transaction =
    match_option transaction.note
      (err "Confirmed receipt internal transaction has a missing or malformed note")
      (λ note.
        if is_odd_hex note
        then err "Confirmed receipt internal transaction has a malformed (odd-length hex) note"
        else ok (is_create_note note))

-- The receipt's list of internal transactions, absent when it has none.
unfoldable pub filter_attempts : List InternalTransaction → Result (List InternalTransaction)
filter_attempts [] = ok []
filter_attempts (transaction ∷ rest) = do
  creates ← is_create_attempt transaction
  later ← filter_attempts rest
  ok (if creates then transaction ∷ later else later)

unfoldable pub internal_create_attempts :
    Option (List InternalTransaction) → Result (List InternalTransaction)
internal_create_attempts receipt =
    match_option receipt (err "Confirmed receipt has no internal transaction list") filter_attempts

unfoldable pub not_rejected : List InternalTransaction → List InternalTransaction
not_rejected [] = []
not_rejected (transaction ∷ rest) =
    let later = not_rejected rest in if transaction.rejected then later else transaction ∷ later

unfoldable pub internal_create_transactions :
    Option (List InternalTransaction) → Result (List InternalTransaction)
internal_create_transactions receipt = do
  attempts ← internal_create_attempts receipt
  ok (not_rejected attempts)
