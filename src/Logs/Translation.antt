-- ===== src/Logs/Translation.antt =====
-- rpc-src/log-translation.ts: the mapping of one address field, of a 32-byte word, of topics and of
-- log data. The values are strings; what is not a string is returned as it is and has no
-- counterpart here.
use mathlib.Core.Option
use openzeppelin_foundry_upg.Base.{
  Option, ℕ, zero, suc, ◌/◌, Bool, false, not, ◌&&◌, ◌||◌, List, [], ◌∷◌, ◌++◌, map, length, take,
  drop, replicate, all, is_empty, eqb, ◌==◌, nat_eq, list_eq, if◌then◌else◌,
}
use openzeppelin_foundry_upg.Base.Text.{Text}
use openzeppelin_foundry_upg.Base.Patterns.{is_hex_lower, to_lower}

-- `value.replace(/^0x/i, '')`
unfoldable pub strip_prefix : Text → Text
strip_prefix (z ∷ x ∷ body) = if eqb z 48 && (eqb x 120 || eqb x 88) then body else z ∷ x ∷ body
strip_prefix value = value

unfoldable pub lower_body : Text → Text
lower_body value = to_lower (strip_prefix value)

-- `0x${body}`
abbrev pub prefixed : Text → Text
prefixed body = 48 ∷ 120 ∷ body

-- `WORD_BODY` for 64 digits, `ADDRESS_BODY` for 40
unfoldable pub is_body : ℕ → Text → Bool
is_body n body = eqb (length body) n && all is_hex_lower body

-- `/^0+$/`
unfoldable pub is_zeros : Text → Bool
is_zeros body = not (is_empty body) && all (eqb 48) body

-- `'0'.repeat(24)`
abbrev pub high_zero : Text
high_zero = replicate 24 48

abbrev pub AddressMapper : Type 0
AddressMapper = Text → Text

unfoldable pub map_address_field : AddressMapper → Text → Text
map_address_field mapper address =
    let body = lower_body address in
    if not (is_body 40 body) || is_zeros body then address else mapper (prefixed body)

unfoldable pub map_log_word : AddressMapper → Text → Text
map_log_word mapper word =
    let body = lower_body word in
    let low = drop 24 body in
    let mapped = lower_body (mapper (prefixed low)) in
    if not (is_body 64 body)
    then word
    else if not (take 24 body == high_zero)
    then word
    else if is_zeros low
    then word
    else if not (is_body 40 mapped) || (mapped == low)
    then word
    else prefixed (high_zero ++ mapped)

unfoldable pub map_topics : AddressMapper → List Text → List Text
map_topics mapper topics = map (map_log_word mapper) topics

-- The loop over the complete words, and the trailing characters after the last one.
unfoldable pub map_words : AddressMapper → ℕ → Text → Text
map_words mapper zero body = body
map_words mapper (suc n) body =
    lower_body (map_log_word mapper (prefixed (take 64 body))) ++ map_words mapper n (drop 64 body)

-- `/^0x/i`
unfoldable pub has_prefix : Text → Bool
has_prefix (z ∷ x ∷ body) = eqb z 48 && (eqb x 120 || eqb x 88)
has_prefix value = false

unfoldable pub map_log_data : AddressMapper → Text → Text
map_log_data mapper data_text =
    let body = lower_body data_text in
    if is_empty body
    then if has_prefix data_text then prefixed [] else data_text
    else prefixed (map_words mapper (length body / 64) body)

-- A log entry: each of the three fields may be absent.
pub record LogEntry : Type 0 where
  pub address : Option Text
  pub topics : Option (List Text)
  pub data_text : Option Text

unfoldable pub map_log_entry : AddressMapper → LogEntry → LogEntry
map_log_entry mapper log = record {
  address = Option.map (map_address_field mapper) log.address;
  topics = Option.map (map_topics mapper) log.topics;
  data_text = Option.map (map_log_data mapper) log.data_text;
}
