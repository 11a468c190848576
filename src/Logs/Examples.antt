-- ===== src/Logs/Examples.antt =====
-- The translation with the lookups of an address map that holds one deployment.
use openzeppelin_foundry_upg.AddressMap.Equality.{same_mapping}
use openzeppelin_foundry_upg.Base.Dict.{insert, lookup}
use openzeppelin_foundry_upg.Base.Tests.{option_beq, list_beq}
use openzeppelin_foundry_upg.Base.Patterns.{
  is_digit, is_hex, is_prefixed_hex, is_transaction_hash, lower_char, is_hex_lower, to_lower,
}
use openzeppelin_foundry_upg.Base.{
  Option, some, ◌/◌, is_empty, nat_eq, list_eq, true, ◌≡◌, refl, ◌++◌, length, replicate,
}
use openzeppelin_foundry_upg.Base.Text.{Text, codes}
use openzeppelin_foundry_upg.Base.Result.{Result, ok}
use openzeppelin_foundry_upg.Codec.{plain_codec}
use openzeppelin_foundry_upg.AddressMap.State.{AddressMapping, ChainState, empty_chain}
use openzeppelin_foundry_upg.AddressMap.Mappings.{
  actual_of, check_indexes, check_records, check_reverse, is_in, normalize_mapping,
  normalize_nonzero_address, normalize_source_transaction, require_indexes, add_mapping,
  empty_indexes,
}
use openzeppelin_foundry_upg.AddressMap.Resolve.{
  resolve_predicted, resolve_actual, to_actual, to_predicted,
}
use openzeppelin_foundry_upg.Logs.Translation.{
  has_prefix, map_log_word, map_words, strip_prefix, is_body, is_zeros, lower_body, prefixed,
  high_zero, AddressMapper, map_log_data,
}
use openzeppelin_foundry_upg.Logs.RoundTrip.{
  undoes, is_undone, map_log_data_back, length-map_log_data,
}

abbrev alpha : Text
alpha = replicate 40 97

abbrev beta : Text
beta = replicate 40 98

-- A deployment from the predicted address 0xaa.. to the actual address 0xbb..
abbrev deployed : AddressMapping
deployed = record {
  predicted = prefixed alpha;
  actual = prefixed beta;
  creator = codes "factory";
  sender = codes "alice";
  source_transaction = prefixed (replicate 64 97);
}

abbrev chain : ChainState
chain = record empty_chain { address_mappings = some (add_mapping deployed empty_indexes) }

-- `found ?? address`
abbrev or_same : Text → Result (Option Text) → Text
or_same address (ok (some found)) = found
or_same address found = address

abbrev forth : AddressMapper
forth address = or_same address (to_predicted plain_codec (some chain) address)

abbrev back : AddressMapper
back address = or_same address (to_actual plain_codec (some chain) address)

-- The actual address, an address without a mapping, and a part of a word.
abbrev some_data : Text
some_data = prefixed (high_zero ++ beta ++ high_zero ++ replicate 40 99 ++ codes "ff")

undone : is_undone forth back (length (lower_body some_data) / 64) (lower_body some_data) ≡ true
unfolding is_undone undoes lower_body to_lower strip_prefix list_beq is_body is_hex_lower is_zeros
    is_empty to_predicted resolve_actual normalize_nonzero_address require_indexes check_indexes
    add_mapping empty_indexes check_records insert normalize_mapping normalize_source_transaction
    is_transaction_hash same_mapping is_in option_beq lookup check_reverse actual_of is_digit is_hex
    is_prefixed_hex lower_char map_log_data map_words map_log_word has_prefix to_actual
    resolve_predicted
undone = refl

translated :
    lower_body (map_log_data forth some_data)
    ≡ high_zero ++ alpha ++ high_zero ++ replicate 40 99 ++ codes "ff"
unfolding map_log_data lower_body to_lower strip_prefix list_beq is_body is_hex_lower is_zeros
    is_empty map_words map_log_word to_predicted resolve_actual normalize_nonzero_address
    require_indexes check_indexes add_mapping empty_indexes check_records insert normalize_mapping
    normalize_source_transaction is_transaction_hash same_mapping is_in option_beq actual_of
    check_reverse lookup is_digit is_hex is_prefixed_hex lower_char has_prefix
translated = refl

length-map_log_data_example :
    length (lower_body (map_log_data forth some_data)) ≡ length (lower_body some_data)
length-map_log_data_example = length-map_log_data forth some_data

map_log_data_back_example :
    lower_body (map_log_data back (map_log_data forth some_data)) ≡ lower_body some_data
map_log_data_back_example = map_log_data_back forth back some_data undone
