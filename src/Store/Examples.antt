-- ===== src/Store/Examples.antt =====
-- A store whose chains are numbers, on an empty disk.
use openzeppelin_foundry_upg.Base.Dict.{insert, lookup}
use openzeppelin_foundry_upg.Base.Loops.{each}
use openzeppelin_foundry_upg.Base.Tests.{list_beq}
use openzeppelin_foundry_upg.Base.Patterns.{is_digit, is_lower}
use openzeppelin_foundry_upg.Base.{
  Option, ◌⊎◌, inr, ◌↔◌, ◌≢◌, ℕ, ◌+◌, ◌≡◌, refl, true, none, some, [], ◌∷◌, All, match_option,
  list_eq, nat_eq,
}
use openzeppelin_foundry_upg.Base.Text.{Text, codes}
use openzeppelin_foundry_upg.Base.Result.{Result, ok, err}
use openzeppelin_foundry_upg.Store.State.{
  check_identity, is_forbidden, is_identity_char, is_identity_start, matches_identity,
  validate_chain_identity, validate_state, StoreState,
}
use openzeppelin_foundry_upg.Store.Files.{
  effect, is_ignored, look, perform_all, remove_temporary, write_state, Files, Faults, rename,
  look_up, holds, sync_ending,
}
use openzeppelin_foundry_upg.Store.Transactions.{
  chain_or_blank, parse, read_state, JsonStore, prepare, transaction, read_chain, is_inherited,
  found_file,
}
use openzeppelin_foundry_upg.Store.Crashes.{IsOldOrNew, transaction_atomic, transaction_failure}
use openzeppelin_foundry_upg.Store.Refinement.{view, update, no_faults, transaction_refines}
use openzeppelin_foundry_upg.Store.Reading.{IsOwn, Says, read_chain_iff}
use openzeppelin_foundry_upg.Store.Naming.{IsIdentity}

abbrev store : JsonStore ℕ
store = record { create_if_missing = true; assert_writable = ok tt; blank = 0 }

abbrev no_files : Files ℕ
no_files = record { target = none; temporary = none; seen = [] }

abbrev count : ℕ → Result (ℕ × ℕ)
count n = ok (n + 1, n)

-- The rename fails.
abbrev full_disk : Faults
full_disk rename = some (codes "ENOSPC")
full_disk _ = none

abbrev next : StoreState ℕ
next = record { version = 1; chains = (codes "tron", 1) ∷ [] }

-- The look-up fails.
abbrev unseen_disk : Faults
unseen_disk look_up = some (codes "EACCES")
unseen_disk _ = none

abbrev counted_files : Files ℕ
counted_files = (transaction store no_faults no_files (codes "tron") count).0

prepared_count : prepare store full_disk no_files (codes "tron") count ≡ ok (next, 0)
unfolding prepare validate_chain_identity matches_identity is_identity_start is_digit is_lower
    is_identity_char is_forbidden list_beq read_state validate_state each insert check_identity
    chain_or_blank lookup found_file transaction write_state perform_all sync_ending effect
    is_ignored look remove_temporary parse read_chain is_inherited
prepared_count = refl

failed_count :
    (transaction store full_disk no_files (codes "tron") count).1 ≡ err "File system error"
unfolding transaction prepare validate_chain_identity matches_identity is_identity_start is_digit
    is_lower is_identity_char is_forbidden list_beq read_state validate_state each insert
    check_identity write_state perform_all found_file
failed_count = refl

counted : (transaction store no_faults no_files (codes "tron") count).1 ≡ ok 0
unfolding transaction prepare validate_chain_identity matches_identity is_identity_start is_digit
    is_lower is_identity_char is_forbidden list_beq read_state validate_state each insert
    check_identity write_state perform_all sync_ending lookup effect is_ignored look
    remove_temporary chain_or_blank parse found_file
counted = refl

read_count :
    read_chain store no_faults
      (transaction store no_faults no_files (codes "tron") count).0
      (codes "tron")
    ≡ ok (some 1)
unfolding read_chain validate_chain_identity matches_identity is_identity_start is_digit is_lower
    is_identity_char is_forbidden list_beq read_state transaction prepare validate_state each insert
    check_identity write_state perform_all lookup effect is_ignored look remove_temporary
    sync_ending chain_or_blank parse found_file
read_count = refl

transaction_atomic_example :
    All
      (IsOldOrNew full_disk next no_files)
      (transaction store full_disk no_files (codes "tron") count).0.seen
transaction_atomic_example =
    transaction_atomic store full_disk no_files (codes "tron") count next 0 prepared_count refl

transaction_failure_example :
    (transaction store full_disk no_files (codes "tron") count).0.target ≡ none
unfolding sync_ending
transaction_failure_example =
    transaction_failure store full_disk no_files (codes "tron") count "File system error"
      failed_count refl

abbrev one_count : Option ℕ
one_count = some 1

read_chain_iff_example : (read_chain store no_faults counted_files (codes "tron") ≡ ok (some 1)) ↔ (
    IsIdentity (codes "tron")
    × Says store no_faults counted_files (codes "tron") (some 1)
    × (IsOwn (codes "tron") ⊎ (one_count ≢ none)))
read_chain_iff_example = read_chain_iff store no_faults counted_files (codes "tron") (some 1)

-- An identity that is a key of `Object.prototype` is accepted, and its chain cannot be cloned.
read_inherited :
    read_chain store no_faults no_files (codes "toString") ≡ err "The chain could not be cloned"
unfolding read_chain validate_chain_identity matches_identity is_identity_start is_digit is_lower
    is_identity_char is_forbidden list_beq read_state found_file lookup is_inherited
read_inherited = refl

-- A state file that cannot be looked up is replaced by a blank state with the new chain.
overwritten :
    (transaction store unseen_disk counted_files (codes "other") count).0.target
    ≡ some (holds (record { version = 1; chains = (codes "other", 1) ∷ [] }))
unfolding transaction prepare validate_chain_identity matches_identity is_identity_start is_digit
    is_lower is_identity_char is_forbidden list_beq read_state found_file validate_state each insert
    check_identity write_state perform_all lookup effect is_ignored look remove_temporary
    sync_ending chain_or_blank parse
overwritten = refl

transaction_refines_example :
    (chain : ℕ) × (count (match_option (view store no_files (codes "tron")) store.blank (λ c. c))
      ≡ ok (chain, 0))
    × ((other : Text)
        → view store (transaction store no_faults no_files (codes "tron") count).0 other
          ≡ update (view store no_files) (codes "tron") chain other)
transaction_refines_example =
    transaction_refines store no_faults no_files (codes "tron") count 0 (inr refl) counted
