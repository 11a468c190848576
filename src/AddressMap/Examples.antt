-- ===== src/AddressMap/Examples.antt =====
-- Runs of the address map on a chain with one deployment.
use openzeppelin_foundry_upg.Base.Tests.{list_beq, option_beq}
use openzeppelin_foundry_upg.Base.{is_empty, ◌≡◌, refl, Option, some, [], ◌∷◌, replicate}
use openzeppelin_foundry_upg.Base.Text.{Text, codes}
use openzeppelin_foundry_upg.Base.Patterns.{
  to_lower, is_transaction_hash, is_decimal, is_prefixed_hex, is_canonical_hex,
}
use openzeppelin_foundry_upg.Base.Result.{ok}
use openzeppelin_foundry_upg.Base.Dict.{lookup, insert, has}
use openzeppelin_foundry_upg.Base.Loops.{each, map_all}
use openzeppelin_foundry_upg.Codec.{plain_codec}
use openzeppelin_foundry_upg.AddressMap.State.{
  AddressMapping, ChainState, DeploymentDescriptor, ImmutableDescriptor, pending, complete, beacon,
  empty_chain,
}
use openzeppelin_foundry_upg.AddressMap.Mappings.{
  set_mapping_in_chain, check_indexes, empty_indexes, add_mapping, normalize_mapping,
  normalize_nonzero_address, normalize_source_transaction, require_indexes, check_records,
  check_reverse, actual_of, is_in,
}
use openzeppelin_foundry_upg.AddressMap.Equality.{same_mapping, same_deployment, same_status}
use openzeppelin_foundry_upg.AddressMap.Metadata.{predicted_of}
use openzeppelin_foundry_upg.AddressMap.Snapshots.{is_safe}
use openzeppelin_foundry_upg.AddressMap.Bijection.{check_indexes-IsInverse, IsInverse}
use openzeppelin_foundry_upg.AddressMap.Resolve.{
  to_actual, to_predicted, to_predicted-to_actual, to_actual-to_predicted, resolve-set_mapping,
  to_actual-set_mapping, set_mapping_twice,
}
use openzeppelin_foundry_upg.AddressMap.Descriptors.{
  put_descriptor, is_pending, normalize_descriptor, normalize_deployment_descriptor,
  require_deployment_descriptors, check_descriptor, set_deployment_descriptor_in_chain,
  resolve_deployment_descriptor_in_chain,
}
use openzeppelin_foundry_upg.AddressMap.Captures.{Advances}
use openzeppelin_foundry_upg.AddressMap.CaptureReads.{captures_advance, resolve-set_descriptor}
use openzeppelin_foundry_upg.AddressMap.Baselines.{
  normalize_nonce_value, require_nonce_baselines, read_decimal, check_baseline,
  set_nonce_baseline_in_chain, resolve_nonce_baseline_in_chain,
}
use openzeppelin_foundry_upg.AddressMap.Floors.{baselines_stay, resolve-set_baseline}

abbrev tx : Text
tx = 48 ∷ 120 ∷ replicate 64 97

abbrev box : AddressMapping
box = record {
  predicted = codes "box";
  actual = codes "native box";
  creator = codes "factory";
  sender = codes "alice";
  source_transaction = tx;
}

abbrev other_box : AddressMapping
other_box = record box { predicted = codes "other"; actual = codes "native other" }

abbrev one_box : ChainState
one_box = record empty_chain { address_mappings = some (add_mapping box empty_indexes) }

abbrev two_boxes : ChainState
two_boxes = record empty_chain {
  address_mappings = some (add_mapping other_box (add_mapping box empty_indexes));
}

set_box : set_mapping_in_chain plain_codec empty_chain box ≡ ok (one_box, box)
unfolding set_mapping_in_chain normalize_mapping normalize_nonzero_address
    normalize_source_transaction is_prefixed_hex is_transaction_hash to_lower require_indexes lookup
    insert add_mapping empty_indexes list_beq
set_box = refl

set_other : set_mapping_in_chain plain_codec one_box other_box ≡ ok (two_boxes, other_box)
unfolding set_mapping_in_chain normalize_mapping normalize_nonzero_address
    normalize_source_transaction is_prefixed_hex is_transaction_hash to_lower require_indexes
    check_indexes check_records check_reverse actual_of is_in same_mapping lookup insert add_mapping
    empty_indexes list_beq option_beq
set_other = refl

box_checked :
    check_indexes plain_codec (add_mapping box empty_indexes) ≡ ok (add_mapping box empty_indexes)
unfolding normalize_mapping normalize_nonzero_address normalize_source_transaction is_prefixed_hex
    is_transaction_hash to_lower check_indexes check_records check_reverse actual_of is_in
    same_mapping lookup insert add_mapping empty_indexes list_beq option_beq
box_checked = refl

box_normal : normalize_nonzero_address plain_codec box.predicted ≡ ok box.predicted
unfolding normalize_nonzero_address list_beq
box_normal = refl

actual_normal : normalize_nonzero_address plain_codec box.actual ≡ ok box.actual
unfolding normalize_nonzero_address list_beq
actual_normal = refl

resolve-set_mapping_example :
    (to_actual plain_codec (some one_box) box.predicted ≡ ok (some box.actual))
    × (to_predicted plain_codec (some one_box) box.actual ≡ ok (some box.predicted))
resolve-set_mapping_example = resolve-set_mapping plain_codec empty_chain one_box box box set_box

check_indexes-IsInverse_example :
    (add_mapping box empty_indexes ≡ add_mapping box empty_indexes)
    × IsInverse (add_mapping box empty_indexes)
check_indexes-IsInverse_example =
    check_indexes-IsInverse plain_codec (add_mapping box empty_indexes)
      (add_mapping box empty_indexes) box_checked

to_predicted-to_actual_example :
    to_predicted plain_codec (some one_box) box.actual ≡ ok (some box.predicted)
to_predicted-to_actual_example =
    to_predicted-to_actual plain_codec one_box box.predicted box.predicted box.actual box_normal
      (resolve-set_mapping plain_codec empty_chain one_box box box set_box).0

to_actual-to_predicted_example :
    to_actual plain_codec (some one_box) box.predicted ≡ ok (some box.actual)
to_actual-to_predicted_example =
    to_actual-to_predicted plain_codec one_box box.actual box.actual box.predicted actual_normal
      (resolve-set_mapping plain_codec empty_chain one_box box box set_box).1

to_actual-set_mapping_example :
    to_actual plain_codec (some two_boxes) box.predicted ≡ ok (some box.actual)
to_actual-set_mapping_example =
    to_actual-set_mapping plain_codec one_box two_boxes other_box other_box box.predicted box.actual
      set_other (resolve-set_mapping plain_codec empty_chain one_box box box set_box).0

set_mapping_twice_example : set_mapping_in_chain plain_codec one_box box ≡ ok (one_box, box)
set_mapping_twice_example = set_mapping_twice plain_codec empty_chain one_box box box set_box

-- A beacon proxy whose capture is pending first and then complete.
abbrev beacon_word : ImmutableDescriptor
beacon_word = record {
  role = beacon;
  start = 12;
  length = 32;
  expected_actual = 48 ∷ 120 ∷ replicate 40 97;
}

abbrev open_capture : DeploymentDescriptor
open_capture = record { predicted = box.predicted; status = pending; descriptors = [] }

abbrev full_capture : DeploymentDescriptor
full_capture = record {
  predicted = box.predicted;
  status = complete;
  descriptors = beacon_word ∷ [];
}

abbrev captures : DeploymentDescriptor → ChainState
captures d = record one_box {
  deployment_descriptors = some (record { version = 1; by_predicted = (box.predicted, d) ∷ [] });
}

set_open :
    set_deployment_descriptor_in_chain plain_codec one_box open_capture
    ≡ ok (captures open_capture, open_capture)
unfolding set_deployment_descriptor_in_chain normalize_deployment_descriptor map_all
    normalize_nonzero_address require_indexes check_indexes check_records check_reverse
    normalize_mapping normalize_source_transaction is_prefixed_hex is_transaction_hash to_lower
    actual_of is_in same_mapping lookup insert has add_mapping empty_indexes
    require_deployment_descriptors put_descriptor is_pending list_beq is_empty option_beq
set_open = refl

set_full :
    set_deployment_descriptor_in_chain plain_codec (captures open_capture) full_capture
    ≡ ok (captures full_capture, full_capture)
unfolding set_deployment_descriptor_in_chain normalize_deployment_descriptor normalize_descriptor
    map_all normalize_nonzero_address require_indexes check_indexes check_records check_reverse
    normalize_mapping normalize_source_transaction is_prefixed_hex is_transaction_hash to_lower
    actual_of is_in same_mapping lookup insert has add_mapping empty_indexes
    require_deployment_descriptors put_descriptor is_pending each check_descriptor same_deployment
    same_status is_safe is_canonical_hex list_beq option_beq is_empty
set_full = refl

read_open :
    resolve_deployment_descriptor_in_chain plain_codec (captures open_capture) box.actual
    ≡ ok (some open_capture)
unfolding resolve_deployment_descriptor_in_chain normalize_deployment_descriptor predicted_of
    map_all normalize_nonzero_address require_indexes check_indexes check_records check_reverse
    normalize_mapping normalize_source_transaction is_prefixed_hex is_transaction_hash to_lower
    actual_of is_in same_mapping lookup insert has add_mapping empty_indexes
    require_deployment_descriptors is_pending each check_descriptor same_deployment same_status
    list_beq option_beq is_empty
read_open = refl

resolve-set_descriptor_example :
    resolve_deployment_descriptor_in_chain plain_codec (captures full_capture) box.predicted
    ≡ ok (some full_capture)
resolve-set_descriptor_example =
    resolve-set_descriptor plain_codec (captures open_capture) (captures full_capture) full_capture
      full_capture set_full

captures_advance_example :
    (after : Option DeploymentDescriptor) × (resolve_deployment_descriptor_in_chain plain_codec
        (captures full_capture)
        box.actual
      ≡ ok after)
    × Advances (some open_capture) after
captures_advance_example =
    captures_advance plain_codec (captures open_capture) (captures full_capture) full_capture
      full_capture box.actual (some open_capture) set_full read_open

abbrev floor : ChainState
floor = record empty_chain {
  nonce_baselines = some (record { version = 1; by_sender = (codes "alice", codes "12") ∷ [] });
}

abbrev two_floors : ChainState
two_floors = record empty_chain {
  nonce_baselines = some (record {
    version = 1;
    by_sender = (codes "alice", codes "12") ∷ (codes "bob", codes "7") ∷ [];
  });
}

set_alice :
    set_nonce_baseline_in_chain plain_codec empty_chain (codes "alice") (codes "12")
    ≡ ok (floor, 12)
unfolding set_nonce_baseline_in_chain normalize_nonzero_address normalize_nonce_value is_decimal
    require_nonce_baselines lookup insert read_decimal list_beq
set_alice = refl

set_bob :
    set_nonce_baseline_in_chain plain_codec floor (codes "bob") (codes "7") ≡ ok (two_floors, 7)
unfolding set_nonce_baseline_in_chain normalize_nonzero_address normalize_nonce_value is_decimal
    require_nonce_baselines lookup insert read_decimal each check_baseline list_beq
set_bob = refl

resolve-set_baseline_example :
    resolve_nonce_baseline_in_chain plain_codec floor (codes "alice") ≡ ok (some 12)
resolve-set_baseline_example =
    resolve-set_baseline plain_codec empty_chain floor (codes "alice") (codes "12") 12 set_alice

baselines_stay_example :
    resolve_nonce_baseline_in_chain plain_codec two_floors (codes "alice") ≡ ok (some 12)
baselines_stay_example =
    baselines_stay plain_codec floor two_floors (codes "bob") (codes "7") (codes "alice") 7 12
      set_bob
      (resolve-set_baseline plain_codec empty_chain floor (codes "alice") (codes "12") 12 set_alice)
