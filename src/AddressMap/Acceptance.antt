-- ===== src/AddressMap/Acceptance.antt =====
-- Indexes that pass the check of `requireIndexes` pass it again with one more mapping.
use openzeppelin_foundry_upg.Base.{
  suc, ◌≡◌, ◌≢◌, refl, subst, true, false, none, some, List, [], ◌∷◌, ◌==◌, nat_eq, list_eq,
  option_eq, length, arith, option_beq_iff, Bool-cases, inl, inr, eq_refl,
}
use openzeppelin_foundry_upg.Base.Text.{Text, text_iff}
use openzeppelin_foundry_upg.Base.Lowercase.{to_lower_idem, to_lower-is_transaction_hash}
use openzeppelin_foundry_upg.Base.Result.{Result, ok, err}
use openzeppelin_foundry_upg.Base.Dict.{Dict, lookup, insert, lookup-insert}
use openzeppelin_foundry_upg.Codec.{AddressCodec}
use openzeppelin_foundry_upg.AddressMap.State.{AddressMapping, AddressMapIndexes}
use openzeppelin_foundry_upg.AddressMap.Equality.{same_mapping_iff}
use openzeppelin_foundry_upg.AddressMap.Mappings.{
  is_in, actual_of, check_reverse, normalize_nonzero_address, normalize_source_transaction,
  normalize_mapping, check_records, check_indexes, add_mapping,
}
use openzeppelin_foundry_upg.AddressMap.Bijection.{check_records_step}

normalize_source_transaction_idem :
    (t u : Text) → normalize_source_transaction t ≡ ok u → normalize_source_transaction u ≡ ok u
unfolding normalize_source_transaction
normalize_source_transaction_idem t u h =
    ground (arith, to_lower_idem t, to_lower-is_transaction_hash t)

module _ (codec : AddressCodec) where
  pub normalize_nonzero_address_idem :
      (a b : Text)
      → normalize_nonzero_address codec a ≡ ok b
      → normalize_nonzero_address codec b ≡ ok b
  unfolding normalize_nonzero_address
  normalize_nonzero_address_idem a b h = go (codec.to_evm_address a) refl
    where
      go : (r : Result Text) → codec.to_evm_address a ≡ r → normalize_nonzero_address codec b ≡ ok b
      go (err e) n = absurd (ground arith)
      go (ok c) n = ground (arith, codec.normalises a c n)

  pub normalize_mapping_idem :
      (m n : AddressMapping) → normalize_mapping codec m ≡ ok n → normalize_mapping codec n ≡ ok n
  unfolding normalize_mapping
  normalize_mapping_idem m n h = ground (
    arith,
    normalize_nonzero_address_idem m.predicted n.predicted,
    normalize_nonzero_address_idem m.actual n.actual,
    normalize_nonzero_address_idem m.creator n.creator,
    normalize_nonzero_address_idem m.sender n.sender,
    normalize_source_transaction_idem m.source_transaction n.source_transaction,
  )

length-insert :
    (k : Text) (v : Text) (d : Dict Text Text)
    → lookup k d ≡ none
    → length (insert k v d) ≡ suc (length d)
unfolding lookup insert
length-insert k v [] h = refl
length-insert k v ((j, w) ∷ d) h = ground (arith, length-insert k v d)

module _ (codec : AddressCodec) (new : AddressMapping) (by_actual : Dict Text Text)
    (normal : normalize_mapping codec new ≡ ok new)
    (free : lookup new.actual by_actual ≡ none) where
  -- Every actual address that the loop has seen stands in the reverse index.
  abbrev Known : List Text → Type 0
  Known seen = (a : Text) → is_in a seen ≡ true → lookup a by_actual ≢ none

  Known-nil : Known []
  unfolding is_in
  Known-nil a i = ground arith

  Known-extend :
      (seen : List Text) (actual p : Text)
      → Known seen
      → lookup actual by_actual ≡ some p
      → Known (actual ∷ seen)
  unfolding is_in
  Known-extend seen actual p known back a i = elim (Bool-cases (actual == a)) [
    | inl hit ↦
        subst (λ k. lookup k by_actual ≢ none) ((text_iff actual a).0 hit) (λ e. ground arith)
    | inr miss ↦ known a (ground arith)
  ]

  check_records-insert :
      (seen : List Text) (d : Dict Text AddressMapping) (s : List Text)
      → Known seen
      → lookup new.predicted d ≡ none
      → check_records codec by_actual seen d ≡ ok s
      → check_records codec
          (insert new.actual new.predicted by_actual)
          seen
          (insert new.predicted new d)
        ≡ ok (new.actual ∷ s)
  unfolding check_records lookup insert
  check_records-insert seen [] s known absent h =
      let unseen : is_in new.actual seen ≡ false =
        ground (arith, Bool-cases (is_in new.actual seen), known new.actual, free) in
      ground (
        arith,
        normal,
        (same_mapping_iff new new).1 refl,
        eq_refl new.predicted,
        unseen,
        lookup-insert new.actual new.actual new.predicted by_actual,
        eq_refl new.actual,
        (option_beq_iff (some new.predicted) (some new.predicted)).1 refl,
      )
  check_records-insert seen ((p, raw) ∷ d) s known absent h =
      let c = check_records_step codec by_actual seen p raw d s h in
      let known' : Known (raw.actual ∷ seen) = Known-extend seen raw.actual p known c.0.back in
      let later = check_records-insert (raw.actual ∷ seen) d s known' (ground arith) c.1 in
      let differs : (new.actual == raw.actual) ≡ false =
        ground (arith, text_iff new.actual raw.actual, c.0.back, free) in
      ground (
        arith,
        later,
        c.0.normal,
        c.0.own,
        c.0.unseen,
        c.0.back,
        (same_mapping_iff raw raw).1 refl,
        text_iff raw.predicted p,
        differs,
        lookup-insert new.actual raw.actual new.predicted by_actual,
        (option_beq_iff (some p) (some p)).1 refl,
      )

  check_reverse-insert :
      (by_predicted : Dict Text AddressMapping) (d : Dict Text Text)
      → lookup new.predicted by_predicted ≡ none
      → lookup new.actual d ≡ none
      → check_reverse by_predicted d ≡ ok tt
      → check_reverse (insert new.predicted new by_predicted) (insert new.actual new.predicted d)
        ≡ ok tt
  unfolding check_reverse lookup insert actual_of
  check_reverse-insert by_predicted [] absent vacant h = ground (
    arith,
    lookup-insert new.predicted new.predicted new by_predicted,
    eq_refl new.predicted,
    (option_beq_iff (some new.actual) (some new.actual)).1 refl,
  )
  check_reverse-insert by_predicted ((a, p) ∷ d) absent vacant h = ground (
    arith,
    lookup-insert new.predicted p new by_predicted,
    text_iff new.predicted p,
    check_reverse-insert by_predicted d absent,
    option_beq_iff (actual_of p by_predicted) (some a),
  )

module _ (codec : AddressCodec) (new : AddressMapping) where
  -- Indexes that pass the check pass it again with one more mapping between two unknown addresses.
  pub check_indexes-add_mapping :
      (indexes checked : AddressMapIndexes)
      → normalize_mapping codec new ≡ ok new
      → lookup new.actual indexes.by_actual ≡ none
      → lookup new.predicted indexes.by_predicted ≡ none
      → check_indexes codec indexes ≡ ok checked
      → check_indexes codec (add_mapping new indexes) ≡ ok (add_mapping new indexes)
  unfolding check_indexes add_mapping
  check_indexes-add_mapping indexes checked normal free absent h =
      go (check_records codec indexes.by_actual [] indexes.by_predicted) refl
    where
      go :
          (r : Result (List Text))
          → check_records codec indexes.by_actual [] indexes.by_predicted ≡ r
          → check_indexes codec (add_mapping new indexes) ≡ ok (add_mapping new indexes)
      go (err e) records = absurd (ground arith)
      go (ok s) records =
          let more =
            check_records-insert codec new indexes.by_actual normal free [] indexes.by_predicted s
              (Known-nil codec new indexes.by_actual normal free) absent records in
          ground (
            arith,
            more,
            check_reverse-insert codec new indexes.by_actual normal free indexes.by_predicted
                indexes.by_actual absent free,
            length-insert new.actual new.predicted indexes.by_actual free,
          )
