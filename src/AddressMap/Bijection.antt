-- ===== src/AddressMap/Bijection.antt =====
-- What `requireIndexes` guarantees of the indexes that it lets through: the two indexes are
-- inverse to each other.
use openzeppelin_foundry_upg.Base.{
  ◌≡◌, refl, sym, ◌∙◌, ap, subst, true, false, some, List, [], ◌∷◌, ◌==◌, nat_eq, list_eq,
  option_eq, arith, option_beq_iff, Bool-cases, inl, inr,
}
use openzeppelin_foundry_upg.Base.Text.{Text, text_iff}
use openzeppelin_foundry_upg.Base.Result.{Result, ok, err}
use openzeppelin_foundry_upg.Base.Dict.{Dict, lookup}
use openzeppelin_foundry_upg.Codec.{AddressCodec}
use openzeppelin_foundry_upg.AddressMap.State.{AddressMapping, AddressMapIndexes}
use openzeppelin_foundry_upg.AddressMap.Equality.{same_mapping, same_mapping_iff}
use openzeppelin_foundry_upg.AddressMap.Mappings.{
  is_in, actual_of, check_reverse, normalize_mapping, check_records, check_indexes,
}

-- The entry of `by_predicted` at `predicted` names itself, and the reverse index points back.
pub record IsForward (by_actual : Dict Text Text) (predicted : Text) (m : AddressMapping)
    : Type 0 where
  pub own : m.predicted ≡ predicted
  pub back : lookup m.actual by_actual ≡ some predicted

pub record IsInverse (indexes : AddressMapIndexes) : Type 0 where
  pub forward :
      (predicted : Text) (m : AddressMapping)
      → lookup predicted indexes.by_predicted ≡ some m
      → IsForward indexes.by_actual predicted m
  pub backward :
      (actual predicted : Text)
      → lookup actual indexes.by_actual ≡ some predicted
      → actual_of predicted indexes.by_predicted ≡ some actual

-- What one turn of the loop over `byPredicted` has checked when it goes on.
pub record IsChecked (codec : AddressCodec) (by_actual : Dict Text Text) (seen : List Text)
    (predicted : Text) (raw : AddressMapping) : Type 0 where
  pub normal : normalize_mapping codec raw ≡ ok raw
  pub own : raw.predicted ≡ predicted
  pub unseen : is_in raw.actual seen ≡ false
  pub back : lookup raw.actual by_actual ≡ some predicted

module _ (codec : AddressCodec) where
  -- The checks of one turn, once the record is normalised to `m`.
  turn_facts :
      (by_actual : Dict Text Text) (seen : List Text) (predicted : Text) (raw m : AddressMapping)
      (rest : Dict Text AddressMapping) (s : List Text)
      → normalize_mapping codec raw ≡ ok m
      → check_records codec by_actual seen ((predicted, raw) ∷ rest) ≡ ok s
      → (same_mapping raw m ≡ true)
        × (m.predicted ≡ predicted)
        × (is_in m.actual seen ≡ false)
        × (lookup m.actual by_actual ≡ some predicted)
        × (check_records codec by_actual (m.actual ∷ seen) rest ≡ ok s)
  unfolding check_records
  turn_facts by_actual seen predicted raw m rest s n h = ground (
    arith,
    text_iff m.predicted predicted,
    option_beq_iff (lookup m.actual by_actual) (some predicted),
  )

  pub check_records_step :
      (by_actual : Dict Text Text) (seen : List Text) (predicted : Text) (raw : AddressMapping)
      (rest : Dict Text AddressMapping) (s : List Text)
      → check_records codec by_actual seen ((predicted, raw) ∷ rest) ≡ ok s
      → IsChecked codec by_actual seen predicted raw
        × (check_records codec by_actual (raw.actual ∷ seen) rest ≡ ok s)
  check_records_step by_actual seen predicted raw rest s h = go (normalize_mapping codec raw) refl
    where
      go :
          (r : Result AddressMapping)
          → normalize_mapping codec raw ≡ r
          → IsChecked codec by_actual seen predicted raw
            × (check_records codec by_actual (raw.actual ∷ seen) rest ≡ ok s)
      go (err e) n = absurd (unfold check_records in ground arith)
      go (ok m) n =
          let f = turn_facts by_actual seen predicted raw m rest s n h in
          let same : m ≡ raw = sym ((same_mapping_iff raw m).0 f.0) in
          (
            record {
              normal = n ∙ ap ok same;
              own = ground (arith, same, f.1);
              unseen = ground (arith, same, f.2);
              back = ground (arith, same, f.3);
            },
            ground (arith, same, f.4),
          )

  check_records-IsForward :
      (by_actual : Dict Text Text) (seen : List Text) (d : Dict Text AddressMapping) (s : List Text)
      (predicted : Text) (m : AddressMapping)
      → check_records codec by_actual seen d ≡ ok s
      → lookup predicted d ≡ some m
      → IsForward by_actual predicted m
  unfolding lookup
  check_records-IsForward by_actual seen [] s predicted m h found = cc
  check_records-IsForward by_actual seen ((p, raw) ∷ rest) s predicted m h found =
      let (c, later) = check_records_step by_actual seen p raw rest s h in
      elim (Bool-cases (p == predicted)) [
        | inl hit ↦
            let here : raw ≡ m = ground arith in
            let key : p ≡ predicted = (text_iff p predicted).0 hit in
            subst (IsForward by_actual predicted) here
              (record { own = c.own ∙ key; back = c.back ∙ ap some key })
        | inr miss ↦
            check_records-IsForward by_actual (raw.actual ∷ seen) rest s predicted m later
              (ground arith)
      ]

module _ (codec : AddressCodec) where
  check_records-normal :
      (by_actual : Dict Text Text) (seen : List Text) (d : Dict Text AddressMapping) (s : List Text)
      (predicted : Text) (m : AddressMapping)
      → check_records codec by_actual seen d ≡ ok s
      → lookup predicted d ≡ some m
      → normalize_mapping codec m ≡ ok m
  unfolding lookup
  check_records-normal by_actual seen [] s predicted m h found = cc
  check_records-normal by_actual seen ((p, raw) ∷ rest) s predicted m h found =
      let (c, later) = check_records_step codec by_actual seen p raw rest s h in
      elim (Bool-cases (p == predicted)) [
        | inl hit ↦ ground (arith, c.normal)
        | inr miss ↦
            check_records-normal by_actual (raw.actual ∷ seen) rest s predicted m later
              (ground arith)
      ]

  -- A record that the check lets through is normalised.
  pub check_indexes-normal :
      (indexes checked : AddressMapIndexes) (predicted : Text) (m : AddressMapping)
      → check_indexes codec indexes ≡ ok checked
      → lookup predicted indexes.by_predicted ≡ some m
      → normalize_mapping codec m ≡ ok m
  unfolding check_indexes
  check_indexes-normal indexes checked predicted m h found =
      go (check_records codec indexes.by_actual [] indexes.by_predicted) refl
    where
      go :
          (r : Result (List Text))
          → check_records codec indexes.by_actual [] indexes.by_predicted ≡ r
          → normalize_mapping codec m ≡ ok m
      go (err e) records = absurd (ground arith)
      go (ok seen) records =
          check_records-normal indexes.by_actual [] indexes.by_predicted seen predicted m records
            found

check_reverse-lookup :
    (by_predicted : Dict Text AddressMapping) (d : Dict Text Text) (actual predicted : Text)
    → check_reverse by_predicted d ≡ ok tt
    → lookup actual d ≡ some predicted
    → actual_of predicted by_predicted ≡ some actual
unfolding check_reverse lookup
check_reverse-lookup by_predicted [] actual predicted h found = cc
check_reverse-lookup by_predicted ((a, p) ∷ d) actual predicted h found = ground (
  arith,
  text_iff a actual,
  option_beq_iff (actual_of p by_predicted) (some a),
  check_reverse-lookup by_predicted d actual predicted,
)

module _ (codec : AddressCodec) where
  -- The indexes that `requireIndexes` lets through are inverse to each other.
  pub check_indexes-IsInverse :
      (indexes checked : AddressMapIndexes)
      → check_indexes codec indexes ≡ ok checked
      → (checked ≡ indexes) × IsInverse indexes
  unfolding check_indexes
  check_indexes-IsInverse indexes checked h =
      go (check_records codec indexes.by_actual [] indexes.by_predicted) refl
    where
      go :
          (r : Result (List Text))
          → check_records codec indexes.by_actual [] indexes.by_predicted ≡ r
          → (checked ≡ indexes) × IsInverse indexes
      go (err e) records = absurd (ground arith)
      go (ok seen) records =
          let reverse : check_reverse indexes.by_predicted indexes.by_actual ≡ ok tt =
            ground arith in
          (
            ground arith,
            record {
              forward = λ predicted m.
                  check_records-IsForward codec indexes.by_actual [] indexes.by_predicted seen
                    predicted m records;
              backward = λ actual predicted.
                  check_reverse-lookup indexes.by_predicted indexes.by_actual actual predicted
                    reverse;
            },
          )
