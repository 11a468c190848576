-- ===== src/Journal/Building.antt =====
-- `recordNativeBuiltInChain`, when it returns, moves a received record to native-built or finds it so.
use openzeppelin_foundry_upg.Base.{
  ◌≡◌, refl, true, some, Eq, nat_eq, list_eq, option_eq, arith, inl, inr, ◌⊎◌, Bool-cases,
  Option-cases,
}
use openzeppelin_foundry_upg.Base.Text.{Text}
use openzeppelin_foundry_upg.Base.Result.{ok, Result-cases}
use openzeppelin_foundry_upg.Base.Dict.{lookup}
use openzeppelin_foundry_upg.Journal.State.{
  received, native_built, NativeTransaction, Preparation, JournalRecord, Journal, Chain, Runtime,
}
use openzeppelin_foundry_upg.Journal.Validation.{
  normalize_source_hash, validate_native_transaction, validate_owner_id, is_owner_id,
}
use openzeppelin_foundry_upg.Journal.Plan.{validate_preparation}
use openzeppelin_foundry_upg.Journal.Records.{require_record, require_journal}
use openzeppelin_foundry_upg.Journal.Operations.{
  is_state, is_claimed_by, put_record, built_record, nonce_in_flight, same_built,
  record_native_built_in_chain,
}
use openzeppelin_foundry_upg.Journal.Calls.{written-Writes, claimed-eq}
use openzeppelin_foundry_upg.Journal.Moves.{Moves, builds, Writes, unwritten, is_state-eq}

module _ {R : Type 0} ⦃eq_receipt : Eq R⦄ (env : Runtime R) (chain chain' : Chain R) where
  -- The received record is written with a preparation that was validated.
  pub data Builds (owner : Text) (preparation : Preparation) (journal : Journal R) (hash : Text)
      (r : JournalRecord R) : Type 0 where
    is_built :
        (native : NativeTransaction) (prepared : Preparation)
        → validate_preparation env preparation ≡ ok prepared
        → r.state ≡ received
        → Moves owner journal.records hash (built_record native prepared r)
        → put_record chain journal hash (built_record native prepared r) ≡ chain'
        → Builds owner preparation journal hash r

  -- What a call of `recordNativeBuilt` that returns has found and done.
  pub native_built-cases :
      (owner source_hash : Text) (native_transaction : NativeTransaction)
      (preparation : Preparation) (result : JournalRecord R)
      → record_native_built_in_chain env owner source_hash native_transaction preparation chain
        ≡ ok (chain', result)
      → (hash : Text) × (journal : Journal R) × (r : JournalRecord R) × (normalize_source_hash
            source_hash
          ≡ ok hash)
        × (require_journal env chain ≡ ok journal)
        × (lookup hash journal.records ≡ some r)
        × (((r.state ≡ native_built) × (chain ≡ chain')) ⊎ Builds owner preparation journal hash r)
  unfolding record_native_built_in_chain require_record
  native_built-cases owner source_hash native_transaction preparation result h =
      elim (Result-cases (normalize_source_hash source_hash)) [
        | inl (e, f) ↦ absurd (ground (arith, f))
        | inr (hash, f) ↦ elim (Result-cases (validate_native_transaction native_transaction)) [
          | inl (e, n) ↦ absurd (ground (arith, f, n))
          | inr (native, n) ↦ elim (Result-cases (validate_preparation env preparation)) [
            | inl (e, q) ↦ absurd (ground (arith, f, n, q))
            | inr (prepared, q) ↦ elim (Result-cases (require_journal env chain)) [
              | inl (e, g) ↦ absurd (ground (arith, f, n, q, g))
              | inr (journal, g) ↦ elim (Option-cases (lookup hash journal.records)) [
                | inl absent ↦ absurd (ground (arith, f, n, q, g, absent))
                | inr (r, found) ↦ elim (Bool-cases (is_state r.state native_built)) [
                  | inl already ↦ elim (Bool-cases (same_built r.built native prepared)) [
                    | inl same ↦ (
                      hash,
                      journal,
                      r,
                      f,
                      g,
                      found,
                      inl (
                        is_state-eq r.state native_built already,
                        ground (arith, f, n, q, g, found, already, same),
                      ),
                    )
                    | inr differs ↦ absurd (ground (arith, f, n, q, g, found, already, differs))
                  ]
                  | inr unbuilt ↦ elim (Bool-cases (is_state r.state received)) [
                    | inr wrong ↦ absurd (ground (arith, f, n, q, g, found, unbuilt, wrong))
                    | inl waiting ↦ elim (Bool-cases (is_owner_id owner)) [
                      | inr invalid ↦ absurd (
                          unfold validate_owner_id in
                          ground (arith, f, n, q, g, found, unbuilt, waiting, invalid))
                      | inl valid ↦ elim (Bool-cases (is_claimed_by owner r.build_claim_owner)) [
                        | inr foreign ↦ absurd (
                            unfold validate_owner_id in
                            ground (arith, f, n, q, g, found, unbuilt, waiting, valid, foreign))
                        | inl own ↦
                            let context = prepared.operation_context in
                            elim (Bool-cases
                              (nonce_in_flight hash context.from context.nonce journal.records)) [
                                | inl taken ↦ absurd (
                                    unfold validate_owner_id in
                                    ground (
                                      arith, f, n, q, g, found, unbuilt, waiting, valid, own, taken,
                                    ))
                                | inr free ↦ (
                                  hash,
                                  journal,
                                  r,
                                  f,
                                  g,
                                  found,
                                  inr (
                                      is_built native prepared q
                                        (is_state-eq r.state received waiting)
                                        (builds r native prepared found
                                          (is_state-eq r.state received waiting)
                                          (claimed-eq owner r.build_claim_owner own) free refl)
                                        (unfold validate_owner_id in
                                          ground (
                                            arith, f, n, q, g, found, unbuilt, waiting, valid, own,
                                            free,
                                          ))),
                                )
                              ]
                      ]
                    ]
                  ]
                ]
              ]
            ]
          ]
        ]
      ]

  pub built-Writes :
      (owner source_hash : Text) (native : NativeTransaction) (preparation : Preparation)
      (result : JournalRecord R)
      → record_native_built_in_chain env owner source_hash native preparation chain
        ≡ ok (chain', result)
      → Writes owner true chain chain'
  built-Writes owner source_hash native preparation result h =
      let (hash, journal, r, f, g, found, how) =
        native_built-cases owner source_hash native preparation result h in
      elim how [
        | inl (already, same) ↦ unwritten same
        | inr built ↦ elim built [
          | is_built n prepared valid waiting move put ↦
              written-Writes env chain chain' owner true journal hash (built_record n prepared r) g
                move (λ e. refl) put
        ]
      ]
