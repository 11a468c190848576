-- ===== src/Journal/State.antt =====
-- rpc-src/journal.ts: the journal's records. A nonce or a counter that the source keeps as the
-- decimal text of a bigint is its number. The four fields that are written together when a native
-- transaction is built are one optional field, `built`.
use openzeppelin_foundry_upg.Base.{ℕ, Bool, Option, List}
use openzeppelin_foundry_upg.Base.Text.{Text}
use openzeppelin_foundry_upg.Base.Dict.{Dict}
use openzeppelin_foundry_upg.Codec.{AddressCodec}
use openzeppelin_foundry_upg.AddressMap.State.{ArtifactIdentity, ChainState}

pub data JournalState : Type 0 where
  received native_built broadcast confirmed failed : JournalState

pub data SimulationMode : Type 0 where
  exact_signed constant_create constant_call : SimulationMode

pub data OperationKind : Type 0 where
  deployment call : OperationKind

pub record NativeTransaction : Type 0 where
  pub signed_native_transaction : Text
  pub native_transaction_id : Text

pub record Failure : Type 0 where
  pub code : Text
  pub message : Text

pub record OperationContext : Type 0 where
  pub kind : OperationKind
  pub from : Text
  pub to : Option Text
  pub nonce : ℕ
  pub predicted_contract_address : Option Text
  pub actual_target : Text
  pub contract_kind : Option Text
  pub artifact_identity : Option ArtifactIdentity
  pub provenance_hash : Option Text

pub record ChildCreateMetadata : Type 0 where
  pub contract_kind : Text
  pub artifact_identity : ArtifactIdentity

pub record ChildCreateAttempt : Type 0 where
  pub index : ℕ
  pub actual_caller : Text
  pub predicted_caller : Text
  pub nonce : ℕ
  pub predicted_address : Text
  pub simulated_actual_address : Text
  pub success : Bool
  pub child_metadata : Option ChildCreateMetadata

pub record ChildCreatePlan : Type 0 where
  pub version : ℕ
  pub mode : SimulationMode
  pub sender : Text
  pub simulation_root_address : Text
  pub attempts : List ChildCreateAttempt
  pub counter_bases : Dict Text ℕ
  pub counter_finals : Dict Text ℕ

pub record Preparation : Type 0 where
  pub operation_context : OperationContext
  pub child_create_plan : ChildCreatePlan

pub record Built : Type 0 where
  pub native : NativeTransaction
  pub prepared : Preparation

-- `R` is the type of receipts: JSON values that the journal stores and compares as a whole.
pub record JournalRecord (R : Type 0) : Type 0 where
  pub source_transaction_hash : Text
  pub signed_ethereum_transaction : Text
  pub state : JournalState
  pub build_claim_owner : Option Text
  pub built : Option Built
  pub receipt : Option R
  pub failure : Option Failure

pub record Journal (R : Type 0) : Type 0 where
  pub version : ℕ
  pub records : Dict Text (JournalRecord R)

-- create-reconciler.ts: the next nonce of each caller that creates children.
pub record ReconciliationState : Type 0 where
  pub version : ℕ
  pub next_nonce_by_caller : Dict Text ℕ

-- One chain's durable state: what the address map, the journal and the reconciler keep of it.
pub record Chain (R : Type 0) : Type 0 where
  pub addresses : ChainState
  pub transaction_journal : Option (Journal R)
  pub child_create_reconciliation : Option ReconciliationState

-- What the journal takes from elsewhere: the address codec; `keccak256` and `getCreateAddress` of
-- the package ethers; and whether a receipt survives `JSON.parse(JSON.stringify(receipt))`.
pub record Runtime (R : Type 0) : Type 0 where
  pub codec : AddressCodec
  pub keccak256 : Text → Text
  pub get_create_address : Text → ℕ → Text
  pub json_safe : R → Bool

pub record ReceiveResult (R : Type 0) : Type 0 where
  pub journal_record : JournalRecord R
  pub should_build : Bool
