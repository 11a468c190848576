-- ===== src/Store/Transactions.antt =====
-- rpc-src/store.ts: `_readState`, `read`, `readChain` and `transaction` of `JsonStore`.
use openzeppelin_foundry_upg.Base.{
  Bool, ◌||◌, Option, none, some, ◌==◌, list_eq, nat_eq, match_option, if◌then◌else◌,
}
use openzeppelin_foundry_upg.Base.Text.{Text, codes}
use openzeppelin_foundry_upg.Base.Result.{Result, ok, err, ◌>>=◌, ◌>>◌}
use openzeppelin_foundry_upg.Base.Dict.{lookup, insert}
use openzeppelin_foundry_upg.Store.State.{
  StoreState, validate_chain_identity, validate_state, empty_state,
}
use openzeppelin_foundry_upg.Store.Files.{
  File, holds, garbled, Files, Faults, look_up, read_file, write_state,
}

-- `blank` is the state `{}` of a chain that is not there yet; `assert_writable` is the outcome of
-- the lock assertion, `ok tt` when none is bound.
pub record JsonStore (C : Type 0) : Type 0 where
  pub create_if_missing : Bool
  pub assert_writable : Result (Unit {0})
  pub blank : C

-- A key of `Object.prototype` that an identity may be: `chains[key]` finds a function there, which
-- `structuredClone` refuses.
unfoldable pub is_inherited : Text → Bool
is_inherited key =
    key == codes "hasOwnProperty"
    || key == codes "isPrototypeOf"
    || key == codes "propertyIsEnumerable"
    || key == codes "toLocaleString"
    || key == codes "toString"
    || key == codes "valueOf"

-- `existsSync` is also false when the file cannot be looked up.
unfoldable pub found_file : {C : Type 0} → Faults → Files C → Option (File C)
found_file faults files = match_option (faults look_up) files.target (λ code. none)

module _ {C : Type 0} (store : JsonStore C) where
  unfoldable pub parse : File C → Result (StoreState C)
  parse (holds state) = validate_state state
  parse garbled = err "Unable to parse state file"

  unfoldable pub read_state : Faults → Files C → Result (StoreState C)
  read_state faults files =
      match_option (found_file faults files)
        (if store.create_if_missing then ok empty_state else err "State file not found")
        (λ file.
          match_option (faults read_file) (parse file) (λ code. err "Unable to parse state file"))

  unfoldable pub read_chain : Faults → Files C → Text → Result (Option C)
  read_chain faults files identity = do
    key ← validate_chain_identity identity
    state ← read_state faults files
    match_option (lookup key state.chains)
        (if is_inherited key then err "The chain could not be cloned" else ok none)
        (λ chain. ok (some chain))

  -- The chain's own entry, or the new one.
  unfoldable pub chain_or_blank : Text → StoreState C → C
  chain_or_blank key state = match_option (lookup key state.chains) store.blank (λ chain. chain)

module _ {C T : Type 0} (store : JsonStore C) where
  -- Everything before the write: the state to write, and the callback's result.
  unfoldable pub prepare :
      Faults → Files C → Text → (C → Result (C × T)) → Result (StoreState C × T)
  prepare faults files identity callback = do
    key ← validate_chain_identity identity
    state ← read_state store faults files
    changed ← callback (chain_or_blank store key state)
    next ← validate_state (record state { chains = insert key changed.0 state.chains })
    store.assert_writable
    ok (next, changed.1)

  -- A write that ends with a code throws the error of the file system.
  unfoldable pub transaction : Faults → Files C → Text → (C → Result (C × T)) → Files C × Result T
  transaction faults files identity callback = elim (prepare faults files identity callback) [
    | err e ↦ (files, err e)
    | ok (state, result) ↦
        let (later, ending) = write_state faults state files in
        (later, match_option ending (ok result) (λ code. err "File system error"))
  ]
