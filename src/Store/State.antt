-- ===== src/Store/State.antt =====
-- rpc-src/store.ts: the state root and its validation. `C` is the type of one chain's state.
use openzeppelin_foundry_upg.Base.{
  ℕ, Bool, false, not, ◌&&◌, ◌||◌, [], ◌∷◌, eqb, leb, ◌==◌, nat_eq, list_eq, length, all,
  if◌then◌else◌,
}
use openzeppelin_foundry_upg.Base.Text.{Text, codes}
use openzeppelin_foundry_upg.Base.Patterns.{is_digit, is_lower}
use openzeppelin_foundry_upg.Base.Result.{Result, ok, err, ◌>>=◌, ◌>>◌, require}
use openzeppelin_foundry_upg.Base.Dict.{Dict}
use openzeppelin_foundry_upg.Base.Loops.{each}

pub record StoreState (C : Type 0) : Type 0 where
  pub version : ℕ
  pub chains : Dict Text C

-- `[A-Za-z0-9]`
unfoldable pub is_identity_start : ℕ → Bool
is_identity_start c = is_digit c || is_lower c || (leb 65 c && leb c 90)

-- `[A-Za-z0-9._:-]`
unfoldable pub is_identity_char : ℕ → Bool
is_identity_char c = is_identity_start c || eqb c 46 || eqb c 95 || eqb c 58 || eqb c 45

-- `CHAIN_IDENTITY_PATTERN`
unfoldable pub matches_identity : Text → Bool
matches_identity [] = false
matches_identity (c ∷ rest) =
    is_identity_start c && leb (length rest) 255 && all is_identity_char rest

-- `FORBIDDEN_KEYS`
unfoldable pub is_forbidden : Text → Bool
is_forbidden key =
    key == codes "__proto__" || key == codes "constructor" || key == codes "prototype"

unfoldable pub validate_chain_identity : Text → Result Text
validate_chain_identity identity =
    if matches_identity identity && not (is_forbidden identity)
    then ok identity
    else err "Invalid chain identity"

unfoldable pub check_identity : {C : Type 0} → Text → C → Result (Unit {0})
check_identity identity chain = do key ← validate_chain_identity identity; ok tt

module _ {C : Type 0} where
  unfoldable pub validate_state : StoreState C → Result (StoreState C)
  validate_state state = do
    require (eqb state.version 1) "Unsupported state version"
    each check_identity state.chains
    ok state

  abbrev pub empty_state : StoreState C
  empty_state = record { version = 1; chains = [] }
