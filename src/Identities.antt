-- ===== src/Identities.antt =====
-- rpc-src/artifact-identities.ts: the identities of the TRON proxy contracts.
use openzeppelin_foundry_upg.Base.{
  ℕ, Bool, not, ◌||◌, Option, none, some, List, [], ◌∷◌, ◌++◌, eqb, ◌==◌, nat_eq, list_eq,
  option_eq, match_option, if◌then◌else◌, is_empty,
}
use openzeppelin_foundry_upg.Base.Text.{Text, codes}
use openzeppelin_foundry_upg.AddressMap.State.{ArtifactIdentity}

abbrev pub canonical_tron_root : Text
canonical_tron_root = codes "openzeppelin-tron-solidity/"

abbrev pub supported_tron_roots : List Text
supported_tron_roots =
    canonical_tron_root
    ∷ codes "lib/openzeppelin-tron-solidity/"
    ∷ codes "lib/tron-contracts/"
    ∷ codes "lib/openzeppelin-foundry-upgrades-tron/lib/openzeppelin-tron-solidity/"
    ∷ []

abbrev pub transparent_proxy_path : Text
transparent_proxy_path = codes "contracts/proxy/transparent/TransparentUpgradeableProxy.sol"

abbrev pub proxy_admin_path : Text
proxy_admin_path = codes "contracts/proxy/transparent/ProxyAdmin.sol"

abbrev pub transparent_proxy_identity : Text
transparent_proxy_identity =
    codes
      "openzeppelin-tron-solidity/contracts/proxy/transparent/TransparentUpgradeableProxy.sol:TransparentUpgradeableProxy"

-- `lastIndexOf` and the two slices around it.
unfoldable pub split_last : ℕ → Text → Option (Text × Text)
split_last c [] = none
split_last c (x ∷ xs) =
    let later = split_last c xs in
    match_option later (if eqb x c then some ([], xs) else none)
      (λ parts. some (x ∷ parts.0, parts.1))

-- `startsWith` and the slice after it.
unfoldable pub strip_root : Text → Text → Option Text
strip_root [] value = some value
strip_root (c ∷ root) [] = none
strip_root (c ∷ root) (x ∷ value) =
    let later = strip_root root value in if eqb c x then later else none

-- `endsWith` and the slice before it.
unfoldable pub strip_suffix : Text → Text → Option Text
strip_suffix suffix [] = if is_empty suffix then some [] else none
strip_suffix suffix (x ∷ value) =
    let later = strip_suffix suffix value in
    if (x ∷ value) == suffix then some [] else match_option later none (λ front. some (x ∷ front))

-- The loop over the roots.
unfoldable pub first_root : List Text → Text → Option Text
first_root [] source_name = none
first_root (root ∷ roots) source_name =
    let later = first_root roots source_name in
    match_option (strip_root root source_name) later (λ rest. some rest)

unfoldable pub canonical_tron_fully_qualified_name : Text → Option Text
canonical_tron_fully_qualified_name value = match_option (split_last 58 value) none (λ parts.
    if is_empty parts.0 || is_empty parts.1
    then none
    else match_option (first_root supported_tron_roots parts.0) none
        (λ rest. some ((canonical_tron_root ++ rest) ++ 58 ∷ parts.1)))

-- The TRON transparent proxy, whatever root it was compiled under.
unfoldable pub is_transparent_proxy : Text → Bool
is_transparent_proxy value =
    canonical_tron_fully_qualified_name value == some transparent_proxy_identity

abbrev pub proxy_admin_name : Text
proxy_admin_name = codes "ProxyAdmin"

unfoldable pub derived_tron_proxy_admin_identity : ArtifactIdentity → Option ArtifactIdentity
derived_tron_proxy_admin_identity identity =
    if not (identity.fully_qualified_name == (identity.source_name ++ 58 ∷ identity.contract_name))
      || not (is_transparent_proxy identity.fully_qualified_name)
    then none
    else match_option (strip_suffix transparent_proxy_path identity.source_name) none (λ front.
      let source_name = front ++ proxy_admin_path in
      some (record {
        source_name = source_name;
        contract_name = proxy_admin_name;
        fully_qualified_name = source_name ++ 58 ∷ proxy_admin_name;
      }))
