-- ===== src/Codec.antt =====
-- rpc-src/address-codec.ts passes on the address conversions of the package
-- @openzeppelin/tron-runtime, which is not part of the repository. The model takes `toEvmAddress`
-- as a parameter, with what its documentation says: an accepted address is normalised once.
use openzeppelin_foundry_upg.Base.{◌≡◌, refl}
use openzeppelin_foundry_upg.Base.Text.{Text}
use openzeppelin_foundry_upg.Base.Result.{Result, ok}

pub record AddressCodec : Type 0 where
  pub to_evm_address : Text → Result Text
  pub normalises : (a b : Text) → to_evm_address a ≡ ok b → to_evm_address b ≡ ok b

-- A codec that takes every text as it is, to show that the assumption can be met.
abbrev pub plain_codec : AddressCodec
plain_codec = record { to_evm_address = λ a. ok a; normalises = λ a b e. refl }
