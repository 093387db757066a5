-- ===== src/Types.antt =====
-- gravity_utils/src/types.rs, and the types of the crates that the orchestrator builds on.
use near_aurora_bridge.Base.{ℕ, Bool, Option, List}

-- clarity::Address: twenty bytes, as the number that they spell, most significant byte first. Its
-- order and its equality are those of the bytes.
abbrev pub EthAddress : Type 0
EthAddress = ℕ

-- `ZERO_ADDRESS`, and `EthAddress::default()`
abbrev pub zero_address : EthAddress
zero_address = 0

-- num256::Uint256
abbrev pub Uint256 : Type 0
Uint256 = ℕ

-- clarity::Signature
pub record EthSignature : Type 0 where
  pub v : Uint256
  pub r : Uint256
  pub s : Uint256

pub record Erc20Token : Type 0 where
  pub amount : Uint256
  pub token_contract_address : EthAddress

-- What clarity does and the orchestrator calls: `is_valid` and `recover` of a signature. `none`
-- is the error of `recover`.
pub record Clarity : Type 0 where
  pub is_valid : EthSignature → Bool
  pub recover : EthSignature → List ℕ → Option EthAddress
