-- ===== src/Ethereum.antt =====
-- ethereum_gravity/src/utils.rs: requests to the bridge's contract, and the cost of a transaction.
pub mod Submit
pub mod Prepared
pub mod ValsetUpdate
pub mod LogicCall
pub mod LogicPrepared
use near_aurora_bridge.Base.{
  ℕ, ◌-◌, ◌^◌, Option, none, some, List, [], ◌∷◌, leb, if◌then◌else◌, rpc_error, Outcome, unwrap,
  or_err, u64_max, ◌>>=◌, ◌>>◌,
}
use near_aurora_bridge.Types.{EthAddress, Uint256, zero_address}
use near_aurora_bridge.Valset.{Valset, filter_empty_addresses}
use near_aurora_bridge.Messages.{Token, bytes, uint, address, uints, addresses}

-- A call's argument is a flat token, or a struct of flat tokens.
pub data Argument : Type 0 where
  flat : Token → Argument
  struct : List Token → Argument

-- The functions of the contract that are called. `encode_call` takes their signatures as strings.
pub data Call : Type 0 where
  last_batch_nonce submit_batch_call state_last_valset_nonce update_valset : Call
  last_logic_call_nonce submit_logic_call : Call

-- What the crates do: the ABI encoding of a call, the number that bytes spell, and multiplication.
pub record Crates : Type 0 where
  pub encode_call : Call → List Argument → Option (List ℕ)
  pub from_bytes_be : List ℕ → Uint256
  pub mul : Uint256 → Uint256 → Outcome Uint256

-- The fields that differ from one request to another; the value is zero.
pub record TransactionRequest : Type 0 where
  pub sender : EthAddress
  pub to : EthAddress
  pub nonce : Uint256
  pub gas_price : Uint256
  pub gas : Uint256
  pub bytes : List ℕ

-- What is handed to `send_transaction`.
pub record Transaction : Type 0 where
  pub to : EthAddress
  pub payload : List ℕ
  pub sender : EthAddress

-- The answers of the Ethereum node at one moment; `none` is an error.
pub record Web3 : Type 0 where
  pub eth_block_number : Option Uint256
  pub eth_get_balance : EthAddress → Option Uint256
  pub eth_get_transaction_count : EthAddress → Option Uint256
  pub eth_gas_price : Option Uint256
  pub eth_estimate_gas : TransactionRequest → Option Uint256
  pub simulate_transaction : EthAddress → List ℕ → EthAddress → Option (List ℕ)
  pub send_transaction : Transaction → Option Uint256
  pub wait_for_transaction : Uint256 → Option (Unit {0})
  pub get_uniswap_price : EthAddress → EthAddress → EthAddress → Uint256 → Option Uint256

abbrev pub u128_max : ℕ
u128_max = 2 ^ 128 - 1

-- The copy of the low bytes keeps the number. The greatest number of 64 bits is refused too.
abbrev pub downcast_uint256 : Uint256 → Option ℕ
downcast_uint256 input = if leb u64_max input then none else some input

abbrev pub downcast_to_u128 : Uint256 → Option ℕ
downcast_to_u128 input = if leb u128_max input then none else some input

pub record GasCost : Type 0 where
  pub gas : Uint256
  pub gas_price : Uint256

abbrev pub get_total : Crates → GasCost → Outcome Uint256
get_total x cost = x.mul cost.gas cost.gas_price

-- The latest nonce of the token's batches in the contract.
unfoldable pub get_tx_batch_nonce : Crates → Web3 → EthAddress → EthAddress → EthAddress → Outcome ℕ
get_tx_batch_nonce x web3 gravity_contract_address erc20_contract_address caller_address = do
  payload ← unwrap (x.encode_call last_batch_nonce (flat (address erc20_contract_address) ∷ []))
  val ← or_err (web3.simulate_transaction gravity_contract_address payload caller_address) rpc_error
  unwrap (downcast_uint256 (x.from_bytes_be val))

-- The nonce of the validator set in the contract.
unfoldable pub get_valset_nonce : Crates → Web3 → EthAddress → EthAddress → Outcome ℕ
get_valset_nonce x web3 contract_address caller_address = do
  payload ← unwrap (x.encode_call state_last_valset_nonce [])
  val ← or_err (web3.simulate_transaction contract_address payload caller_address) rpc_error
  unwrap (downcast_uint256 (x.from_bytes_be val))

-- The latest nonce that the contract has seen for an invalidation id.
unfoldable pub get_logic_call_nonce : Crates → Web3 → EthAddress → List ℕ → EthAddress → Outcome ℕ
get_logic_call_nonce x web3 gravity_contract_address invalidation_id caller_address = do
  payload ← unwrap (x.encode_call last_logic_call_nonce (flat (bytes invalidation_id) ∷ []))
  val ← or_err (web3.simulate_transaction gravity_contract_address payload caller_address) rpc_error
  unwrap (downcast_uint256 (x.from_bytes_be val))

-- `valset.reward_token.unwrap_or_else(|| *ZERO_ADDRESS)`
abbrev reward_or_zero : Option EthAddress → EthAddress
reward_or_zero none = zero_address
reward_or_zero (some token) = token

unfoldable pub encode_valset_struct : Valset → Argument
encode_valset_struct valset =
    let (members, powers) = filter_empty_addresses valset in
    struct (
      addresses members
      ∷ uints powers
      ∷ uint valset.nonce
      ∷ uint valset.reward_amount
      ∷ address (reward_or_zero valset.reward_token)
      ∷ [])
