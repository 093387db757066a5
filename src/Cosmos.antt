-- ===== src/Cosmos.antt =====
-- cosmos_gravity/src/send.rs: the messages that the orchestrator sends to the Cosmos chain. The
-- accounts, the coins and the node's client are those of deep_space.
pub mod Claims
pub mod Filing
pub mod Sends
pub mod Confirms
pub mod Requests
pub mod Balances
pub mod Protobuf
pub mod Queries
pub mod Evidence
pub mod Verified
mod Tests
mod ReadTests
use near_aurora_bridge.Base.{ℕ, Option, List, [], ◌∷◌}
use near_aurora_bridge.Types.{EthAddress, Uint256, EthSignature}

-- An amount of the tokens that a denomination, a string, names.
pub record Coin : Type 0 where
  pub amount : Uint256
  pub denom : List ℕ

-- The granter and the payer are never set.
pub record Fee : Type 0 where
  pub amount : List Coin
  pub gas_limit : ℕ

-- A validator of the protobuf messages.
pub record BridgeValidator : Type 0 where
  pub power : ℕ
  pub ethereum_address : List ℕ

pub record MsgSendToCosmosClaim : Type 0 where
  pub event_nonce : ℕ
  pub block_height : ℕ
  pub token_contract : List ℕ
  pub amount : List ℕ
  pub cosmos_receiver : List ℕ
  pub ethereum_sender : List ℕ
  pub orchestrator : List ℕ

pub record MsgBatchSendToEthClaim : Type 0 where
  pub event_nonce : ℕ
  pub block_height : ℕ
  pub token_contract : List ℕ
  pub batch_nonce : ℕ
  pub orchestrator : List ℕ

pub record MsgErc20DeployedClaim : Type 0 where
  pub event_nonce : ℕ
  pub block_height : ℕ
  pub cosmos_denom : List ℕ
  pub token_contract : List ℕ
  pub name : List ℕ
  pub symbol : List ℕ
  pub decimals : ℕ
  pub orchestrator : List ℕ

pub record MsgLogicCallExecutedClaim : Type 0 where
  pub event_nonce : ℕ
  pub block_height : ℕ
  pub invalidation_id : List ℕ
  pub invalidation_nonce : ℕ
  pub orchestrator : List ℕ

pub record MsgValsetUpdatedClaim : Type 0 where
  pub event_nonce : ℕ
  pub valset_nonce : ℕ
  pub block_height : ℕ
  pub members : List BridgeValidator
  pub reward_amount : List ℕ
  pub reward_token : List ℕ
  pub orchestrator : List ℕ

pub record MsgValsetConfirm : Type 0 where
  pub orchestrator : List ℕ
  pub eth_address : List ℕ
  pub nonce : ℕ
  pub signature : List ℕ

pub record MsgConfirmBatch : Type 0 where
  pub nonce : ℕ
  pub token_contract : List ℕ
  pub eth_signer : List ℕ
  pub orchestrator : List ℕ
  pub signature : List ℕ

pub record MsgConfirmLogicCall : Type 0 where
  pub invalidation_id : List ℕ
  pub invalidation_nonce : ℕ
  pub eth_signer : List ℕ
  pub orchestrator : List ℕ
  pub signature : List ℕ

pub record MsgSendToEth : Type 0 where
  pub sender : List ℕ
  pub eth_dest : List ℕ
  pub amount : Coin
  pub bridge_fee : Coin

-- `Msg::new`, with the type's address as the constructor.
pub data Msg : Type 0 where
  send_to_cosmos_claim : MsgSendToCosmosClaim → Msg
  batch_send_to_eth_claim : MsgBatchSendToEthClaim → Msg
  erc20_deployed_claim : MsgErc20DeployedClaim → Msg
  logic_call_executed_claim : MsgLogicCallExecutedClaim → Msg
  valset_updated_claim : MsgValsetUpdatedClaim → Msg
  valset_confirm_msg : MsgValsetConfirm → Msg
  confirm_batch : MsgConfirmBatch → Msg
  confirm_logic_call : MsgConfirmLogicCall → Msg
  send_to_eth_msg : MsgSendToEth → Msg
  -- the sender and the denomination
  request_batch : List ℕ → List ℕ → Msg
  -- the transaction and the sender
  cancel_send_to_eth_msg : ℕ → List ℕ → Msg
  -- the subject as it is encoded, the signature and the sender
  submit_bad_signature_evidence_msg : List ℕ → List ℕ → List ℕ → Msg
  -- the validator, the orchestrator and the Ethereum address
  set_orchestrator_address : List ℕ → List ℕ → List ℕ → Msg

-- deep_space's errors, as far as the orchestrator tells them apart.
pub data CosmosGrpcError : Type 0 where
  insufficient_fees : List Coin → CosmosGrpcError
  insufficient_gas bad_input other_error : CosmosGrpcError

-- `Result<A, CosmosGrpcError>`
pub data Reply (A : Type 0) : Type 0 where
  reply : A → Reply A
  fault : CosmosGrpcError → Reply A

infixl 5 ◌>>=◌
abbrev ◌>>=◌ : {A B : Type 0} → Reply A → (A → Reply B) → Reply B
fault e >>= f = fault e
reply a >>= f = f a

-- How the crates print a value, as the bytes of a string. `to_bech32` takes the prefix.
pub record Printer : Type 0 where
  pub eth_address_to_string : EthAddress → List ℕ
  pub cosmos_address_to_string : ℕ → List ℕ
  pub uint256_to_string : Uint256 → List ℕ
  pub to_bech32 : List ℕ → ℕ → Option (List ℕ)
  pub bytes_to_hex_str : List ℕ → List ℕ
  pub signature_to_bytes : EthSignature → List ℕ

-- The node's client. `Args` and `Tx` are deep_space's arguments and answer of a transaction.
pub record Contact (Args Tx : Type 0) : Type 0 where
  pub get_prefix : List ℕ
  pub get_message_args : ℕ → Fee → Reply Args
  pub get_balances : ℕ → Reply (List Coin)
  pub send_transaction : List ℕ → Reply Tx
  pub wait_for_tx : Tx → Reply Tx

-- The account's key: `to_address` takes the prefix.
pub record PrivateKey (Args : Type 0) : Type 0 where
  pub to_address : List ℕ → Option ℕ
  pub sign_std_msg : List Msg → Args → Reply (List ℕ)

-- The Ethereum key.
pub record EthPrivateKey : Type 0 where
  pub eth_address : EthAddress
  pub sign_ethereum_msg : List ℕ → EthSignature

module _ {Args Tx : Type 0} (contact : Contact Args Tx) (key : PrivateKey Args) where
  -- What every function of the file ends with, up to the wait for the block.
  unfoldable pub submit : ℕ → Fee → List Msg → Reply Tx
  submit our_address fee msgs = do
    args ← contact.get_message_args our_address fee
    msg_bytes ← key.sign_std_msg msgs args
    contact.send_transaction msg_bytes

  unfoldable pub broadcast : ℕ → Fee → List Msg → Reply Tx
  broadcast our_address fee msgs = do
    response ← submit our_address fee msgs
    contact.wait_for_tx response

abbrev pub fee_of : Coin → ℕ → Fee
fee_of fee gas_limit = record { amount = fee ∷ []; gas_limit = gas_limit }
