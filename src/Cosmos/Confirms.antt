-- ===== src/Cosmos/Confirms.antt =====
-- `send_valset_confirms`, `send_batch_confirm` and `send_logic_call_confirm` of
-- cosmos_gravity/src/send.rs, and the parsing of what they send in valsets.rs, batches.rs and
-- logic_call.rs of gravity_utils/src/types.
use near_aurora_bridge.Base.{
  ℕ, Option, List, map, validation_error, Outcome, ok, unwrap, or_err, try_map, ◌>>=◌,
}
use near_aurora_bridge.Types.{EthAddress, EthSignature}
use near_aurora_bridge.Valset.{Valset}
use near_aurora_bridge.Batches.{TransactionBatch}
use near_aurora_bridge.Logic.{LogicCall, encode_logic_call_confirm}
use near_aurora_bridge.Confirm.{
  ValsetConfirmResponse, BatchConfirmResponse, LogicCallConfirmResponse,
}
use near_aurora_bridge.Messages.{Abi, encode_valset_confirm, encode_tx_batch_confirm}
use near_aurora_bridge.Cosmos.{
  Coin, MsgValsetConfirm, MsgConfirmBatch, MsgConfirmLogicCall, valset_confirm_msg, confirm_batch,
  confirm_logic_call, Reply, Printer, Contact, PrivateKey, EthPrivateKey, broadcast, fee_of,
}

module _ (p : Printer) (abi : Abi) (eth_key : EthPrivateKey) (gravity_id : List ℕ)
    (our_address : ℕ) where
  -- `bytes_to_hex_str(&eth_signature.to_bytes())`
  abbrev pub signature_of : List ℕ → List ℕ
  signature_of message =
      p.bytes_to_hex_str (p.signature_to_bytes (eth_key.sign_ethereum_msg message))

  unfoldable pub confirm_of_valset : Valset → MsgValsetConfirm
  confirm_of_valset valset = record {
    orchestrator = p.cosmos_address_to_string our_address;
    eth_address = p.eth_address_to_string eth_key.eth_address;
    nonce = valset.nonce;
    signature = signature_of (encode_valset_confirm abi gravity_id valset);
  }

  unfoldable pub confirm_of_batch : TransactionBatch → Outcome MsgConfirmBatch
  confirm_of_batch batch = do
    message ← encode_tx_batch_confirm abi gravity_id batch
    ok (record {
      token_contract = p.eth_address_to_string batch.token_contract;
      orchestrator = p.cosmos_address_to_string our_address;
      eth_signer = p.eth_address_to_string eth_key.eth_address;
      nonce = batch.nonce;
      signature = signature_of message;
    })

  unfoldable pub confirm_of_logic_call : LogicCall → MsgConfirmLogicCall
  confirm_of_logic_call call = record {
    orchestrator = p.cosmos_address_to_string our_address;
    eth_signer = p.eth_address_to_string eth_key.eth_address;
    signature = signature_of (encode_logic_call_confirm abi gravity_id call);
    invalidation_id = p.bytes_to_hex_str call.invalidation_id;
    invalidation_nonce = call.invalidation_nonce;
  }

module _ {Args Tx : Type 0} (p : Printer) (abi : Abi) (contact : Contact Args Tx)
    (eth_key : EthPrivateKey) (key : PrivateKey Args) (gravity_id : List ℕ) where
  unfoldable pub send_valset_confirms : Coin → List Valset → Outcome (Reply Tx)
  send_valset_confirms fee valsets = do
    our_address ← unwrap (key.to_address contact.get_prefix)
    ok (
        broadcast contact key our_address (fee_of fee 500000000) (
          map (λ v. valset_confirm_msg (confirm_of_valset p abi eth_key gravity_id our_address v))
            valsets))

  unfoldable pub send_batch_confirm : Coin → List TransactionBatch → Outcome (Reply Tx)
  send_batch_confirm fee transaction_batches = do
    our_address ← unwrap (key.to_address contact.get_prefix)
    confirms ← try_map (confirm_of_batch p abi eth_key gravity_id our_address) transaction_batches
    ok (
        broadcast contact key our_address (fee_of fee 500000000)
          (map (λ c. confirm_batch c) confirms))

  unfoldable pub send_logic_call_confirm : Coin → List LogicCall → Outcome (Reply Tx)
  send_logic_call_confirm fee logic_calls = do
    our_address ← unwrap (key.to_address contact.get_prefix)
    ok (
        broadcast contact key our_address (fee_of fee 500000000) (
          map
            (λ c. confirm_logic_call (confirm_of_logic_call p abi eth_key gravity_id our_address c))
            logic_calls))

-- What the crates parse; `none` is an error.
pub record ConfirmParser : Type 0 where
  pub parse_cosmos_address : List ℕ → Option ℕ
  pub parse_eth_address : List ℕ → Option EthAddress
  pub parse_signature : List ℕ → Option EthSignature
  pub hex_str_to_bytes : List ℕ → Option (List ℕ)

module _ (r : ConfirmParser) where
  unfoldable pub valset_confirm_try_from : MsgValsetConfirm → Outcome ValsetConfirmResponse
  valset_confirm_try_from input = do
    orchestrator ← or_err (r.parse_cosmos_address input.orchestrator) validation_error
    eth_address ← or_err (r.parse_eth_address input.eth_address) validation_error
    eth_signature ← or_err (r.parse_signature input.signature) validation_error
    ok (record {
      orchestrator = orchestrator;
      eth_address = eth_address;
      nonce = input.nonce;
      eth_signature = eth_signature;
    })

  unfoldable pub batch_confirm_try_from : MsgConfirmBatch → Outcome BatchConfirmResponse
  batch_confirm_try_from input = do
    orchestrator ← or_err (r.parse_cosmos_address input.orchestrator) validation_error
    token_contract ← or_err (r.parse_eth_address input.token_contract) validation_error
    ethereum_signer ← or_err (r.parse_eth_address input.eth_signer) validation_error
    eth_signature ← or_err (r.parse_signature input.signature) validation_error
    ok (record {
      nonce = input.nonce;
      orchestrator = orchestrator;
      token_contract = token_contract;
      ethereum_signer = ethereum_signer;
      eth_signature = eth_signature;
    })

  unfoldable pub logic_call_confirm_try_from :
      MsgConfirmLogicCall → Outcome LogicCallConfirmResponse
  logic_call_confirm_try_from input = do
    invalidation_id ← unwrap (r.hex_str_to_bytes input.invalidation_id)
    orchestrator ← or_err (r.parse_cosmos_address input.orchestrator) validation_error
    ethereum_signer ← or_err (r.parse_eth_address input.eth_signer) validation_error
    eth_signature ← or_err (r.parse_signature input.signature) validation_error
    ok (record {
      invalidation_id = invalidation_id;
      invalidation_nonce = input.invalidation_nonce;
      orchestrator = orchestrator;
      ethereum_signer = ethereum_signer;
      eth_signature = eth_signature;
    })
