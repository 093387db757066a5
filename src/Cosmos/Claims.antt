-- ===== src/Cosmos/Claims.antt =====
-- `send_ethereum_claims` of cosmos_gravity/src/send.rs: the oracle's events become messages in the
-- order of their nonces.
use near_aurora_bridge.Base.{ℕ, Option, none, some, List, [], ◌∷◌, map, Outcome, ok, unwrap, ◌>>=◌}
use near_aurora_bridge.BTreeMap.{BTreeMap, insert}
use near_aurora_bridge.Types.{EthAddress, zero_address}
use near_aurora_bridge.Valset.{ValsetMember}
use near_aurora_bridge.Events.{
  ValsetUpdatedEvent, TransactionBatchExecutedEvent, SendToCosmosEvent, Erc20DeployedEvent,
  LogicCallExecutedEvent,
}
use near_aurora_bridge.Oracle.{Claims}
use near_aurora_bridge.Ethereum.{downcast_uint256}
use near_aurora_bridge.Cosmos.{
  Coin, BridgeValidator, Msg, send_to_cosmos_claim, batch_send_to_eth_claim, erc20_deployed_claim,
  logic_call_executed_claim, valset_updated_claim, Reply, Printer, Contact, PrivateKey, broadcast,
  fee_of,
}

abbrev token_or_zero_address : Option EthAddress → EthAddress
token_or_zero_address none = zero_address
token_or_zero_address (some token) = token

-- One of the five loops: each event becomes a message, which is filed under its nonce.
unfoldable pub file_msgs :
    {E : Type 0} → (E → Outcome (ℕ × Msg)) → List E → BTreeMap Msg → Outcome (BTreeMap Msg)
file_msgs msg_of [] ordered_msgs = ok ordered_msgs
file_msgs msg_of (e ∷ es) ordered_msgs = do
  (nonce, msg) ← msg_of e
  file_msgs msg_of es (insert nonce msg ordered_msgs)

module _ (p : Printer) where
  abbrev pub validator_address : Option EthAddress → List ℕ
  validator_address none = []
  validator_address (some e) = p.eth_address_to_string e

  abbrev pub bridge_validator : ValsetMember → BridgeValidator
  bridge_validator m = record {
    power = m.power;
    ethereum_address = validator_address m.eth_address;
  }

  -- The messages, each with the nonce that it is filed under. `receiver_prefix` is the prefix of
  -- the chain's addresses, and `orchestrator` our own address.
  module _ (receiver_prefix orchestrator : List ℕ) where
    unfoldable pub deposit_msg : SendToCosmosEvent → Outcome (ℕ × Msg)
    deposit_msg deposit = do
      block_height ← unwrap (downcast_uint256 deposit.block_height)
      cosmos_receiver ← unwrap (p.to_bech32 receiver_prefix deposit.destination)
      ok (
        deposit.event_nonce,
        send_to_cosmos_claim (record {
          event_nonce = deposit.event_nonce;
          block_height = block_height;
          token_contract = p.eth_address_to_string deposit.erc20;
          amount = p.uint256_to_string deposit.amount;
          cosmos_receiver = cosmos_receiver;
          ethereum_sender = p.eth_address_to_string deposit.sender;
          orchestrator = orchestrator;
        }),
      )

    unfoldable pub withdraw_msg : TransactionBatchExecutedEvent → Outcome (ℕ × Msg)
    withdraw_msg withdraw = do
      block_height ← unwrap (downcast_uint256 withdraw.block_height)
      ok (
        withdraw.event_nonce,
        batch_send_to_eth_claim (record {
          event_nonce = withdraw.event_nonce;
          block_height = block_height;
          token_contract = p.eth_address_to_string withdraw.erc20;
          batch_nonce = withdraw.batch_nonce;
          orchestrator = orchestrator;
        }),
      )

    unfoldable pub deploy_msg : Erc20DeployedEvent → Outcome (ℕ × Msg)
    deploy_msg deploy = do
      block_height ← unwrap (downcast_uint256 deploy.block_height)
      ok (
        deploy.event_nonce,
        erc20_deployed_claim (record {
          event_nonce = deploy.event_nonce;
          block_height = block_height;
          cosmos_denom = deploy.cosmos_denom;
          token_contract = p.eth_address_to_string deploy.erc20_address;
          name = deploy.name;
          symbol = deploy.symbol;
          decimals = deploy.decimals;
          orchestrator = orchestrator;
        }),
      )

    unfoldable pub logic_call_msg : LogicCallExecutedEvent → Outcome (ℕ × Msg)
    logic_call_msg call = do
      block_height ← unwrap (downcast_uint256 call.block_height)
      ok (
        call.event_nonce,
        logic_call_executed_claim (record {
          event_nonce = call.event_nonce;
          block_height = block_height;
          invalidation_id = call.invalidation_id;
          invalidation_nonce = call.invalidation_nonce;
          orchestrator = orchestrator;
        }),
      )

    unfoldable pub valset_msg : ValsetUpdatedEvent → Outcome (ℕ × Msg)
    valset_msg valset = do
      block_height ← unwrap (downcast_uint256 valset.block_height)
      ok (
        valset.event_nonce,
        valset_updated_claim (record {
          event_nonce = valset.event_nonce;
          valset_nonce = valset.valset_nonce;
          block_height = block_height;
          members = map bridge_validator valset.members;
          reward_amount = p.uint256_to_string valset.reward_amount;
          reward_token = p.eth_address_to_string (token_or_zero_address valset.reward_token);
          orchestrator = orchestrator;
        }),
      )

    unfoldable pub order_msgs : Claims → Outcome (BTreeMap Msg)
    order_msgs c = do
      m1 ← file_msgs deposit_msg c.deposits []
      m2 ← file_msgs withdraw_msg c.withdraws m1
      m3 ← file_msgs deploy_msg c.erc20_deploys m2
      m4 ← file_msgs logic_call_msg c.logic_calls m3
      file_msgs valset_msg c.valsets m4

-- `ordered_msgs.into_iter().map(|(_, v)| v).collect()`
abbrev pub values : BTreeMap Msg → List Msg
values [] = []
values ((k, v) ∷ m) = v ∷ values m

module _ {Args Tx : Type 0} (p : Printer) (contact : Contact Args Tx) where
  unfoldable pub send_ethereum_claims : PrivateKey Args → Claims → Coin → Outcome (Reply Tx)
  send_ethereum_claims key claims fee = do
    our_address ← unwrap (key.to_address contact.get_prefix)
    ordered_msgs ← order_msgs p contact.get_prefix (p.cosmos_address_to_string our_address) claims
    ok (broadcast contact key our_address (fee_of fee 500000000) (values ordered_msgs))
