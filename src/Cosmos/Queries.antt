-- ===== src/Cosmos/Queries.antt =====
-- cosmos_gravity/src/query.rs.
use near_aurora_bridge.Base.{
  ℕ, Option, none, some, List, validation_error, rpc_error, Outcome, ok, unwrap, or_err, try_map,
  ◌>>=◌,
}
use near_aurora_bridge.Types.{EthAddress}
use near_aurora_bridge.Valset.{Valset}
use near_aurora_bridge.Batches.{TransactionBatch}
use near_aurora_bridge.Batches.Conversion.{OutgoingTxBatch, Parser, batch_try_from}
use near_aurora_bridge.Logic.{LogicCall}
use near_aurora_bridge.Logic.Conversion.{OutgoingLogicCall, logic_call_try_from}
use near_aurora_bridge.Confirm.{
  ValsetConfirmResponse, BatchConfirmResponse, LogicCallConfirmResponse,
}
use near_aurora_bridge.Cosmos.{MsgValsetConfirm, MsgConfirmBatch, MsgConfirmLogicCall, Printer}
use near_aurora_bridge.Cosmos.Confirms.{
  ConfirmParser, valset_confirm_try_from, batch_confirm_try_from, logic_call_confirm_try_from,
}
use near_aurora_bridge.Cosmos.Protobuf.{ValsetMessage, valset_from}

-- The node's answers, with the arguments of the request; `none` is an error status.
pub record GravityQueryClient : Type 0 where
  pub valset_request : ℕ → Option (Option ValsetMessage)
  pub current_valset : Option (Option ValsetMessage)
  pub last_pending_valset_request_by_addr : List ℕ → Option (List ValsetMessage)
  pub last_valset_requests : Option (List ValsetMessage)
  pub valset_confirms_by_nonce : ℕ → Option (List MsgValsetConfirm)
  pub last_pending_batch_request_by_addr : List ℕ → Option (Option OutgoingTxBatch)
  pub outgoing_tx_batches : Option (List OutgoingTxBatch)
  pub batch_confirms : ℕ → List ℕ → Option (List MsgConfirmBatch)
  pub last_event_nonce_by_addr : List ℕ → Option ℕ
  pub outgoing_logic_calls : Option (List OutgoingLogicCall)
  pub logic_confirms : List ℕ → ℕ → Option (List MsgConfirmLogicCall)
  pub last_pending_logic_call_by_addr : List ℕ → Option (Option OutgoingLogicCall)

-- `map(f).transpose()`
abbrev pub transpose : {A B : Type 0} → (A → Outcome B) → Option A → Outcome (Option B)
transpose f none = ok none
transpose f (some a) = do b ← f a; ok (some b)

module _ (p : Parser) (r : ConfirmParser) (d : Printer) (client : GravityQueryClient) where
  unfoldable pub get_valset : ℕ → Outcome (Option Valset)
  get_valset nonce = do
    response ← or_err (client.valset_request nonce) rpc_error
    transpose (valset_from p) response

  unfoldable pub get_current_valset : Outcome Valset
  get_current_valset = do
    response ← or_err client.current_valset rpc_error
    valset ← or_err response validation_error
    valset_from p valset

  -- The address is printed with the prefix.
  unfoldable pub get_oldest_unsigned_valsets : ℕ → List ℕ → Outcome (List Valset)
  get_oldest_unsigned_valsets address prefix = do
    bech32 ← unwrap (d.to_bech32 prefix address)
    valsets ← or_err (client.last_pending_valset_request_by_addr bech32) rpc_error
    try_map (valset_from p) valsets

  unfoldable pub get_latest_valsets : Outcome (List Valset)
  get_latest_valsets = do
    valsets ← or_err client.last_valset_requests rpc_error
    try_map (valset_from p) valsets

  unfoldable pub get_all_valset_confirms : ℕ → Outcome (List ValsetConfirmResponse)
  get_all_valset_confirms nonce = do
    confirms ← or_err (client.valset_confirms_by_nonce nonce) rpc_error
    try_map (valset_confirm_try_from r) confirms

  unfoldable pub get_oldest_unsigned_transaction_batch :
      ℕ → List ℕ → Outcome (Option TransactionBatch)
  get_oldest_unsigned_transaction_batch address prefix = do
    bech32 ← unwrap (d.to_bech32 prefix address)
    batch ← or_err (client.last_pending_batch_request_by_addr bech32) rpc_error
    transpose (batch_try_from p) batch

  unfoldable pub get_latest_transaction_batches : Outcome (List TransactionBatch)
  get_latest_transaction_batches = do
    batches ← or_err client.outgoing_tx_batches rpc_error
    try_map (batch_try_from p) batches

  unfoldable pub get_transaction_batch_signatures :
      ℕ → EthAddress → Outcome (List BatchConfirmResponse)
  get_transaction_batch_signatures nonce contract_address = do
    confirms ←
        or_err (client.batch_confirms nonce (d.eth_address_to_string contract_address)) rpc_error
    try_map (batch_confirm_try_from r) confirms

  unfoldable pub get_last_event_nonce_for_validator : ℕ → List ℕ → Outcome ℕ
  get_last_event_nonce_for_validator address prefix = do
    bech32 ← unwrap (d.to_bech32 prefix address)
    or_err (client.last_event_nonce_by_addr bech32) rpc_error

  unfoldable pub get_latest_logic_calls : Outcome (List LogicCall)
  get_latest_logic_calls = do
    calls ← or_err client.outgoing_logic_calls rpc_error
    try_map (logic_call_try_from p) calls

  unfoldable pub get_logic_call_signatures : List ℕ → ℕ → Outcome (List LogicCallConfirmResponse)
  get_logic_call_signatures invalidation_id invalidation_nonce = do
    confirms ← or_err (client.logic_confirms invalidation_id invalidation_nonce) rpc_error
    try_map (logic_call_confirm_try_from r) confirms

  unfoldable pub get_oldest_unsigned_logic_call : ℕ → List ℕ → Outcome (Option LogicCall)
  get_oldest_unsigned_logic_call address prefix = do
    bech32 ← unwrap (d.to_bech32 prefix address)
    call ← or_err (client.last_pending_logic_call_by_addr bech32) rpc_error
    transpose (logic_call_try_from p) call
