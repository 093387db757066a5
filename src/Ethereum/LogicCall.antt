-- ===== src/Ethereum/LogicCall.antt =====
-- ethereum_gravity/src/logic_call.rs: the transaction that submits a logic call, and its cost.
use near_aurora_bridge.Base.{
  ℕ, ◌-◌, Option, none, some, List, [], ◌∷◌, ltb, leb, if◌then◌else◌, rpc_error, Outcome, ok, err,
  panic, unwrap, or_err, u64_max, ◌>>=◌,
}
use near_aurora_bridge.Types.{Clarity}
use near_aurora_bridge.Valset.{Valset}
use near_aurora_bridge.Confirm.{LogicCallConfirmResponse, logic_call_confirm}
use near_aurora_bridge.Signing.{order_sigs, to_arrays}
use near_aurora_bridge.Logic.{LogicCall, token_columns, encode_logic_call_confirm_hashed}
use near_aurora_bridge.Messages.{Abi, uint, address, uints, addresses, unbounded_bytes, bytes}
use near_aurora_bridge.Ethereum.{
  flat, struct, submit_logic_call, Crates, Transaction, Web3, GasCost, get_logic_call_nonce,
  encode_valset_struct,
}
use near_aurora_bridge.Ethereum.Submit.{Ours}

module _ (k : Clarity) (abi : Abi) (x : Crates) (ours : Ours) (current_valset : Valset) where
  unfoldable pub encode_logic_call_payload :
      LogicCall → List LogicCallConfirmResponse → Outcome (List ℕ)
  encode_logic_call_payload call confirms = do
    sig_data ←
        order_sigs k (encode_logic_call_confirm_hashed abi ours.gravity_id call) current_valset
          confirms
    let sig_arrays = to_arrays sig_data
    let (transfer_amounts, transfer_token_contracts) = token_columns call.transfers
    let (fee_amounts, fee_token_contracts) = token_columns call.fees
    unwrap (
        x.encode_call submit_logic_call (
          encode_valset_struct current_valset
          ∷ flat (uints sig_arrays.v)
          ∷ flat (uints sig_arrays.r)
          ∷ flat (uints sig_arrays.s)
          ∷ struct (
              uints transfer_amounts
              ∷ addresses transfer_token_contracts
              ∷ uints fee_amounts
              ∷ addresses fee_token_contracts
              ∷ address call.logic_contract_address
              ∷ unbounded_bytes call.payload
              ∷ uint call.timeout
              ∷ bytes call.invalidation_id
              ∷ uint call.invalidation_nonce
              ∷ [])
          ∷ []))

  unfoldable pub estimate_logic_call_cost :
      Web3 → LogicCall → List LogicCallConfirmResponse → Outcome GasCost
  estimate_logic_call_cost web3 call confirms = do
    our_balance ← or_err (web3.eth_get_balance ours.eth_address) rpc_error
    our_nonce ← or_err (web3.eth_get_transaction_count ours.eth_address) rpc_error
    gas_price ← or_err web3.eth_gas_price rpc_error
    payload ← encode_logic_call_payload call confirms
    val ←
        or_err
          (web3.eth_estimate_gas (record {
            sender = ours.eth_address;
            to = ours.contract;
            nonce = our_nonce;
            gas_price = gas_price;
            gas = if leb (u64_max - 1) our_balance then u64_max - 1 else our_balance;
            bytes = payload;
          }))
          rpc_error
    ok (record { gas = val; gas_price = gas_price })

  -- Up to the transaction, or to an early exit: another relayer was faster, or the call has timed out.
  unfoldable pub prepare_call :
      Web3 → LogicCall → List LogicCallConfirmResponse → Outcome (Option Transaction)
  prepare_call web3 call confirms = do
    before_nonce ← get_logic_call_nonce x web3 ours.contract call.invalidation_id ours.eth_address
    current_block_height ← or_err web3.eth_block_number rpc_error
    if leb call.invalidation_nonce before_nonce
        then ok none
        else if ltb call.timeout current_block_height
        then ok none
        else do
          payload ← encode_logic_call_payload call confirms
          ok (some (record { to = ours.contract; payload = payload; sender = ours.eth_address }))

  -- After the transaction is handed over: the nonce that is then read is only reported.
  unfoldable pub await_call : Web3 → Web3 → LogicCall → Transaction → Outcome (Unit {0})
  await_call web3 later call transaction = do
    tx ← or_err (web3.send_transaction transaction) rpc_error
    waited ← or_err (web3.wait_for_transaction tx) rpc_error
    last_nonce ← get_logic_call_nonce x later ours.contract call.invalidation_id ours.eth_address
    ok tt

  -- The result of the call, and the transaction that it has handed to the node. The second `Web3`
  -- answers after the transaction.
  unfoldable pub send_eth_logic_call :
      Web3
      → Web3
      → LogicCall
      → List LogicCallConfirmResponse
      → Outcome (Unit {0}) × Option Transaction
  send_eth_logic_call web3 later call confirms = elim (prepare_call web3 call confirms) [
    | ok none ↦ (ok tt, none)
    | ok (some transaction) ↦ (await_call web3 later call transaction, some transaction)
    | err e ↦ (err e, none)
    | panic ↦ (panic, none)
  ]
