-- ===== src/Ethereum/Submit.antt =====
-- ethereum_gravity/src/submit_batch.rs: the transaction that submits a batch, and its cost.
use near_aurora_bridge.Base.{
  ℕ, ◌-◌, Option, none, some, List, [], ◌∷◌, ltb, leb, if◌then◌else◌, rpc_error, Outcome, ok, err,
  panic, unwrap, or_err, u64_max, ◌>>=◌,
}
use near_aurora_bridge.Types.{EthAddress, Clarity}
use near_aurora_bridge.Valset.{Valset}
use near_aurora_bridge.Confirm.{BatchConfirmResponse, batch_confirm}
use near_aurora_bridge.Signing.{order_sigs, to_arrays}
use near_aurora_bridge.Batches.{TransactionBatch, get_checkpoint_values}
use near_aurora_bridge.Messages.{
  Abi, uint, address, uints, addresses, encode_tx_batch_confirm_hashed,
}
use near_aurora_bridge.Ethereum.{
  flat, submit_batch_call, Crates, Transaction, Web3, GasCost, get_tx_batch_nonce,
  encode_valset_struct,
}

-- `gravity_contract_address`, `gravity_id`, and the address of our key.
pub record Ours : Type 0 where
  pub contract : EthAddress
  pub gravity_id : List ℕ
  pub eth_address : EthAddress

module _ (k : Clarity) (abi : Abi) (x : Crates) (ours : Ours) (current_valset : Valset) where
  unfoldable pub encode_batch_payload :
      TransactionBatch → List BatchConfirmResponse → Outcome (List ℕ)
  encode_batch_payload batch confirms = do
    hash ← encode_tx_batch_confirm_hashed abi ours.gravity_id batch
    sig_data ← order_sigs k hash current_valset confirms
    let sig_arrays = to_arrays sig_data
    values ← get_checkpoint_values batch
    unwrap (
        x.encode_call submit_batch_call (
          encode_valset_struct current_valset
          ∷ flat (uints sig_arrays.v)
          ∷ flat (uints sig_arrays.r)
          ∷ flat (uints sig_arrays.s)
          ∷ flat (uints values.amounts)
          ∷ flat (addresses values.destinations)
          ∷ flat (uints values.fees)
          ∷ flat (uint batch.nonce)
          ∷ flat (address batch.token_contract)
          ∷ flat (uint batch.batch_timeout)
          ∷ []))

  unfoldable pub estimate_tx_batch_cost :
      Web3 → TransactionBatch → List BatchConfirmResponse → Outcome GasCost
  estimate_tx_batch_cost web3 batch confirms = do
    our_balance ← or_err (web3.eth_get_balance ours.eth_address) rpc_error
    our_nonce ← or_err (web3.eth_get_transaction_count ours.eth_address) rpc_error
    gas_price ← or_err web3.eth_gas_price rpc_error
    payload ← encode_batch_payload batch confirms
    val ←
        or_err
          (web3.eth_estimate_gas (record {
            sender = ours.eth_address;
            to = ours.contract;
            nonce = our_nonce;
            gas_price = gas_price;
            gas = if leb (u64_max - 1) our_balance then u64_max - 1 else our_balance;
            bytes = payload;
          }))
          rpc_error
    ok (record { gas = val; gas_price = gas_price })

  -- Up to the transaction, or to an early exit: another relayer was faster, or the batch has timed
  -- out.
  unfoldable pub prepare_batch :
      Web3 → TransactionBatch → List BatchConfirmResponse → Outcome (Option Transaction)
  prepare_batch web3 batch confirms = do
    before_nonce ← get_tx_batch_nonce x web3 ours.contract batch.token_contract ours.eth_address
    current_block_height ← or_err web3.eth_block_number rpc_error
    if leb batch.nonce before_nonce
        then ok none
        else if ltb batch.batch_timeout current_block_height
        then ok none
        else do
          payload ← encode_batch_payload batch confirms
          ok (some (record { to = ours.contract; payload = payload; sender = ours.eth_address }))

  -- After the transaction is handed over: the nonce that is then read is only reported.
  unfoldable pub await_batch : Web3 → Web3 → TransactionBatch → Transaction → Outcome (Unit {0})
  await_batch web3 later batch transaction = do
    tx ← or_err (web3.send_transaction transaction) rpc_error
    waited ← or_err (web3.wait_for_transaction tx) rpc_error
    last_nonce ← get_tx_batch_nonce x later ours.contract batch.token_contract ours.eth_address
    ok tt

  -- The result of the call, and the transaction that it has handed to the node. The second `Web3`
  -- answers after the transaction.
  unfoldable pub send_eth_transaction_batch :
      Web3
      → Web3
      → TransactionBatch
      → List BatchConfirmResponse
      → Outcome (Unit {0}) × Option Transaction
  send_eth_transaction_batch web3 later batch confirms = elim (prepare_batch web3 batch confirms) [
    | ok none ↦ (ok tt, none)
    | ok (some transaction) ↦ (await_batch web3 later batch transaction, some transaction)
    | err e ↦ (err e, none)
    | panic ↦ (panic, none)
  ]
