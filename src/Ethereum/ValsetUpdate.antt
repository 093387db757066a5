-- ===== src/Ethereum/ValsetUpdate.antt =====
-- ethereum_gravity/src/valset_update.rs: the transaction that updates the validator set, and its
-- cost.
use near_aurora_bridge.Base.{
  ℕ, ◌-◌, not, Option, none, some, List, [], ◌∷◌, ltb, leb, ◌==◌, if◌then◌else◌, rpc_error, Outcome,
  ok, err, panic, assert, unwrap, or_err, u64_max, ◌>>=◌, ◌>>◌,
}
use near_aurora_bridge.Types.{Clarity}
use near_aurora_bridge.Valset.{Valset}
use near_aurora_bridge.Confirm.{ValsetConfirmResponse, valset_confirm}
use near_aurora_bridge.Signing.{order_sigs, to_arrays}
use near_aurora_bridge.Messages.{Abi, uints, encode_valset_confirm_hashed}
use near_aurora_bridge.Ethereum.{
  flat, update_valset, Crates, Transaction, Web3, GasCost, get_valset_nonce, encode_valset_struct,
}
use near_aurora_bridge.Ethereum.Submit.{Ours}

module _ (k : Clarity) (abi : Abi) (x : Crates) (ours : Ours) (new_valset old_valset : Valset)
    (confirms : List ValsetConfirmResponse) where
  -- The signatures are over the new set, in the order of the old one.
  unfoldable pub encode_valset_update_payload : Outcome (List ℕ)
  encode_valset_update_payload = do
    sig_data ←
        order_sigs k (encode_valset_confirm_hashed abi ours.gravity_id new_valset) old_valset
          confirms
    let sig_arrays = to_arrays sig_data
    unwrap (
        x.encode_call update_valset (
          encode_valset_struct new_valset
          ∷ encode_valset_struct old_valset
          ∷ flat (uints sig_arrays.v)
          ∷ flat (uints sig_arrays.r)
          ∷ flat (uints sig_arrays.s)
          ∷ []))

  unfoldable pub estimate_valset_cost : Web3 → Outcome GasCost
  estimate_valset_cost web3 = do
    our_balance ← or_err (web3.eth_get_balance ours.eth_address) rpc_error
    our_nonce ← or_err (web3.eth_get_transaction_count ours.eth_address) rpc_error
    gas_price ← or_err web3.eth_gas_price rpc_error
    payload ← encode_valset_update_payload
    val ←
        or_err
          (web3.eth_estimate_gas (record {
            sender = ours.eth_address;
            to = ours.contract;
            nonce = our_nonce;
            gas_price = gas_price;
            gas = if leb (u64_max - 1) our_balance then u64_max - 1 else our_balance;
            bytes = payload;
          }))
          rpc_error
    ok (record { gas = val; gas_price = gas_price })

  -- Up to the transaction, or to the early exit: another relayer has updated the set.
  unfoldable pub prepare_valset : Web3 → Outcome (Option Transaction)
  prepare_valset web3 = do
    assert (ltb old_valset.nonce new_valset.nonce)
    before_nonce ← get_valset_nonce x web3 ours.contract ours.eth_address
    if not (before_nonce == old_valset.nonce) then ok none else do
      payload ← encode_valset_update_payload
      ok (some (record { to = ours.contract; payload = payload; sender = ours.eth_address }))

  -- After the transaction is handed over: the nonce that is then read is only reported.
  unfoldable pub await_valset : Web3 → Web3 → Transaction → Outcome (Unit {0})
  await_valset web3 later transaction = do
    tx ← or_err (web3.send_transaction transaction) rpc_error
    waited ← or_err (web3.wait_for_transaction tx) rpc_error
    last_nonce ← get_valset_nonce x later ours.contract ours.eth_address
    ok tt

  -- The result of the call, and the transaction that it has handed to the node.
  unfoldable pub send_eth_valset_update : Web3 → Web3 → Outcome (Unit {0}) × Option Transaction
  send_eth_valset_update web3 later = elim (prepare_valset web3) [
    | ok none ↦ (ok tt, none)
    | ok (some transaction) ↦ (await_valset web3 later transaction, some transaction)
    | err e ↦ (err e, none)
    | panic ↦ (panic, none)
  ]
