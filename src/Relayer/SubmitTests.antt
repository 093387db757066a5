-- ===== src/Relayer/SubmitTests.antt =====
-- A run of `submit_batches` for one token with three batches, of which one has timed out.
use near_aurora_bridge.Base.{ℕ, ◌*◌, ◌≡◌, refl, true, some, List, [], ◌∷◌, ok}
use near_aurora_bridge.Confirm.{get_hashmap}
use near_aurora_bridge.Float.{gravity_power_to_percent, round24}
use near_aurora_bridge.Signing.{
  order_sigs, get_signature_status, status_loop, add_member, to_arrays,
}
use near_aurora_bridge.Valset.{filter_empty_addresses}
use near_aurora_bridge.Batches.{get_checkpoint_values}
use near_aurora_bridge.Messages.{encode_tx_batch_confirm, encode_tx_batch_confirm_hashed}
use near_aurora_bridge.Ethereum.{
  Crates, Transaction, Web3, get_tx_batch_nonce, encode_valset_struct,
}
use near_aurora_bridge.Ethereum.Submit.{
  Ours, encode_batch_payload, estimate_tx_batch_cost, prepare_batch, await_batch,
  send_eth_transaction_batch,
}
use near_aurora_bridge.Relayer.Batches.{SubmittableBatch}
use near_aurora_bridge.Relayer.Submit.{
  Moments, should_relay_batch, decide_batch, choose_batch, submit_batch, submit_loop,
  submit_token_batches,
}
use near_aurora_bridge.Relayer.Order.{Relays, submit_token_batches-Relays}
use near_aurora_bridge.Relayer.Tests.{clarity, abi, set, batch, vote}

abbrev pub crates : Crates
crates = record {
  encode_call = λ c args. some [];
  from_bytes_be = λ bytes. 6;
  mul = λ a b. ok (a * b);
}

abbrev pub ours : Ours
ours = record { contract = 77; gravity_id = []; eth_address = 78 }

abbrev pub web3 : Web3
web3 = record {
  eth_block_number = some 90;
  eth_get_balance = λ a. some 1000;
  eth_get_transaction_count = λ a. some 4;
  eth_gas_price = some 2;
  eth_estimate_gas = λ r. some 1;
  simulate_transaction = λ a p c. some [];
  send_transaction = λ t. some 123;
  wait_for_transaction = λ t. some tt;
  get_uniswap_price = λ a b c d. some d;
}

abbrev pub answers : ℕ → Moments
answers i = record { estimating = web3; sending = web3; sent = web3 }

-- The fees of 3 are worth more than the cost of 2.
abbrev submittable : ℕ → ℕ → SubmittableBatch
submittable n timeout = record {
  batch = record (batch n 5) { batch_timeout = timeout };
  sigs = vote n 5 11 ∷ [];
}

abbrev batches : List SubmittableBatch
batches = submittable 7 100 ∷ submittable 8 80 ∷ submittable 9 100 ∷ []

abbrev pub transaction : Transaction
transaction = record { to = 77; payload = []; sender = 78 }

submit_run :
    submit_token_batches clarity abi crates ours (set 1) 5 true web3 answers 5 batches
    ≡ (submittable 7 100, transaction) ∷ (submittable 9 100, transaction) ∷ []
unfolding submit_token_batches submit_loop submit_batch choose_batch decide_batch should_relay_batch
    get_tx_batch_nonce encode_valset_struct encode_batch_payload estimate_tx_batch_cost
    prepare_batch await_batch send_eth_transaction_batch order_sigs gravity_power_to_percent round24
    get_hashmap get_signature_status status_loop add_member to_arrays get_checkpoint_values
    encode_tx_batch_confirm encode_tx_batch_confirm_hashed filter_empty_addresses
submit_run = refl

-- The contract is at nonce 6.
nonce_run : get_tx_batch_nonce crates web3 77 5 78 ≡ ok 6
unfolding get_tx_batch_nonce
nonce_run = refl

submit_token_batches-Relays_example :
    Relays clarity abi crates ours
      (set 1)
      5
      true
      90
      6
      answers
      0
      batches
      (submit_token_batches clarity abi crates ours (set 1) 5 true web3 answers 5 batches)
submit_token_batches-Relays_example =
    submit_token_batches-Relays clarity abi crates ours (set 1) 5 true web3 answers 5 batches 90 6
      refl nonce_run
