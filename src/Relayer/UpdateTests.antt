-- ===== src/Relayer/UpdateTests.antt =====
-- A run of `relay_valsets` on the node that knows three validator sets: the second is relayed.
use near_aurora_bridge.Base.{
  ℕ, ◌*◌, ◌<◌, ◌≡◌, refl, false, some, List, [], ◌∷◌, arith, ok, >>=-eq-ok,
}
use near_aurora_bridge.Valset.{Valset, filter_empty_addresses}
use near_aurora_bridge.Confirm.{ValsetConfirmResponse, valset_confirm, get_hashmap}
use near_aurora_bridge.Float.{gravity_power_to_percent, round24}
use near_aurora_bridge.Signing.{
  order_sigs, get_signature_status, status_loop, add_member, to_arrays,
}
use near_aurora_bridge.Messages.{encode_valset_confirm_hashed}
use near_aurora_bridge.Ethereum.{Crates, Transaction, get_valset_nonce, encode_valset_struct}
use near_aurora_bridge.Ethereum.ValsetUpdate.{
  encode_valset_update_payload, estimate_valset_cost, prepare_valset, await_valset,
  send_eth_valset_update,
}
use near_aurora_bridge.Relayer.Valsets.{search_down, find_latest_valid_valset}
use near_aurora_bridge.Relayer.Newest.{Submittable, NoneAbove}
use near_aurora_bridge.Relayer.ValsetRelay.{
  decide_valset, relay_valid_valset, relay_found, relay_valsets,
}
use near_aurora_bridge.Relayer.Update.{
  Replaces, Encodable, relay_valsets-newest, relay_valsets-sends,
}
use near_aurora_bridge.Relayer.Tests.{clarity, abi, set, confirms, queries, honest}
use near_aurora_bridge.Relayer.SubmitTests.{ours, transaction, web3, answers}

-- The contract is at nonce 1.
abbrev crates : Crates
crates = record {
  encode_call = λ c args. some [];
  from_bytes_be = λ bytes. 1;
  mul = λ a b. ok (a * b);
}

relay_run :
    (relay_valsets clarity abi crates ours 5 false
      (set 1)
      queries
      (answers 0)
      (some (set 3 ∷ []))).1
    ≡ some transaction
unfolding relay_valsets relay_found relay_valid_valset decide_valset estimate_valset_cost
    send_eth_valset_update prepare_valset await_valset encode_valset_update_payload get_valset_nonce
    encode_valset_struct filter_empty_addresses find_latest_valid_valset search_down order_sigs
    gravity_power_to_percent round24 get_hashmap get_signature_status status_loop add_member
    to_arrays
relay_run = refl

relay_valsets-newest_example :
    (n : ℕ) × (v : Valset) × (cs : List ValsetConfirmResponse) × Submittable clarity abi queries []
      (set 1)
      n
      v
      cs
    × NoneAbove clarity abi queries [] (set 1) n 3
    × (1 < v.nonce)
    × Replaces clarity abi crates ours 5 false (set 1) web3 v cs transaction
relay_valsets-newest_example =
    relay_valsets-newest clarity abi crates ours 5 false (set 1) queries (answers 0) (set 3) []
      transaction honest relay_run

nonce_run : get_valset_nonce crates web3 77 78 ≡ ok 1
unfolding get_valset_nonce
nonce_run = refl

-- A set that passes the test can be encoded.
encodes :
    (m : ℕ) (w : Valset) (ds : List ValsetConfirmResponse)
    → Submittable clarity abi queries [] (set 1) m w ds
    → Encodable clarity abi crates ours 5 false (set 1) web3 w ds
unfolding Submittable Encodable estimate_valset_cost encode_valset_update_payload
encodes m w ds (ev, ec, passes) =
    let (sigs, es, _) =
      >>=-eq-ok (order_sigs clarity (encode_valset_confirm_hashed abi [] w) (set 1) ds) _ passes in
    (record { gas = 1; gas_price = 2 }, 2, [], rw es refl, refl, omega arith, rw es refl)

second : Submittable clarity abi queries [] (set 1) 2 (set 2) (confirms 2)
unfolding Submittable order_sigs gravity_power_to_percent round24 get_hashmap get_signature_status
    status_loop add_member
second = (refl, refl, refl)

relay_valsets-sends_example :
    (t : Transaction) × ((relay_valsets clarity abi crates ours 5 false
        (set 1)
        queries
        (answers 0)
        (some (set 3 ∷ []))).1
      ≡ some t)
relay_valsets-sends_example =
    relay_valsets-sends clarity abi crates ours 5 false (set 1) queries (answers 0) (set 3) [] 2
      (set 2) (confirms 2) honest refl nonce_run encodes second (omega arith) (omega arith)
