-- ===== src/Transfers/Tests.antt =====
-- A transfer that has to be approved first, and its event.
use near_aurora_bridge.Base.{
  ◌≡◌, refl, false, ◌&&◌, none, some, [], ◌∷◌, arith, leb, ◌==◌, if◌then◌else◌, validation_error,
  ok, err, u64_max,
}
use near_aurora_bridge.Bytes.BigEndian.{big_endian, big_endian-ReadsWords}
use near_aurora_bridge.Transfers.{
  nonce_option, gas_limit_option, send_to_cosmos_call, approval, call, Node, has_nonce,
  add_gas_limit, has_gas_limit, pad_destination, check_approved, submit_call, approve, send_deposit,
  send_to_cosmos,
}
use near_aurora_bridge.Bytes.Encoding.{be_bytes, words}
use near_aurora_bridge.Events.{deposit_from_log}
use near_aurora_bridge.Transfers.Destination.{deposit_from_log-pad_destination}
use near_aurora_bridge.Transfers.Sent.{InOrder, send_to_cosmos-InOrder}

-- The first test of the approval fails.
abbrev node : Node
node = record {
  check_erc20_approved = λ i. if i == 0 then none else some false;
  eth_get_transaction_count = some 41;
  approve_erc20_transfers = λ options. some 1;
  wait_for_transaction = λ t. some tt;
  encode_call = λ c. some [];
  send_transaction = λ p options. some 2;
}

transfer_run : send_to_cosmos node (some 3) 5 100 [] [] ≡ (
  ok 2,
  approval 5 (nonce_option 41 ∷ [])
      ∷ call
          (send_to_cosmos_call 5 (pad_destination []) 100)
          (gas_limit_option 100000 ∷ nonce_option 42 ∷ [])
      ∷ [],
)
unfolding send_to_cosmos approve send_deposit submit_call add_gas_limit has_gas_limit has_nonce
    check_approved
transfer_run = refl

no_nonce : has_nonce [] ≡ false
unfolding has_nonce
no_nonce = refl

not_approved : check_approved node.check_erc20_approved 3 0 ≡ some false
unfolding check_approved
not_approved = refl

send_to_cosmos-InOrder_example :
    InOrder node (some 3) 5 100 [] [] (send_to_cosmos node (some 3) 5 100 [] []).1
send_to_cosmos-InOrder_example =
    send_to_cosmos-InOrder node (some 3) 5 100 [] [] no_nonce not_approved

deposit_from_log-pad_destination_example :
    deposit_from_log big_endian (record {
      topics = be_bytes 32 9 ∷ be_bytes 32 5 ∷ be_bytes 32 6 ∷ pad_destination (be_bytes 20 7) ∷ [];
      bytes = words (1000 ∷ 4 ∷ []);
      block_number = some 100;
    })
    ≡ (if leb 4 u64_max && leb 100 u64_max
        then ok (record {
          erc20 = 5;
          sender = 6;
          destination = 7;
          amount = 1000;
          event_nonce = 4;
          block_height = 100;
        })
        else err validation_error)
unfolding be_bytes
deposit_from_log-pad_destination_example =
    deposit_from_log-pad_destination big_endian big_endian-ReadsWords 9 5 6 7 1000 4 100
      (be_bytes 20 7) (omega arith) (omega arith) refl refl (omega arith) (omega arith)
