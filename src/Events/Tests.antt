-- ===== src/Events/Tests.antt =====
-- Logs of the contract's layout, decoded.
use near_aurora_bridge.Base.{
  ℕ, ◌≡◌, refl, ◌&&◌, none, some, List, [], ◌∷◌, map, arith, leb, if◌then◌else◌, validation_error,
  ok, err, panic, slice, u64_max,
}
use near_aurora_bridge.Bytes.{Log, from_utf8, slice_from}
use near_aurora_bridge.Bytes.Encoding.{be_bytes, words}
use near_aurora_bridge.Bytes.BigEndian.{big_endian, big_endian-ReadsWords}
use near_aurora_bridge.Events.{
  decode_data_bytes, TransactionBatchExecutedEvent, batch_from_log, deposit_from_log,
  deploy_from_log,
}
use near_aurora_bridge.Events.ValsetRoundTrip.{
  encode_data, to_member, decode_data_bytes-encode_data,
}
use near_aurora_bridge.Events.DeployRoundTrip.{encode_deploy, deploy_from_log-encode_deploy}
use near_aurora_bridge.Events.Nonces.{batch_from_log-eq, deposit_from_log-eq}

abbrev members : List (ℕ × ℕ)
members = (1431655765, 0x1bb537) ∷ (1431655764, 0x906313) ∷ []

-- The powers' length is wrong, and the members are decoded all the same.
decode_data_bytes-encode_data_example :
    decode_data_bytes big_endian (encode_data 1 0 0 members 77)
    ≡ ok (record {
      event_nonce = 1;
      reward_amount = 0;
      reward_token = none;
      members = map to_member members;
    })
decode_data_bytes-encode_data_example =
    decode_data_bytes-encode_data big_endian big_endian-ReadsWords 1 0 0 members 77 (omega arith)
      (omega arith) (omega arith) (omega arith) (omega arith) (omega arith)

decode_truncated : decode_data_bytes big_endian (words (1 ∷ 0 ∷ 0 ∷ [])) ≡ panic
unfolding decode_data_bytes slice slice_from be_bytes
decode_truncated = refl

abbrev denom : List ℕ
denom = b'u' ∷ b'a' ∷ []

deploy_from_log-encode_deploy_example :
    deploy_from_log big_endian (record {
      topics = be_bytes 32 9 ∷ be_bytes 32 5 ∷ [];
      bytes = encode_deploy (0 ∷ 0 ∷ 0 ∷ []) 6 4 denom denom [];
      block_number = some 100;
    })
    ≡ ok (record {
      cosmos_denom = denom;
      erc20_address = 5;
      name = denom;
      symbol = [];
      decimals = 6;
      event_nonce = 4;
      block_height = 100;
    })
unfolding from_utf8
deploy_from_log-encode_deploy_example =
    deploy_from_log-encode_deploy big_endian big_endian-ReadsWords 0 0 0 6 4 denom denom []
      (omega arith) (omega arith) (omega arith) (omega arith) (omega arith) refl refl refl 9 5 100
      (omega arith)

abbrev batch_log : Log
batch_log = record {
  topics = be_bytes 32 9 ∷ be_bytes 32 3 ∷ be_bytes 32 5 ∷ [];
  bytes = be_bytes 32 4;
  block_number = some 100;
}

abbrev batch_event : TransactionBatchExecutedEvent
batch_event = record { batch_nonce = 3; block_height = 100; erc20 = 5; event_nonce = 4 }

batch_from_log-eq_example : batch_from_log big_endian batch_log ≡ (
    if leb 4 u64_max && (leb 3 u64_max && leb 100 u64_max)
    then ok batch_event
    else err validation_error)
batch_from_log-eq_example =
    batch_from_log-eq big_endian big_endian-ReadsWords 9 3 5 4 100 (omega arith) (omega arith)
      (omega arith)

deposit_from_log-eq_example :
    deposit_from_log big_endian (record {
      topics = be_bytes 32 9 ∷ be_bytes 32 5 ∷ be_bytes 32 6 ∷ be_bytes 32 7 ∷ [];
      bytes = words (1000 ∷ 4 ∷ []);
      block_number = some 100;
    })
    ≡ (if leb 4 u64_max && leb 100 u64_max
        then ok (record {
          erc20 = 5;
          sender = 6;
          destination = 7;
          amount = 1000;
          event_nonce = 4;
          block_height = 100;
        })
        else err validation_error)
unfolding be_bytes
deposit_from_log-eq_example =
    deposit_from_log-eq big_endian big_endian-ReadsWords 9 5 6 7 7 1000 4 100 (omega arith)
      (omega arith) refl (omega arith) (omega arith)
