-- ===== src/Relayer/LastTests.antt =====
-- A search for the last validator set over two ranges of blocks, of which the upper one is empty.
use near_aurora_bridge.Base.{ℕ, ◌≡◌, refl, inl, none, some, List, [], ◌∷◌, map, arith, ok}
use near_aurora_bridge.Bytes.{Log}
use near_aurora_bridge.Bytes.Encoding.{be_bytes}
use near_aurora_bridge.Bytes.BigEndian.{big_endian, big_endian-ReadsWords}
use near_aurora_bridge.Events.{ValsetUpdatedEvent, valset_from_log, decode_data_bytes}
use near_aurora_bridge.Events.ValsetRoundTrip.{
  encode_data, to_member, decode_data_bytes-encode_data,
}
use near_aurora_bridge.Relayer.FindLatest.{ValsetLogs, valset_of_event, find_latest_valset}
use near_aurora_bridge.Relayer.Last.{
  within, CosmosAnswers, EthereumAnswers, find_latest_valset-last,
}

abbrev members : List (ℕ × ℕ)
members = (4294967295, 11) ∷ []

abbrev update_log : ℕ → ℕ → Log
update_log n b = record {
  topics = be_bytes 32 1 ∷ be_bytes 32 n ∷ [];
  bytes = encode_data 8 0 0 members 1;
  block_number = some b;
}

abbrev update : ℕ → ℕ → ValsetUpdatedEvent
update n b = record {
  valset_nonce = n;
  event_nonce = 8;
  block_height = b;
  reward_amount = 0;
  reward_token = none;
  members = map to_member members;
}

data_run :
    decode_data_bytes big_endian (encode_data 8 0 0 members 1)
    ≡ ok (record {
      event_nonce = 8;
      reward_amount = 0;
      reward_token = none;
      members = map to_member members;
    })
data_run =
    decode_data_bytes-encode_data big_endian big_endian-ReadsWords 8 0 0 members 1 (omega arith)
      (omega arith) (omega arith) (omega arith) (omega arith) (omega arith)

parse_run : valset_from_log big_endian (update_log 2 1700) ≡ ok (update 2 1700)
unfolding valset_from_log be_bytes
parse_run = rw data_run refl

abbrev chain : List (ℕ × Log)
chain = (900, update_log 1 900) ∷ (1700, update_log 2 1700) ∷ []

abbrev queries : ValsetLogs
queries = record {
  eth_block_number = some 9000;
  valset_logs = λ from to. some (within from to chain);
  get_valset = λ n. some none;
}

ethereum : EthereumAnswers big_endian queries chain
unfolding EthereumAnswers
ethereum from to = refl

cosmos : CosmosAnswers big_endian queries chain
unfolding CosmosAnswers
cosmos n = inl refl

find_latest_valset-last_example :
    find_latest_valset big_endian queries 3 ≡ some (ok (valset_of_event (update 2 1700)))
find_latest_valset-last_example =
    find_latest_valset-last big_endian queries chain 9000 3 (update_log 2 1700) (update 2 1700) refl
      ethereum cosmos ((omega arith, tt), (tt, tt)) (omega arith) refl parse_run (omega arith)
