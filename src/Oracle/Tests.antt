-- ===== src/Oracle/Tests.antt =====
-- One round of the oracle over a node that has one deposit.
use near_aurora_bridge.Base.{
  ℕ, ◌-◌, ◌≡◌, refl, ap, ◌≢◌, true, Option, none, some, List, [], ◌∷◌, arith, ltb, if◌then◌else◌,
  ok, panic, slice, try_map,
}
use near_aurora_bridge.Bytes.{Log, slice_from}
use near_aurora_bridge.Bytes.Encoding.{be_bytes, words}
use near_aurora_bridge.Bytes.BigEndian.{big_endian}
use near_aurora_bridge.Events.{
  SendToCosmosEvent, valset_from_logs, batch_from_logs, deposit_from_logs, deploy_from_logs,
  logic_call_from_logs, deposit_from_log, filter_valsets, filter_batches, filter_deposits,
  filter_deploys, filter_logic_calls, filter_by_nonce,
}
use near_aurora_bridge.Types.{Uint256}
use near_aurora_bridge.Oracle.{
  EventSignature, sent_to_cosmos, logic_call, Num256, World, Claims, get_block_delay, parse_events,
  filter_claims, no_claims, confirm_claims, send_claims, gather, check_for_events, Round, moving,
  syncing, oracle_round, oracle_loop,
}
use near_aurora_bridge.Oracle.Sending.{
  check_for_events_ok, check_for_events_logic_call, check_for_events_no_replay, IsLater, Handled,
  later_claims,
}
use near_aurora_bridge.Oracle.Coverage.{Checked, oracle_loop_covers}

-- A subtraction that panics below zero.
abbrev num256 : Num256
num256 = record { sub = λ a b. if ltb a b then panic else ok (a - b) }

abbrev deposit_log : Log
deposit_log = record {
  topics = be_bytes 32 9 ∷ be_bytes 32 5 ∷ be_bytes 32 6 ∷ be_bytes 32 7 ∷ [];
  bytes = words (1000 ∷ 4 ∷ []);
  block_number = some 95;
}

abbrev deposit : SendToCosmosEvent
deposit = record {
  erc20 = 5;
  sender = 6;
  destination = 7;
  amount = 1000;
  event_nonce = 4;
  block_height = 95;
}

abbrev reply : List Log → EventSignature → ℕ → ℕ → Option (List Log)
reply calls sent_to_cosmos from to = some (deposit_log ∷ [])
reply calls logic_call from to = some calls
reply calls s from to = some []

abbrev world : List Log → World
world calls = record {
  block_number = 106;
  net_version = 1;
  logs = reply calls;
  last_event_nonce = some 3;
  claims_accepted = ok true;
  new_event_nonce = some 4;
}

abbrev claims : Claims
claims = record {
  deposits = deposit ∷ [];
  withdraws = [];
  erc20_deploys = [];
  logic_calls = [];
  valsets = [];
}

run : check_for_events big_endian num256 (world []) 90 ≡ (ok 100, some claims)
unfolding check_for_events gather get_block_delay parse_events filter_claims no_claims send_claims
    confirm_claims try_map valset_from_logs batch_from_logs deposit_from_logs deploy_from_logs
    logic_call_from_logs deposit_from_log filter_valsets filter_batches filter_deposits
    filter_deploys filter_logic_calls filter_by_nonce slice slice_from be_bytes
run = refl

check_for_events_ok_example :
    (num256.sub 106 (get_block_delay 1) ≡ ok 100)
    × ((events : Claims) × (last : ℕ) × (parse_events big_endian (world []) 90 100 ≡ ok events)
        × ((world []).last_event_nonce ≡ some last)
        × Handled
            (world [])
            last
            (later_claims last events)
            (check_for_events big_endian num256 (world []) 90).1)
check_for_events_ok_example =
    check_for_events_ok big_endian num256 (world []) 90 100 (ap (λ r. r.0) run)

check_for_events_no_replay_example : IsLater 3 claims
check_for_events_no_replay_example =
    check_for_events_no_replay big_endian num256 (world []) 90 3 claims refl (ap (λ r. r.1) run)

check_for_events_logic_call_example :
    ((b : Uint256) → (check_for_events big_endian num256 (world (deposit_log ∷ [])) 90).0 ≢ ok b)
    × ((check_for_events big_endian num256 (world (deposit_log ∷ [])) 90).1 ≡ none)
unfolding get_block_delay
check_for_events_logic_call_example =
    check_for_events_logic_call big_endian num256 (world (deposit_log ∷ [])) 90 100 deposit_log []
      refl refl

abbrev rounds : List Round
rounds =
    record { latest_eth_block = some 106; latest_cosmos_block = some syncing; world = world [] }
    ∷ record { latest_eth_block = some 106; latest_cosmos_block = some moving; world = world [] }
    ∷ []

rounds_run : oracle_loop big_endian num256 rounds 90 ≡ ok 100
unfolding oracle_loop oracle_round
rounds_run = rw run

oracle_loop_covers_example : Checked big_endian num256 95 rounds 90
oracle_loop_covers_example =
    oracle_loop_covers big_endian num256 rounds 90 100 rounds_run 95 (omega arith) (omega arith)
