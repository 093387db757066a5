-- ===== src/Oracle.antt =====
-- orchestrator/src/ethereum_event_watcher.rs, and `eth_oracle_main_loop` of
-- orchestrator/src/main_loop.rs.
pub mod Sending
pub mod Coverage
mod Tests
use near_aurora_bridge.Base.{
  ℕ, Bool, true, false, not, ◌&&◌, ◌||◌, Option, none, some, List, [], ◌∷◌, ◌==◌, if◌then◌else◌,
  is_empty, validation_error, rpc_error, Outcome, ok, err, panic, reject_if, or_err, ◌>>=◌, ◌>>◌,
}
use near_aurora_bridge.Types.{Uint256}
use near_aurora_bridge.Bytes.{Log, Reader}
use near_aurora_bridge.Events.{
  ValsetUpdatedEvent, TransactionBatchExecutedEvent, SendToCosmosEvent, Erc20DeployedEvent,
  LogicCallExecutedEvent, valset_from_logs, batch_from_logs, deposit_from_logs, deploy_from_logs,
  logic_call_from_logs, filter_valsets, filter_batches, filter_deposits, filter_deploys,
  filter_logic_calls,
}

-- The five constants of gravity_utils/src/types/event_signatures.rs.
pub data EventSignature : Type 0 where
  transaction_batch_executed sent_to_cosmos erc20_deployed logic_call valset_updated :
      EventSignature

-- `Uint256` subtraction, which num256 provides.
pub record Num256 : Type 0 where
  pub sub : Uint256 → Uint256 → Outcome Uint256

-- What the two nodes answer while one call of `check_for_events` runs; `none` is an error. The block
-- number and the network's version are asked for until an answer comes. `claims_accepted` is the
-- outcome of `send_ethereum_claims`, which panics where a destination has no text or a number does
-- not fit; the line of the log before it panics on the text of the first deposit only where it does.
pub record World : Type 0 where
  pub block_number : Uint256
  pub net_version : ℕ
  pub logs : EventSignature → Uint256 → Uint256 → Option (List Log)
  pub last_event_nonce : Option ℕ
  pub claims_accepted : Outcome Bool
  pub new_event_nonce : Option ℕ

-- The arguments of `send_ethereum_claims`.
pub record Claims : Type 0 where
  pub deposits : List SendToCosmosEvent
  pub withdraws : List TransactionBatchExecutedEvent
  pub erc20_deploys : List Erc20DeployedEvent
  pub logic_calls : List LogicCallExecutedEvent
  pub valsets : List ValsetUpdatedEvent

unfoldable pub get_block_delay : ℕ → Uint256
get_block_delay net_version =
    if net_version == 1 || (net_version == 3 || (net_version == 6 || net_version == 7))
    then 6
    else if net_version == 2018 || (net_version == 15 || net_version == 31337)
    then 0
    else if net_version == 4 || net_version == 5
    then 10
    else 6

-- The events of all kinds in a range of blocks, parsed.
unfoldable pub parse_events : Reader → World → Uint256 → Uint256 → Outcome Claims
parse_events d w starting_block latest_block = do
  deposit_logs ← or_err (w.logs sent_to_cosmos starting_block latest_block) rpc_error
  batch_logs ← or_err (w.logs transaction_batch_executed starting_block latest_block) rpc_error
  valset_logs ← or_err (w.logs valset_updated starting_block latest_block) rpc_error
  deploy_logs ← or_err (w.logs erc20_deployed starting_block latest_block) rpc_error
  call_logs ← or_err (w.logs logic_call starting_block latest_block) rpc_error
  valsets ← valset_from_logs d valset_logs
  withdraws ← batch_from_logs d batch_logs
  deposits ← deposit_from_logs d deposit_logs
  erc20_deploys ← deploy_from_logs d deploy_logs
  logic_calls ← logic_call_from_logs call_logs
  ok (record {
    deposits = deposits;
    withdraws = withdraws;
    erc20_deploys = erc20_deploys;
    logic_calls = logic_calls;
    valsets = valsets;
  })

-- The five calls of `filter_by_event_nonce`.
unfoldable pub filter_claims : ℕ → Claims → Claims
filter_claims last_event_nonce c = record {
  deposits = filter_deposits last_event_nonce c.deposits;
  withdraws = filter_batches last_event_nonce c.withdraws;
  erc20_deploys = filter_deploys last_event_nonce c.erc20_deploys;
  logic_calls = filter_logic_calls last_event_nonce c.logic_calls;
  valsets = filter_valsets last_event_nonce c.valsets;
}

unfoldable pub no_claims : Claims → Bool
no_claims c =
    is_empty c.deposits
    && (is_empty c.withdraws
        && (is_empty c.erc20_deploys && (is_empty c.logic_calls && is_empty c.valsets)))

-- After the claims are sent, the nonce on Cosmos must have moved.
unfoldable pub confirm_claims : World → ℕ → Uint256 → Outcome Uint256
confirm_claims w last_event_nonce latest_block = do
  accepted ← w.claims_accepted
  reject_if (not accepted) rpc_error
  new_event_nonce ← or_err w.new_event_nonce rpc_error
  if new_event_nonce == last_event_nonce then err validation_error else ok latest_block

unfoldable pub send_claims : World → ℕ → Uint256 → Claims → Outcome Uint256 × Option Claims
send_claims w last_event_nonce latest_block claims =
    if no_claims claims
    then (ok latest_block, none)
    else (confirm_claims w last_event_nonce latest_block, some claims)

-- A call that has ended before anything was sent.
abbrev pub unsent : Outcome (Uint256 × ℕ × Claims) → World → Outcome Uint256 × Option Claims
unsent (ok (latest_block, last_event_nonce, claims)) w =
    send_claims w last_event_nonce latest_block claims
unsent (err e) w = (err e, none)
unsent panic w = (panic, none)

unfoldable pub gather : Reader → Num256 → World → Uint256 → Outcome (Uint256 × ℕ × Claims)
gather d n w starting_block = do
  latest_block ← n.sub w.block_number (get_block_delay w.net_version)
  events ← parse_events d w starting_block latest_block
  last_event_nonce ← or_err w.last_event_nonce rpc_error
  ok (latest_block, last_event_nonce, filter_claims last_event_nonce events)

-- The result, and the claims that were sent to Cosmos.
unfoldable pub check_for_events :
    Reader → Num256 → World → Uint256 → Outcome Uint256 × Option Claims
check_for_events d n w starting_block = unsent (gather d n w starting_block) w

pub data ChainStatus : Type 0 where
  moving syncing waiting_to_start : ChainStatus

-- One round of the main loop: the answers of the two nodes, and then those to `check_for_events`.
pub record Round : Type 0 where
  pub latest_eth_block : Option Uint256
  pub latest_cosmos_block : Option ChainStatus
  pub world : World

abbrev pub nodes_ready : Option Uint256 → Option ChainStatus → Bool
nodes_ready (some b) (some moving) = true
nodes_ready _ _ = false

-- An error of `check_for_events` is logged, and the block stays. A panic ends the program.
abbrev pub next_block : Uint256 → Outcome Uint256 → Outcome Uint256
next_block last_checked_block (ok new_block) = ok new_block
next_block last_checked_block (err e) = ok last_checked_block
next_block last_checked_block panic = panic

unfoldable pub oracle_round : Reader → Num256 → Round → Uint256 → Outcome Uint256
oracle_round d n r last_checked_block =
    if nodes_ready r.latest_eth_block r.latest_cosmos_block
    then next_block last_checked_block (check_for_events d n r.world last_checked_block).0
    else ok last_checked_block

unfoldable pub oracle_loop : Reader → Num256 → List Round → Uint256 → Outcome Uint256
oracle_loop d n [] last_checked_block = ok last_checked_block
oracle_loop d n (r ∷ rs) last_checked_block = do
  b ← oracle_round d n r last_checked_block
  oracle_loop d n rs b
