-- ===== src/Resync.antt =====
-- orchestrator/src/oracle_resync.rs: the search for the block of the last event that was relayed.
pub mod Soundness
pub mod Termination
mod Tests
use near_aurora_bridge.Base.{
  ℕ, zero, suc, ◌+◌, ◌-◌, true, false, ◌&&◌, ◌||◌, Option, none, some, List, [], ◌∷◌, reverse, ltb,
  ◌==◌, if◌then◌else◌, is_some, Outcome, ok, err, panic,
}
use near_aurora_bridge.Types.{Uint256}
use near_aurora_bridge.Bytes.{Log, Reader}
use near_aurora_bridge.Events.{
  ValsetUpdatedEvent, valset_from_log, batch_from_log, deposit_from_log, deploy_from_log,
  logic_call_from_log,
}
use near_aurora_bridge.Oracle.{
  EventSignature, transaction_batch_executed, sent_to_cosmos, erc20_deployed, logic_call,
  valset_updated,
}

abbrev pub blocks_to_search : ℕ
blocks_to_search = 5000

-- What the nodes answer: the two values that are asked for until an answer comes, and the logs of a
-- range of blocks at each round of the loop, where `none` is an error.
pub record Chain : Type 0 where
  pub latest_block : Uint256
  pub last_event_nonce : ℕ
  pub logs : ℕ → EventSignature → Uint256 → Uint256 → Option (List Log)

-- How the search through some logs ends: with a `return`, at the end of the logs, or in a panic.
pub data Search : Type 0 where
  found : Uint256 → Search
  missing : Search
  panicked : Search

abbrev pub or_else : Search → Search → Search
or_else (found b) s = found b
or_else missing s = s
or_else panicked s = panicked

-- One event: `upcast(event_nonce) == last_event_nonce && event.block_number.is_some()`.
abbrev pub match_event : ℕ → ℕ → Option Uint256 → Search
match_event event_nonce last_event_nonce none = missing
match_event event_nonce last_event_nonce (some b) =
    if event_nonce == last_event_nonce then found b else missing

module _ {E : Type 0} (from_log : Log → Outcome E) (nonce_of : E → ℕ) (last_event_nonce : ℕ) where
  -- A log that does not parse is only reported.
  abbrev pub search_log : Log → Search
  search_log event = elim (from_log event) [
    | ok e ↦ match_event (nonce_of e) last_event_nonce event.block_number
    | err x ↦ missing
    | panic ↦ panicked
  ]

  unfoldable pub search_logs : List Log → Search
  search_logs [] = missing
  search_logs (event ∷ events) = let rest = search_logs events in or_else (search_log event) rest

-- `return event.block_number.unwrap()`
abbrev pub found_or_panic : Option Uint256 → Search
found_or_panic none = panicked
found_or_panic (some b) = found b

unfoldable pub match_valset : ValsetUpdatedEvent → ℕ → Option Uint256 → Search
match_valset valset last_event_nonce block_number =
    let bootstrapping = valset.valset_nonce == 0 && last_event_nonce == 1 in
    let common_case = valset.event_nonce == last_event_nonce && is_some block_number in
    if common_case || bootstrapping
    then found_or_panic block_number
    else if valset.valset_nonce == 0 && ltb 1 last_event_nonce
    then panicked
    else missing

abbrev pub search_valset : Reader → ℕ → Log → Search
search_valset d last_event_nonce event = elim (valset_from_log d event) [
  | ok valset ↦ match_valset valset last_event_nonce event.block_number
  | err x ↦ missing
  | panic ↦ panicked
]

unfoldable pub search_valsets : Reader → ℕ → List Log → Search
search_valsets d last_event_nonce [] = missing
search_valsets d last_event_nonce (event ∷ events) =
    let rest = search_valsets d last_event_nonce events in
    or_else (search_valset d last_event_nonce event) rest

-- The logs of the five kinds in one range.
pub record RangeLogs : Type 0 where
  pub batch_events : List Log
  pub send_to_cosmos_events : List Log
  pub erc20_deployed_events : List Log
  pub logic_call_executed_events : List Log
  pub valset_events : List Log

abbrev pub range_logs : (EventSignature → Option (List Log)) → Option RangeLogs
range_logs reply = elim (reply transaction_batch_executed) [
  | none ↦ none
  | some batch ↦ elim (reply sent_to_cosmos) [
    | none ↦ none
    | some send ↦ elim (reply erc20_deployed) [
      | none ↦ none
      | some deploy ↦ elim (reply logic_call) [
        | none ↦ none
        | some call ↦ elim (reply valset_updated) [
          | none ↦ none
          | some valset ↦ some (record {
            batch_events = batch;
            send_to_cosmos_events = send;
            erc20_deployed_events = deploy;
            logic_call_executed_events = call;
            valset_events = valset;
          })
        ]
      ]
    ]
  ]
]

-- The five loops over the logs, the last one from the latest valset update back.
unfoldable pub search_range : Reader → ℕ → RangeLogs → Search
search_range d last_event_nonce r =
    or_else (search_logs (batch_from_log d) (λ e. e.event_nonce) last_event_nonce r.batch_events) (
      or_else
        (search_logs (deposit_from_log d) (λ e. e.event_nonce) last_event_nonce
          r.send_to_cosmos_events)
        (or_else
          (search_logs (deploy_from_log d) (λ e. e.event_nonce) last_event_nonce
            r.erc20_deployed_events)
          (or_else
            (search_logs logic_call_from_log (λ e. e.event_nonce) last_event_nonce
              r.logic_call_executed_events)
            (search_valsets d last_event_nonce (reverse r.valset_events)))))

-- The lower end of a range. The subtraction does not pass below zero.
abbrev pub end_search : Uint256 → Uint256
end_search current_block =
    if ltb current_block blocks_to_search then 0 else current_block - blocks_to_search

-- The `while` loop; each round takes one unit of fuel. `none` means that the fuel is used up.
unfoldable pub resync_loop :
    Reader
    → (ℕ → EventSignature → Uint256 → Uint256 → Option (List Log))
    → ℕ
    → ℕ
    → ℕ
    → Uint256
    → Option (Outcome Uint256)
resync_loop d logs last_event_nonce zero attempt current_block = none
resync_loop d logs last_event_nonce (suc fuel) attempt current_block = elim (ltb 0 current_block) [
  | false ↦ some panic
  | true ↦ elim (range_logs (λ s. logs attempt s (end_search current_block) current_block)) [
    | none ↦ resync_loop d logs last_event_nonce fuel (attempt + 1) current_block
    | some r ↦ elim (search_range d last_event_nonce r) [
      | found b ↦ some (ok b)
      | panicked ↦ some panic
      | missing ↦ resync_loop d logs last_event_nonce fuel (attempt + 1) (end_search current_block)
    ]
  ]
]

-- Nonce zero stands for an oracle that has relayed nothing, which looks for event one.
abbrev pub first_nonce : ℕ → ℕ
first_nonce n = if n == 0 then 1 else n

unfoldable pub get_last_checked_block : Reader → Chain → ℕ → Option (Outcome Uint256)
get_last_checked_block d c fuel =
    resync_loop d c.logs (first_nonce c.last_event_nonce) fuel 0 c.latest_block
