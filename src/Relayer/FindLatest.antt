-- ===== src/Relayer/FindLatest.antt =====
-- relayer/src/find_latest_valset.rs: the validator set that the bridge holds, from its last event.
use near_aurora_bridge.Base.{
  ℕ, zero, suc, ◌-◌, Bool, true, false, ◌&&◌, Option, none, some, List, [], ◌∷◌, reverse, ltb, ◌==◌,
  if◌then◌else◌, rpc_error, Outcome, ok, err, panic, assert, or_err, ◌>>=◌, ◌>>◌,
}
use near_aurora_bridge.Types.{EthAddress, Uint256}
use near_aurora_bridge.Bytes.{Log, Reader}
use near_aurora_bridge.Valset.{Valset, ValsetMember}
use near_aurora_bridge.Events.{ValsetUpdatedEvent, valset_from_log}

-- What the nodes answer; `none` is an error. The logs are those of validator set updates in a range
-- of blocks, its ends included.
pub record ValsetLogs : Type 0 where
  pub eth_block_number : Option Uint256
  pub valset_logs : Uint256 → Uint256 → Option (List Log)
  pub get_valset : ℕ → Option (Option Valset)

-- `BLOCKS_TO_SEARCH`
abbrev pub search_step : ℕ
search_step = 5000

abbrev pub search_end : Uint256 → Uint256
search_end current_block = if ltb current_block search_step then 0 else current_block - search_step

-- `reverse()`, then the first.
abbrev pub first_of : List Log → Option Log
first_of [] = none
first_of (event ∷ events) = some event

abbrev pub newest_event : List Log → Option Log
newest_event all_valset_events = first_of (reverse all_valset_events)

abbrev pub valset_of_event : ValsetUpdatedEvent → Valset
valset_of_event event = record {
  nonce = event.valset_nonce;
  members = event.members;
  reward_amount = event.reward_amount;
  reward_token = event.reward_token;
}

-- The derived equality of members and of sets.
abbrev same_address : Option EthAddress → Option EthAddress → Bool
same_address none none = true
same_address none (some b) = false
same_address (some a) none = false
same_address (some a) (some b) = a == b

abbrev same_members : List ValsetMember → List ValsetMember → Bool
same_members [] [] = true
same_members [] (m ∷ ms) = false
same_members (m ∷ ms) [] = false
same_members (m ∷ ms) (n ∷ ns) =
    m.power == n.power && (same_address m.eth_address n.eth_address && same_members ms ns)

abbrev pub same_valset : Valset → Valset → Bool
same_valset a b =
    a.nonce == b.nonce
    && (same_members a.members b.members
        && (a.reward_amount == b.reward_amount && same_address a.reward_token b.reward_token))

-- The assertion alone; what else differs is only reported.
unfoldable pub check_if_valsets_differ : Option Valset → Valset → Outcome (Unit {0})
check_if_valsets_differ none ethereum_valset = ok tt
check_if_valsets_differ (some cosmos_valset) ethereum_valset =
    if same_valset cosmos_valset ethereum_valset
    then ok tt
    else assert (cosmos_valset.nonce == ethereum_valset.nonce)

module _ (d : Reader) (q : ValsetLogs) where
  unfoldable pub finish_valset : ValsetUpdatedEvent → Outcome Valset
  finish_valset event = do
    cosmos_chain_valset ← or_err (q.get_valset event.valset_nonce) rpc_error
    check_if_valsets_differ cosmos_chain_valset (valset_of_event event)
    ok (valset_of_event event)

  -- One range: an event that does not parse is only reported, and the search goes on.
  abbrev pub try_newest : Option Log → Option (Outcome Valset) → Option (Outcome Valset)
  try_newest none rest = rest
  try_newest (some log) rest = elim (valset_from_log d log) [
    | ok event ↦ some (finish_valset event)
    | err e ↦ rest
    | panic ↦ some panic
  ]

  -- The loop from a block down; `none` means that the fuel has run out.
  unfoldable pub find_loop : ℕ → Uint256 → Option (Outcome Valset)
  find_loop zero current_block = none
  find_loop (suc fuel) current_block =
      let rest = find_loop fuel (search_end current_block) in
      if current_block == 0
      then some panic
      else elim (q.valset_logs (search_end current_block) current_block) [
        | none ↦ some (err rpc_error)
        | some all_valset_events ↦ try_newest (newest_event all_valset_events) rest
      ]

  unfoldable pub find_latest_valset : ℕ → Option (Outcome Valset)
  find_latest_valset fuel = elim q.eth_block_number [
    | none ↦ some (err rpc_error)
    | some latest_block ↦ find_loop fuel latest_block
  ]
