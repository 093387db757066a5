-- ===== src/Startup.antt =====
-- The checks before the start in gravity_utils/src/connection_prep.rs.
use near_aurora_bridge.Base.{
  ℕ, Bool, true, false, not, ◌&&◌, ◌||◌, Option, none, some, List, [], ◌∷◌, ltb, ◌==◌,
  if◌then◌else◌, validation_error, unrecoverable_error, Outcome, ok, err, unwrap, ◌>>=◌, ◌>>◌,
}
pub mod Checks
pub mod Urls
pub mod Connections
pub mod Reached
pub mod Connected
mod Tests
mod ConnectTests
use near_aurora_bridge.Types.{EthAddress, Uint256}
use near_aurora_bridge.Oracle.{ChainStatus, moving, syncing, waiting_to_start}
use near_aurora_bridge.Cosmos.{Coin, Printer}
use near_aurora_bridge.Cosmos.Confirms.{ConfirmParser}
use near_aurora_bridge.Cosmos.Requests.{same_text}

-- The rounds of the loop, one for each answer, up to the first in which the chain moves; what is
-- left of the answers, or nothing if the wait goes on.
unfoldable pub wait_for_cosmos_node_ready :
    List (Option ChainStatus) → Option (List (Option ChainStatus))
wait_for_cosmos_node_ready [] = none
wait_for_cosmos_node_ready (some moving ∷ answers) = some answers
wait_for_cosmos_node_ready (some syncing ∷ answers) = wait_for_cosmos_node_ready answers
wait_for_cosmos_node_ready (some waiting_to_start ∷ answers) = wait_for_cosmos_node_ready answers
wait_for_cosmos_node_ready (none ∷ answers) = wait_for_cosmos_node_ready answers

-- The answers to the queries for delegate keys.
pub record KeysByEth : Type 0 where
  pub validator_address : List ℕ
  pub orchestrator_address : List ℕ

pub record KeysByOrchestrator : Type 0 where
  pub validator_address : List ℕ
  pub eth_address : List ℕ

pub record DelegateQueries : Type 0 where
  pub get_delegate_key_by_eth : List ℕ → Option KeysByEth
  pub get_delegate_key_by_orchestrator : List ℕ → Option KeysByOrchestrator

-- Both answers are there.
unfoldable pub compare_keys :
    ConfirmParser → EthAddress → ℕ → KeysByEth → KeysByOrchestrator → Outcome (Unit {0})
compare_keys r delegate_eth_address delegate_orchestrator_address e o = do
  req_delegate_orchestrator_address ← unwrap (r.parse_cosmos_address e.orchestrator_address)
  req_delegate_eth_address ← unwrap (r.parse_eth_address o.eth_address)
  if not (req_delegate_eth_address == delegate_eth_address)
        && not (req_delegate_orchestrator_address == delegate_orchestrator_address)
      then err unrecoverable_error
      else if not (req_delegate_eth_address == delegate_eth_address)
      then err unrecoverable_error
      else if not (req_delegate_orchestrator_address == delegate_orchestrator_address)
      then err unrecoverable_error
      else if not (same_text e.validator_address o.validator_address)
      then err unrecoverable_error
      else ok tt

unfoldable pub compare_answers :
    ConfirmParser
    → EthAddress
    → ℕ
    → Option KeysByEth
    → Option KeysByOrchestrator
    → Outcome (Unit {0})
compare_answers r eth orchestrator (some e) (some o) = compare_keys r eth orchestrator e o
compare_answers r eth orchestrator none (some o) = err unrecoverable_error
compare_answers r eth orchestrator (some e) none = err unrecoverable_error
compare_answers r eth orchestrator none none = err unrecoverable_error

unfoldable pub check_delegate_addresses :
    ConfirmParser → Printer → DelegateQueries → EthAddress → ℕ → List ℕ → Outcome (Unit {0})
check_delegate_addresses r d client delegate_eth_address delegate_orchestrator_address prefix = do
  bech32 ← unwrap (d.to_bech32 prefix delegate_orchestrator_address)
  compare_answers r delegate_eth_address delegate_orchestrator_address
      (client.get_delegate_key_by_eth (d.eth_address_to_string delegate_eth_address))
      (client.get_delegate_key_by_orchestrator bech32)

-- `contains` of a string
abbrev pub starts_with : List ℕ → List ℕ → Bool
starts_with text [] = true
starts_with [] (y ∷ ys) = false
starts_with (x ∷ xs) (y ∷ ys) = x == y && starts_with xs ys

abbrev pub contains : List ℕ → List ℕ → Bool
contains [] part = starts_with [] part
contains (x ∷ xs) part = starts_with (x ∷ xs) part || contains xs part

-- The balances are asked for until they come.
unfoldable pub check_for_fee : Coin → List Coin → Outcome (Unit {0})
check_for_fee fee [] = err unrecoverable_error
check_for_fee fee (balance ∷ balances) =
    if contains balance.denom fee.denom
    then if ltb balance.amount fee.amount then err validation_error else ok tt
    else check_for_fee fee balances

-- As is the balance in Ethereum.
unfoldable pub check_for_eth : Uint256 → Outcome (Unit {0})
check_for_eth balance = if balance == 0 then err validation_error else ok tt
