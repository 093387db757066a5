-- ===== src/Startup/Tests.antt =====
-- Runs of the checks before the start.
use near_aurora_bridge.Base.{ℕ, ◌≡◌, refl, ◌↔◌, Option, none, some, List, [], ◌∷◌, arith, ok}
use near_aurora_bridge.Cosmos.{Printer}
use near_aurora_bridge.Cosmos.Confirms.{ConfirmParser}
use near_aurora_bridge.Startup.{
  DelegateQueries, check_delegate_addresses, compare_answers, compare_keys, check_for_fee,
  wait_for_cosmos_node_ready,
}
use near_aurora_bridge.Oracle.{moving, syncing}
use near_aurora_bridge.Startup.Checks.{
  KeysFound, check_delegate_addresses-KeysMatch, check_for_fee_substring,
}

-- The fee is in "ab", and the balance in "cabd".
fee_run :
    check_for_fee
      (record { amount = 2; denom = 97 ∷ 98 ∷ [] })
      (record { amount = 5; denom = 99 ∷ 97 ∷ 98 ∷ 100 ∷ [] } ∷ [])
    ≡ ok tt
fee_run =
    check_for_fee_substring (record { amount = 2; denom = 97 ∷ 98 ∷ [] }) (99 ∷ []) (100 ∷ []) 5 []
      (omega arith)

wait_run :
    wait_for_cosmos_node_ready (none ∷ some syncing ∷ some moving ∷ none ∷ []) ≡ some (none ∷ [])
unfolding wait_for_cosmos_node_ready
wait_run = refl

abbrev digit : List ℕ → Option ℕ
digit [] = none
digit (a ∷ text) = some a

abbrev parser : ConfirmParser
parser = record {
  parse_cosmos_address = digit;
  parse_eth_address = digit;
  parse_signature = λ s. none;
  hex_str_to_bytes = λ b. some b;
}

abbrev printer : Printer
printer = record {
  eth_address_to_string = λ a. a ∷ [];
  cosmos_address_to_string = λ a. a ∷ [];
  uint256_to_string = λ n. n ∷ [];
  to_bech32 = λ prefix a. some (a ∷ []);
  bytes_to_hex_str = λ b. b;
  signature_to_bytes = λ s. s.v ∷ s.r ∷ s.s ∷ [];
}

abbrev queries : DelegateQueries
queries = record {
  get_delegate_key_by_eth =
      λ a. some (record { validator_address = 1 ∷ []; orchestrator_address = 7 ∷ [] });
  get_delegate_key_by_orchestrator =
      λ a. some (record { validator_address = 1 ∷ []; eth_address = 11 ∷ [] });
}

delegates_run : check_delegate_addresses parser printer queries 11 7 [] ≡ ok tt
unfolding check_delegate_addresses compare_answers compare_keys
delegates_run = refl

check_delegate_addresses-KeysMatch_example :
    (check_delegate_addresses parser printer queries 11 7 [] ≡ ok tt)
    ↔ KeysFound parser printer queries 11 7 []
check_delegate_addresses-KeysMatch_example =
    check_delegate_addresses-KeysMatch parser printer queries 11 7 []
