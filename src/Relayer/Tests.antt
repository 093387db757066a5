-- ===== src/Relayer/Tests.antt =====
-- Runs of the relayer on a node that knows three validator sets, and on one with three batches.
use near_aurora_bridge.Base.{
  ℕ, zero, suc, ◌≤◌, ◌≡◌, refl, sym, ◌∙◌, ◌≢◌, true, ◌||◌, Option, none, some, List, [], ◌∷◌,
  reverse, arith, ◌==◌, if◌then◌else◌, All, validation_error, ok, panic, some_inj,
}
use near_aurora_bridge.Types.{EthAddress, Clarity}
use near_aurora_bridge.Valset.{Valset}
use near_aurora_bridge.HashMap.{HashMap}
use near_aurora_bridge.Confirm.{
  ValsetConfirmResponse, BatchConfirmResponse, batch_confirm, valset_confirm, get_hashmap,
}
use near_aurora_bridge.Float.{gravity_power_to_percent, round24}
use near_aurora_bridge.Signing.{order_sigs, get_signature_status, status_loop, add_member}
use near_aurora_bridge.Batches.{TransactionBatch, get_checkpoint_values}
use near_aurora_bridge.Messages.{Abi, encode_tx_batch_confirm, encode_tx_batch_confirm_hashed}
use near_aurora_bridge.Relayer.Valsets.{
  ValsetQueries, Latest, check_valset, search_down, find_latest_valid_valset,
}
use near_aurora_bridge.Relayer.Newest.{Honest, IsNewest, find_latest_valid_valset-IsNewest}
use near_aurora_bridge.Relayer.Batches.{
  BatchQueries, SubmittableBatch, bucket, check_batch, get_batches_and_signatures, collect_batches,
  collect_batch,
}
use near_aurora_bridge.Relayer.Pending.{
  ordered, Tested, pending, get_batches_and_signatures-pending,
}

-- A signature that recovers to its own `r`.
abbrev pub clarity : Clarity
clarity = record { is_valid = λ s. true; recover = λ s m. some s.r }

abbrev pub abi : Abi
abi = record { encode_tokens = λ t. []; get_ethereum_msg_hash = λ m. m }

abbrev pub set : ℕ → Valset
set n = record {
  nonce = n;
  members =
      record { power = 3000000000; eth_address = some 11 }
      ∷ record { power = 1294967296; eth_address = some 12 }
      ∷ [];
  reward_amount = 0;
  reward_token = none;
}

abbrev confirm : ℕ → ℕ → ValsetConfirmResponse
confirm n a = record {
  orchestrator = 1;
  eth_address = a;
  nonce = n;
  eth_signature = record { v = 27; r = a; s = 5 };
}

abbrev pub confirms : ℕ → List ValsetConfirmResponse
confirms n = if n == 2 then confirm 2 11 ∷ [] else if n == 3 then confirm 3 12 ∷ [] else []

-- Sets 2 and 3 are known; 3 lacks a signature.
abbrev pub sets : ℕ → Option (Option Valset)
sets n = if n == 2 || n == 3 then some (some (set n)) else some none

abbrev pub queries : ValsetQueries
queries = record { get_valset = sets; get_all_valset_confirms = λ n. some (confirms n) }

search_run :
    find_latest_valid_valset clarity abi queries [] (set 1) 3
    ≡ ok (record {
      latest_valset = some (set 2);
      latest_confirmed = some (confirms 2);
      last_error = some validation_error;
    })
unfolding find_latest_valid_valset search_down order_sigs gravity_power_to_percent round24
    get_hashmap get_signature_status status_loop add_member
search_run = refl

-- A set whose confirmations carry its nonce and whose test does not panic.
Honest-at :
    (n : ℕ) (v : Valset) (cs : List ValsetConfirmResponse)
    → queries.get_valset n ≡ some (some v)
    → queries.get_all_valset_confirms n ≡ some cs
    → v.nonce ≡ n
    → All (λ c. c.nonce ≡ n) cs
    → check_valset clarity abi queries [] (set 1) v cs ≢ panic
    → Honest clarity abi queries [] (set 1) n
unfolding Honest
Honest-at n v cs ev ec en all safe w ew =
    let same : v ≡ w = some_inj (some_inj (sym ev ∙ ew)) in
    (
      rw (← same) en,
      λ ds ed.
          let same_confirms : cs ≡ ds = some_inj (sym ec ∙ ed) in
          rw (← same, ← same_confirms) (all, safe),
    )

pub honest : (m : ℕ) → m ≤ 3 → Honest clarity abi queries [] (set 1) m
unfolding Honest order_sigs gravity_power_to_percent round24 get_hashmap get_signature_status
    status_loop add_member
honest zero le = λ v e. cc
honest (suc zero) le = λ v e. cc
honest (suc (suc zero)) le = Honest-at 2 (set 2) (confirms 2) refl refl refl (refl, tt) (λ e. cc)
honest (suc (suc (suc zero))) le =
    Honest-at 3 (set 3) (confirms 3) refl refl refl (refl, tt) (λ e. cc)
honest (suc (suc (suc (suc m)))) le = absurd (omega arith)

find_latest_valid_valset-IsNewest_example :
    (r : Latest) × (find_latest_valid_valset clarity abi queries [] (set 1) 3 ≡ ok r)
    × IsNewest clarity abi queries [] (set 1) 3 r
find_latest_valid_valset-IsNewest_example =
    find_latest_valid_valset-IsNewest clarity abi queries [] (set 1) 3 honest

abbrev pub batch : ℕ → EthAddress → TransactionBatch
batch n token = record {
  nonce = n;
  batch_timeout = 100;
  transactions = [];
  total_fee = record { amount = 3; token_contract_address = token };
  token_contract = token;
}

abbrev pub vote : ℕ → EthAddress → EthAddress → BatchConfirmResponse
vote n token a = record {
  nonce = n;
  orchestrator = 1;
  token_contract = token;
  ethereum_signer = a;
  eth_signature = record { v = 27; r = a; s = 5 };
}

-- Batch 8 has too few signatures.
abbrev votes : ℕ → EthAddress → Option (List BatchConfirmResponse)
votes n token = some (vote n token (if n == 8 then 12 else 11) ∷ [])

abbrev latest_batches : List TransactionBatch
latest_batches = batch 9 5 ∷ batch 8 5 ∷ batch 7 5 ∷ []

abbrev batch_queries : BatchQueries
batch_queries = record {
  get_latest_transaction_batches = some latest_batches;
  get_transaction_batch_signatures = votes;
}

-- The oldest batch comes first.
batches_run :
    get_batches_and_signatures clarity abi batch_queries [] (set 1)
    ≡ ok (
        (
          5,
          record { batch = batch 7 5; sigs = vote 7 5 11 ∷ [] }
              ∷ record { batch = batch 9 5; sigs = vote 9 5 11 ∷ [] }
              ∷ [],
        )
        ∷ [])
unfolding get_batches_and_signatures collect_batches collect_batch check_batch order_sigs
    gravity_power_to_percent round24 get_hashmap get_signature_status status_loop add_member
    get_checkpoint_values encode_tx_batch_confirm encode_tx_batch_confirm_hashed
batches_run = refl

-- The test of a batch does not panic on the signatures that the node gives.
Tested-by :
    (n : ℕ) (sigs : List BatchConfirmResponse)
    → votes n 5 ≡ some sigs
    → ordered clarity abi batch_queries [] (set 1) (batch n 5) sigs ≢ panic
    → Tested clarity abi batch_queries [] (set 1) (batch n 5)
unfolding Tested
Tested-by n sigs e safe ds ed = let same : sigs ≡ ds = some_inj (sym e ∙ ed) in rw (← same) safe

All-Tested : All (Tested clarity abi batch_queries [] (set 1)) latest_batches
unfolding order_sigs gravity_power_to_percent round24 get_hashmap get_signature_status status_loop
    add_member get_checkpoint_values encode_tx_batch_confirm encode_tx_batch_confirm_hashed
All-Tested = (
  Tested-by 9 (vote 9 5 11 ∷ []) refl (λ e. cc),
  (
    Tested-by 8 (vote 8 5 12 ∷ []) refl (λ e. cc),
    (Tested-by 7 (vote 7 5 11 ∷ []) refl (λ e. cc), tt),
  ),
)

get_batches_and_signatures-pending_example :
    (m : HashMap (List SubmittableBatch)) × (get_batches_and_signatures clarity abi batch_queries []
        (set 1)
      ≡ ok m)
    × ((a : EthAddress)
        → bucket a m ≡ reverse (pending clarity abi batch_queries [] (set 1) a latest_batches))
get_batches_and_signatures-pending_example =
    get_batches_and_signatures-pending clarity abi batch_queries [] (set 1) latest_batches refl
      All-Tested
