-- ===== src/Relayer/Submit.antt =====
-- `should_relay_batch` and `submit_batches` of relayer/src/batch_relaying.rs.
use near_aurora_bridge.Base.{
  ℕ, ◌+◌, Bool, true, false, Option, none, some, List, [], ◌∷◌, ltb, ◌==◌, if◌then◌else◌, Outcome,
  ok, err, panic, unwrap, ◌>>=◌,
}
use near_aurora_bridge.Types.{EthAddress, Uint256, Clarity}
use near_aurora_bridge.Valset.{Valset}
use near_aurora_bridge.Batches.{TransactionBatch}
use near_aurora_bridge.Messages.{Abi}
use near_aurora_bridge.Ethereum.{
  Crates, Transaction, Web3, GasCost, get_total, downcast_to_u128, get_tx_batch_nonce,
}
use near_aurora_bridge.Ethereum.Submit.{Ours, estimate_tx_batch_cost, send_eth_transaction_batch}
use near_aurora_bridge.Relayer.Batches.{SubmittableBatch}

-- What the node answers about one batch: before its transaction is sent, when it is sent, and after.
pub record Moments : Type 0 where
  pub estimating : Web3
  pub sending : Web3
  pub sent : Web3

-- A round's transaction goes before those of the later rounds, which a panic cuts off.
abbrev pub add_round :
    SubmittableBatch
    → Outcome (Unit {0}) × Option Transaction
    → List (SubmittableBatch × Transaction)
    → List (SubmittableBatch × Transaction)
add_round b (panic, none) later = []
add_round b (panic, some t) later = (b, t) ∷ []
add_round b (ok u, none) later = later
add_round b (ok u, some t) later = (b, t) ∷ later
add_round b (err e, none) later = later
add_round b (err e, some t) later = (b, t) ∷ later

-- `WETH_CONTRACT_ADDRESS` of web30
module _ (weth : EthAddress) where
  unfoldable pub should_relay_batch : Web3 → TransactionBatch → Uint256 → EthAddress → Bool
  should_relay_batch web3 batch cost pubkey =
      if batch.total_fee.token_contract_address == weth
      then ltb cost batch.total_fee.amount
      else elim (web3.get_uniswap_price pubkey batch.total_fee.token_contract_address weth
          batch.total_fee.amount) [ none ↦ false | some price ↦ ltb cost price ]

module _ (k : Clarity) (abi : Abi) (x : Crates) (ours : Ours) (current_valset : Valset)
    (weth : EthAddress) (batch_market_enabled : Bool) where
  -- The cost is read out in the log, as 128 bits, before the market is asked.
  unfoldable pub decide_batch : Web3 → TransactionBatch → GasCost → Outcome Bool
  decide_batch web3 batch cost = do
    total ← get_total x cost
    logged ← unwrap (downcast_to_u128 total)
    if batch_market_enabled
        then ok (should_relay_batch weth web3 batch total ours.eth_address)
        else ok true

  -- Whether a batch is sent. An estimate that fails skips the batch.
  unfoldable pub choose_batch : Uint256 → ℕ → Web3 → SubmittableBatch → Outcome Bool
  choose_batch ethereum_block_height latest_ethereum_batch web3 b =
      if ltb b.batch.batch_timeout ethereum_block_height
      then ok false
      else if ltb latest_ethereum_batch b.batch.nonce
      then elim (estimate_tx_batch_cost k abi x ours current_valset web3 b.batch b.sigs) [
        | ok cost ↦ decide_batch web3 b.batch cost
        | err e ↦ ok false
        | panic ↦ panic
      ]
      else ok false

  -- One round of the loop. The error of a submission is only reported.
  unfoldable pub submit_batch :
      Uint256 → ℕ → Moments → SubmittableBatch → Outcome (Unit {0}) × Option Transaction
  submit_batch ethereum_block_height latest_ethereum_batch at b =
      elim (choose_batch ethereum_block_height latest_ethereum_batch at.estimating b) [
        | ok true ↦
            send_eth_transaction_batch k abi x ours current_valset at.sending at.sent b.batch b.sigs
        | ok false ↦ (ok tt, none)
        | err e ↦ (err e, none)
        | panic ↦ (panic, none)
      ]

  -- The loop over the batches of one token, with the answers in each round: what it sends.
  unfoldable pub submit_loop :
      Uint256
      → ℕ
      → (ℕ → Moments)
      → ℕ
      → List SubmittableBatch
      → List (SubmittableBatch × Transaction)
  submit_loop ethereum_block_height latest_ethereum_batch at i [] = []
  submit_loop ethereum_block_height latest_ethereum_batch at i (b ∷ bs) =
      let later = submit_loop ethereum_block_height latest_ethereum_batch at (i + 1) bs in
      add_round b (submit_batch ethereum_block_height latest_ethereum_batch (at i) b) later

  -- The batches of one token. If a request fails, or the nonce does not fit, nothing is sent.
  unfoldable pub submit_token_batches :
      Web3
      → (ℕ → Moments)
      → EthAddress
      → List SubmittableBatch
      → List (SubmittableBatch × Transaction)
  submit_token_batches web3 at token_type batches = elim web3.eth_block_number [
    | none ↦ []
    | some ethereum_block_height ↦
        elim (get_tx_batch_nonce x web3 ours.contract token_type ours.eth_address) [
          | ok latest_ethereum_batch ↦
              submit_loop ethereum_block_height latest_ethereum_batch at 0 batches
          | err e ↦ []
          | panic ↦ []
        ]
  ]
