-- ===== src/Relayer/Due.antt =====
-- When a round of `submit_batches` sends a transaction, and which.
use near_aurora_bridge.Base.{
  ℕ, ◌≤◌, ◌<◌, ◌≡◌, refl, ◌≢◌, ◌⊎◌, inl, inr, Bool, true, false, Option, none, some, List, arith,
  ltb, ◌==◌, if◌then◌else◌, lt→ltb, le→ltb, tests, Bool-cases, Option-cases, ok, unwrap, >>=-eq-ok,
  Outcome-cases,
}
use near_aurora_bridge.Types.{EthAddress, Uint256, Clarity}
use near_aurora_bridge.Valset.{Valset}
use near_aurora_bridge.Batches.{TransactionBatch}
use near_aurora_bridge.Messages.{Abi}
use near_aurora_bridge.Ethereum.{
  Crates, Transaction, Web3, GasCost, get_total, downcast_to_u128, u128_max,
}
use near_aurora_bridge.Ethereum.Submit.{
  Ours, encode_batch_payload, estimate_tx_batch_cost, send_eth_transaction_batch,
}
use near_aurora_bridge.Relayer.Batches.{SubmittableBatch}
use near_aurora_bridge.Relayer.Submit.{
  Moments, should_relay_batch, decide_batch, choose_batch, submit_batch,
}
use near_aurora_bridge.Ethereum.Prepared.{
  Fresh, Carries, prepare_batch-Fresh, send-prepare, send-Fresh,
}

module _ (k : Clarity) (abi : Abi) (x : Crates) (ours : Ours) (current_valset : Valset) where
  -- The batch's fees, exchanged for WETH.
  abbrev pub value_in_weth : EthAddress → Web3 → TransactionBatch → Option Uint256
  value_in_weth weth web3 batch =
      if batch.total_fee.token_contract_address == weth
      then some batch.total_fee.amount
      else web3.get_uniswap_price ours.eth_address batch.total_fee.token_contract_address weth
          batch.total_fee.amount

  pub Exceeds : EthAddress → Web3 → TransactionBatch → Uint256 → Type 0
  Exceeds weth web3 batch total =
      (value : Uint256) × (value_in_weth weth web3 batch ≡ some value) × (total < value)

  -- The fees are worth more than the estimated cost.
  pub Pays : EthAddress → Web3 → SubmittableBatch → Type 0
  Pays weth web3 b =
      (cost : GasCost) × (total : Uint256) × (estimate_tx_batch_cost k abi x ours current_valset
          web3 b.batch b.sigs
        ≡ ok cost)
      × (get_total x cost ≡ ok total)
      × Exceeds weth web3 b.batch total

  should_relay_batch-true :
      (weth : EthAddress) (web3 : Web3) (batch : TransactionBatch) (total : Uint256)
      → should_relay_batch weth web3 batch total ours.eth_address ≡ true
      → Exceeds weth web3 batch total
  unfolding should_relay_batch Exceeds
  should_relay_batch-true weth web3 batch total e =
      elim (Bool-cases (batch.total_fee.token_contract_address == weth)) [
        | inl same ↦ (batch.total_fee.amount, rw same refl, ground arith)
        | inr other ↦
            elim (Option-cases (
              web3.get_uniswap_price ours.eth_address batch.total_fee.token_contract_address weth
                batch.total_fee.amount)) [
                  | inl failed ↦ absurd (ground arith)
                  | inr (price, found) ↦ (price, rw (other, found) refl, ground arith)
                ]
      ]

  module _ (weth : EthAddress) (market : Bool) where
    decide_batch-true :
        (web3 : Web3) (b : SubmittableBatch) (cost : GasCost)
        → estimate_tx_batch_cost k abi x ours current_valset web3 b.batch b.sigs ≡ ok cost
        → decide_batch k abi x ours current_valset weth market web3 b.batch cost ≡ ok true
        → (market ≡ false) ⊎ Pays weth web3 b
    unfolding decide_batch Pays
    decide_batch-true web3 b cost ec e =
        let (total, et, e1) = >>=-eq-ok (get_total x cost) _ e in
        let (logged, el, e2) = >>=-eq-ok (unwrap (downcast_to_u128 total)) _ e1 in
        elim (Bool-cases market) [
          | inr off ↦ inl off
          | inl on ↦
              inr (
                cost,
                total,
                ec,
                et,
                should_relay_batch-true weth web3 b.batch total (ground arith),
              )
        ]

    -- What `choose_batch` has checked when it decides to send.
    choose_batch-true :
        (height : Uint256) (latest : ℕ) (web3 : Web3) (b : SubmittableBatch)
        → choose_batch k abi x ours current_valset weth market height latest web3 b ≡ ok true
        → (latest < b.batch.nonce)
          × (height ≤ b.batch.batch_timeout)
          × ((market ≡ false) ⊎ Pays weth web3 b)
    unfolding choose_batch
    choose_batch-true height latest web3 b e =
        elim (Bool-cases (ltb b.batch.batch_timeout height)) [
          | inl late ↦ absurd (ground arith)
          | inr in_time ↦ elim (Bool-cases (ltb latest b.batch.nonce)) [
            | inr old ↦ absurd (ground arith)
            | inl new ↦
                elim (Outcome-cases
                  (estimate_tx_batch_cost k abi x ours current_valset web3 b.batch b.sigs)) [
                    | inl (cost, ec) ↦ (
                      omega (tests, new),
                      omega (tests, in_time),
                      decide_batch-true web3 b cost ec (ground arith),
                    )
                    | inr (inl (y, ec)) ↦ absurd (ground arith)
                    | inr (inr ec) ↦ absurd (ground arith)
                  ]
          ]
        ]

    -- A transaction that is sent in a round with these answers.
    pub Due : Uint256 → ℕ → Moments → SubmittableBatch → Transaction → Type 0
    Due height latest at b t =
        (latest < b.batch.nonce)
        × (height ≤ b.batch.batch_timeout)
        × ((market ≡ false) ⊎ Pays weth at.estimating b)
        × Fresh k abi x ours current_valset at.sending b.batch
        × Carries k abi x ours current_valset b.batch b.sigs t

    pub submit_batch-Due :
        (height : Uint256) (latest : ℕ) (at : Moments) (b : SubmittableBatch) (t : Transaction)
        → (submit_batch k abi x ours current_valset weth market height latest at b).1 ≡ some t
        → Due height latest at b t
    unfolding submit_batch Due
    submit_batch-Due height latest at b t e =
        elim (Outcome-cases
          (choose_batch k abi x ours current_valset weth market height latest at.estimating b)) [
            | inl (true, ec) ↦
                let (new, in_time, worth) = choose_batch-true height latest at.estimating b ec in
                let (fresh, carries) =
                  prepare_batch-Fresh k abi x ours current_valset at.sending b.batch b.sigs t (
                    send-prepare k abi x ours current_valset at.sending at.sent b.batch b.sigs t
                      (ground arith)) in
                (new, in_time, worth, fresh, carries)
            | inl (false, ec) ↦ absurd (ground arith)
            | inr (inl (y, ec)) ↦ absurd (ground arith)
            | inr (inr ec) ↦ absurd (ground arith)
          ]

    -- Nothing speaks against the batch: it is due, the cost is estimated, fits 128 bits, and is covered
    -- if the market is enabled, and the payload can be encoded.
    pub Ready : Uint256 → ℕ → Moments → SubmittableBatch → Type 0
    Ready height latest at b =
        (latest < b.batch.nonce)
        × (height ≤ b.batch.batch_timeout)
        × (cost : GasCost) × (total : Uint256) × (payload : List ℕ) × (estimate_tx_batch_cost k abi
              x ours current_valset at.estimating b.batch b.sigs
            ≡ ok cost)
        × (get_total x cost ≡ ok total)
        × (total < u128_max)
        × ((market ≡ false) ⊎ Exceeds weth at.estimating b.batch total)
        × Fresh k abi x ours current_valset at.sending b.batch
        × (encode_batch_payload k abi x ours current_valset b.batch b.sigs ≡ ok payload)

    choose_batch-Ready :
        (height : Uint256) (latest : ℕ) (at : Moments) (b : SubmittableBatch)
        → Ready height latest at b
        → choose_batch k abi x ours current_valset weth market height latest at.estimating b
          ≡ ok true
    unfolding Ready Exceeds choose_batch decide_batch should_relay_batch
    choose_batch-Ready height latest at b
          (new, in_time, cost, total, payload, ec, et, fits, inl off, fresh, ep) =
        rw
          (
            choose_batch,
            le→ltb b.batch.batch_timeout height in_time,
            lt→ltb latest b.batch.nonce new,
            ec,
          )
          (ground arith)
    choose_batch-Ready height latest at b
          (new, in_time, cost, total, payload, ec, et, fits, inr (value, ev, lt), fresh, ep) =
        rw
          (
            choose_batch,
            le→ltb b.batch.batch_timeout height in_time,
            lt→ltb latest b.batch.nonce new,
            ec,
          )
          (ground arith)

    pub submit_batch-Ready :
        (height : Uint256) (latest : ℕ) (at : Moments) (b : SubmittableBatch)
        → Ready height latest at b
        → (submit_batch k abi x ours current_valset weth market height latest at b).1 ≢ none
    unfolding Ready submit_batch
    submit_batch-Ready height latest at b ready e =
        let (_, _, _, _, payload, _, _, _, _, fresh, ep) = ready in
        let sent =
          send-Fresh k abi x ours current_valset at.sending at.sent b.batch b.sigs payload fresh
            ep in
        let nothing : (send_eth_transaction_batch k abi x ours current_valset at.sending at.sent
              b.batch b.sigs).1
            ≡ none =
          rw (submit_batch, choose_batch-Ready height latest at b ready) at e in
        cc
