-- ===== src/Ethereum/Prepared.antt =====
-- When `send_eth_transaction_batch` sends a transaction, and which.
use near_aurora_bridge.Base.{
  ℕ, ◌≤◌, ◌<◌, ◌≡◌, refl, Bool, true, false, Option, none, some, List, arith, ltb, leb,
  if◌then◌else◌, le→ltb, tests, GravityError, rpc_error, Outcome, ok, err, panic, or_err, >>=-eq-ok,
  ◌>>=◌,
}
use near_aurora_bridge.Types.{Uint256, Clarity}
use near_aurora_bridge.Valset.{Valset}
use near_aurora_bridge.Confirm.{BatchConfirmResponse}
use near_aurora_bridge.Batches.{TransactionBatch}
use near_aurora_bridge.Messages.{Abi}
use near_aurora_bridge.Ethereum.{Crates, Transaction, Web3, get_tx_batch_nonce}
use near_aurora_bridge.Ethereum.Submit.{
  Ours, encode_batch_payload, prepare_batch, send_eth_transaction_batch,
}

-- What stands behind the two early exits.
pub behind_exits :
    (c d : Bool) (m : Outcome (List ℕ)) (f : List ℕ → Transaction) (t : Transaction)
    → (if c then ok none else if d then ok none else do p ← m; ok (some (f p))) ≡ ok (some t)
    → (c ≡ false) × (d ≡ false) × (p : List ℕ) × (m ≡ ok p) × (f p ≡ t)
behind_exits true d m f t e = cc
behind_exits false true m f t e = cc
behind_exits false false (ok p) f t e = (refl, refl, p, refl, cc)
behind_exits false false (err x) f t e = cc
behind_exits false false panic f t e = cc

pub leb→lt : (a b : ℕ) → leb a b ≡ false → b < a
leb→lt a b h = ground arith

pub lt→leb : (a b : ℕ) → b < a → leb a b ≡ false
lt→leb a b h = ground arith

pub or_err-ok {ℓ} :
    {A : Type ℓ} (o : Option A) (e : GravityError) (a : A) → or_err o e ≡ ok a → o ≡ some a
or_err-ok none e a h = cc
or_err-ok (some b) e a h = cc

module _ (k : Clarity) (abi : Abi) (x : Crates) (ours : Ours) (current_valset : Valset) where
  -- The node says that the contract is behind the batch, and that the batch has not timed out.
  pub Fresh : Web3 → TransactionBatch → Type 0
  Fresh web3 batch =
      (n : ℕ) × (h : Uint256) × (get_tx_batch_nonce x web3 ours.contract batch.token_contract
          ours.eth_address
        ≡ ok n)
      × (n < batch.nonce)
      × (web3.eth_block_number ≡ some h)
      × (h ≤ batch.batch_timeout)

  -- The transaction calls the contract with the batch and its ordered signatures.
  pub Carries : TransactionBatch → List BatchConfirmResponse → Transaction → Type 0
  Carries batch sigs t =
      (t.to ≡ ours.contract)
      × (encode_batch_payload k abi x ours current_valset batch sigs ≡ ok t.payload)

  pub prepare_batch-Fresh :
      (web3 : Web3) (batch : TransactionBatch) (sigs : List BatchConfirmResponse) (t : Transaction)
      → prepare_batch k abi x ours current_valset web3 batch sigs ≡ ok (some t)
      → Fresh web3 batch × Carries batch sigs t
  unfolding prepare_batch Fresh Carries
  prepare_batch-Fresh web3 batch sigs t e =
      let (n, en, e1) =
        >>=-eq-ok (get_tx_batch_nonce x web3 ours.contract batch.token_contract ours.eth_address) _
          e in
      let (h, eh, e2) = >>=-eq-ok (or_err web3.eth_block_number rpc_error) _ e1 in
      let (behind, in_time, p, ep, et) =
        behind_exits (leb batch.nonce n) (ltb batch.batch_timeout h)
          (encode_batch_payload k abi x ours current_valset batch sigs) _ t e2 in
      (
        (
          n,
          h,
          en,
          leb→lt batch.nonce n behind,
          or_err-ok web3.eth_block_number rpc_error h eh,
          omega (tests, in_time),
        ),
        rw (← et) (refl, ep),
      )

  prepare_batch-ok :
      (web3 : Web3) (batch : TransactionBatch) (sigs : List BatchConfirmResponse) (payload : List ℕ)
      → Fresh web3 batch
      → encode_batch_payload k abi x ours current_valset batch sigs ≡ ok payload
      → prepare_batch k abi x ours current_valset web3 batch sigs
        ≡ ok (some (record { to = ours.contract; payload = payload; sender = ours.eth_address }))
  unfolding prepare_batch Fresh
  prepare_batch-ok web3 batch sigs payload (n, h, en, behind, eh, hi) ep =
      rw (prepare_batch, en, eh, lt→leb batch.nonce n behind, le→ltb batch.batch_timeout h hi, ep)
        refl

  -- A fresh batch is sent.
  pub send-Fresh :
      (web3 later : Web3) (batch : TransactionBatch) (sigs : List BatchConfirmResponse)
      (payload : List ℕ)
      → Fresh web3 batch
      → encode_batch_payload k abi x ours current_valset batch sigs ≡ ok payload
      → (send_eth_transaction_batch k abi x ours current_valset web3 later batch sigs).1
        ≡ some (record { to = ours.contract; payload = payload; sender = ours.eth_address })
  unfolding send_eth_transaction_batch
  send-Fresh web3 later batch sigs payload fresh ep =
      rw (send_eth_transaction_batch, prepare_batch-ok web3 batch sigs payload fresh ep) refl

  -- The transaction that a submission hands over is the prepared one.
  pub send-prepare :
      (web3 later : Web3) (batch : TransactionBatch) (sigs : List BatchConfirmResponse)
      (t : Transaction)
      → (send_eth_transaction_batch k abi x ours current_valset web3 later batch sigs).1 ≡ some t
      → prepare_batch k abi x ours current_valset web3 batch sigs ≡ ok (some t)
  unfolding send_eth_transaction_batch
  send-prepare web3 later batch sigs t e = ground arith
