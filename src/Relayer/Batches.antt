-- ===== src/Relayer/Batches.antt =====
-- `get_batches_and_signatures` of relayer/src/batch_relaying.rs.
use near_aurora_bridge.Base.{
  ℕ, Option, none, some, List, [], ◌∷◌, ◌++◌, reverse, Outcome, ok, err, panic, ◌>>=◌,
}
use near_aurora_bridge.Types.{EthAddress, Clarity}
use near_aurora_bridge.HashMap.{HashMap, get, insert}
use near_aurora_bridge.Valset.{Valset}
use near_aurora_bridge.Confirm.{BatchConfirmResponse, batch_confirm}
use near_aurora_bridge.Signing.{GravitySignature, order_sigs}
use near_aurora_bridge.Batches.{TransactionBatch}
use near_aurora_bridge.Messages.{Abi, encode_tx_batch_confirm_hashed}

-- What the Cosmos node answers; `none` is a failed query.
pub record BatchQueries : Type 0 where
  pub get_latest_transaction_batches : Option (List TransactionBatch)
  pub get_transaction_batch_signatures : ℕ → EthAddress → Option (List BatchConfirmResponse)

pub record SubmittableBatch : Type 0 where
  pub batch : TransactionBatch
  pub sigs : List BatchConfirmResponse

-- The batches of one token; a token with no entry has none.
abbrev or_empty : Option (List SubmittableBatch) → List SubmittableBatch
or_empty none = []
or_empty (some bs) = bs

abbrev pub bucket : EthAddress → HashMap (List SubmittableBatch) → List SubmittableBatch
bucket a m = or_empty (get a m)

-- `entry(token).or_insert_with(Vec::new)`, then `push`.
abbrev pub push_batch :
    SubmittableBatch → HashMap (List SubmittableBatch) → HashMap (List SubmittableBatch)
push_batch s m = insert s.batch.token_contract (bucket s.batch.token_contract m ++ s ∷ []) m

-- `value.reverse()` on every entry.
abbrev pub reverse_all : HashMap (List SubmittableBatch) → HashMap (List SubmittableBatch)
reverse_all [] = []
reverse_all ((token, value) ∷ m) = (token, reverse value) ∷ reverse_all m

module _ (k : Clarity) (abi : Abi) (q : BatchQueries) (gravity_id : List ℕ)
    (current_valset : Valset) where
  -- The signatures of a batch, tested against the set that the bridge holds.
  unfoldable pub check_batch :
      TransactionBatch → List BatchConfirmResponse → Outcome (List GravitySignature)
  check_batch batch sigs = do
    hash ← encode_tx_batch_confirm_hashed abi gravity_id batch
    order_sigs k hash current_valset sigs

  -- One round of the loop over the batches.
  unfoldable pub collect_batch :
      TransactionBatch → HashMap (List SubmittableBatch) → Outcome (HashMap (List SubmittableBatch))
  collect_batch batch possible_batches =
      elim (q.get_transaction_batch_signatures batch.nonce batch.token_contract) [
        | none ↦ ok possible_batches
        | some sigs ↦ elim (check_batch batch sigs) [
          | ok ordered ↦ ok (push_batch (record { batch = batch; sigs = sigs }) possible_batches)
          | err e ↦ ok possible_batches
          | panic ↦ panic
        ]
      ]

  unfoldable pub collect_batches :
      List TransactionBatch
      → HashMap (List SubmittableBatch)
      → Outcome (HashMap (List SubmittableBatch))
  collect_batches [] possible_batches = ok possible_batches
  collect_batches (batch ∷ batches) possible_batches = do
    possible_batches' ← collect_batch batch possible_batches
    collect_batches batches possible_batches'

  unfoldable pub get_batches_and_signatures : Outcome (HashMap (List SubmittableBatch))
  get_batches_and_signatures = elim q.get_latest_transaction_batches [
    | none ↦ ok []
    | some latest_batches ↦ do
      possible_batches ← collect_batches latest_batches []
      ok (reverse_all possible_batches)
  ]
