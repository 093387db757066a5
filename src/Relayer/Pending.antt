-- ===== src/Relayer/Pending.antt =====
-- What `get_batches_and_signatures` collects for each token.
use near_aurora_bridge.Base.{
  ℕ, ◌≡◌, refl, ap, ◌∙◌, ◌≢◌, inl, inr, Bool, true, false, Option, none, some, List, [], ◌∷◌, ◌++◌,
  reverse, arith, ◌==◌, if◌then◌else◌, ==→eq, Bool-cases, Option-cases, All, Outcome, ok, panic,
  ◌>>=◌, is_ok, Outcome-cases,
}
use mathlib.Core.List.{append-nil, append_assoc}
use near_aurora_bridge.Types.{EthAddress, Clarity}
use near_aurora_bridge.HashMap.{HashMap, get-insert}
use near_aurora_bridge.Valset.{Valset}
use near_aurora_bridge.Confirm.{BatchConfirmResponse, batch_confirm}
use near_aurora_bridge.Batches.{TransactionBatch}
use near_aurora_bridge.Signing.{GravitySignature, order_sigs}
use near_aurora_bridge.Messages.{Abi, encode_tx_batch_confirm_hashed}
use near_aurora_bridge.Relayer.Batches.{
  BatchQueries, SubmittableBatch, bucket, push_batch, reverse_all, check_batch, collect_batch,
  collect_batches, get_batches_and_signatures,
}

bucket-push_batch :
    (a : EthAddress) (s : SubmittableBatch) (m : HashMap (List SubmittableBatch))
    → bucket a (push_batch s m) ≡ bucket a m ++ (if s.batch.token_contract == a then s ∷ [] else [])
bucket-push_batch a s m = elim (Bool-cases (s.batch.token_contract == a)) [
  | inl e ↦
      rw
        (
          get-insert s.batch.token_contract a (bucket s.batch.token_contract m ++ s ∷ []) m,
          e,
          ==→eq s.batch.token_contract a e,
        )
        refl
  | inr e ↦
      rw
        (
          get-insert s.batch.token_contract a (bucket s.batch.token_contract m ++ s ∷ []) m,
          e,
          append-nil,
        )
        refl
]

bucket-reverse_all :
    (a : EthAddress) (m : HashMap (List SubmittableBatch))
    → bucket a (reverse_all m) ≡ reverse (bucket a m)
bucket-reverse_all a [] = refl
bucket-reverse_all a ((t, v) ∷ m) = ground (arith, bucket-reverse_all a m)

append_nothing : (c : Bool) (xs : List SubmittableBatch) → xs ≡ xs ++ (if c then [] else [])
append_nothing true xs = simp append-nil
append_nothing false xs = simp append-nil

module _ (k : Clarity) (abi : Abi) (q : BatchQueries) (gravity_id : List ℕ)
    (current_valset : Valset) where
  -- The signatures of a batch put in the order of the members, by the message for the contract.
  abbrev pub ordered :
      TransactionBatch → List BatchConfirmResponse → Outcome (List GravitySignature)
  ordered b sigs = encode_tx_batch_confirm_hashed abi gravity_id b >>= λ hash.
      order_sigs k hash current_valset sigs

  check_batch-ordered :
      (b : TransactionBatch) (sigs : List BatchConfirmResponse)
      → check_batch k abi q gravity_id current_valset b sigs ≡ ordered b sigs
  unfolding check_batch
  check_batch-ordered b sigs = refl

  -- The test of the signatures that the node gives for a batch does not panic.
  unfoldable pub Tested : TransactionBatch → Type 0
  Tested b =
      (sigs : List BatchConfirmResponse)
      → q.get_transaction_batch_signatures b.nonce b.token_contract ≡ some sigs
      → ordered b sigs ≢ panic

  abbrev if_passes : TransactionBatch → Option (List BatchConfirmResponse) → List SubmittableBatch
  if_passes b none = []
  if_passes b (some sigs) =
      if is_ok (ordered b sigs) then record { batch = b; sigs = sigs } ∷ [] else []

  -- The batch with its signatures, if `order_sigs` accepts them for the set that the bridge holds.
  abbrev passing : TransactionBatch → List SubmittableBatch
  passing b = if_passes b (q.get_transaction_batch_signatures b.nonce b.token_contract)

  -- The batches of a token whose signatures are accepted, in the node's order.
  abbrev pub pending : EthAddress → List TransactionBatch → List SubmittableBatch
  pending a [] = []
  pending a (b ∷ bs) = (if b.token_contract == a then passing b else []) ++ pending a bs

  collect_batch-bucket :
      (b : TransactionBatch) (m : HashMap (List SubmittableBatch))
      → Tested b
      → (m' : HashMap (List SubmittableBatch)) × (collect_batch k abi q gravity_id current_valset b
            m
          ≡ ok m')
        × ((a : EthAddress)
            → bucket a m' ≡ bucket a m ++ (if b.token_contract == a then passing b else []))
  unfolding collect_batch Tested
  collect_batch-bucket b m tested =
      elim (Option-cases (q.get_transaction_batch_signatures b.nonce b.token_contract)) [
        | inl e ↦ (
          m,
          rw (collect_batch, e),
          λ a. rw e (append_nothing (b.token_contract == a) (bucket a m)),
        )
        | inr (sigs, e) ↦ elim (Outcome-cases (ordered b sigs)) [
          | inl (u, eo) ↦ (
            push_batch (record { batch = b; sigs = sigs }) m,
            rw (collect_batch, e, check_batch-ordered b sigs, eo),
            λ a. rw (e, eo) (bucket-push_batch a (record { batch = b; sigs = sigs }) m),
          )
          | inr (inl (x, eo)) ↦ (
            m,
            rw (collect_batch, e, check_batch-ordered b sigs, eo),
            λ a. rw (e, eo) (append_nothing (b.token_contract == a) (bucket a m)),
          )
          | inr (inr eo) ↦ absurd (tested sigs e eo)
        ]
      ]

  collect_batches-bucket :
      (bs : List TransactionBatch) (m : HashMap (List SubmittableBatch))
      → All Tested bs
      → (m' : HashMap (List SubmittableBatch)) × (collect_batches k abi q gravity_id current_valset
            bs m
          ≡ ok m')
        × ((a : EthAddress) → bucket a m' ≡ bucket a m ++ pending a bs)
  unfolding collect_batches
  collect_batches-bucket [] m all = (m, refl, λ a. simp append-nil)
  collect_batches-bucket (b ∷ bs) m (tested, all) =
      let (m1, e1, h1) = collect_batch-bucket b m tested in
      let (m2, e2, h2) = collect_batches-bucket bs m1 all in
      (m2, rw e1 e2, λ a. rw (h2 a, h1 a) (simp append_assoc))

  -- Where the node gives the latest batches, and no test of a batch's signatures panics: the call
  -- returns, and for every token what it returns are the batches of that token whose signatures
  -- `order_sigs` accepts for the current set and the batch's message, each once and with its
  -- signatures, in the reverse of the order of the node's list.
  pub get_batches_and_signatures-pending :
      (bs : List TransactionBatch)
      → q.get_latest_transaction_batches ≡ some bs
      → All Tested bs
      → (m : HashMap (List SubmittableBatch)) × (get_batches_and_signatures k abi q gravity_id
            current_valset
          ≡ ok m)
        × ((a : EthAddress) → bucket a m ≡ reverse (pending a bs))
  unfolding get_batches_and_signatures
  get_batches_and_signatures-pending bs e all =
      let (m, em, h) = collect_batches-bucket bs [] all in
      (
        reverse_all m,
        rw (get_batches_and_signatures, e, em),
        λ a. bucket-reverse_all a m ∙ ap reverse (h a),
      )
