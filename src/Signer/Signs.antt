-- ===== src/Signer/Signs.antt =====
-- One failed query or submission does not keep the signer from the other confirmations.
use near_aurora_bridge.Base.{
  ℕ, ◌≡◌, refl, ◌≢◌, inl, inr, true, Option, none, some, List, [], ◌∷◌, ◌++◌, map, Outcome, ok, err,
  panic, try_map, Outcome-cases,
}
use near_aurora_bridge.Valset.{Valset}
use near_aurora_bridge.Batches.{TransactionBatch}
use near_aurora_bridge.Logic.{LogicCall}
use near_aurora_bridge.Messages.{Abi}
use near_aurora_bridge.Oracle.{nodes_ready}
use near_aurora_bridge.Cosmos.{
  MsgConfirmBatch, Msg, valset_confirm_msg, confirm_batch, confirm_logic_call, broadcast, Coin,
  Reply, Printer, Contact, PrivateKey, EthPrivateKey,
}
use near_aurora_bridge.Cosmos.Confirms.{
  confirm_of_valset, confirm_of_batch, confirm_of_logic_call, send_valset_confirms,
  send_batch_confirm, send_logic_call_confirm,
}
use near_aurora_bridge.Signer.{
  SignerRound, Signed, signed_valsets, signed_batch, signed_call, on_ok, on_some, sign_valsets,
  sign_batch, sign_call, signer_round,
}
use near_aurora_bridge.Signer.Rounds.{Refused, after_answer_ok, confirm_of_batch_ok}

-- The message of a batch's confirmation.
abbrev pub batch_message : Outcome MsgConfirmBatch → List Msg
batch_message (ok m) = confirm_batch m ∷ []
batch_message (err e) = []
batch_message panic = []

module _ {Args Tx : Type 0} (p : Printer) (abi : Abi) (eth_key : EthPrivateKey)
    (key : PrivateKey Args) (fee : Coin) (gravity_id : List ℕ)
    (account : (prefix : List ℕ) → (a : ℕ) × (key.to_address prefix ≡ some a)) where
  abbrev pub address_of : Contact Args Tx → ℕ
  address_of contact = (account contact.get_prefix).0

  -- The answer to a transaction with some messages, signed by the account's key.
  abbrev pub answer_to : Contact Args Tx → List Msg → Reply Tx
  answer_to contact msgs =
      broadcast contact key (address_of contact)
        (record { amount = fee ∷ []; gas_limit = 500000000 }) msgs

  -- The confirmations of all the validator sets; a failed query gives nothing.
  abbrev pub valset_part : Contact Args Tx → Outcome (List Valset) → List (Signed Tx)
  valset_part contact (ok []) = []
  valset_part contact (ok (v ∷ vs)) =
      signed_valsets (
        answer_to contact (
          map
            (λ v.
              valset_confirm_msg
                (confirm_of_valset p abi eth_key gravity_id (address_of contact) v))
            (v ∷ vs)))
      ∷ []
  valset_part contact (err e) = []
  valset_part contact panic = []

  abbrev pub batch_part : Contact Args Tx → Outcome (Option TransactionBatch) → List (Signed Tx)
  batch_part contact (ok none) = []
  batch_part contact (ok (some b)) =
      signed_batch (
        answer_to contact
          (batch_message (confirm_of_batch p abi eth_key gravity_id (address_of contact) b)))
      ∷ []
  batch_part contact (err e) = []
  batch_part contact panic = []

  abbrev pub call_part : Contact Args Tx → Outcome (Option LogicCall) → List (Signed Tx)
  call_part contact (ok none) = []
  call_part contact (ok (some c)) =
      signed_call (
        answer_to contact (
          confirm_logic_call (confirm_of_logic_call p abi eth_key gravity_id (address_of contact) c)
          ∷ []))
      ∷ []
  call_part contact (err e) = []
  call_part contact panic = []

  valsets_sent :
      (contact : Contact Args Tx) (vs : List Valset)
      → send_valset_confirms p abi contact eth_key key gravity_id fee vs
        ≡ ok (
            answer_to contact (
              map
                (λ v.
                  valset_confirm_msg
                    (confirm_of_valset p abi eth_key gravity_id (address_of contact) v))
                vs))
  unfolding send_valset_confirms
  valsets_sent contact vs = rw (send_valset_confirms, (account contact.get_prefix).1) refl

  batch_sent :
      (contact : Contact Args Tx) (b : TransactionBatch)
      → send_batch_confirm p abi contact eth_key key gravity_id fee (b ∷ [])
        ≡ ok (
            answer_to contact
              (batch_message (confirm_of_batch p abi eth_key gravity_id (address_of contact) b)))
  unfolding send_batch_confirm try_map
  batch_sent contact b =
      let (m, em) = confirm_of_batch_ok p abi eth_key gravity_id (address_of contact) b in
      rw (send_batch_confirm, (account contact.get_prefix).1, try_map, em) refl

  call_sent :
      (contact : Contact Args Tx) (c : LogicCall)
      → send_logic_call_confirm p abi contact eth_key key gravity_id fee (c ∷ [])
        ≡ ok (
            answer_to contact (
              confirm_logic_call
                (confirm_of_logic_call p abi eth_key gravity_id (address_of contact) c)
              ∷ []))
  unfolding send_logic_call_confirm
  call_sent contact c = rw (send_logic_call_confirm, (account contact.get_prefix).1) refl

  module _ (r : SignerRound Args Tx) (accepted : ¬ Refused p abi eth_key key fee gravity_id r) where
    valsets_signed :
        r.unsigned_valsets ≢ panic
        → on_ok r.unsigned_valsets (sign_valsets p abi eth_key key fee gravity_id r)
          ≡ (ok tt, valset_part r.valsets_contact r.unsigned_valsets)
    unfolding sign_valsets Refused
    valsets_signed n = elim (Outcome-cases r.unsigned_valsets) [
      | inl (vs, e) ↦ rw e (signed vs e)
      | inr (inl (x, e)) ↦ rw e refl
      | inr (inr e) ↦ absurd (n e)
    ]
      where
        signed :
            (vs : List Valset)
            → r.unsigned_valsets ≡ ok vs
            → sign_valsets p abi eth_key key fee gravity_id r vs
              ≡ (ok tt, valset_part r.valsets_contact (ok vs))
        signed [] e = refl
        signed (v ∷ vs) e =
            after_answer_ok signed_valsets _ _ (valsets_sent r.valsets_contact (v ∷ vs))
              (λ refused. accepted (inl (v, vs, e, refused)))

    batch_signed :
        r.unsigned_batch ≢ panic
        → on_ok r.unsigned_batch (λ b. on_some b (sign_batch p abi eth_key key fee gravity_id r))
          ≡ (ok tt, batch_part r.batch_contact r.unsigned_batch)
    unfolding sign_batch Refused
    batch_signed n = elim (Outcome-cases r.unsigned_batch) [
      | inl (ob, e) ↦ rw e (signed ob e)
      | inr (inl (x, e)) ↦ rw e refl
      | inr (inr e) ↦ absurd (n e)
    ]
      where
        signed :
            (ob : Option TransactionBatch)
            → r.unsigned_batch ≡ ok ob
            → on_some ob (sign_batch p abi eth_key key fee gravity_id r)
              ≡ (ok tt, batch_part r.batch_contact (ok ob))
        signed none e = refl
        signed (some b) e =
            after_answer_ok signed_batch _ _ (batch_sent r.batch_contact b)
              (λ refused. accepted (inr (inl (b, e, refused))))

    call_signed :
        r.unsigned_call ≢ panic
        → on_ok r.unsigned_call (λ c. on_some c (sign_call p abi eth_key key fee gravity_id r))
          ≡ (ok tt, call_part r.call_contact r.unsigned_call)
    unfolding sign_call Refused
    call_signed n = elim (Outcome-cases r.unsigned_call) [
      | inl (oc, e) ↦ rw e (signed oc e)
      | inr (inl (x, e)) ↦ rw e refl
      | inr (inr e) ↦ absurd (n e)
    ]
      where
        signed :
            (oc : Option LogicCall)
            → r.unsigned_call ≡ ok oc
            → on_some oc (sign_call p abi eth_key key fee gravity_id r)
              ≡ (ok tt, call_part r.call_contact (ok oc))
        signed none e = refl
        signed (some c) e =
            after_answer_ok signed_call _ _ (call_sent r.call_contact c)
              (λ refused. accepted (inr (inr (c, e, refused))))

    -- Where both nodes are ready, the account has an address, no query panics, and the node refuses
    -- no fee: a round submits a transaction with the confirmations of all the unsigned validator sets,
    -- one with that of the oldest unsigned batch and one with that of the oldest unsigned logic call,
    -- as far as their queries succeed, keeps the answers to them, and goes on, whatever else they are.
    pub signer_round_signs :
        nodes_ready r.latest_eth_block r.latest_cosmos_block ≡ true
        → r.unsigned_valsets ≢ panic
        → r.unsigned_batch ≢ panic
        → r.unsigned_call ≢ panic
        → signer_round p abi eth_key key fee gravity_id r ≡ (
          ok tt,
          valset_part r.valsets_contact r.unsigned_valsets
              ++ (batch_part r.batch_contact r.unsigned_batch
                  ++ call_part r.call_contact r.unsigned_call),
        )
    unfolding signer_round
    signer_round_signs up nv nb nc =
        rw (signer_round, up, valsets_signed nv, batch_signed nb, call_signed nc) refl
