-- ===== src/Signer/Rounds.antt =====
-- When the signer stops.
use near_aurora_bridge.Base.{
  ℕ, ◌≡◌, refl, sym, ap, subst, ◌∙◌, ◌≢◌, ◌⊎◌, inl, inr, Option, none, some, List, [], ◌∷◌,
  Bool-cases, Option-cases, Any, GravityError, unrecoverable_error, Outcome, ok, err, panic, ◌>>=◌,
  try_map, is_ok→ok,
}
use near_aurora_bridge.Valset.{Valset}
use near_aurora_bridge.Batches.{TransactionBatch}
use near_aurora_bridge.Logic.{LogicCall}
use near_aurora_bridge.Messages.{Abi}
use near_aurora_bridge.Oracle.{nodes_ready}
use near_aurora_bridge.Cosmos.{
  Coin, CosmosGrpcError, insufficient_fees, insufficient_gas, bad_input, other_error, Reply, reply,
  fault, Printer, Contact, PrivateKey, EthPrivateKey,
}
use near_aurora_bridge.Cosmos.{MsgConfirmBatch}
use near_aurora_bridge.Batches.{get_checkpoint_values-eq}
use near_aurora_bridge.Messages.{encode_tx_batch_confirm}
use near_aurora_bridge.Cosmos.Confirms.{
  confirm_of_batch, send_valset_confirms, send_batch_confirm, send_logic_call_confirm,
}
use near_aurora_bridge.Signer.{
  SignerRound, Signed, signed_valsets, signed_batch, signed_call, after_answer, check_for_fee_error,
  and_then, on_ok, on_some, sign_valsets, sign_batch, sign_call, signer_round, signer_loop,
}

-- The node refuses the fee or the limit of gas.
abbrev pub IsFeeError : CosmosGrpcError → Type 0
IsFeeError (insufficient_fees min_fees) = Unit {0}
IsFeeError insufficient_gas = Unit {0}
IsFeeError bad_input = ⊥
IsFeeError other_error = ⊥

abbrev pub FeeRefused : {Tx : Type 0} → Outcome (Reply Tx) → Type 0
FeeRefused res = (f : CosmosGrpcError) × (res ≡ ok (fault f)) × IsFeeError f

fee_error_lem :
    {Tx : Type 0} (res : Reply Tx) (e : GravityError)
    → check_for_fee_error res ≡ err e
    → (e ≡ unrecoverable_error) × FeeRefused (ok res)
unfolding check_for_fee_error
fee_error_lem (reply tx) e h = cc
fee_error_lem (fault (insufficient_fees min_fees)) e h =
    (cc, (insufficient_fees min_fees, refl, tt))
fee_error_lem (fault insufficient_gas) e h = (cc, (insufficient_gas, refl, tt))
fee_error_lem (fault bad_input) e h = cc
fee_error_lem (fault other_error) e h = cc

checked_error :
    {Tx : Type 0} (m : Outcome (Reply Tx)) (e : GravityError)
    → ((e : GravityError) → m ≢ err e)
    → (m >>= check_for_fee_error) ≡ err e
    → (e ≡ unrecoverable_error) × FeeRefused m
checked_error panic e n h = cc
checked_error (err x) e n h = absurd (n x refl)
checked_error (ok res) e n h = fee_error_lem res e h

checked_ok :
    {Tx : Type 0} (m : Outcome (Reply Tx)) (res : Reply Tx)
    → m ≡ ok res
    → ¬ FeeRefused m
    → (m >>= check_for_fee_error) ≡ ok tt
unfolding check_for_fee_error
checked_ok m (reply tx) e n = rw e refl
checked_ok m (fault (insufficient_fees min_fees)) e n =
    absurd (n (insufficient_fees min_fees, e, tt))
checked_ok m (fault insufficient_gas) e n = absurd (n (insufficient_gas, e, tt))
checked_ok m (fault bad_input) e n = rw e refl
checked_ok m (fault other_error) e n = rw e refl

after_answer-checked :
    {Tx : Type 0} (f : Reply Tx → Signed Tx) (m : Outcome (Reply Tx))
    → (after_answer f m).0 ≡ (m >>= check_for_fee_error)
after_answer-checked f (ok res) = refl
after_answer-checked f (err e) = refl
after_answer-checked f panic = refl

pub after_answer_ok :
    {Tx : Type 0} (f : Reply Tx → Signed Tx) (m : Outcome (Reply Tx)) (res : Reply Tx)
    → m ≡ ok res
    → ¬ FeeRefused m
    → after_answer f m ≡ (ok tt, f res ∷ [])
after_answer_ok f m res e n =
    let checked : check_for_fee_error res ≡ ok tt =
      subst (λ o. (o >>= check_for_fee_error) ≡ ok tt) e (checked_ok m res e n) in
    rw (e, checked) refl

-- An error of two parts in a row is one of the first or of the second.
and_then-err :
    {Tx : Type 0} (a b : Outcome (Unit {0}) × List (Signed Tx)) (e : GravityError)
    → (and_then a b).0 ≡ err e
    → (a.0 ≡ err e) ⊎ (b.0 ≡ err e)
and_then-err (ok u, xs) b e h = inr h
and_then-err (err x, xs) b e h = inl h
and_then-err (panic, xs) b e h = cc

on_ok-err :
    {A Tx : Type 0} (m : Outcome A) (f : A → Outcome (Unit {0}) × List (Signed Tx))
    (e : GravityError)
    → (on_ok m f).0 ≡ err e
    → (a : A) × (m ≡ ok a) × ((f a).0 ≡ err e)
on_ok-err (ok a) f e h = (a, refl, h)
on_ok-err (err x) f e h = cc
on_ok-err panic f e h = cc

on_some-err :
    {A Tx : Type 0} (m : Option A) (f : A → Outcome (Unit {0}) × List (Signed Tx))
    (e : GravityError)
    → (on_some m f).0 ≡ err e
    → (a : A) × (m ≡ some a) × ((f a).0 ≡ err e)
on_some-err none f e h = cc
on_some-err (some a) f e h = (a, refl, h)

pub confirm_of_batch_ok :
    (p : Printer) (abi : Abi) (eth_key : EthPrivateKey) (gravity_id : List ℕ) (our_address : ℕ)
    (b : TransactionBatch)
    → (m : MsgConfirmBatch) × (confirm_of_batch p abi eth_key gravity_id our_address b ≡ ok m)
unfolding confirm_of_batch encode_tx_batch_confirm
confirm_of_batch_ok p abi eth_key gravity_id our_address b =
    is_ok→ok (confirm_of_batch p abi eth_key gravity_id our_address b)
      (rw (confirm_of_batch, encode_tx_batch_confirm, get_checkpoint_values-eq b) refl)

module _ {Args Tx : Type 0} (p : Printer) (abi : Abi) (eth_key : EthPrivateKey)
    (key : PrivateKey Args) (fee : Coin) (gravity_id : List ℕ) where
  valsets_no_err :
      (contact : Contact Args Tx) (vs : List Valset) (e : GravityError)
      → send_valset_confirms p abi contact eth_key key gravity_id fee vs ≢ err e
  unfolding send_valset_confirms
  valsets_no_err contact vs e h = elim (Option-cases (key.to_address contact.get_prefix)) [
    | inl n ↦ let a = rw (send_valset_confirms, n) at h in cc
    | inr (our_address, o) ↦ let a = rw (send_valset_confirms, o) at h in cc
  ]

  calls_no_err :
      (contact : Contact Args Tx) (cs : List LogicCall) (e : GravityError)
      → send_logic_call_confirm p abi contact eth_key key gravity_id fee cs ≢ err e
  unfolding send_logic_call_confirm
  calls_no_err contact cs e h = elim (Option-cases (key.to_address contact.get_prefix)) [
    | inl n ↦ let a = rw (send_logic_call_confirm, n) at h in cc
    | inr (our_address, o) ↦ let a = rw (send_logic_call_confirm, o) at h in cc
  ]

  batch_no_err :
      (contact : Contact Args Tx) (b : TransactionBatch) (e : GravityError)
      → send_batch_confirm p abi contact eth_key key gravity_id fee (b ∷ []) ≢ err e
  unfolding send_batch_confirm try_map
  batch_no_err contact b e h = elim (Option-cases (key.to_address contact.get_prefix)) [
    | inl n ↦ let a = rw (send_batch_confirm, n) at h in cc
    | inr (our_address, o) ↦
        let (m, em) = confirm_of_batch_ok p abi eth_key gravity_id our_address b in
        let a = rw (send_batch_confirm, o, try_map, em) at h in cc
  ]

  -- The node refuses the fee or the gas of one of the confirmations of a round.
  unfoldable pub Refused : SignerRound Args Tx → Type 0
  Refused r =
      ((v : Valset) × (vs : List Valset) × (r.unsigned_valsets ≡ ok (v ∷ vs))
        × FeeRefused
            (send_valset_confirms p abi r.valsets_contact eth_key key gravity_id fee (v ∷ vs)))
      ⊎ (((b : TransactionBatch) × (r.unsigned_batch ≡ ok (some b))
            × FeeRefused
                (send_batch_confirm p abi r.batch_contact eth_key key gravity_id fee (b ∷ [])))
          ⊎ ((c : LogicCall) × (r.unsigned_call ≡ ok (some c))
              × FeeRefused (
                  send_logic_call_confirm p abi r.call_contact eth_key key gravity_id fee
                    (c ∷ []))))

  valsets-Refused :
      (r : SignerRound Args Tx) (e : GravityError)
      → (on_ok r.unsigned_valsets (sign_valsets p abi eth_key key fee gravity_id r)).0 ≡ err e
      → (e ≡ unrecoverable_error) × Refused r
  unfolding sign_valsets Refused
  valsets-Refused r e h = let (vs, ev, hv) = on_ok-err r.unsigned_valsets _ e h in sent vs ev hv
    where
      sent :
          (vs : List Valset)
          → r.unsigned_valsets ≡ ok vs
          → (sign_valsets p abi eth_key key fee gravity_id r vs).0 ≡ err e
          → (e ≡ unrecoverable_error) × Refused r
      sent [] ev hv = cc
      sent (v ∷ vs) ev hv =
          let (fatal, refused) =
            checked_error
              (send_valset_confirms p abi r.valsets_contact eth_key key gravity_id fee (v ∷ vs)) e
              (valsets_no_err r.valsets_contact (v ∷ vs))
              (sym (
                  after_answer-checked signed_valsets (
                    send_valset_confirms p abi r.valsets_contact eth_key key gravity_id fee
                      (v ∷ vs)))
                ∙ hv) in
          (fatal, inl (v, vs, ev, refused))

  batch-Refused :
      (r : SignerRound Args Tx) (e : GravityError)
      → (on_ok r.unsigned_batch (λ b. on_some b (sign_batch p abi eth_key key fee gravity_id r))).0
        ≡ err e
      → (e ≡ unrecoverable_error) × Refused r
  unfolding sign_batch Refused
  batch-Refused r e h =
      let (ob, eb, hb) = on_ok-err r.unsigned_batch _ e h in
      let (b, es, hs) = on_some-err ob _ e hb in
      let (fatal, refused) =
        checked_error (send_batch_confirm p abi r.batch_contact eth_key key gravity_id fee (b ∷ []))
          e (batch_no_err r.batch_contact b)
          (sym (
              after_answer-checked signed_batch
                (send_batch_confirm p abi r.batch_contact eth_key key gravity_id fee (b ∷ [])))
            ∙ hs) in
      (fatal, inr (inl (b, eb ∙ ap ok es, refused)))

  call-Refused :
      (r : SignerRound Args Tx) (e : GravityError)
      → (on_ok r.unsigned_call (λ c. on_some c (sign_call p abi eth_key key fee gravity_id r))).0
        ≡ err e
      → (e ≡ unrecoverable_error) × Refused r
  unfolding sign_call Refused
  call-Refused r e h =
      let (oc, ec, hc) = on_ok-err r.unsigned_call _ e h in
      let (c, es, hs) = on_some-err oc _ e hc in
      let (fatal, refused) =
        checked_error
          (send_logic_call_confirm p abi r.call_contact eth_key key gravity_id fee (c ∷ [])) e
          (calls_no_err r.call_contact (c ∷ []))
          (sym (
              after_answer-checked signed_call
                (send_logic_call_confirm p abi r.call_contact eth_key key gravity_id fee (c ∷ [])))
            ∙ hs) in
      (fatal, inr (inr (c, ec ∙ ap ok es, refused)))

  signer_round-Refused :
      (r : SignerRound Args Tx) (e : GravityError)
      → (signer_round p abi eth_key key fee gravity_id r).0 ≡ err e
      → (e ≡ unrecoverable_error) × Refused r
  unfolding signer_round
  signer_round-Refused r e h =
      elim (Bool-cases (nodes_ready r.latest_eth_block r.latest_cosmos_block)) [
        | inl up ↦ elim (and_then-err _ _ e (rw (signer_round, up) at h)) [
          | inl hv ↦ valsets-Refused r e hv
          | inr rest ↦ elim (and_then-err _ _ e rest) [
            | inl hb ↦ batch-Refused r e hb
            | inr hc ↦ call-Refused r e hc
          ]
        ]
        | inr down ↦ let quiet : ok tt ≡ err e = rw (signer_round, down) at h in cc
      ]

  -- The signer stops with an error only if, in one of its rounds, the node has refused the fee or the
  -- limit of gas of a confirmation; the error is then the unrecoverable one.
  pub signer_loop-Refused :
      (rs : List (SignerRound Args Tx)) (e : GravityError)
      → (signer_loop p abi eth_key key fee gravity_id rs).0 ≡ err e
      → (e ≡ unrecoverable_error) × Any Refused rs
  unfolding signer_loop
  signer_loop-Refused [] e h = cc
  signer_loop-Refused (r ∷ rs) e h =
      elim (and_then-err (signer_round p abi eth_key key fee gravity_id r) _ e h) [
        | inl now ↦ let (fatal, refused) = signer_round-Refused r e now in (fatal, inl refused)
        | inr later ↦ let (fatal, refused) = signer_loop-Refused rs e later in (fatal, inr refused)
      ]
