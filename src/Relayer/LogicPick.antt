-- ===== src/Relayer/LogicPick.antt =====
-- Which call the search of `relay_logic_calls` ends with.
use near_aurora_bridge.Base.{
  ℕ, ◌≡◌, refl, sym, ap, ◌∙◌, ◌≢◌, ◌⊎◌, inl, inr, some, List, [], ◌∷◌, Option-cases, All, ok, panic,
  some_inj, >>=-eq-ok, Outcome-cases, ok_inj,
}
use mathlib.Core.Option.{none-ne-some}
use near_aurora_bridge.Types.{Clarity}
use near_aurora_bridge.Valset.{Valset}
use near_aurora_bridge.Confirm.{LogicCallConfirmResponse, logic_call_confirm}
use near_aurora_bridge.Signing.{GravitySignature, order_sigs}
use near_aurora_bridge.Logic.{LogicCall, encode_logic_call_confirm_hashed}
use near_aurora_bridge.Messages.{Abi}
use near_aurora_bridge.Relayer.LogicCalls.{CallQueries, Oldest, pick_call, pick_loop}

module _ (k : Clarity) (abi : Abi) (q : CallQueries) (gravity_id : List ℕ)
    (current_valset : Valset) where
  -- Cosmos has signatures of the call that the current set can submit.
  unfoldable pub Passes : LogicCall → List LogicCallConfirmResponse → Type 0
  Passes call sigs =
      (q.get_logic_call_signatures call.invalidation_id call.invalidation_nonce ≡ some sigs)
      × (ordered : List GravitySignature) × (order_sigs k
            (encode_logic_call_confirm_hashed abi gravity_id call) current_valset sigs
          ≡ ok ordered)

  -- None of the calls passes.
  unfoldable pub NonePasses : List LogicCall → Type 0
  NonePasses [] = Unit {0}
  NonePasses (call ∷ calls) =
      ((sigs : List LogicCallConfirmResponse) → ¬ Passes call sigs) × NonePasses calls

  -- The last call of the list that passes.
  unfoldable pub IsLast : List LogicCall → LogicCall → List LogicCallConfirmResponse → Type 0
  IsLast [] call sigs = ⊥
  IsLast (c ∷ calls) call sigs =
      ((c ≡ call) × Passes call sigs × NonePasses calls) ⊎ IsLast calls call sigs

  pick_call_lem :
      (call : LogicCall) (oldest r : Oldest)
      → pick_call k abi q gravity_id current_valset call oldest ≡ ok r
      → ((r ≡ oldest) × ((sigs : List LogicCallConfirmResponse) → ¬ Passes call sigs))
        ⊎ ((sigs : List LogicCallConfirmResponse) × Passes call sigs × (r ≡ some (call, sigs)))
  unfolding pick_call Passes
  pick_call_lem call oldest r e =
      elim (Option-cases
        (q.get_logic_call_signatures call.invalidation_id call.invalidation_nonce)) [
          | inl no_sigs ↦
              let kept : r ≡ oldest = sym (ok_inj (rw (pick_call, no_sigs) at e)) in
              inl (kept, λ sigs passes. none-ne-some sigs (sym no_sigs ∙ passes.0))
          | inr (sigs, es) ↦
              elim (Outcome-cases (
                order_sigs k (encode_logic_call_confirm_hashed abi gravity_id call) current_valset
                  sigs)) [
                    | inl (ordered, eo) ↦
                        inr (sigs, (es, ordered, eo), sym (ok_inj (rw (pick_call, es, eo) at e)))
                    | inr (inl (x, ex)) ↦
                        let kept : r ≡ oldest = sym (ok_inj (rw (pick_call, es, ex) at e)) in
                        inl (
                          kept,
                          λ sigs' passes.
                              let same : sigs ≡ sigs' = some_inj (sym es ∙ passes.0) in
                              let passed = passes.2 in cc,
                        )
                    | inr (inr ep) ↦ let cut : panic ≡ ok r = rw (pick_call, es, ep) at e in cc
                  ]
        ]

  pub pick_loop-IsLast :
      (calls : List LogicCall) (oldest r : Oldest)
      → pick_loop k abi q gravity_id current_valset calls oldest ≡ ok r
      → ((r ≡ oldest) × NonePasses calls)
        ⊎ ((call : LogicCall) × (sigs : List LogicCallConfirmResponse) × IsLast calls call sigs
            × (r ≡ some (call, sigs)))
  unfolding pick_loop NonePasses IsLast
  pick_loop-IsLast [] oldest r e = inl (sym (ok_inj e), tt)
  pick_loop-IsLast (call ∷ calls) oldest r e =
      let (o, eo, er) = >>=-eq-ok (pick_call k abi q gravity_id current_valset call oldest) _ e in
      elim (pick_loop-IsLast calls o r er) [
        | inl (same, none_pass) ↦ elim (pick_call_lem call oldest o eo) [
          | inl (kept, fails) ↦ inl (same ∙ kept, (fails, none_pass))
          | inr (sigs, passes, picked) ↦
              inr (call, sigs, inl (refl, passes, none_pass), same ∙ picked)
        ]
        | inr (c, sigs, last, found) ↦ inr (c, sigs, inr last, found)
      ]

  -- No test of signatures panics.
  unfoldable pub NeverPanics : LogicCall → Type 0
  NeverPanics call =
      (sigs : List LogicCallConfirmResponse)
      → q.get_logic_call_signatures call.invalidation_id call.invalidation_nonce ≡ some sigs
      → order_sigs k (encode_logic_call_confirm_hashed abi gravity_id call) current_valset sigs
        ≢ panic

  pick_call_ok :
      (call : LogicCall) (oldest : Oldest)
      → NeverPanics call
      → (r : Oldest) × (pick_call k abi q gravity_id current_valset call oldest ≡ ok r)
  unfolding pick_call NeverPanics
  pick_call_ok call oldest no_panic =
      elim (Option-cases
        (q.get_logic_call_signatures call.invalidation_id call.invalidation_nonce)) [
          | inl no_sigs ↦ (oldest, rw (pick_call, no_sigs) refl)
          | inr (sigs, es) ↦
              elim (Outcome-cases (
                order_sigs k (encode_logic_call_confirm_hashed abi gravity_id call) current_valset
                  sigs)) [
                    | inl (ordered, eo) ↦ (some (call, sigs), rw (pick_call, es, eo) refl)
                    | inr (inl (x, ex)) ↦ (oldest, rw (pick_call, es, ex) refl)
                    | inr (inr ep) ↦ absurd (no_panic sigs es ep)
                  ]
        ]

  pick_call_keeps :
      (call : LogicCall) (oldest : Oldest)
      → NeverPanics call
      → ((sigs : List LogicCallConfirmResponse) → ¬ Passes call sigs)
      → pick_call k abi q gravity_id current_valset call oldest ≡ ok oldest
  pick_call_keeps call oldest no_panic fails =
      let (r, er) = pick_call_ok call oldest no_panic in
      elim (pick_call_lem call oldest r er) [
        | inl (kept, _) ↦ er ∙ ap ok kept
        | inr (sigs, passes, _) ↦ absurd (fails sigs passes)
      ]

  pick_loop_keeps :
      (calls : List LogicCall) (oldest : Oldest)
      → All NeverPanics calls
      → NonePasses calls
      → pick_loop k abi q gravity_id current_valset calls oldest ≡ ok oldest
  unfolding pick_loop NonePasses
  pick_loop_keeps [] oldest h n = refl
  pick_loop_keeps (call ∷ calls) oldest h n =
      rw (pick_call_keeps call oldest h.0 n.0) (pick_loop_keeps calls oldest h.1 n.1)

  pub pick_loop-last :
      (calls : List LogicCall) (oldest : Oldest) (call : LogicCall)
      (sigs : List LogicCallConfirmResponse)
      → All NeverPanics calls
      → IsLast calls call sigs
      → pick_loop k abi q gravity_id current_valset calls oldest ≡ ok (some (call, sigs))
  unfolding pick_loop IsLast pick_call Passes
  pick_loop-last [] oldest call sigs h last = absurd last
  pick_loop-last (c ∷ calls) oldest call sigs h (inl (same, (es, ordered, eo), none_pass)) =
      let picked : pick_call k abi q gravity_id current_valset call oldest
          ≡ ok (some (call, sigs)) =
        rw (pick_call, es, eo) refl in
      rw (ap (λ z. pick_call k abi q gravity_id current_valset z oldest) same ∙ picked)
        (pick_loop_keeps calls (some (call, sigs)) h.1 none_pass)
  pick_loop-last (c ∷ calls) oldest call sigs h (inr last) =
      let (o, eo) = pick_call_ok c oldest h.0 in rw eo (pick_loop-last calls o call sigs h.1 last)
