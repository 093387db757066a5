-- ===== src/Events/Filter.antt =====
-- `filter_by_event_nonce` against the filter of the library of lists.
use near_aurora_bridge.Base.{
  ℕ, ◌<◌, ◌≡◌, sym, ◌∙◌, inl, inr, List, [], ◌∷◌, ◌++◌, arith, ltb, Bool-cases, filter, All,
}
use mathlib.Core.List.{append-nil, append_assoc}
use near_aurora_bridge.Events.{filter_by_nonce, filter_loop}

module _ {ℓ} {E : Type ℓ} (nonce_of : E → ℕ) (event_nonce : ℕ) where
  -- The events behind a nonce, in their order.
  abbrev pub later : List E → List E
  later input = filter (λ e. ltb event_nonce (nonce_of e)) input

  filter_loop-eq :
      (input ret : List E) → filter_loop nonce_of event_nonce input ret ≡ ret ++ later input
  unfolding filter_loop
  filter_loop-eq [] ret = sym (append-nil ret)
  filter_loop-eq (e ∷ input) ret = elim (Bool-cases (ltb event_nonce (nonce_of e))) [
    | inl new ↦
        rw new (filter_loop-eq input (ret ++ e ∷ []) ∙ append_assoc ret (e ∷ []) (later input))
    | inr old ↦ rw old (filter_loop-eq input ret)
  ]

  pub filter_by_nonce-eq :
      (input : List E) → filter_by_nonce nonce_of event_nonce input ≡ later input
  unfolding filter_by_nonce
  filter_by_nonce-eq input = filter_loop-eq input []

  pub later_behind : (input : List E) → All (λ e. event_nonce < nonce_of e) (later input)
  later_behind [] = tt
  later_behind (e ∷ input) = ground (arith, later_behind input)
