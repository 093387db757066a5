-- ===== src/Events/Fields.antt =====
-- What the five `from_logs` and `filter_by_event_nonce` of ethereum_events.rs share: they differ
-- in the type of the event alone.
use near_aurora_bridge.Base.{ℕ, List, [], ◌∷◌, ◌++◌, ltb, if◌then◌else◌}

module _ {ℓ} {E : Type ℓ} (event_nonce_of : E → ℕ) where
  -- `for item in input { if item.event_nonce > event_nonce { ret.push(item.clone()) } }`
  unfoldable pub filter_loop : ℕ → List E → List E → List E
  filter_loop event_nonce [] ret = ret
  filter_loop event_nonce (item ∷ input) ret =
      filter_loop event_nonce input
        (if ltb event_nonce (event_nonce_of item) then ret ++ item ∷ [] else ret)

  unfoldable pub filter_by_nonce : ℕ → List E → List E
  unfolding filter_loop
  filter_by_nonce event_nonce input = filter_loop event_nonce input []
