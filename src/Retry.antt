-- ===== src/Retry.antt =====
-- gravity_utils/src/get_with_retry.rs, and `get_last_event_nonce_with_retry` of
-- cosmos_gravity/src/utils.rs: a request is repeated until it succeeds.
use near_aurora_bridge.Base.{ℕ, zero, suc, ◌≡◌, refl, Option, none, some, List, [], ◌∷◌, ◌++◌}

-- The first reply that is no error, of the replies to the attempts in their order. `none` means that
-- every attempt so far has failed, and the loop goes on.
pub with_retry {ℓ} : {A : Type ℓ} → List (Option A) → Option A
with_retry [] = none
with_retry (some res ∷ replies) = some res
with_retry (none ∷ replies) = with_retry replies

abbrev fails {ℓ} : {A : Type ℓ} → ℕ → List (Option A)
fails zero = []
fails (suc n) = none ∷ fails n

-- However often the request fails first, the first success is the result, and the later replies
-- are not looked at.
pub with_retry-first {ℓ} :
    {A : Type ℓ} (n : ℕ) (res : A) (replies : List (Option A))
    → with_retry (fails n ++ some res ∷ replies) ≡ some res
unfolding with_retry
with_retry-first zero res replies = refl
with_retry-first (suc n) res replies = with_retry-first n res replies
