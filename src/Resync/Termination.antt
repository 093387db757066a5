-- ===== src/Resync/Termination.antt =====
-- The fuel with which the search for the last event ends.
use near_aurora_bridge.Base.{
  ℕ, zero, suc, ◌+◌, ◌-◌, ◌*◌, ◌/◌, ◌≤◌, ◌≡◌, true, Option, some, List, arith, is_some,
  is_some→some, Outcome,
}
use near_aurora_bridge.Types.{Uint256}
use near_aurora_bridge.Bytes.{Log, Reader}
use near_aurora_bridge.Oracle.{EventSignature}
use near_aurora_bridge.Resync.{
  Chain, range_logs, end_search, blocks_to_search, resync_loop, first_nonce, get_last_checked_block,
}

-- From the round `m` on, every request for logs is answered.
abbrev pub AnswersFrom : ℕ → (ℕ → EventSignature → Uint256 → Uint256 → Option (List Log)) → Type 0
AnswersFrom m logs =
    (t : ℕ) (from to : Uint256) → m ≤ t → is_some (range_logs (λ s. logs t s from to)) ≡ true

module _ (d : Reader) (logs : ℕ → EventSignature → Uint256 → Uint256 → Option (List Log))
    (nonce m : ℕ) (answers : AnswersFrom m logs) where
  resync_loop_ends :
      (fuel attempt : ℕ) (current : Uint256)
      → current + blocks_to_search * (m - attempt) + blocks_to_search ≤ blocks_to_search * fuel
      → is_some (resync_loop d logs nonce fuel attempt current) ≡ true
  unfolding resync_loop
  resync_loop_ends zero attempt current h = absurd (omega arith)
  resync_loop_ends (suc fuel) attempt current h = ground (
    arith,
    resync_loop_ends fuel (attempt + 1) current,
    resync_loop_ends fuel (attempt + 1) (end_search current),
    answers attempt (end_search current) current,
  )

-- If the nodes answer from round `m` on, the search ends, with a block or a panic, within `m` rounds and
-- one for each 5000 blocks of the chain, and two more.
pub get_last_checked_block_ends :
    (d : Reader) (c : Chain) (m fuel : ℕ)
    → AnswersFrom m c.logs
    → c.latest_block / 5000 + m + 2 ≤ fuel
    → (result : Outcome Uint256) × (get_last_checked_block d c fuel ≡ some result)
unfolding get_last_checked_block
get_last_checked_block_ends d c m fuel answers h = is_some→some _ (
    resync_loop_ends d c.logs (first_nonce c.last_event_nonce) m answers fuel 0 c.latest_block
      (omega arith))
