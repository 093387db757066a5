-- ===== src/Relayer/Last.antt =====
-- `find_latest_valset` ends, and finds the last update of the validator set.
use near_aurora_bridge.Base.{
  ℕ, zero, suc, ◌+◌, ◌*◌, ◌/◌, ◌≤◌, ◌<◌, ◌≡◌, refl, sym, ◌∙◌, ◌⊎◌, inl, inr, ◌&&◌, Option, none,
  some, List, [], ◌∷◌, ◌++◌, reverse, arith, leb, if◌then◌else◌, leb→le, ==_self, ==_ne, Bool-cases,
  Option-cases, All, ok, some_inj,
}
use mathlib.Core.List.{reverse-cons}
use near_aurora_bridge.Types.{Uint256}
use near_aurora_bridge.Bytes.{Log, Reader}
use near_aurora_bridge.Valset.{Valset}
use near_aurora_bridge.Events.{ValsetUpdatedEvent, valset_from_log}
use near_aurora_bridge.Relayer.FindLatest.{
  ValsetLogs, same_valset, search_step, search_end, first_of, newest_event, valset_of_event,
  finish_valset, check_if_valsets_differ, try_newest, find_loop, find_latest_valset,
}

abbrev pub last_of : List Log → Option Log
last_of [] = none
last_of (x ∷ xs) = elim (last_of xs) [ none ↦ some x | some y ↦ some y ]

-- The logs of a chain, given with their blocks, that lie in a range.
abbrev pub within : ℕ → ℕ → List (ℕ × Log) → List Log
within from to [] = []
within from to ((b, log) ∷ chain) =
    if leb from b && leb b to then log ∷ within from to chain else within from to chain

-- The logs are listed in the order of their blocks.
abbrev pub Sorted : List (ℕ × Log) → Type 0
Sorted [] = Unit {0}
Sorted (p ∷ chain) = All (λ q. p.0 ≤ q.0) chain × Sorted chain

first_of-append :
    (xs : List Log) (x : Log)
    → first_of (xs ++ x ∷ []) ≡ elim (first_of xs) [ none ↦ some x | some y ↦ some y ]
first_of-append [] x = refl
first_of-append (y ∷ xs) x = refl

newest_event-last_of : (xs : List Log) → newest_event xs ≡ last_of xs
newest_event-last_of [] = refl
newest_event-last_of (x ∷ xs) =
    rw (reverse-cons x xs, first_of-append (reverse xs) x, newest_event-last_of xs) refl

-- Behind a block, a range that starts there holds all logs up to its end.
within-from :
    (from to : ℕ) (chain : List (ℕ × Log))
    → All (λ q. from ≤ q.0) chain
    → within from to chain ≡ within 0 to chain
within-from from to [] all = refl
within-from from to ((b, log) ∷ chain) (h, all) = ground (arith, within-from from to chain all)

All-at_least :
    (from b : ℕ) (chain : List (ℕ × Log))
    → from ≤ b
    → All (λ q. b ≤ q.0) chain
    → All (λ q. from ≤ q.0) chain
All-at_least from b [] le all = tt
All-at_least from b (q ∷ chain) le (h, all) = (omega arith, All-at_least from b chain le all)

-- The last log of a range is the last up to the end of the range.
last_of-within :
    (from to : ℕ) (chain : List (ℕ × Log)) (log : Log)
    → Sorted chain
    → last_of (within from to chain) ≡ some log
    → last_of (within 0 to chain) ≡ some log
last_of-within from to [] log sorted e = cc
last_of-within from to ((b, x) ∷ chain) log (after, sorted) e = elim (Bool-cases (leb from b)) [
  | inl le ↦
      let same : within from to chain ≡ within 0 to chain =
        within-from from to chain (All-at_least from b chain (leb→le from b le) after) in
      ground (arith, same)
  | inr gt ↦
      let earlier : last_of (within 0 to chain) ≡ some log =
        last_of-within from to chain log sorted (ground arith) in
      ground (arith, earlier)
]

-- A range with no log can be left out.
within-empty :
    (from to : ℕ) (chain : List (ℕ × Log))
    → from ≤ to
    → last_of (within from to chain) ≡ none
    → within 0 to chain ≡ within 0 from chain
within-empty from to [] le e = refl
within-empty from to ((b, x) ∷ chain) le e = ground (arith, within-empty from to chain le)

search_end-le : (current : Uint256) → search_end current ≤ current
search_end-le current = ground arith

-- A range that starts at the first block is not empty if there is a log up to its end.
start_pos :
    (from to : ℕ) (chain : List (ℕ × Log)) (log : Log)
    → last_of (within from to chain) ≡ none
    → last_of (within 0 to chain) ≡ some log
    → 0 < from
start_pos zero to chain log e el = cc
start_pos (suc from) to chain log e el = omega arith

-- Sets with the same nonce pass the assertion.
same_nonce-passes : (v w : Valset) → v.nonce ≡ w.nonce → check_if_valsets_differ (some v) w ≡ ok tt
unfolding check_if_valsets_differ
same_nonce-passes v w same = elim (Bool-cases (same_valset v w)) [
  | inl e ↦ rw (check_if_valsets_differ, e) refl
  | inr e ↦ rw (check_if_valsets_differ, e, same, ==_self w.nonce) refl
]

-- A step back leaves room, and the fuel for it.
search_end-enough :
    (current fuel : ℕ)
    → 0 < current
    → current + search_step ≤ search_step * suc fuel
    → search_end current + search_step ≤ search_step * fuel
search_end-enough current fuel pos enough = ground arith

module _ (d : Reader) (q : ValsetLogs) (chain : List (ℕ × Log)) where
  -- Cosmos answers for a nonce, with no set or with one of that nonce.
  unfoldable pub CosmosAnswers : Type 0
  CosmosAnswers =
      (n : ℕ)
      → (q.get_valset n ≡ some none)
        ⊎ ((v : Valset) × (q.get_valset n ≡ some (some v)) × (v.nonce ≡ n))

  -- Ethereum answers with the logs of a range.
  unfoldable pub EthereumAnswers : Type 0
  EthereumAnswers = (from to : Uint256) → q.valset_logs from to ≡ some (within from to chain)

  finish_valset-ok :
      CosmosAnswers
      → (event : ValsetUpdatedEvent) → finish_valset d q event ≡ ok (valset_of_event event)
  unfolding finish_valset check_if_valsets_differ CosmosAnswers
  finish_valset-ok answers event = elim (answers event.valset_nonce) [
    | inl e ↦ rw e refl
    | inr (v, e, same) ↦
        rw (finish_valset, e, same_nonce-passes v (valset_of_event event) same) refl
  ]

  find_loop-ok :
      CosmosAnswers
      → EthereumAnswers
      → Sorted chain
      → (fuel : ℕ) (current : Uint256) (log : Log) (event : ValsetUpdatedEvent)
      → last_of (within 0 current chain) ≡ some log
      → valset_from_log d log ≡ ok event
      → 0 < current
      → current + search_step ≤ search_step * fuel
      → find_loop d q fuel current ≡ some (ok (valset_of_event event))
  unfolding find_loop EthereumAnswers
  find_loop-ok cosmos ethereum sorted zero current log event el ep pos enough = absurd (omega arith)
  find_loop-ok cosmos ethereum sorted (suc fuel) current log event el ep pos enough =
      elim (Option-cases (last_of (within (search_end current) current chain))) [
        | inl empty ↦
            let earlier : last_of (within 0 (search_end current) chain) ≡ some log =
              rw (← within-empty (search_end current) current chain (search_end-le current) empty)
                el in
            rw
              (
                ==_ne current 0 (omega arith),
                ethereum (search_end current) current,
                newest_event-last_of (within (search_end current) current chain),
                empty,
              )
              (find_loop-ok cosmos ethereum sorted fuel (search_end current) log event earlier ep
                (start_pos (search_end current) current chain log empty el)
                (search_end-enough current fuel pos enough))
        | inr (newest, en) ↦
            let last : last_of (within 0 current chain) ≡ some newest =
              last_of-within (search_end current) current chain newest sorted en in
            let same : newest ≡ log = some_inj (sym last ∙ el) in
            rw
              (
                ==_ne current 0 (omega arith),
                ethereum (search_end current) current,
                newest_event-last_of (within (search_end current) current chain),
                en,
                same,
                try_newest,
                ep,
                finish_valset-ok cosmos event,
              )
              refl
      ]

-- Where the Ethereum node gives the latest block and, for every range, the logs of the updates in it,
-- which are those of a chain in the order of its blocks; Cosmos answers for a nonce with no set or
-- with one of that nonce; the chain has a log up to the latest block, which is not block zero, and
-- the last of these parses: the search ends within a round for each 5000 blocks and two more, and
-- returns the set of that last log.
pub find_latest_valset-last :
    (d : Reader) (q : ValsetLogs) (chain : List (ℕ × Log)) (latest fuel : ℕ) (log : Log)
    (event : ValsetUpdatedEvent)
    → q.eth_block_number ≡ some latest
    → EthereumAnswers d q chain
    → CosmosAnswers d q chain
    → Sorted chain
    → 0 < latest
    → last_of (within 0 latest chain) ≡ some log
    → valset_from_log d log ≡ ok event
    → latest / 5000 + 2 ≤ fuel
    → find_latest_valset d q fuel ≡ some (ok (valset_of_event event))
unfolding find_latest_valset
find_latest_valset-last d q chain latest fuel log event eb ethereum cosmos sorted pos el ep enough =
    rw (find_latest_valset, eb)
      (find_loop-ok d q chain cosmos ethereum sorted fuel latest log event el ep pos (omega arith))
