-- ===== src/Resync/Soundness.antt =====
-- The block that the search returns is that of the last event that was relayed.
use near_aurora_bridge.Base.{
  ℕ, zero, suc, ◌+◌, ◌≡◌, refl, ◌⊎◌, inl, inr, false, Option, some, List, [], ◌∷◌, arith,
  Option-cases, Any, Any-reverse, Outcome, ok, err, panic, is_ok,
}
use near_aurora_bridge.Types.{Uint256}
use near_aurora_bridge.Bytes.{Log, Reader}
use near_aurora_bridge.Events.{
  ValsetUpdatedEvent, valset_from_log, batch_from_log, deposit_from_log, deploy_from_log,
  logic_call_from_log,
}
use near_aurora_bridge.Oracle.{
  EventSignature, transaction_batch_executed, sent_to_cosmos, erc20_deployed, logic_call,
  valset_updated,
}
use near_aurora_bridge.Resync.{
  Chain, Search, found, missing, panicked, RangeLogs, range_logs, search_range, end_search,
  search_log, search_logs, match_valset, search_valset, search_valsets, resync_loop, first_nonce,
  get_last_checked_block, or_else,
}

-- A log of block `b` that parses to an event with a given nonce.
abbrev pub HasNonce : {E : Type 0} → (Log → Outcome E) → (E → ℕ) → ℕ → Uint256 → Log → Type 0
HasNonce {E} from_log nonce_of target b log =
    (log.block_number ≡ some b) × ((e : E) × (from_log log ≡ ok e) × (nonce_of e ≡ target))

-- A log of block `b` with the update to validator set zero, which is that of the deployment.
abbrev pub IsDeployment : Reader → Uint256 → Log → Type 0
IsDeployment d b log =
    (log.block_number ≡ some b)
    × ((e : ValsetUpdatedEvent) × (valset_from_log d log ≡ ok e) × (e.valset_nonce ≡ 0))

-- A log of a kind that the search may stop at.
abbrev pub IsLast : Reader → ℕ → Uint256 → EventSignature → Log → Type 0
IsLast d target b transaction_batch_executed log =
    HasNonce (batch_from_log d) (λ e. e.event_nonce) target b log
IsLast d target b sent_to_cosmos log =
    HasNonce (deposit_from_log d) (λ e. e.event_nonce) target b log
IsLast d target b erc20_deployed log =
    HasNonce (deploy_from_log d) (λ e. e.event_nonce) target b log
IsLast d target b logic_call log = HasNonce logic_call_from_log (λ e. e.event_nonce) target b log
IsLast d target b valset_updated log =
    HasNonce (valset_from_log d) (λ e. e.event_nonce) target b log
    ⊎ ((target ≡ 1) × IsDeployment d b log)

or_else-found : (s t : Search) (b : Uint256) → or_else s t ≡ found b → (s ≡ found b) ⊎ (t ≡ found b)
or_else-found (found c) t b e = inl e
or_else-found missing t b e = inr e
or_else-found panicked t b e = cc

ok_or_not : {A : Type 0} (o : Outcome A) → is_ok o ≡ false ⊎ ((a : A) × (o ≡ ok a))
ok_or_not (ok a) = inr (a, refl)
ok_or_not (err e) = inl refl
ok_or_not panic = inl refl

Search-cases : (s : Search) → ((b : Uint256) × (s ≡ found b)) ⊎ ((s ≡ missing) ⊎ (s ≡ panicked))
Search-cases (found b) = inl (b, refl)
Search-cases missing = inr (inl refl)
Search-cases panicked = inr (inr refl)

module _ {E : Type 0} (from_log : Log → Outcome E) (nonce_of : E → ℕ) (target : ℕ)
    (b : Uint256) where
  search_log-found :
      (log : Log)
      → search_log from_log nonce_of target log ≡ found b
      → HasNonce from_log nonce_of target b log
  search_log-found log h = elim (ok_or_not (from_log log)) [
    | inl fails ↦ absurd (ground arith)
    | inr (e, eq) ↦ (ground arith, (e, eq, ground arith))
  ]

  search_logs-found :
      (logs : List Log)
      → search_logs from_log nonce_of target logs ≡ found b
      → Any (HasNonce from_log nonce_of target b) logs
  unfolding search_logs
  search_logs-found [] h = cc
  search_logs-found (log ∷ logs) h =
      elim (or_else-found (search_log from_log nonce_of target log)
        (search_logs from_log nonce_of target logs) b h) [
          | inl first ↦ inl (search_log-found log first)
          | inr rest ↦ inr (search_logs-found logs rest)
        ]

module _ (d : Reader) (target : ℕ) (b : Uint256) where
  match_valset-found :
      (valset : ValsetUpdatedEvent) (block_number : Option Uint256)
      → match_valset valset target block_number ≡ found b
      → (block_number ≡ some b)
        × ((valset.event_nonce ≡ target) ⊎ ((target ≡ 1) × (valset.valset_nonce ≡ 0)))
  unfolding match_valset
  match_valset-found valset block_number h = ground arith

  search_valset-found :
      (log : Log) → search_valset d target log ≡ found b → IsLast d target b valset_updated log
  search_valset-found log h = elim (ok_or_not (valset_from_log d log)) [
    | inl fails ↦ absurd (ground arith)
    | inr (e, eq) ↦
        let (block, reason) = match_valset-found e log.block_number (ground arith) in
        elim reason [
          | inl nonce ↦ inl (block, (e, eq, nonce))
          | inr (first, zero_nonce) ↦ inr (first, (block, (e, eq, zero_nonce)))
        ]
  ]

  search_valsets-found :
      (logs : List Log)
      → search_valsets d target logs ≡ found b
      → Any (IsLast d target b valset_updated) logs
  unfolding search_valsets
  search_valsets-found [] h = cc
  search_valsets-found (log ∷ logs) h =
      elim (or_else-found (search_valset d target log) (search_valsets d target logs) b h) [
        | inl first ↦ inl (search_valset-found log first)
        | inr rest ↦ inr (search_valsets-found logs rest)
      ]

  -- The logs of one kind.
  abbrev logs_of : RangeLogs → EventSignature → List Log
  logs_of r transaction_batch_executed = r.batch_events
  logs_of r sent_to_cosmos = r.send_to_cosmos_events
  logs_of r erc20_deployed = r.erc20_deployed_events
  logs_of r logic_call = r.logic_call_executed_events
  logs_of r valset_updated = r.valset_events

  search_range-found :
      (r : RangeLogs)
      → search_range d target r ≡ found b
      → (s : EventSignature) × Any (IsLast d target b s) (logs_of r s)
  unfolding search_range
  search_range-found r h = elim (or_else-found _ _ b h) [
    | inl e ↦ (transaction_batch_executed, search_logs-found (batch_from_log d) _ target b _ e)
    | inr h1 ↦ elim (or_else-found _ _ b h1) [
      | inl e ↦ (sent_to_cosmos, search_logs-found (deposit_from_log d) _ target b _ e)
      | inr h2 ↦ elim (or_else-found _ _ b h2) [
        | inl e ↦ (erc20_deployed, search_logs-found (deploy_from_log d) _ target b _ e)
        | inr h3 ↦ elim (or_else-found _ _ b h3) [
          | inl e ↦ (logic_call, search_logs-found logic_call_from_log _ target b _ e)
          | inr e ↦ (valset_updated, Any-reverse _ _ (search_valsets-found _ e))
        ]
      ]
    ]
  ]

  range_logs-some :
      (reply : EventSignature → Option (List Log)) (r : RangeLogs) (s : EventSignature)
      → range_logs reply ≡ some r
      → reply s ≡ some (logs_of r s)
  range_logs-some reply r transaction_batch_executed h = ground arith
  range_logs-some reply r sent_to_cosmos h = ground arith
  range_logs-some reply r erc20_deployed h = ground arith
  range_logs-some reply r logic_call h = ground arith
  range_logs-some reply r valset_updated h = ground arith

  module _ (logs : ℕ → EventSignature → Uint256 → Uint256 → Option (List Log)) where
    -- Some answer of the node, to a request for one kind of logs, holds the log that is meant.
    abbrev pub Answered : Type 0
    Answered =
        (attempt : ℕ) × (from : Uint256) × (to : Uint256) × (s : EventSignature) × (answer : List
          Log)
        × (logs attempt s from to ≡ some answer)
        × Any (IsLast d target b s) answer

    resync_loop-found :
        (fuel attempt : ℕ) (current : Uint256)
        → resync_loop d logs target fuel attempt current ≡ some (ok b)
        → Answered
    unfolding resync_loop
    resync_loop-found zero attempt current h = cc
    resync_loop-found (suc fuel) attempt current h =
        elim (Option-cases (range_logs (λ s. logs attempt s (end_search current) current))) [
          | inl silent ↦ resync_loop-found fuel (attempt + 1) current (ground arith)
          | inr (r, answered) ↦ elim (Search-cases (search_range d target r)) [
            | inl (c, hit) ↦
                let same : c ≡ b = ground arith in
                let (s, any) = search_range-found r (rw (← same) hit) in
                (
                  attempt,
                  end_search current,
                  current,
                  s,
                  logs_of r s,
                  range_logs-some (λ s'. logs attempt s' (end_search current) current) r s answered,
                  any,
                )
            | inr (inl miss) ↦
                resync_loop-found fuel (attempt + 1) (end_search current) (ground arith)
            | inr (inr crash) ↦ absurd (ground arith)
          ]
        ]

-- When the search returns a block, some log that the node has given lies in that block and is the one
-- that was looked for: it parses to an event with the nonce that Cosmos has seen last (nonce one if it
-- has seen none), or, if that nonce is one, to the validator set update of the deployment.
pub get_last_checked_block_sound :
    (d : Reader) (c : Chain) (fuel : ℕ) (b : Uint256)
    → get_last_checked_block d c fuel ≡ some (ok b)
    → Answered d (first_nonce c.last_event_nonce) b c.logs
unfolding get_last_checked_block
get_last_checked_block_sound d c fuel b h =
    resync_loop-found d (first_nonce c.last_event_nonce) b c.logs fuel 0 c.latest_block h
