-- ===== src/Oracle/Sending.antt =====
-- Which events `check_for_events` sends to Cosmos, and when it succeeds.
use near_aurora_bridge.Base.{
  ℕ, ◌<◌, ◌≡◌, refl, sym, subst, ◌∙◌, ◌≢◌, ◌⊎◌, inl, inr, true, not, Option, none, some, List, [],
  ◌∷◌, arith, Bool-cases, Option-cases, is_empty, All, rpc_error, Outcome, ok, err, panic,
  reject_if, or_err, some_inj, try_map, >>=-eq-ok, ok_inj,
}
use near_aurora_bridge.Types.{Uint256}
use near_aurora_bridge.Bytes.{Log, Reader}
use near_aurora_bridge.Events.{
  LogicCallExecutedEvent, valset_from_logs, batch_from_logs, deposit_from_logs, deploy_from_logs,
  logic_call_from_logs, logic_call_from_log, filter_valsets, filter_batches, filter_deposits,
  filter_deploys, filter_logic_calls,
}
use near_aurora_bridge.Events.Filter.{later, later_behind, filter_by_nonce-eq}
use near_aurora_bridge.Oracle.{
  transaction_batch_executed, sent_to_cosmos, erc20_deployed, logic_call, valset_updated, Num256,
  World, Claims, get_block_delay, parse_events, filter_claims, no_claims, confirm_claims,
  send_claims, unsent, gather, check_for_events,
}

-- Of each kind the events behind a nonce, in their order.
abbrev pub later_claims : ℕ → Claims → Claims
later_claims nonce c = record {
  deposits = later (λ e. e.event_nonce) nonce c.deposits;
  withdraws = later (λ e. e.event_nonce) nonce c.withdraws;
  erc20_deploys = later (λ e. e.event_nonce) nonce c.erc20_deploys;
  logic_calls = later (λ e. e.event_nonce) nonce c.logic_calls;
  valsets = later (λ e. e.event_nonce) nonce c.valsets;
}

-- All events of a set of claims are behind a nonce.
abbrev pub IsLater : ℕ → Claims → Type 0
IsLater last c =
    All (λ e. last < e.event_nonce) c.deposits
    × All (λ e. last < e.event_nonce) c.withdraws
    × All (λ e. last < e.event_nonce) c.erc20_deploys
    × All (λ e. last < e.event_nonce) c.logic_calls
    × All (λ e. last < e.event_nonce) c.valsets

filter_claims-eq : (nonce : ℕ) (c : Claims) → filter_claims nonce c ≡ later_claims nonce c
unfolding filter_claims filter_valsets filter_batches filter_deposits filter_deploys
    filter_logic_calls
filter_claims-eq nonce c = simp filter_by_nonce-eq

-- There is no event of any of the five kinds.
abbrev pub IsEmpty : Claims → Type 0
IsEmpty c =
    (c.deposits ≡ [])
    × (c.withdraws ≡ [])
    × (c.erc20_deploys ≡ [])
    × (c.logic_calls ≡ [])
    × (c.valsets ≡ [])

is_empty→nil : {A : Type 0} (xs : List A) → is_empty xs ≡ true → xs ≡ []
is_empty→nil [] h = refl
is_empty→nil (x ∷ xs) h = cc

no_claims-IsEmpty : (c : Claims) → no_claims c ≡ true → IsEmpty c
unfolding no_claims
no_claims-IsEmpty c h = (
  is_empty→nil c.deposits (ground (arith, h)),
  is_empty→nil c.withdraws (ground (arith, h)),
  is_empty→nil c.erc20_deploys (ground (arith, h)),
  is_empty→nil c.logic_calls (ground (arith, h)),
  is_empty→nil c.valsets (ground (arith, h)),
)

-- What a successful call has done with the events behind the last nonce: nothing, for there was none;
-- or it has sent them all, and the nonce on Cosmos has moved.
abbrev pub Handled : World → ℕ → Claims → Option Claims → Type 0
Handled w last claims sent =
    (IsEmpty claims × (sent ≡ none))
    ⊎ ((sent ≡ some claims) × ((new : ℕ) × (w.new_event_nonce ≡ some new) × (new ≢ last)))

confirm_claims-ok :
    (w : World) (last : ℕ) (latest b : Uint256)
    → confirm_claims w last latest ≡ ok b
    → (new : ℕ) × (w.new_event_nonce ≡ some new) × (new ≢ last) × (latest ≡ b)
unfolding confirm_claims
confirm_claims-ok w last latest b e =
    let (accepted, _, e1) = >>=-eq-ok w.claims_accepted _ e in
    let (u, _, e2) = >>=-eq-ok (reject_if (not accepted) rpc_error) _ e1 in
    let (new, new_eq, e3) = >>=-eq-ok (or_err w.new_event_nonce rpc_error) _ e2 in
    (new, ground arith, ground arith, ground arith)

send_claims-Handled :
    (w : World) (last : ℕ) (latest b : Uint256) (c : Claims)
    → (send_claims w last latest c).0 ≡ ok b
    → (latest ≡ b) × Handled w last c (send_claims w last latest c).1
unfolding send_claims
send_claims-Handled w last latest b c e = elim (Bool-cases (no_claims c)) [
  | inl nothing ↦
      (ground (arith, nothing), inl (no_claims-IsEmpty c nothing, ground (arith, nothing)))
  | inr some_event ↦
      let confirmed : confirm_claims w last latest ≡ ok b = ground (arith, some_event) in
      let (new, new_eq, moved, same) = confirm_claims-ok w last latest b confirmed in
      (same, inr (ground (arith, some_event), (new, new_eq, moved)))
]

unsent-ok :
    (w : World) (g : Outcome (Uint256 × ℕ × Claims)) (b : Uint256)
    → (unsent g w).0 ≡ ok b
    → (latest : Uint256) × (last : ℕ) × (c : Claims) × (g ≡ ok (latest, last, c))
      × ((send_claims w last latest c).0 ≡ ok b)
unsent-ok w (ok (latest, last, c)) b e = (latest, last, c, refl, e)
unsent-ok w (err x) b e = cc
unsent-ok w panic b e = cc

unsent-some :
    (w : World) (g : Outcome (Uint256 × ℕ × Claims)) (sent : Claims)
    → (unsent g w).1 ≡ some sent
    → (latest : Uint256) × (last : ℕ) × (g ≡ ok (latest, last, sent))
unfolding send_claims
unsent-some w (ok (latest, last, c)) sent e = (latest, last, ground arith)
unsent-some w (err x) sent e = cc
unsent-some w panic sent e = cc

later_claims_behind : (nonce : ℕ) (c : Claims) → IsLater nonce (later_claims nonce c)
later_claims_behind nonce c = (
  later_behind _ nonce c.deposits,
  later_behind _ nonce c.withdraws,
  later_behind _ nonce c.erc20_deploys,
  later_behind _ nonce c.logic_calls,
  later_behind _ nonce c.valsets,
)

gather-ok :
    (d : Reader) (n : Num256) (w : World) (start latest : Uint256) (last : ℕ) (c : Claims)
    → gather d n w start ≡ ok (latest, last, c)
    → (events : Claims) × (n.sub w.block_number (get_block_delay w.net_version) ≡ ok latest)
      × (parse_events d w start latest ≡ ok events)
      × (w.last_event_nonce ≡ some last)
      × (c ≡ later_claims last events)
unfolding gather
gather-ok d n w start latest last c e =
    let (block, block_eq, e1) =
      >>=-eq-ok (n.sub w.block_number (get_block_delay w.net_version)) _ e in
    let (events, parsed, e2) = >>=-eq-ok (parse_events d w start block) _ e1 in
    let (nonce, nonce_eq, e3) = >>=-eq-ok (or_err w.last_event_nonce rpc_error) _ e2 in
    (events, ground arith, ground arith, ground arith, ground (arith, filter_claims-eq last events))

call_logs_fail :
    (call : Log) (calls : List Log) (found : List LogicCallExecutedEvent)
    → logic_call_from_logs (call ∷ calls) ≢ ok found
unfolding logic_call_from_logs logic_call_from_log try_map
call_logs_fail call calls found e = cc

module _ (d : Reader) (n : Num256) (w : World) (start : Uint256) where
  parse_events-logged :
      (latest : Uint256) (call : Log) (calls : List Log) (events : Claims)
      → w.logs logic_call start latest ≡ some (call ∷ calls)
      → parse_events d w start latest ≢ ok events
  unfolding parse_events
  parse_events-logged latest call calls events logged e =
      let (deposit_logs, _, e1) =
        >>=-eq-ok (or_err (w.logs sent_to_cosmos start latest) rpc_error) _ e in
      let (batch_logs, _, e2) =
        >>=-eq-ok (or_err (w.logs transaction_batch_executed start latest) rpc_error) _ e1 in
      let (valset_logs, _, e3) =
        >>=-eq-ok (or_err (w.logs valset_updated start latest) rpc_error) _ e2 in
      let (deploy_logs, _, e4) =
        >>=-eq-ok (or_err (w.logs erc20_deployed start latest) rpc_error) _ e3 in
      let (call_logs, ec, e5) =
        >>=-eq-ok (or_err (w.logs logic_call start latest) rpc_error) _ e4 in
      let same : call_logs ≡ call ∷ calls = ground (arith, logged, ec) in
      let (valsets, _, e6) = >>=-eq-ok (valset_from_logs d valset_logs) _ e5 in
      let (withdraws, _, e7) = >>=-eq-ok (batch_from_logs d batch_logs) _ e6 in
      let (deposits, _, e8) = >>=-eq-ok (deposit_from_logs d deposit_logs) _ e7 in
      let (deploys, _, e9) = >>=-eq-ok (deploy_from_logs d deploy_logs) _ e8 in
      let (found, ef, e10) = >>=-eq-ok (logic_call_from_logs call_logs) _ e9 in
      call_logs_fail call calls found (subst (λ logs. logic_call_from_logs logs ≡ ok found) same ef)

  gather-none :
      (latest : Uint256) (call : Log) (calls : List Log)
      → n.sub w.block_number (get_block_delay w.net_version) ≡ ok latest
      → w.logs logic_call start latest ≡ some (call ∷ calls)
      → (latest' : Uint256) (last : ℕ) (c : Claims) → gather d n w start ≢ ok (latest', last, c)
  gather-none latest call calls hs logged latest' last c gathered =
      let (events, block_eq, parsed, nonce_eq, claims_eq) =
        gather-ok d n w start latest' last c gathered in
      let same : latest ≡ latest' = ok_inj (sym hs ∙ block_eq) in
      parse_events-logged latest call calls events logged (rw same parsed)

  -- A call that succeeds returns the latest block less the delay. Up to that block all events parse,
  -- and of these it has sent exactly those behind the last nonce that Cosmos has seen, after which
  -- that nonce has moved; or there is none of them, and nothing is sent.
  pub check_for_events_ok :
      (b : Uint256)
      → (check_for_events d n w start).0 ≡ ok b
      → (n.sub w.block_number (get_block_delay w.net_version) ≡ ok b)
        × ((events : Claims) × (last : ℕ) × (parse_events d w start b ≡ ok events)
            × (w.last_event_nonce ≡ some last)
            × Handled w last (later_claims last events) (check_for_events d n w start).1)
  unfolding check_for_events
  check_for_events_ok b e =
      let (latest, last, c, gathered, sent) = unsent-ok w (gather d n w start) b e in
      let (events, block_eq, parsed, nonce_eq, claims_eq) =
        gather-ok d n w start latest last c gathered in
      let (same, handled) = send_claims-Handled w last latest b c sent in
      rw (gathered, ← same)
        (
          block_eq,
          (
            events,
            last,
            parsed,
            nonce_eq,
            subst (λ x. Handled w last x (send_claims w last latest c).1) claims_eq handled,
          ),
        )

  -- Where there is a log of an executed logic call among those up to the latest block less the delay,
  -- a call never succeeds and sends nothing, whatever else the nodes answer: the oracle cannot get
  -- past that block.
  pub check_for_events_logic_call :
      (latest : Uint256) (call : Log) (calls : List Log)
      → n.sub w.block_number (get_block_delay w.net_version) ≡ ok latest
      → w.logs logic_call start latest ≡ some (call ∷ calls)
      → ((b : Uint256) → (check_for_events d n w start).0 ≢ ok b)
        × ((check_for_events d n w start).1 ≡ none)
  unfolding check_for_events
  check_for_events_logic_call latest call calls hs logged = (
    λ b e.
        let (latest', last, c, gathered, sent) = unsent-ok w (gather d n w start) b e in
        gather-none latest call calls hs logged latest' last c gathered,
    elim (Option-cases (unsent (gather d n w start) w).1) [
      | inl nothing ↦ nothing
      | inr (c, e) ↦
          let (latest', last, gathered) = unsent-some w (gather d n w start) c e in
          absurd (gather-none latest call calls hs logged latest' last c gathered)
    ],
  )

  -- Whatever the result of the call, all events that it sends are behind the last nonce that Cosmos has
  -- seen.
  pub check_for_events_no_replay :
      (last : ℕ) (sent : Claims)
      → w.last_event_nonce ≡ some last
      → (check_for_events d n w start).1 ≡ some sent
      → IsLater last sent
  unfolding check_for_events
  check_for_events_no_replay last sent e h =
      let (latest, nonce, gathered) = unsent-some w (gather d n w start) sent h in
      let (events, _, _, nonce_eq, claims_eq) = gather-ok d n w start latest nonce sent gathered in
      let same : nonce ≡ last = some_inj (sym nonce_eq ∙ e) in
      rw (claims_eq, same) (later_claims_behind last events)
