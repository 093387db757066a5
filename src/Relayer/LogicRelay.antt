-- ===== src/Relayer/LogicRelay.antt =====
-- What `relay_logic_calls` sends.
use near_aurora_bridge.Base.{
  ℕ, ◌<◌, ◌≡◌, inl, inr, Bool, true, none, some, List, arith, if◌then◌else◌, lt→ltb, All, Outcome,
  ok, Outcome-cases,
}
use mathlib.Core.Option.{none-ne-some}
use near_aurora_bridge.Types.{EthAddress, Uint256, Clarity}
use near_aurora_bridge.Valset.{Valset}
use near_aurora_bridge.Confirm.{LogicCallConfirmResponse, logic_call_confirm}
use near_aurora_bridge.Logic.{LogicCall}
use near_aurora_bridge.Messages.{Abi}
use near_aurora_bridge.Ethereum.{
  Crates, Transaction, Web3, GasCost, get_total, u128_max, get_logic_call_nonce,
}
use near_aurora_bridge.Ethereum.Submit.{Ours}
use near_aurora_bridge.Ethereum.LogicCall.{encode_logic_call_payload, estimate_logic_call_cost}
use near_aurora_bridge.Ethereum.Prepared.{lt→leb}
use near_aurora_bridge.Ethereum.LogicPrepared.{
  FreshCall, CarriesCall, send_call-FreshCall, send_call_sends,
}
use near_aurora_bridge.Relayer.Submit.{Moments}
use near_aurora_bridge.Relayer.LogicCalls.{
  CallQueries, pick_loop, decide_call, choose_call, relay_call, relay_logic_calls,
  should_relay_logic_call,
}
use near_aurora_bridge.Relayer.LogicPick.{IsLast, NeverPanics, pick_loop-IsLast, pick_loop-last}

module _ (k : Clarity) (abi : Abi) (x : Crates) (add : Uint256 → Uint256 → Outcome Uint256)
    (ours : Ours) (weth : EthAddress) (market : Bool) (current_valset : Valset) where
  relay_call-Fresh :
      (at : Moments) (call : LogicCall) (sigs : List LogicCallConfirmResponse) (t : Transaction)
      → (relay_call k abi x add ours weth market current_valset at call sigs).1 ≡ some t
      → FreshCall k abi x ours current_valset at.sending call
        × CarriesCall k abi x ours current_valset call sigs t
  unfolding relay_call
  relay_call-Fresh at call sigs t e =
      send_call-FreshCall k abi x ours current_valset at.sending at.sent call sigs t (ground arith)

  -- What `relay_logic_calls` sends is the last call of the node's list that the current set can submit,
  -- with its ordered signatures: no call after it in the list can be submitted, and the node has said
  -- that the contract is behind the call, and that the call has not timed out.
  pub relay_logic_calls-IsLast :
      (q : CallQueries) (at : Moments) (calls : List LogicCall) (t : Transaction)
      → q.get_latest_logic_calls ≡ some calls
      → (relay_logic_calls k abi x add ours weth market current_valset q at).1 ≡ some t
      → (call : LogicCall) × (sigs : List LogicCallConfirmResponse) × IsLast k abi q ours.gravity_id
          current_valset calls call sigs
        × FreshCall k abi x ours current_valset at.sending call
        × CarriesCall k abi x ours current_valset call sigs t
  unfolding relay_logic_calls
  relay_logic_calls-IsLast q at calls t ec e =
      elim (Outcome-cases (pick_loop k abi q ours.gravity_id current_valset calls none)) [
        | inl (r, er) ↦
            elim (pick_loop-IsLast k abi q ours.gravity_id current_valset calls none r er) [
              | inl (nothing, none_pass) ↦
                  let sent : none ≡ some t = rw (relay_logic_calls, ec, er, nothing) at e in
                  absurd (none-ne-some t sent)
              | inr (call, sigs, last, found) ↦
                  let sent : (relay_call k abi x add ours weth market current_valset at call sigs).1
                      ≡ some t =
                    rw (relay_logic_calls, ec, er, found) at e in
                  let (fresh, carries) = relay_call-Fresh at call sigs t sent in
                  (call, sigs, last, fresh, carries)
            ]
        | inr (inl (x, ex)) ↦
            let sent : none ≡ some t = rw (relay_logic_calls, ec, ex) at e in
            absurd (none-ne-some t sent)
        | inr (inr ep) ↦
            let sent : none ≡ some t = rw (relay_logic_calls, ec, ep) at e in
            absurd (none-ne-some t sent)
      ]

  -- A call that the contract is behind, whose cost fits 128 bits, that pays where the market is
  -- asked, and that can be encoded.
  unfoldable pub IsDue : Web3 → LogicCall → List LogicCallConfirmResponse → List ℕ → Type 0
  IsDue web3 call sigs payload =
      (n : ℕ) × (cost : GasCost) × (total : Uint256) × (get_logic_call_nonce x web3 ours.contract
          call.invalidation_id ours.eth_address
        ≡ ok n)
      × (n < call.invalidation_nonce)
      × (estimate_logic_call_cost k abi x ours current_valset web3 call sigs ≡ ok cost)
      × (get_total x cost ≡ ok total)
      × (total < u128_max)
      × ((if market
            then should_relay_logic_call add weth ours.eth_address web3 total call
            else ok true)
          ≡ ok true)
      × (encode_logic_call_payload k abi x ours current_valset call sigs ≡ ok payload)

  relay_call_sends :
      (at : Moments) (call : LogicCall) (sigs : List LogicCallConfirmResponse) (payload : List ℕ)
      → IsDue at.estimating call sigs payload
      → FreshCall k abi x ours current_valset at.sending call
      → (relay_call k abi x add ours weth market current_valset at call sigs).1
        ≡ some (record { to = ours.contract; payload = payload; sender = ours.eth_address })
  unfolding relay_call choose_call decide_call IsDue
  relay_call_sends at call sigs payload (n, cost, total, en, behind, ec, et, low, pays, ep) fresh =
      rw
        (
          relay_call,
          en,
          choose_call,
          lt→ltb n call.invalidation_nonce behind,
          ec,
          decide_call,
          et,
          lt→leb u128_max total low,
          pays,
        )
        (send_call_sends k abi x ours current_valset at.sending at.sent call sigs payload fresh ep)

  -- Where no test of signatures panics, and the last call of the node's list that the current set can
  -- submit is due and fresh, `relay_logic_calls` sends it.
  pub relay_logic_calls-sends :
      (q : CallQueries) (at : Moments) (calls : List LogicCall) (call : LogicCall)
      (sigs : List LogicCallConfirmResponse) (payload : List ℕ)
      → q.get_latest_logic_calls ≡ some calls
      → All (NeverPanics k abi q ours.gravity_id current_valset) calls
      → IsLast k abi q ours.gravity_id current_valset calls call sigs
      → IsDue at.estimating call sigs payload
      → FreshCall k abi x ours current_valset at.sending call
      → (relay_logic_calls k abi x add ours weth market current_valset q at).1
        ≡ some (record { to = ours.contract; payload = payload; sender = ours.eth_address })
  unfolding relay_logic_calls
  relay_logic_calls-sends q at calls call sigs payload ec no_panic last due fresh =
      rw
        (
          relay_logic_calls,
          ec,
          pick_loop-last k abi q ours.gravity_id current_valset calls none call sigs no_panic last,
        )
        (relay_call_sends at call sigs payload due fresh)
