-- ===== src/Relayer/LogicTests.antt =====
-- A run of `relay_logic_calls` over three calls, of which the last has no signatures yet.
use near_aurora_bridge.Base.{
  ℕ, ◌+◌, ◌≡◌, refl, ap, subst, ◌≢◌, inl, inr, true, none, some, List, [], ◌∷◌, arith, ltb,
  if◌then◌else◌, All, Outcome, ok, panic, is_ok, some_inj, is_ok→ok,
}
use mathlib.Core.Option.{none-ne-some}
use mathlib.Core.List.{Permᴰ}
use near_aurora_bridge.Types.{Erc20Token}
use near_aurora_bridge.HashMap.{HashMap, get}
use near_aurora_bridge.Confirm.{LogicCallConfirmResponse, logic_call_confirm, get_hashmap}
use near_aurora_bridge.Float.{gravity_power_to_percent, round24}
use near_aurora_bridge.Signing.{
  order_sigs, get_signature_status, status_loop, add_member, to_arrays,
}
use near_aurora_bridge.Valset.{filter_empty_addresses}
use near_aurora_bridge.Logic.{
  LogicCall, token_columns, encode_logic_call_confirm, encode_logic_call_confirm_hashed,
}
use near_aurora_bridge.Ethereum.{get_logic_call_nonce, encode_valset_struct}
use near_aurora_bridge.Ethereum.LogicCall.{
  encode_logic_call_payload, estimate_logic_call_cost, prepare_call, await_call,
  send_eth_logic_call,
}
use near_aurora_bridge.Ethereum.LogicPrepared.{FreshCall, CarriesCall}
use near_aurora_bridge.Relayer.LogicCalls.{
  CallQueries, entry_or_zero, rewards_loop, worth_loop, should_relay_logic_call, pick_call,
  pick_loop, decide_call, choose_call, relay_call, relay_logic_calls,
}
use near_aurora_bridge.Relayer.LogicMarket.{
  price, AddsExactly, fees_in, worth, should_relay_logic_call-eq,
}
use near_aurora_bridge.Relayer.LogicPick.{IsLast, NonePasses, Passes, NeverPanics}
use near_aurora_bridge.Relayer.LogicRelay.{IsDue, relay_logic_calls-IsLast, relay_logic_calls-sends}
use near_aurora_bridge.Relayer.Tests.{clarity, abi, set}
use near_aurora_bridge.Relayer.SubmitTests.{crates, ours, web3, answers, transaction}

abbrev fee : ℕ → ℕ → Erc20Token
fee amount token = record { amount = amount; token_contract_address = token }

abbrev bridge_call : ℕ → LogicCall
bridge_call n = record {
  transfers = fee 100 5 ∷ [];
  fees = fee 2 5 ∷ fee 1 6 ∷ fee 2 5 ∷ [];
  logic_contract_address = 9;
  payload = [];
  timeout = 100;
  invalidation_id = 1 ∷ [];
  invalidation_nonce = n;
}

abbrev vote : ℕ → LogicCallConfirmResponse
vote a = record {
  invalidation_id = 1 ∷ [];
  invalidation_nonce = 7;
  ethereum_signer = a;
  orchestrator = 1;
  eth_signature = record { v = 27; r = a; s = 5 };
}

abbrev add : ℕ → ℕ → Outcome ℕ
add a b = ok (a + b)

-- The node has signatures for the calls below 9.
abbrev queries : CallQueries
queries = record {
  get_latest_logic_calls = some (bridge_call 7 ∷ bridge_call 8 ∷ bridge_call 9 ∷ []);
  get_logic_call_signatures = λ i n. if ltb n 9 then some (vote 11 ∷ []) else none;
}

calls_run :
    relay_logic_calls clarity abi crates add ours 5 true (set 1) queries (answers 0)
    ≡ (ok tt, some transaction)
unfolding relay_logic_calls relay_call choose_call decide_call pick_loop pick_call rewards_loop
    worth_loop should_relay_logic_call get_logic_call_nonce encode_valset_struct
    encode_logic_call_payload estimate_logic_call_cost prepare_call await_call send_eth_logic_call
    order_sigs gravity_power_to_percent round24 get_signature_status status_loop add_member
    to_arrays filter_empty_addresses get_hashmap token_columns encode_logic_call_confirm
    encode_logic_call_confirm_hashed
calls_run = refl

abbrev rewards : HashMap ℕ
rewards = (5, 4) ∷ (6, 1) ∷ []

rewards_run : rewards_loop add (bridge_call 7).fees [] ≡ ok rewards
unfolding rewards_loop
rewards_run = refl

add_exact : AddsExactly add
add_exact = λ a b h. refl

-- The other order of the tokens.
abbrev turned : HashMap ℕ
turned = (6, 1) ∷ (5, 4) ∷ []

should_relay_logic_call-eq_example :
    ((token : ℕ) → entry_or_zero (get token rewards) ≡ fees_in token (bridge_call 7).fees)
    × (should_relay_logic_call add 5 78 web3 2 (bridge_call 7)
        ≡ ok (ltb 2 (worth 5 78 web3 rewards)))
    × (worth_loop add 5 78 web3 2 turned 0 ≡ ok (ltb 2 (worth 5 78 web3 rewards)))
unfolding price
should_relay_logic_call-eq_example =
    should_relay_logic_call-eq add add_exact 5 78 web3 2 (bridge_call 7) rewards turned
      (omega arith) rewards_run (omega arith) ∣ Permᴰ.swap refl refl ∣₁

abbrev calls : List LogicCall
calls = bridge_call 7 ∷ bridge_call 8 ∷ bridge_call 9 ∷ []

sent_run :
    (relay_logic_calls clarity abi crates add ours 5 true (set 1) queries (answers 0)).1
    ≡ some transaction
sent_run = ap (λ r. r.1) calls_run

relay_logic_calls-IsLast_example :
    (call : LogicCall) × (sigs : List LogicCallConfirmResponse) × IsLast clarity abi queries []
      (set 1)
      calls
      call
      sigs
    × FreshCall clarity abi crates ours (set 1) web3 call
    × CarriesCall clarity abi crates ours (set 1) call sigs transaction
relay_logic_calls-IsLast_example =
    relay_logic_calls-IsLast clarity abi crates add ours 5 true (set 1) queries (answers 0) calls
      transaction refl sent_run

-- The votes of a call can be submitted.
votes_ok :
    is_ok (
      order_sigs clarity
        (encode_logic_call_confirm_hashed abi [] (bridge_call 8))
        (set 1)
        (vote 11 ∷ []))
    ≡ true
unfolding order_sigs gravity_power_to_percent round24 get_signature_status status_loop add_member
    get_hashmap encode_logic_call_confirm encode_logic_call_confirm_hashed token_columns
votes_ok = refl

chosen_IsLast : IsLast clarity abi queries [] (set 1) calls (bridge_call 8) (vote 11 ∷ [])
unfolding IsLast Passes NonePasses
chosen_IsLast =
    let (ordered, e) = is_ok→ok _ votes_ok in
    inr (inl (refl, (refl, ordered, e), (λ sigs passes. none-ne-some sigs passes.0, tt)))

never_panics :
    (n : ℕ)
    → order_sigs clarity
        (encode_logic_call_confirm_hashed abi [] (bridge_call n))
        (set 1)
        (vote 11 ∷ [])
      ≢ panic
unfolding order_sigs gravity_power_to_percent round24 get_signature_status status_loop add_member
    get_hashmap encode_logic_call_confirm encode_logic_call_confirm_hashed token_columns
never_panics n e = cc

calls-NeverPanics : All (NeverPanics clarity abi queries [] (set 1)) calls
unfolding NeverPanics
calls-NeverPanics = (
  λ sigs e.
      subst
        (λ s.
          order_sigs clarity (encode_logic_call_confirm_hashed abi [] (bridge_call 7)) (set 1) s
          ≢ panic)
        (some_inj e) (never_panics 7),
  (
    λ sigs e.
        subst
          (λ s.
            order_sigs clarity (encode_logic_call_confirm_hashed abi [] (bridge_call 8)) (set 1) s
            ≢ panic)
          (some_inj e) (never_panics 8),
    (λ sigs e. absurd (none-ne-some sigs e), tt),
  ),
)

chosen_IsDue :
    IsDue clarity abi crates add ours 5 true (set 1) web3 (bridge_call 8) (vote 11 ∷ []) []
unfolding IsDue get_logic_call_nonce encode_valset_struct encode_logic_call_payload
    estimate_logic_call_cost rewards_loop worth_loop should_relay_logic_call order_sigs
    gravity_power_to_percent round24 get_signature_status status_loop add_member to_arrays
    filter_empty_addresses get_hashmap token_columns encode_logic_call_confirm
    encode_logic_call_confirm_hashed
chosen_IsDue = (
  6,
  record { gas = 1; gas_price = 2 },
  2,
  refl,
  omega arith,
  refl,
  refl,
  omega arith,
  refl,
  refl,
)

chosen_FreshCall : FreshCall clarity abi crates ours (set 1) web3 (bridge_call 8)
unfolding FreshCall get_logic_call_nonce
chosen_FreshCall = (6, 90, refl, omega arith, refl, omega arith)

relay_logic_calls-sends_example :
    (relay_logic_calls clarity abi crates add ours 5 true (set 1) queries (answers 0)).1
    ≡ some transaction
relay_logic_calls-sends_example =
    relay_logic_calls-sends clarity abi crates add ours 5 true (set 1) queries (answers 0) calls
      (bridge_call 8) (vote 11 ∷ []) [] refl calls-NeverPanics chosen_IsLast chosen_IsDue
      chosen_FreshCall
