-- ===== src/Relayer/LogicCalls.antt =====
-- relayer/src/logic_call_relaying.rs.
use near_aurora_bridge.Base.{
  ℕ, Bool, true, false, Option, none, some, List, [], ◌∷◌, ltb, ◌==◌, if◌then◌else◌, Outcome, ok,
  err, panic, unwrap, ◌>>=◌,
}
use near_aurora_bridge.Types.{EthAddress, Uint256, Erc20Token, Clarity}
use near_aurora_bridge.HashMap.{HashMap, get, insert}
use near_aurora_bridge.Valset.{Valset}
use near_aurora_bridge.Confirm.{LogicCallConfirmResponse, logic_call_confirm}
use near_aurora_bridge.Signing.{order_sigs}
use near_aurora_bridge.Logic.{LogicCall, encode_logic_call_confirm_hashed}
use near_aurora_bridge.Messages.{Abi}
use near_aurora_bridge.Ethereum.{
  Crates, Transaction, Web3, GasCost, get_total, downcast_to_u128, get_logic_call_nonce,
}
use near_aurora_bridge.Ethereum.Submit.{Ours}
use near_aurora_bridge.Ethereum.LogicCall.{estimate_logic_call_cost, send_eth_logic_call}
use near_aurora_bridge.Relayer.Submit.{Moments}

-- What the Cosmos node answers; `none` is a failed query.
pub record CallQueries : Type 0 where
  pub get_latest_logic_calls : Option (List LogicCall)
  pub get_logic_call_signatures : List ℕ → ℕ → Option (List LogicCallConfirmResponse)

-- `*rewards.entry(reward_token).or_insert(zero)`
abbrev pub entry_or_zero : Option Uint256 → Uint256
entry_or_zero none = 0
entry_or_zero (some total) = total

-- The value of a reward in WETH, or nothing if there is no price.
abbrev pub weth_equiv : EthAddress → EthAddress → Web3 → EthAddress → Uint256 → Option Uint256
weth_equiv weth our_address web3 token total =
    if token == weth then some total else web3.get_uniswap_price our_address token weth total

-- `add` is the addition of num256.
module _ (add : Uint256 → Uint256 → Outcome Uint256) where
  -- The rewards by token.
  unfoldable pub rewards_loop : List Erc20Token → HashMap Uint256 → Outcome (HashMap Uint256)
  rewards_loop [] rewards = ok rewards
  rewards_loop (fee ∷ fees) rewards = do
    total ← add (entry_or_zero (get fee.token_contract_address rewards)) fee.amount
    rewards_loop fees (insert fee.token_contract_address total rewards)

  module _ (weth our_address : EthAddress) (web3 : Web3) (cost : Uint256) where
    -- The loop over the entries, with its early exit.
    unfoldable pub worth_loop : HashMap Uint256 → Uint256 → Outcome Bool
    worth_loop [] total_weth_reward = ok false
    worth_loop ((token, total) ∷ rewards) total_weth_reward =
        elim (weth_equiv weth our_address web3 token total) [
          | none ↦ worth_loop rewards total_weth_reward
          | some value ↦ do
            sum ← add total_weth_reward value
            let rest = worth_loop rewards sum
            if ltb cost sum then ok true else rest
        ]

    unfoldable pub should_relay_logic_call : LogicCall → Outcome Bool
    should_relay_logic_call logic_call = do
      rewards ← rewards_loop logic_call.fees []
      worth_loop rewards 0

-- The two variables that the search keeps.
abbrev pub Oldest : Type 0
Oldest = Option (LogicCall × List LogicCallConfirmResponse)

module _ (k : Clarity) (abi : Abi) (q : CallQueries) (gravity_id : List ℕ)
    (current_valset : Valset) where
  -- One round: a call that can be submitted takes the place of the one before.
  unfoldable pub pick_call : LogicCall → Oldest → Outcome Oldest
  pick_call call oldest =
      elim (q.get_logic_call_signatures call.invalidation_id call.invalidation_nonce) [
        | none ↦ ok oldest
        | some sigs ↦
            elim (order_sigs k (encode_logic_call_confirm_hashed abi gravity_id call) current_valset
              sigs) [ ok ordered ↦ ok (some (call, sigs)) | err e ↦ ok oldest | panic ↦ panic ]
      ]

  unfoldable pub pick_loop : List LogicCall → Oldest → Outcome Oldest
  pick_loop [] oldest = ok oldest
  pick_loop (call ∷ calls) oldest = do oldest' ← pick_call call oldest; pick_loop calls oldest'

module _ (k : Clarity) (abi : Abi) (x : Crates) (add : Uint256 → Uint256 → Outcome Uint256)
    (ours : Ours) (weth : EthAddress) (logic_call_market_enabled : Bool)
    (current_valset : Valset) where
  -- The cost is read out in the log, as 128 bits, before the market is asked.
  unfoldable pub decide_call : Web3 → LogicCall → GasCost → Outcome Bool
  decide_call web3 call cost = do
    total ← get_total x cost
    logged ← unwrap (downcast_to_u128 total)
    if logic_call_market_enabled
        then should_relay_logic_call add weth ours.eth_address web3 total call
        else ok true

  -- Whether the call is sent. An estimate that fails ends the round.
  unfoldable pub choose_call : Web3 → LogicCall → List LogicCallConfirmResponse → ℕ → Outcome Bool
  choose_call web3 call sigs latest_ethereum_call =
      if ltb latest_ethereum_call call.invalidation_nonce
      then elim (estimate_logic_call_cost k abi x ours current_valset web3 call sigs) [
        | ok cost ↦ decide_call web3 call cost
        | err e ↦ ok false
        | panic ↦ panic
      ]
      else ok false

  -- The call that was found. The error of a submission is only reported.
  unfoldable pub relay_call :
      Moments → LogicCall → List LogicCallConfirmResponse → Outcome (Unit {0}) × Option Transaction
  relay_call at call sigs =
      elim (get_logic_call_nonce x at.estimating ours.contract call.invalidation_id
        ours.eth_address) [
          | err e ↦ (ok tt, none)
          | panic ↦ (panic, none)
          | ok latest_ethereum_call ↦
              elim (choose_call at.estimating call sigs latest_ethereum_call) [
                | ok true ↦
                    send_eth_logic_call k abi x ours current_valset at.sending at.sent call sigs
                | ok false ↦ (ok tt, none)
                | err e ↦ (err e, none)
                | panic ↦ (panic, none)
              ]
        ]

  -- What was handed to the Ethereum node, if anything.
  unfoldable pub relay_logic_calls : CallQueries → Moments → Outcome (Unit {0}) × Option Transaction
  relay_logic_calls q at = elim q.get_latest_logic_calls [
    | none ↦ (ok tt, none)
    | some latest_calls ↦
        elim (pick_loop k abi q ours.gravity_id current_valset latest_calls none) [
          | ok none ↦ (ok tt, none)
          | ok (some (call, sigs)) ↦ relay_call at call sigs
          | err e ↦ (err e, none)
          | panic ↦ (panic, none)
        ]
  ]
