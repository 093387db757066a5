-- ===== src/Relayer/ValsetRelay.antt =====
-- `relay_valsets` of relayer/src/valset_relaying.rs, and what it calls once a set is found.
use near_aurora_bridge.Base.{
  Bool, true, false, Option, none, some, List, [], ◌∷◌, ltb, ◌==◌, if◌then◌else◌, Outcome, ok, err,
  panic, unwrap, ◌>>=◌,
}
use near_aurora_bridge.Types.{EthAddress, Uint256, Clarity}
use near_aurora_bridge.Valset.{Valset}
use near_aurora_bridge.Confirm.{ValsetConfirmResponse}
use near_aurora_bridge.Messages.{Abi}
use near_aurora_bridge.Ethereum.{
  Crates, Transaction, Web3, GasCost, get_total, downcast_to_u128, get_valset_nonce,
}
use near_aurora_bridge.Ethereum.Submit.{Ours}
use near_aurora_bridge.Ethereum.ValsetUpdate.{
  encode_valset_update_payload, estimate_valset_cost, send_eth_valset_update,
}
use near_aurora_bridge.Relayer.Valsets.{ValsetQueries, find_latest_valid_valset}
use near_aurora_bridge.Relayer.Submit.{Moments}

module _ (weth pub_key : EthAddress) where
  -- Where the reward in WETH does not cover the cost, the market is asked for the same amount again.
  unfoldable pub should_relay_valset : Web3 → Valset → Uint256 → Bool
  should_relay_valset web3 valset relaying_cost = elim valset.reward_token [
    | none ↦ false
    | some token_in ↦
        if weth == token_in
        then if ltb relaying_cost valset.reward_amount
          then true
          else elim (web3.get_uniswap_price pub_key token_in weth valset.reward_amount) [
            | none ↦ false
            | some val ↦ ltb relaying_cost val
          ]
        else false
  ]

module _ (k : Clarity) (abi : Abi) (x : Crates) (ours : Ours) (weth : EthAddress)
    (valset_market_enabled : Bool) (current_valset : Valset) where
  -- The report of a failed estimate encodes the payload, with `unwrap`.
  unfoldable pub valset_cost_error : Web3 → Valset → List ValsetConfirmResponse → Outcome (Unit {0})
  valset_cost_error web3 valset confirmed =
      elim (get_valset_nonce x web3 ours.contract ours.eth_address) [
        | ok nonce ↦
            elim (encode_valset_update_payload k abi x ours valset current_valset confirmed) [
              | ok payload ↦ ok tt
              | err e ↦ panic
              | panic ↦ panic
            ]
        | err e ↦ ok tt
        | panic ↦ panic
      ]

  unfoldable pub decide_valset : Web3 → Valset → GasCost → Outcome Bool
  decide_valset web3 valset cost = do
    total ← get_total x cost
    logged ← unwrap (downcast_to_u128 total)
    if valset_market_enabled
        then ok (should_relay_valset weth ours.eth_address web3 valset total)
        else ok true

  unfoldable pub relay_valid_valset :
      Moments → Valset → List ValsetConfirmResponse → Outcome (Unit {0}) × Option Transaction
  relay_valid_valset at valset confirmed =
      elim (estimate_valset_cost k abi x ours valset current_valset confirmed at.estimating) [
        | ok cost ↦ elim (decide_valset at.estimating valset cost) [
          | ok true ↦
              send_eth_valset_update k abi x ours valset current_valset confirmed at.sending at.sent
          | ok false ↦ (ok tt, none)
          | err e ↦ (err e, none)
          | panic ↦ (panic, none)
        ]
        | err e ↦ (valset_cost_error at.estimating valset confirmed, none)
        | panic ↦ (panic, none)
      ]

  -- What is relayed of a result of the search.
  unfoldable pub relay_found :
      Moments
      → Option Valset
      → Option (List ValsetConfirmResponse)
      → Outcome (Unit {0}) × Option Transaction
  relay_found at none confirmed = (ok tt, none)
  relay_found at (some valset) none = (ok tt, none)
  relay_found at (some valset) (some confirmed) =
      if ltb current_valset.nonce valset.nonce
      then relay_valid_valset at valset confirmed
      else (ok tt, none)

  -- The latest sets come from Cosmos; `none` is an error.
  unfoldable pub relay_valsets :
      ValsetQueries → Moments → Option (List Valset) → Outcome (Unit {0}) × Option Transaction
  relay_valsets q at none = (ok tt, none)
  relay_valsets q at (some []) = (ok tt, none)
  relay_valsets q at (some (latest ∷ valsets)) =
      elim (find_latest_valid_valset k abi q ours.gravity_id current_valset latest.nonce) [
        | ok r ↦ relay_found at r.latest_valset r.latest_confirmed
        | err e ↦ (err e, none)
        | panic ↦ (panic, none)
      ]
