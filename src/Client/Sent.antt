-- ===== src/Client/Sent.antt =====
-- When `cosmos_to_eth` of nabt/src/client/cosmos_to_eth.rs sends something.
use near_aurora_bridge.Base.{
  ℕ, ◌≤◌, ◌<◌, ◌≡◌, ◌⊎◌, true, false, none, some, List, [], ◌∷◌, ◌++◌, All, ok,
}
use near_aurora_bridge.Cosmos.{Coin, Reply, reply, Printer, Contact, PrivateKey}
use near_aurora_bridge.Cosmos.Requests.{Wide, send_to_eth}
use near_aurora_bridge.Startup.{contains}
use near_aurora_bridge.Startup.Connections.{Connections}
use near_aurora_bridge.Startup.Connected.{Connected, GrpcReached}
use near_aurora_bridge.Client.{
  CosmosToEthOpts, Chains, Asked, asked_transfer, asked_batch, find_coin, bridge_fee,
}

-- The first of the balances whose denomination has that of a fee in it holds the fee.
abbrev pub Covers : Coin → List Coin → Type 0
Covers fee balances =
    (before : List Coin) × (balance : Coin) × (after : List Coin) × (balances
      ≡ before ++ balance ∷ after)
    × All (λ b. contains b.denom fee.denom ≡ false) before
    × (contains balance.denom fee.denom ≡ true)
    × (fee.amount ≤ balance.amount)

module _ {Args Tx : Type 0} (p : Printer) (key : PrivateKey Args) (x : Wide) (w : Chains Args Tx)
    (args : CosmosToEthOpts) (address_prefix : List ℕ) where
  -- The checks that a Contact has passed: it answers under the URL that is given or a safer one, the
  -- token stands on Ethereum, the amount and the fees are each covered by the first balance whose
  -- denomination contains theirs, and the last balance in the denomination is more than the amount.
  abbrev pub Passed : Contact Args Tx → Type 0
  Passed contact =
      (url : List ℕ) × GrpcReached w.network address_prefix args.cosmos_grpc url
      × (contact ≡ w.contact_at url address_prefix)
      × ((erc20 : List ℕ) × (w.denom_to_erc20 url args.amount.denom ≡ some erc20))
      × Covers args.amount w.coin_balances
      × Covers args.fees w.fee_balances
      × ((our_address : ℕ) × (balances : List Coin) × (found : Coin) × (key.to_address
              address_prefix
            ≡ some our_address)
          × (contact.get_balances our_address ≡ reply balances)
          × (find_coin balances args.amount.denom none ≡ some found)
          × (args.amount.amount < found.amount))

  -- What goes out: the transfer, and then, unless it is not wanted, the batch.
  abbrev pub TransferFirst : Contact Args Tx → List (Asked Tx) → Type 0
  TransferFirst contact asked =
      (r : Reply Tx) × (send_to_eth p contact key x args.eth_destination args.amount
          (bridge_fee p key x w args address_prefix) args.fees
        ≡ ok r)
      × ((asked ≡ asked_transfer r ∷ [])
          ⊎ ((args.no_batch ≡ false)
              × ((b : Reply Tx) × (asked ≡ asked_transfer r ∷ asked_batch b ∷ []))))

  -- Nothing, or what a Contact that has passed the checks is asked.
  abbrev pub Justified : List (Asked Tx) → Type 0
  Justified [] = Unit {0}
  Justified (first ∷ rest) =
      (contact : Contact Args Tx) × Passed contact × TransferFirst contact (first ∷ rest)
