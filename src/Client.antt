-- ===== src/Client.antt =====
-- `cosmos_to_eth` of nabt/src/client/cosmos_to_eth.rs, the command that sends tokens from Cosmos to
-- Ethereum. The texts of the errors and of the log are left out.
mod Sent
mod Tests
use near_aurora_bridge.Base.{
  ℕ, Bool, true, Option, none, some, List, [], ◌∷◌, leb, if◌then◌else◌, unrecoverable_error,
  Outcome, ok, err, panic, unwrap, or_err, ◌>>=◌, ◌>>◌,
}
use near_aurora_bridge.Types.{EthAddress}
use near_aurora_bridge.Cosmos.{Coin, Reply, reply, fault, Printer, Contact, PrivateKey}
use near_aurora_bridge.Cosmos.Requests.{Wide, same_text, send_to_eth, send_request_batch}
use near_aurora_bridge.Startup.{check_for_fee}
use near_aurora_bridge.Startup.Connections.{Network, Connections, create_rpc_connections}

pub record CosmosToEthOpts : Type 0 where
  pub amount : Coin
  pub fees : Coin
  pub cosmos_grpc : List ℕ
  pub eth_destination : EthAddress
  pub no_batch : Bool

-- The nodes: a Contact for each URL and prefix, the token's address on Ethereum, and the balances that
-- come when they are asked for until they come, once for each fee.
pub record Chains (Args Tx : Type 0) : Type 0 where
  pub network : Network
  pub contact_at : List ℕ → List ℕ → Contact Args Tx
  pub denom_to_erc20 : List ℕ → List ℕ → Option (List ℕ)
  pub coin_balances : List Coin
  pub fee_balances : List Coin

-- What is asked of Cosmos, with its answer.
pub data Asked (Tx : Type 0) : Type 0 where
  asked_transfer asked_batch : Reply Tx → Asked Tx

-- The loop over the balances: the last one in the denomination.
unfoldable pub find_coin : List Coin → List ℕ → Option Coin → Option Coin
find_coin [] denom found = found
find_coin (coin ∷ coins) denom found =
    find_coin coins denom (if same_text coin.denom denom then some coin else found)

unfoldable pub check_balance : Coin → Option Coin → Outcome (Unit {0})
check_balance amount none = err unrecoverable_error
check_balance amount (some found) =
    if leb found.amount amount.amount then err unrecoverable_error else ok tt

-- `expect`
abbrev pub expect : {A : Type 0} → Reply A → Outcome A
expect (reply a) = ok a
expect (fault e) = panic

module _ {Args Tx : Type 0} (p : Printer) (key : PrivateKey Args) (x : Wide) (w : Chains Args Tx)
    (args : CosmosToEthOpts) (address_prefix : List ℕ) where
  -- The part before anything is sent; its result is the Contact that is used.
  unfoldable pub check_transfer : Outcome (Contact Args Tx)
  check_transfer = do
    cosmos_address ← unwrap (key.to_address address_prefix)
    connections ← create_rpc_connections w.network address_prefix (some args.cosmos_grpc) none
    url ← unwrap connections.contact
    grpc ← unwrap connections.grpc
    erc20 ← or_err (w.denom_to_erc20 grpc args.amount.denom) unrecoverable_error
    check_for_fee args.amount w.coin_balances
    check_for_fee args.fees w.fee_balances
    balances ← expect ((w.contact_at url address_prefix).get_balances cosmos_address)
    check_balance args.amount (find_coin balances args.amount.denom none)
    ok (w.contact_at url address_prefix)

  abbrev pub bridge_fee : Coin
  bridge_fee = record { amount = 1; denom = args.amount.denom }

  -- `expect("Failed to request batch")`
  abbrev pub after_batch : Outcome (Reply Tx) → Outcome (Unit {0}) × List (Asked Tx)
  after_batch (ok (reply tx)) = (ok tt, asked_batch (reply tx) ∷ [])
  after_batch (ok (fault e)) = (panic, asked_batch (fault e) ∷ [])
  after_batch (err e) = (err e, [])
  after_batch panic = (panic, [])

  unfoldable pub ask_batch : Contact Args Tx → Outcome (Unit {0}) × List (Asked Tx)
  ask_batch contact =
      if args.no_batch
      then (ok tt, [])
      else after_batch (send_request_batch p contact key args.amount.denom bridge_fee true)

  -- A transfer that fails is only reported.
  abbrev pub after_transfer :
      Contact Args Tx → Outcome (Reply Tx) → Outcome (Unit {0}) × List (Asked Tx)
  after_transfer contact (ok r) = ((ask_batch contact).0, asked_transfer r ∷ (ask_batch contact).1)
  after_transfer contact (err e) = (err e, [])
  after_transfer contact panic = (panic, [])

  unfoldable pub ask_transfer : Contact Args Tx → Outcome (Unit {0}) × List (Asked Tx)
  ask_transfer contact =
      after_transfer contact
        (send_to_eth p contact key x args.eth_destination args.amount bridge_fee args.fees)

  abbrev pub after_checks : Outcome (Contact Args Tx) → Outcome (Unit {0}) × List (Asked Tx)
  after_checks (ok contact) = ask_transfer contact
  after_checks (err e) = (err e, [])
  after_checks panic = (panic, [])

  unfoldable pub cosmos_to_eth : Outcome (Unit {0}) × List (Asked Tx)
  cosmos_to_eth = after_checks check_transfer
