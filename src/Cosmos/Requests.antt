-- ===== src/Cosmos/Requests.antt =====
-- The other messages of cosmos_gravity/src/send.rs: delegate keys, transfers to Ethereum, requests
-- of a batch and cancellations.
use near_aurora_bridge.Base.{
  ℕ, Bool, true, false, not, ◌&&◌, Option, none, some, List, [], ◌∷◌, ◌++◌, ltb, ◌==◌,
  if◌then◌else◌, Outcome, ok, err, panic, unwrap, ◌>>=◌,
}
use near_aurora_bridge.Types.{EthAddress}
use near_aurora_bridge.Cosmos.{
  Coin, send_to_eth_msg, request_batch, cancel_send_to_eth_msg, set_orchestrator_address, bad_input,
  Reply, reply, fault, Printer, Contact, PrivateKey, submit, broadcast, fee_of,
}

-- Equality of strings.
abbrev pub same_text : List ℕ → List ℕ → Bool
same_text [] [] = true
same_text [] (y ∷ ys) = false
same_text (x ∷ xs) [] = false
same_text (x ∷ xs) (y ∷ ys) = x == y && same_text xs ys

-- "valoper"
abbrev pub valoper : List ℕ
valoper = 118 ∷ 97 ∷ 108 ∷ 111 ∷ 112 ∷ 101 ∷ 114 ∷ []

-- The sums and products of num256, which panic past 256 bits.
pub record Wide : Type 0 where
  pub add : ℕ → ℕ → Outcome ℕ
  pub mul : ℕ → ℕ → Outcome ℕ

-- The loop over the balances: a balance that is too low ends it with `none`, and else it tells
-- whether there is one in the denomination.
unfoldable pub balance_loop : Wide → List Coin → Coin → Coin → Bool → Outcome (Option Bool)
balance_loop x [] amount fee found = ok (some found)
balance_loop x (balance ∷ balances) amount fee found =
    let covered = balance_loop x balances amount fee true in
    let other = balance_loop x balances amount fee found in
    if same_text balance.denom amount.denom
    then (do
      twice ← x.mul fee.amount 2
      total_amount ← x.add amount.amount twice
      if ltb balance.amount total_amount then ok none else covered)
    else other

module _ {Args Tx : Type 0} (p : Printer) (contact : Contact Args Tx) (key : PrivateKey Args) where
  unfoldable pub set_gravity_delegate_addresses : EthAddress → ℕ → Coin → Outcome (Reply Tx)
  set_gravity_delegate_addresses delegate_eth_address delegate_cosmos_address fee = do
    our_account ← unwrap (key.to_address contact.get_prefix)
    our_valoper_address ← unwrap (p.to_bech32 (contact.get_prefix ++ valoper) our_account)
    our_address ← unwrap (key.to_address contact.get_prefix)
    ok (
        broadcast contact key our_address (fee_of fee 500000) (
          set_orchestrator_address our_valoper_address
            (p.cosmos_address_to_string delegate_cosmos_address)
            (p.eth_address_to_string delegate_eth_address)
          ∷ []))

  -- What is sent once the balance is found.
  unfoldable pub transfer : EthAddress → Coin → Coin → Coin → ℕ → Reply Tx
  transfer destination amount bridge_fee fee our_address =
      broadcast contact key our_address (fee_of fee 500000) (
        send_to_eth_msg (record {
          sender = p.cosmos_address_to_string our_address;
          eth_dest = p.eth_address_to_string destination;
          amount = amount;
          bridge_fee = bridge_fee;
        })
        ∷ [])

  unfoldable pub send_to_eth : Wide → EthAddress → Coin → Coin → Coin → Outcome (Reply Tx)
  send_to_eth x destination amount bridge_fee fee = do
    our_address ← unwrap (key.to_address contact.get_prefix)
    if not (same_text amount.denom bridge_fee.denom)
        then ok (fault bad_input)
        else elim (contact.get_balances our_address) [
          | fault e ↦ panic
          | reply balances ↦ elim (balance_loop x balances amount fee false) [
            | ok none ↦ ok (fault bad_input)
            | ok (some false) ↦ ok (fault bad_input)
            | ok (some true) ↦ ok (transfer destination amount bridge_fee fee our_address)
            | err e ↦ err e
            | panic ↦ panic
          ]
        ]

  -- The wait for the block is skipped where there is no time for it.
  unfoldable pub send_request_batch : List ℕ → Coin → Bool → Outcome (Reply Tx)
  send_request_batch denom fee waits = do
    our_address ← unwrap (key.to_address contact.get_prefix)
    let msgs = request_batch (p.cosmos_address_to_string our_address) denom ∷ []
    if waits
        then ok (broadcast contact key our_address (fee_of fee 500000000) msgs)
        else ok (submit contact key our_address (fee_of fee 500000000) msgs)

  unfoldable pub cancel_send_to_eth : Coin → ℕ → Outcome (Reply Tx)
  cancel_send_to_eth fee transaction_id = do
    our_address ← unwrap (key.to_address contact.get_prefix)
    ok (
        broadcast contact key our_address (fee_of fee 600000)
          (cancel_send_to_eth_msg transaction_id (p.cosmos_address_to_string our_address) ∷ []))
