-- ===== src/Cosmos/Balances.antt =====
-- Which transfers `send_to_eth` of cosmos_gravity/src/send.rs lets through.
use near_aurora_bridge.Base.{
  ℕ, ◌+◌, ◌*◌, ◌^◌, ◌<◌, ◌≡◌, refl, inl, inr, Bool, true, false, not, ◌&&◌, ◌||◌, none, some, List,
  [], ◌∷◌, arith, leb, if◌then◌else◌, Bool-cases, ok,
}
use near_aurora_bridge.Types.{EthAddress}
use near_aurora_bridge.Cosmos.{Coin, bad_input, reply, fault, Printer, Contact, PrivateKey}
use near_aurora_bridge.Cosmos.Requests.{Wide, same_text, balance_loop, transfer, send_to_eth}

-- Every balance in the denomination holds the amount and twice the chain's fee; and there is one.
abbrev pub any_in_denom : List Coin → Coin → Bool
any_in_denom [] amount = false
any_in_denom (balance ∷ balances) amount =
    same_text balance.denom amount.denom || any_in_denom balances amount

abbrev pub all_cover : List Coin → Coin → Coin → Bool
all_cover [] amount fee = true
all_cover (balance ∷ balances) amount fee =
    (not (same_text balance.denom amount.denom)
      || leb (amount.amount + fee.amount * 2) balance.amount)
    && all_cover balances amount fee

-- Sums and products that fit 256 bits are exact.
abbrev pub WideExactly : Wide → Type 0
WideExactly x =
    ((a b : ℕ) → a + b < 2 ^ 256 → x.add a b ≡ ok (a + b))
    × ((a b : ℕ) → a * b < 2 ^ 256 → x.mul a b ≡ ok (a * b))

balance_loop-eq :
    (x : Wide) (balances : List Coin) (amount fee : Coin) (found : Bool)
    → x.mul fee.amount 2 ≡ ok (fee.amount * 2)
    → x.add amount.amount (fee.amount * 2) ≡ ok (amount.amount + fee.amount * 2)
    → balance_loop x balances amount fee found
      ≡ ok (
          if all_cover balances amount fee
          then some (found || any_in_denom balances amount)
          else none)
unfolding balance_loop
balance_loop-eq x [] amount fee true em ea = refl
balance_loop-eq x [] amount fee false em ea = refl
balance_loop-eq x (b ∷ bs) amount fee found em ea =
    rw (balance_loop, em, ea)
      (ground (
        arith,
        balance_loop-eq x bs amount fee true em ea,
        balance_loop-eq x bs amount fee found em ea,
      ))

-- Where the account has an address, the node tells its balances, and the amount and twice the chain's
-- fee together fit 256 bits, up to which sums and products are exact: a transfer is submitted exactly
-- if the bridge fee is in the denomination of the amount, there is a balance in it, and every balance
-- in it holds the amount and twice the chain's fee; else it is refused as bad input. How much the
-- bridge fee is, and in which denomination the chain's fee is paid, makes no difference.
pub send_to_eth-eq :
    {Args Tx : Type 0} (p : Printer) (contact : Contact Args Tx) (key : PrivateKey Args) (x : Wide)
    (destination : EthAddress) (amount bridge_fee fee : Coin) (our_address : ℕ)
    (balances : List Coin)
    → key.to_address contact.get_prefix ≡ some our_address
    → contact.get_balances our_address ≡ reply balances
    → WideExactly x
    → amount.amount + fee.amount * 2 < 2 ^ 256
    → send_to_eth p contact key x destination amount bridge_fee fee
      ≡ ok (
          if same_text amount.denom bridge_fee.denom
            && (all_cover balances amount fee && any_in_denom balances amount)
          then transfer p contact key destination amount bridge_fee fee our_address
          else fault bad_input)
unfolding send_to_eth
send_to_eth-eq p contact key x destination amount bridge_fee fee our_address balances ea eb exact
      fits =
    let looped =
      balance_loop-eq x balances amount fee false (exact.1 fee.amount 2 (omega (arith, fits)))
        (exact.0 amount.amount (fee.amount * 2) fits) in
    elim (Bool-cases (same_text amount.denom bridge_fee.denom)) [
      | inr other ↦ rw (send_to_eth, ea, other) refl
      | inl same ↦ elim (Bool-cases (all_cover balances amount fee)) [
        | inr short ↦ rw (send_to_eth, ea, same, eb, looped, short) refl
        | inl covered ↦ elim (Bool-cases (any_in_denom balances amount)) [
          | inl there ↦ rw (send_to_eth, ea, same, eb, looped, covered, there) refl
          | inr missing ↦ rw (send_to_eth, ea, same, eb, looped, covered, missing) refl
        ]
      ]
    ]
