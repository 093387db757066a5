-- ===== src/Relayer/LogicMarket.antt =====
-- When `should_relay_logic_call` of relayer/src/logic_call_relaying.rs says that a call pays.
use near_aurora_bridge.Base.{
  ℕ, ◌+◌, ◌^◌, ◌≤◌, ◌<◌, ◌≡◌, refl, sym, ap, ◌∙◌, inl, inr, none, some, List, [], ◌∷◌, arith, ltb,
  ◌==◌, if◌then◌else◌, lt→ltb, ltb→le, ==→eq, tests, Bool-cases, Option-cases, Outcome, ok, ok_inj,
}
use mathlib.Core.List.{Perm, Permᴰ}
use mathlib.Core.Logic.{∥∥₁_elim}
use native.Mathlib.Nat.{ℕ_set}
use near_aurora_bridge.Types.{EthAddress, Uint256, Erc20Token}
use near_aurora_bridge.HashMap.{HashMap, get, insert, get-insert}
use near_aurora_bridge.Logic.{LogicCall}
use near_aurora_bridge.Ethereum.{Web3}
use near_aurora_bridge.Relayer.LogicCalls.{
  entry_or_zero, rewards_loop, weth_equiv, worth_loop, should_relay_logic_call,
}

abbrev pub fees_total : List Erc20Token → ℕ
fees_total [] = 0
fees_total (fee ∷ fees) = fee.amount + fees_total fees

-- The fees that are paid in a token.
abbrev pub fees_in : EthAddress → List Erc20Token → ℕ
fees_in token [] = 0
fees_in token (fee ∷ fees) =
    (if fee.token_contract_address == token then fee.amount else 0) + fees_in token fees

-- A sum that fits 256 bits is computed exactly.
abbrev pub AddsExactly : (Uint256 → Uint256 → Outcome Uint256) → Type 0
AddsExactly add = (a b : Uint256) → a + b < 2 ^ 256 → add a b ≡ ok (a + b)

module _ (weth our_address : EthAddress) (web3 : Web3) where
  -- What an amount of a token is worth in WETH; a token without a price is worth nothing.
  unfoldable pub price : EthAddress → Uint256 → ℕ
  price token total =
      if token == weth then total else elim (web3.get_uniswap_price our_address token weth total) [
        | none ↦ 0
        | some value ↦ value
      ]

  -- What all the rewards are worth.
  abbrev pub worth : List (EthAddress × Uint256) → ℕ
  worth [] = 0
  worth ((token, total) ∷ rewards) = price token total + worth rewards

  price-weth_equiv :
      (token : EthAddress) (total : Uint256)
      → price token total ≡ entry_or_zero (weth_equiv weth our_address web3 token total)
  unfolding price
  price-weth_equiv token total = ground arith

  worth-cons :
      (r : EthAddress × Uint256) (rs : List (EthAddress × Uint256))
      → worth (r ∷ rs) ≡ price r.0 r.1 + worth rs
  worth-cons (token, total) rs = refl

  worth-Permᴰ : {xs ys : List (EthAddress × Uint256)} → Permᴰ xs ys → worth xs ≡ worth ys
  worth-Permᴰ Permᴰ.nil = refl
  worth-Permᴰ (Permᴰ.cons {a} {b} {l₁} {l₂} e p) =
      omega (arith, worth-cons a l₁, worth-cons b l₂, ap (λ r. price r.0 r.1) e, worth-Permᴰ p)
  worth-Permᴰ (Permᴰ.swap {a} {b} {a'} {b'} {l} e f) = omega (
    arith,
    worth-cons a (b ∷ l),
    worth-cons b l,
    worth-cons a' (b' ∷ l),
    worth-cons b' l,
    ap (λ r. price r.0 r.1) e,
    ap (λ r. price r.0 r.1) f,
  )
  worth-Permᴰ (Permᴰ.trans p q) = worth-Permᴰ p ∙ worth-Permᴰ q

  -- The order of the rewards does not matter.
  worth-Perm : (xs ys : List (EthAddress × Uint256)) → Perm xs ys → worth xs ≡ worth ys
  worth-Perm xs ys p = ∥∥₁_elim p (ℕ_set (worth xs) (worth ys)) worth-Permᴰ

fees_in-le : (token : EthAddress) (fees : List Erc20Token) → fees_in token fees ≤ fees_total fees
fees_in-le token [] = omega arith
fees_in-le token (fee ∷ fees) = ground (arith, fees_in-le token fees)

get-added :
    (k token : EthAddress) (amount : ℕ) (m : HashMap Uint256)
    → entry_or_zero (get token (insert k (entry_or_zero (get k m) + amount) m))
      ≡ entry_or_zero (get token m) + (if k == token then amount else 0)
get-added k token amount m =
    rw (get-insert k token (entry_or_zero (get k m) + amount) m) (elim (Bool-cases (k == token)) [
      | inl e ↦ rw (e, ==→eq k token e)
      | inr e ↦ rw e (omega arith)
    ])

get-added_le :
    (k token : EthAddress) (amount : ℕ) (m : HashMap Uint256)
    → entry_or_zero (get token (insert k (entry_or_zero (get k m) + amount) m))
      ≤ entry_or_zero (get token m) + amount
get-added_le k token amount m = ground (arith, get-added k token amount m)

module _ (add : Uint256 → Uint256 → Outcome Uint256) (adds : AddsExactly add) where
  rewards_loop-eq :
      (fees : List Erc20Token) (m : HashMap Uint256)
      → ((token : EthAddress) → entry_or_zero (get token m) + fees_total fees < 2 ^ 256)
      → (n : HashMap Uint256) × (rewards_loop add fees m ≡ ok n)
        × ((token : EthAddress)
            → entry_or_zero (get token n) ≡ entry_or_zero (get token m) + fees_in token fees)
  unfolding rewards_loop
  rewards_loop-eq [] m fits = (m, refl, λ token. omega arith)
  rewards_loop-eq (fee ∷ fees) m fits =
      let total = entry_or_zero (get fee.token_contract_address m) + fee.amount in
      let added : add (entry_or_zero (get fee.token_contract_address m)) fee.amount ≡ ok total =
        adds (entry_or_zero (get fee.token_contract_address m)) fee.amount
          (omega (arith, fits fee.token_contract_address)) in
      let (n, en, gn) = rewards_loop-eq fees (insert fee.token_contract_address total m) (λ token.
        omega (arith, get-added_le fee.token_contract_address token fee.amount m, fits token)) in
      (
        n,
        rw added en,
        λ token.
            gn token ∙ rw (get-added fee.token_contract_address token fee.amount m) (omega arith),
      )

  -- The early exit changes nothing, since the sum never falls.
  worth_loop-eq :
      (weth our_address : EthAddress) (web3 : Web3) (cost : Uint256) (m : HashMap Uint256)
      (total : Uint256)
      → total ≤ cost
      → total + worth weth our_address web3 m < 2 ^ 256
      → worth_loop add weth our_address web3 cost m total
        ≡ ok (ltb cost (total + worth weth our_address web3 m))
  unfolding worth_loop
  worth_loop-eq weth our_address web3 cost [] total low fits = ground arith
  worth_loop-eq weth our_address web3 cost ((token, reward) ∷ m) total low fits =
      let priced = price-weth_equiv weth our_address web3 token reward in
      elim (Option-cases (weth_equiv weth our_address web3 token reward)) [
        | inl e ↦
            let free : price weth our_address web3 token reward ≡ 0 = priced ∙ ap entry_or_zero e in
            let bound : total + (0 + worth weth our_address web3 m) < 2 ^ 256 = rw free at fits in
            let same : 0 + worth weth our_address web3 m ≡ worth weth our_address web3 m =
              omega arith in
            rw (worth_loop, e, free, same)
              (worth_loop-eq weth our_address web3 cost m total low (omega arith))
        | inr (value, e) ↦
            let dear : price weth our_address web3 token reward ≡ value =
              priced ∙ ap entry_or_zero e in
            let bound : total + (value + worth weth our_address web3 m) < 2 ^ 256 =
              rw dear at fits in
            let added : add total value ≡ ok (total + value) = adds total value (omega arith) in
            rw (worth_loop, e, dear, added)
              (elim (Bool-cases (ltb cost (total + value))) [
                | inl over ↦ rw (
                  over,
                  lt→ltb cost (total + (value + worth weth our_address web3 m))
                      (omega (tests, over)),
                )
                | inr under ↦ rw under (
                    worth_loop-eq weth our_address web3 cost m (total + value)
                      (ltb→le cost (total + value) under) (omega arith)
                    ∙ ap (λ n. ok (ltb cost n)) (omega arith))
              ])
      ]

  worth_loop_all :
      (weth our_address : EthAddress) (web3 : Web3) (cost : Uint256) (m : HashMap Uint256)
      → worth weth our_address web3 m < 2 ^ 256
      → worth_loop add weth our_address web3 cost m 0
        ≡ ok (ltb cost (worth weth our_address web3 m))
  worth_loop_all weth our_address web3 cost m low =
      worth_loop-eq weth our_address web3 cost m 0 (omega arith) (omega arith)
      ∙ ap (λ n. ok (ltb cost n)) (omega arith)

  -- Where sums that fit 256 bits are exact, and the fees and what they are worth fit: the fees are
  -- summed up by token, each sum is priced at once, and the call pays exactly if all that has a price
  -- is worth more than the cost. The loop with its early exit gives the same answer in every order of
  -- the tokens.
  pub should_relay_logic_call-eq :
      (weth our_address : EthAddress) (web3 : Web3) (cost : Uint256) (call : LogicCall)
      (rewards entries : HashMap Uint256)
      → fees_total call.fees < 2 ^ 256
      → rewards_loop add call.fees [] ≡ ok rewards
      → worth weth our_address web3 rewards < 2 ^ 256
      → Perm rewards entries
      → ((token : EthAddress) → entry_or_zero (get token rewards) ≡ fees_in token call.fees)
        × (should_relay_logic_call add weth our_address web3 cost call
            ≡ ok (ltb cost (worth weth our_address web3 rewards)))
        × (worth_loop add weth our_address web3 cost entries 0
            ≡ ok (ltb cost (worth weth our_address web3 rewards)))
  unfolding should_relay_logic_call
  should_relay_logic_call-eq weth our_address web3 cost call rewards entries fits er low perm =
      let (n, en, gn) = rewards_loop-eq call.fees [] (λ token. omega arith) in
      let same : n ≡ rewards = ok_inj (sym en ∙ er) in
      let equal : worth weth our_address web3 rewards ≡ worth weth our_address web3 entries =
        worth-Perm weth our_address web3 rewards entries perm in
      (
        λ token. rw (← same) (gn token ∙ omega arith),
        rw er (worth_loop_all weth our_address web3 cost rewards low),
        worth_loop_all weth our_address web3 cost entries (omega (arith, equal))
            ∙ ap (λ n. ok (ltb cost n)) (sym equal),
      )
