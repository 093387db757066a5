-- ===== src/Valset/Distance.antt =====
-- The sum that `power_diff` of gravity_utils/src/types/valsets.rs computes, over the addresses
-- that two sets have.
use near_aurora_bridge.Base.{
  ℕ, zero, suc, ◌+◌, ◌-◌, ◌*◌, ◌≤◌, ◌≡◌, refl, Option, none, some, List, [], ◌∷◌, ◌++◌, arith, ltb,
  ◌==◌, if◌then◌else◌,
}
use near_aurora_bridge.Types.{EthAddress}
use near_aurora_bridge.Valset.{ValsetMember, has_address}
use near_aurora_bridge.Valset.Addresses.{power_at, count, Once}

abbrev pub sum_over : (EthAddress → ℕ) → List EthAddress → ℕ
sum_over f [] = 0
sum_over f (x ∷ xs) = f x + sum_over f xs

abbrev pub distance : ℕ → ℕ → ℕ
distance p q = if ltb q p then p - q else q - p

abbrev pub total_power : List ValsetMember → ℕ
total_power [] = 0
total_power (m ∷ ms) = m.power + total_power ms

pub sum_over-append :
    (f : EthAddress → ℕ) (xs ys : List EthAddress)
    → sum_over f (xs ++ ys) ≡ sum_over f xs + sum_over f ys
sum_over-append f [] ys = omega arith
sum_over-append f (x ∷ xs) ys = omega (arith, sum_over-append f xs ys)

sum_zero : (xs : List EthAddress) → sum_over (λ x. 0) xs ≡ 0
sum_zero [] = refl
sum_zero (x ∷ xs) = omega (arith, sum_zero xs)

-- A sum over addresses that come once counts each member at most once.
sum_if :
    (a : EthAddress) (p : ℕ) (xs : List EthAddress)
    → sum_over (λ x. if a == x then p else 0) xs ≡ count a xs * p
sum_if a p [] = omega arith
sum_if a p (x ∷ xs) = ground (arith, sum_if a p xs)

sum_le :
    (f g h : EthAddress → ℕ) (xs : List EthAddress)
    → ((x : EthAddress) → f x ≤ g x + h x)
    → sum_over f xs ≤ sum_over g xs + sum_over h xs
sum_le f g h [] le = omega arith
sum_le f g h (x ∷ xs) le = omega (arith, le x, sum_le f g h xs le)

mul_le : (n p : ℕ) → n ≤ 1 → n * p ≤ p
mul_le zero p h = omega arith
mul_le (suc zero) p h = omega arith
mul_le (suc (suc n)) p h = omega arith

sum_member :
    (o : Option EthAddress) (p : ℕ) (xs : List EthAddress)
    → Once xs
    → sum_over (λ x. if has_address (record { power = p; eth_address = o }) x then p else 0) xs ≤ p
sum_member none p xs h = omega (arith, sum_zero xs)
sum_member (some a) p xs h = rw (sum_if a p xs) (mul_le (count a xs) p (h a))

pub sum_power_at :
    (ms : List ValsetMember) (xs : List EthAddress)
    → Once xs
    → sum_over (power_at ms) xs ≤ total_power ms
sum_power_at [] xs h = omega (arith, sum_zero xs)
sum_power_at (m ∷ ms) xs h = omega (
  arith,
  sum_le (power_at (m ∷ ms)) (λ x. if has_address m x then m.power else 0) (power_at ms) xs
      (λ x. ground arith),
  sum_member m.eth_address m.power xs h,
  sum_power_at ms xs h,
)

pub sum_distance :
    (f g : EthAddress → ℕ) (xs : List EthAddress)
    → sum_over (λ x. distance (f x) (g x)) xs ≤ sum_over f xs + sum_over g xs
sum_distance f g xs = sum_le (λ x. distance (f x) (g x)) f g xs (λ x. ground arith)
