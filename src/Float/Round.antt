-- ===== src/Float/Round.antt =====
-- Rounding to the 24 significant bits of an `f32`, to nearest and to even on a tie.
use native.Mathlib.Nat.{pow-suc, div-add-mod, mod-lt}
use near_aurora_bridge.Base.{
  ℕ, zero, suc, ◌+◌, ◌*◌, ◌/◌, ◌%◌, ◌^◌, ◌≤◌, ◌<◌, ◌≡◌, refl, ◌⊎◌, inl, inr, ◌||◌, ◌&&◌, arith, ltb,
  ◌==◌, if◌then◌else◌, Bool-cases, lt→ltb, ltb→lt, ltb→le, le→ltb, ap, ◌∙◌,
}

pow_pos : (k : ℕ) → 0 < 2 ^ k
pow_pos zero = omega arith
pow_pos (suc k) = omega (arith, pow-suc 2 k, pow_pos k)

-- How often `n` is halved until 24 bits hold it.
pub exponent : ℕ → ℕ → ℕ
exponent zero n = 0
exponent (suc fuel) n = let rest = suc (exponent fuel (n / 2)) in if ltb n (2 ^ 24) then 0 else rest

unfoldable pub round_at : ℕ → ℕ → ℕ
round_at p n =
    if ltb p (2 * (n % p)) || ((2 * (n % p) == p) && (n / p % 2 == 1))
    then (n / p + 1) * p
    else n / p * p

-- The nearest number of 24 significant bits: `n as f32`, and the rounding of a product.
unfoldable pub round24 : ℕ → ℕ
unfolding exponent round_at
round24 n = round_at (2 ^ exponent 128 n) n

exponent_small : (fuel n : ℕ) → n < 2 ^ 24 → exponent (suc fuel) n ≡ 0
unfolding exponent
exponent_small fuel n h = rw (lt→ltb n (2 ^ 24) h)

exponent_big : (fuel n : ℕ) → 2 ^ 24 ≤ n → exponent (suc fuel) n ≡ suc (exponent fuel (n / 2))
unfolding exponent
exponent_big fuel n h = rw (le→ltb n (2 ^ 24) h)

-- What is rounded off is small: the kept part has 24 bits, unless nothing is rounded off.
exponent-le : (fuel n : ℕ) → (exponent fuel n ≡ 0) ⊎ (2 ^ 23 * 2 ^ exponent fuel n ≤ n)
exponent-le zero n = inl (unfold exponent in refl)
exponent-le (suc fuel) n = elim (Bool-cases (ltb n (2 ^ 24))) [
  | inl small ↦ inl (exponent_small fuel n (ltb→lt _ _ small))
  | inr big ↦ inr (
      rw (exponent_big fuel n (ltb→le _ _ big)) (elim (exponent-le fuel (n / 2)) [
        | inl e ↦ rw e (omega (arith, ltb→le _ _ big))
        | inr le ↦ omega (arith, pow-suc 2 (exponent fuel (n / 2)))
      ]))
]

-- The exponent of a number in the binade that `k` names.
exponent-eq :
    (fuel k n : ℕ) → k < fuel → 2 ^ 23 * 2 ^ k ≤ n → n < 2 ^ 24 * 2 ^ k → exponent fuel n ≡ k
exponent-eq zero k n h lo hi = elim h [ ]
exponent-eq (suc fuel) zero n h lo hi = exponent_small fuel n (omega arith)
exponent-eq (suc fuel) (suc k) n h lo hi =
    exponent_big fuel n (omega (arith, pow-suc 2 k, pow_pos k))
    ∙ ap suc (
        exponent-eq fuel k (n / 2) (omega arith) (omega (arith, pow-suc 2 k))
          (omega (arith, pow-suc 2 k)))

-- Rounding to a multiple of `p` moves a number by at most half of `p`.
round_at_error : (p n : ℕ) → 0 < p → (2 * round_at p n ≤ 2 * n + p) × (2 * n ≤ 2 * round_at p n + p)
unfolding round_at
round_at_error p n h = ground (arith, div-add-mod n p, mod-lt n h)

round_at_one : (n : ℕ) → round_at 1 n ≡ n
unfolding round_at
round_at_one n = ground arith

-- The relative error of a rounding is at most one in 2 ^ 24.
pub round24_error :
    (n : ℕ) → (2 ^ 24 * round24 n ≤ 2 ^ 24 * n + n) × (2 ^ 24 * n ≤ 2 ^ 24 * round24 n + n)
unfolding round24
round24_error n = elim (exponent-le 128 n) [
  | inl e ↦ rw (e, round_at_one n) (omega arith)
  | inr le ↦ omega (arith, round_at_error (2 ^ exponent 128 n) n (pow_pos (exponent 128 n)))
]

-- In one binade a rounding is to the multiples of one power of two.
pub round24_at :
    (k n : ℕ) → k < 128 → 2 ^ 23 * 2 ^ k ≤ n → n < 2 ^ 24 * 2 ^ k → round24 n ≡ round_at (2 ^ k) n
unfolding round24
round24_at k n h lo hi = rw (exponent-eq 128 k n h lo hi)
