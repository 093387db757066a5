-- ===== src/Float/Threshold.antt =====
-- gravity_power_to_percent of gravity_utils/src/types/valsets.rs, and the power at which it
-- reaches 66.
use near_aurora_bridge.Float.Round.{round24, round24_error, round24_at, round_at}
use near_aurora_bridge.Base.{
  ℕ, ◌*◌, ◌^◌, ◌≤◌, ◌<◌, ◌≡◌, Bool, arith, ltb, tests, u32_max, refl, inl, inr, Bool-cases, ltb→lt,
  lt→ltb, ltb→le, le→ltb,
}

abbrev pub total_gravity_power : ℕ
total_gravity_power = u32_max

-- In units of 1 / 2 ^ 32. `total_gravity_power as f32` is 2 ^ 32, so the division is exact.
unfoldable pub gravity_power_to_percent : ℕ → ℕ
gravity_power_to_percent input = round24 (round24 input * 100)

-- `percent < 66f32`
abbrev pub lt_66 : ℕ → Bool
lt_66 percent = ltb percent (66 * 2 ^ 32)

-- The least power of which 66 percent are found.
abbrev pub required_power : ℕ
required_power = 2834678144

total_as_f32 : round24 total_gravity_power ≡ 2 ^ 32
unfolding round24
total_as_f32 = refl

percent_low : (x : ℕ) → x < 2 ^ 31 → gravity_power_to_percent x < 66 * 2 ^ 32
unfolding gravity_power_to_percent
percent_low x h = omega (arith, round24_error x, round24_error (round24 x * 100))

percent_high : (x : ℕ) → 2 ^ 32 ≤ x → 66 * 2 ^ 32 ≤ gravity_power_to_percent x
unfolding gravity_power_to_percent
percent_high x h = omega (arith, round24_error x, round24_error (round24 x * 100))

round_mid_le : (x : ℕ) → 2 ^ 31 ≤ x → x < required_power → round24 x ≤ 2834678016
unfolding round_at
round_mid_le x lo hi = rw (round24_at 8 x (omega arith) (omega arith) (omega arith)) (ground arith)

round_mid_ge : (x : ℕ) → required_power ≤ x → x < 2 ^ 32 → 2834678272 ≤ round24 x
unfolding round_at
round_mid_ge x lo hi = rw (round24_at 8 x (omega arith) (omega arith) (omega arith)) (ground arith)

round_product_lt : (p : ℕ) → p ≤ 283467801600 → round24 p < 66 * 2 ^ 32
unfolding round_at
round_product_lt p hi = elim (Bool-cases (ltb p (2 ^ 38))) [
  | inl low ↦ omega (tests, round24_error p)
  | inr high ↦ rw (round24_at 15 p (omega arith) (omega tests) (omega arith)) (ground arith)
]

round_product_ge : (p : ℕ) → 283467827200 ≤ p → p < 2 ^ 39 → 66 * 2 ^ 32 ≤ round24 p
unfolding round_at
round_product_ge p lo hi =
    rw (round24_at 15 p (omega arith) (omega arith) (omega arith)) (ground arith)

percent_mid_lt :
    (x : ℕ) → 2 ^ 31 ≤ x → x < required_power → gravity_power_to_percent x < 66 * 2 ^ 32
unfolding gravity_power_to_percent
percent_mid_lt x lo hi = round_product_lt (round24 x * 100) (omega (arith, round_mid_le x lo hi))

percent_mid_ge :
    (x : ℕ) → required_power ≤ x → x < 2 ^ 32 → 66 * 2 ^ 32 ≤ gravity_power_to_percent x
unfolding gravity_power_to_percent
percent_mid_ge x lo hi =
    round_product_ge (round24 x * 100) (omega (arith, round_mid_ge x lo hi))
      (omega (arith, round24_error x))

-- The floating-point test `percent < 66` is the integer test `power < 2834678144`.
pub lt_66-gravity_power_to_percent :
    (x : ℕ) → lt_66 (gravity_power_to_percent x) ≡ ltb x required_power
lt_66-gravity_power_to_percent x = elim (Bool-cases (ltb x required_power)) [
  | inl low ↦ rw low (elim (Bool-cases (ltb x (2 ^ 31))) [
    | inl lt ↦ lt→ltb _ _ (percent_low x (ltb→lt _ _ lt))
    | inr ge ↦ lt→ltb _ _ (percent_mid_lt x (ltb→le _ _ ge) (ltb→lt _ _ low))
  ])
  | inr high ↦ rw high (elim (Bool-cases (ltb x (2 ^ 32))) [
    | inl lt ↦ le→ltb _ _ (percent_mid_ge x (ltb→le _ _ high) (ltb→lt _ _ lt))
    | inr ge ↦ le→ltb _ _ (percent_high x (ltb→le _ _ ge))
  ])
]

-- Rounding does not pass 2 ^ 33 from below: that is twice the total power.
pub round24_le_twice : (n : ℕ) → n ≤ 2 * total_gravity_power → round24 n ≤ 2 * 2 ^ 32
unfolding round_at
round24_le_twice n h = elim (Bool-cases (ltb n (2 ^ 32))) [
  | inl low ↦ omega (tests, round24_error n)
  | inr high ↦ rw (round24_at 9 n (omega arith) (omega tests) (omega arith)) (ground arith)
]
