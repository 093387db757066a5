-- ===== src/Valset/PowerDiff.antt =====
-- What `power_diff` of gravity_utils/src/types/valsets.rs returns.
use near_aurora_bridge.Base.{
  ℕ, ◌+◌, ◌*◌, ◌^◌, ◌≤◌, ◌<◌, ◌≡◌, refl, sym, ap, ◌∙◌, false, List, [], ◌∷◌, arith, Outcome, ok,
  err, panic, ◌>>=◌,
}
use near_aurora_bridge.Types.{EthAddress}
use near_aurora_bridge.HashMap.{HashMap, keys}
use near_aurora_bridge.Float.{round24, round24_le_twice, total_gravity_power}
use near_aurora_bridge.Valset.{Valset, to_hashmap}
use near_aurora_bridge.Valset.Addresses.{
  units, power_at, all_addresses, get-to_hashmap, to_hashset-units, add_addresses-Once, Once,
}
use near_aurora_bridge.Valset.Diff.{
  power_diff, select, symmetric_difference, intersection, add_unpaired, add_paired,
}
use near_aurora_bridge.Valset.Distance.{
  sum_over, distance, total_power, sum_over-append, sum_power_at, sum_distance,
}
use near_aurora_bridge.Valset.Loops.{
  distance_at, add_unpaired_lem, add_paired_lem, symmetric_difference-differ, intersection-Split,
  sum_select,
}
use near_aurora_bridge.Valset.Union.{both_keys, all_addresses-both_keys}

-- The difference in power at one address, an address with no member counting as zero.
abbrev pub distance_between : Valset → Valset → EthAddress → ℕ
distance_between v w x = distance (power_at v.members x) (power_at w.members x)

-- The sum of the differences over the addresses of both sets.
abbrev pub total_distance : Valset → Valset → ℕ
total_distance v w = sum_over (distance_between v w) (all_addresses v w)

sum_all :
    (f : EthAddress → ℕ) (a b : HashMap ℕ)
    → sum_over f (symmetric_difference (units a) (units b))
        + sum_over f (intersection (units a) (units b))
      ≡ sum_over f (both_keys a b)
sum_all f a b = omega (
  arith,
  sum_over-append f (select false (units a) (units b)) (select false (units b) (units a)),
  sum_over-append f (keys a) (select false (units b) (units a)),
  sum_select f a b,
)

loops :
    (a b : HashMap ℕ)
    → sum_over (distance_at a b) (both_keys a b) < 2 ^ 64
    → (add_unpaired a b (symmetric_difference (units a) (units b)) 0 >>= λ unpaired.
        add_paired a b (intersection (units a) (units b)) unpaired)
      ≡ ok (sum_over (distance_at a b) (both_keys a b))
loops a b h =
    ap (λ r. r >>= λ unpaired. add_paired a b (intersection (units a) (units b)) unpaired)
      (add_unpaired_lem a b (symmetric_difference (units a) (units b)) 0
        (symmetric_difference-differ a b) (omega (arith, h, sum_all (distance_at a b) a b)))
    ∙ add_paired_lem a b (intersection (units a) (units b))
        (0 + sum_over (distance_at a b) (symmetric_difference (units a) (units b)))
        (intersection-Split a b) (omega (arith, h, sum_all (distance_at a b) a b))
    ∙ ap ok (omega (arith, sum_all (distance_at a b) a b))

bind_assoc : (m : Outcome ℕ) (f g : ℕ → Outcome ℕ) → (m >>= λ x. f x >>= g) ≡ ((m >>= f) >>= g)
bind_assoc (ok x) f g = refl
bind_assoc (err e) f g = refl
bind_assoc panic f g = refl

sum_over-eq :
    (f g : EthAddress → ℕ) (xs : List EthAddress)
    → ((x : EthAddress) → f x ≡ g x)
    → sum_over f xs ≡ sum_over g xs
sum_over-eq f g [] e = refl
sum_over-eq f g (x ∷ xs) e = omega (arith, e x, sum_over-eq f g xs e)

total_distance-eq :
    (v w : Valset)
    → sum_over (distance_at (to_hashmap v) (to_hashmap w)) (both_keys (to_hashmap v) (to_hashmap w))
      ≡ total_distance v w
total_distance-eq v w = rw (sym (all_addresses-both_keys v w)) (
    sum_over-eq (distance_at (to_hashmap v) (to_hashmap w)) (distance_between v w)
      (all_addresses v w) (λ x. rw (get-to_hashmap x v, get-to_hashmap x w) refl))

total_distance_le :
    (v w : Valset) → total_distance v w ≤ total_power v.members + total_power w.members
total_distance_le v w =
    let once : Once (all_addresses v w) =
      add_addresses-Once w.members _ (add_addresses-Once v.members [] (λ a. omega arith)) in
    omega (
      arith,
      sum_distance (power_at v.members) (power_at w.members) (all_addresses v w),
      sum_power_at v.members (all_addresses v w) once,
      sum_power_at w.members (all_addresses v w) once,
    )

-- When the powers in each of two validator sets sum to no more than the total power, then their
-- difference is computed with no panic and no overflow. It is the sum, over the addresses of both
-- sets, each taken once, of the absolute difference in power, where the last member with an address
-- counts and a missing member counts as zero, rounded to 24 bits; and it is at most two.
pub power_diff-eq :
    (v w : Valset)
    → total_power v.members ≤ total_gravity_power
    → total_power w.members ≤ total_gravity_power
    → (power_diff v w ≡ ok (round24 (total_distance v w)))
      × (round24 (total_distance v w) ≤ 2 * 2 ^ 32)
unfolding power_diff
power_diff-eq v w hv hw = (
  rw (to_hashset-units v, to_hashset-units w)
      (bind_assoc
          (add_unpaired (to_hashmap v) (to_hashmap w)
            (symmetric_difference (units (to_hashmap v)) (units (to_hashmap w))) 0)
          (λ unpaired.
            add_paired (to_hashmap v) (to_hashmap w)
              (intersection (units (to_hashmap v)) (units (to_hashmap w))) unpaired)
          (λ total. ok (round24 total))
        ∙ ap (λ r. r >>= λ total. ok (round24 total))
            (loops (to_hashmap v) (to_hashmap w)
                (omega (arith, total_distance-eq v w, total_distance_le v w))
              ∙ ap ok (total_distance-eq v w))),
  round24_le_twice (total_distance v w) (omega (arith, total_distance_le v w)),
)
