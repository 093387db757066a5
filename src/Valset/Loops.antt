-- ===== src/Valset/Loops.antt =====
-- The two loops of `power_diff` of gravity_utils/src/types/valsets.rs, and the sets that they run
-- over.
use near_aurora_bridge.Base.{
  ℕ, ◌+◌, ◌^◌, ◌<◌, ◌≡◌, refl, sym, ap, ◌∙◌, Bool, true, false, not, List, [], ◌∷◌, ◌++◌, arith,
  if◌then◌else◌, is_some, All, is_some→some, ok, add_u64,
}
use near_aurora_bridge.Types.{EthAddress}
use near_aurora_bridge.HashMap.{HashMap, get, keys}
use near_aurora_bridge.Valset.Addresses.{or_zero, units}
use near_aurora_bridge.Valset.Distance.{sum_over, distance}
use near_aurora_bridge.Valset.Diff.{
  symmetric_difference, intersection, select, add_unpaired, add_paired,
}

abbrev pub holds : HashMap ℕ → EthAddress → Bool
holds m x = is_some (get x m)

abbrev pub distance_at : HashMap ℕ → HashMap ℕ → EthAddress → ℕ
distance_at a b x = distance (or_zero (get x a)) (or_zero (get x b))

-- Every address stands in one of two tables, and in both of them or not.
abbrev pub Split : Bool → HashMap ℕ → HashMap ℕ → List EthAddress → Type 0
Split common a b = All (λ x. (holds a x ≡ true) × (holds b x ≡ common))

add_u64_small : (m n : ℕ) → m + n < 2 ^ 64 → add_u64 m n ≡ m + n
add_u64_small m n h = omega arith

paired_at :
    (a b : HashMap ℕ) (x : EthAddress) (xs : List EthAddress) (total : ℕ)
    → holds a x ≡ true
    → holds b x ≡ true
    → add_paired a b (x ∷ xs) total ≡ add_paired a b xs (add_u64 total (distance_at a b x))
unfolding add_paired
paired_at a b x xs total h k =
    let (p, e) = is_some→some (get x a) h in let (q, f) = is_some→some (get x b) k in rw (e, f) refl

unpaired_at :
    (a b : HashMap ℕ) (x : EthAddress) (xs : List EthAddress) (total : ℕ)
    → holds a x ≡ not (holds b x)
    → add_unpaired a b (x ∷ xs) total ≡ add_unpaired a b xs (add_u64 total (distance_at a b x))
unfolding add_unpaired
unpaired_at a b x xs total h = ground arith

pub add_paired_lem :
    (a b : HashMap ℕ) (xs : List EthAddress) (total : ℕ)
    → Split true a b xs
    → total + sum_over (distance_at a b) xs < 2 ^ 64
    → add_paired a b xs total ≡ ok (total + sum_over (distance_at a b) xs)
unfolding add_paired
add_paired_lem a b [] total s h = ap ok (omega arith)
add_paired_lem a b (x ∷ xs) total s h =
    paired_at a b x xs total s.0.0 s.0.1
    ∙ ap (add_paired a b xs) (add_u64_small total (distance_at a b x) (omega (arith, h)))
    ∙ add_paired_lem a b xs (total + distance_at a b x) s.1 (omega (arith, h))
    ∙ ap ok (omega arith)

pub add_unpaired_lem :
    (a b : HashMap ℕ) (xs : List EthAddress) (total : ℕ)
    → All (λ x. holds a x ≡ not (holds b x)) xs
    → total + sum_over (distance_at a b) xs < 2 ^ 64
    → add_unpaired a b xs total ≡ ok (total + sum_over (distance_at a b) xs)
unfolding add_unpaired
add_unpaired_lem a b [] total s h = ap ok (omega arith)
add_unpaired_lem a b (x ∷ xs) total s h =
    unpaired_at a b x xs total s.0
    ∙ ap (add_unpaired a b xs) (add_u64_small total (distance_at a b x) (omega (arith, h)))
    ∙ add_unpaired_lem a b xs (total + distance_at a b x) s.1 (omega (arith, h))
    ∙ ap ok (omega arith)

pub is_some-get-units :
    (x : EthAddress) (m : HashMap ℕ) → is_some (get x (units m)) ≡ is_some (get x m)
is_some-get-units x [] = refl
is_some-get-units x ((k, v) ∷ m) = ground (arith, is_some-get-units x m)

abbrev pub Held : HashMap ℕ → List EthAddress → Type 0
Held m = All (λ x. holds m x ≡ true)

Held-cons : (k v : ℕ) (m : HashMap ℕ) (xs : List EthAddress) → Held m xs → Held ((k, v) ∷ m) xs
Held-cons k v m [] h = tt
Held-cons k v m (x ∷ xs) h = (ground (arith, h.0), Held-cons k v m xs h.1)

pub keys-Held : (m : HashMap ℕ) → Held m (keys m)
keys-Held [] = tt
keys-Held ((k, v) ∷ m) = (ground arith, Held-cons k v m (keys m) (keys-Held m))

keep_one :
    (common has : Bool) (a b : HashMap ℕ) (x : EthAddress) (xs : List EthAddress)
    → holds a x ≡ true
    → holds b x ≡ has
    → Split common a b xs
    → Split common a b
        (if has then (if common then x ∷ xs else xs) else (if common then xs else x ∷ xs))
keep_one true true a b x xs h k s = ((h, k), s)
keep_one true false a b x xs h k s = s
keep_one false true a b x xs h k s = s
keep_one false false a b x xs h k s = ((h, k), s)

pub select-Split :
    (common : Bool) (a m b : HashMap ℕ)
    → Held a (keys m)
    → Split common a b (select common (units m) (units b))
unfolding select
select-Split common a [] b h = tt
select-Split common a ((k, v) ∷ m) b h =
    keep_one common (is_some (get k (units b))) a b k (select common (units m) (units b)) h.0
      (sym (is_some-get-units k b)) (select-Split common a m b h.1)

pub sum_select :
    (f : EthAddress → ℕ) (a b : HashMap ℕ)
    → sum_over f (select true (units a) (units b)) + sum_over f (select false (units a) (units b))
      ≡ sum_over f (keys a)
unfolding select
sum_select f [] b = omega arith
sum_select f ((k, v) ∷ a) b = ground (arith, sum_select f a b)

All-append :
    (P : EthAddress → Type 0) (xs ys : List EthAddress) → All P xs → All P ys → All P (xs ++ ys)
All-append P [] ys h k = k
All-append P (x ∷ xs) ys h k = (h.0, All-append P xs ys h.1 k)

Split-differ :
    (a b : HashMap ℕ) (xs : List EthAddress)
    → Split false a b xs
    → All (λ x. holds a x ≡ not (holds b x)) xs
Split-differ a b [] s = tt
Split-differ a b (x ∷ xs) s = (ground (arith, s.0.0, s.0.1), Split-differ a b xs s.1)

Split-differ_sym :
    (a b : HashMap ℕ) (xs : List EthAddress)
    → Split false b a xs
    → All (λ x. holds a x ≡ not (holds b x)) xs
Split-differ_sym a b [] s = tt
Split-differ_sym a b (x ∷ xs) s = (ground (arith, s.0.0, s.0.1), Split-differ_sym a b xs s.1)

pub symmetric_difference-differ :
    (a b : HashMap ℕ)
    → All (λ x. holds a x ≡ not (holds b x)) (symmetric_difference (units a) (units b))
symmetric_difference-differ a b =
    All-append (λ x. holds a x ≡ not (holds b x)) (select false (units a) (units b))
      (select false (units b) (units a))
      (Split-differ a b (select false (units a) (units b)) (select-Split false a a b (keys-Held a)))
      (Split-differ_sym a b (select false (units b) (units a))
        (select-Split false b b a (keys-Held b)))

pub intersection-Split : (a b : HashMap ℕ) → Split true a b (intersection (units a) (units b))
intersection-Split a b = select-Split true a a b (keys-Held a)
