-- ===== src/Valset/Diff.antt =====
-- `power_diff` of gravity_utils/src/types/valsets.rs. The result is an `f32`, in units of
-- 1 / 2 ^ 32.
use near_aurora_bridge.Base.{
  ℕ, ◌-◌, Bool, true, false, Option, none, some, List, [], ◌∷◌, ◌++◌, ltb, if◌then◌else◌, is_some,
  Outcome, ok, unwrap, add_u64, ◌>>=◌,
}
use near_aurora_bridge.Types.{EthAddress}
use near_aurora_bridge.HashMap.{HashMap, get}
use near_aurora_bridge.Float.{round24}
use near_aurora_bridge.Valset.{Valset, to_hashmap, to_hashset}

abbrev HashSet : Type 0
HashSet = HashMap (Unit {0})

-- The members of `a` for which `b` has an entry, or has none.
unfoldable pub select : Bool → HashSet → HashSet → List EthAddress
select common [] b = []
select common ((x, u) ∷ a) b =
    let rest = select common a b in
    if is_some (get x b)
    then (if common then x ∷ rest else rest)
    else (if common then rest else x ∷ rest)

abbrev pub intersection : HashSet → HashSet → List EthAddress
intersection = select true

abbrev pub symmetric_difference : HashSet → HashSet → List EthAddress
symmetric_difference a b = select false a b ++ select false b a

-- `a.get(item)`, or else `b.get(item)`.
abbrev pub either_power : HashMap ℕ → HashMap ℕ → EthAddress → Option ℕ
either_power a b item = elim (get item a) [ none ↦ get item b | some val ↦ some val ]

-- The loop over the addresses that one set alone has.
unfoldable pub add_unpaired : HashMap ℕ → HashMap ℕ → List EthAddress → ℕ → Outcome ℕ
add_unpaired a b [] total_power_diff = ok total_power_diff
add_unpaired a b (item ∷ items) total_power_diff = do
  power ← unwrap (either_power a b item)
  add_unpaired a b items (add_u64 total_power_diff power)

-- The loop over the addresses that both sets have. `a[item]` panics when there is no entry.
unfoldable pub add_paired : HashMap ℕ → HashMap ℕ → List EthAddress → ℕ → Outcome ℕ
add_paired a b [] total_power_diff = ok total_power_diff
add_paired a b (item ∷ items) total_power_diff = do
  power_a ← unwrap (get item a)
  power_b ← unwrap (get item b)
  add_paired a b items (
      add_u64 total_power_diff
        (if ltb power_b power_a then power_a - power_b else power_b - power_a))

-- `total as f32` is rounded; `u32::MAX as f32` is 2 ^ 32, so the division is exact.
unfoldable pub power_diff : Valset → Valset → Outcome ℕ
power_diff v other = do
  let a = to_hashmap v
  let b = to_hashmap other
  let a_map = to_hashset v
  let b_map = to_hashset other
  unpaired ← add_unpaired a b (symmetric_difference a_map b_map) 0
  total_power_diff ← add_paired a b (intersection a_map b_map) unpaired
  ok (round24 total_power_diff)
