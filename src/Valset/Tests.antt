-- ===== src/Valset/Tests.antt =====
-- Runs of `power_diff` of gravity_utils/src/types/valsets.rs on concrete sets.
use near_aurora_bridge.Base.{◌*◌, ◌^◌, ◌≤◌, ◌≡◌, refl, none, some, [], ◌∷◌, arith, ok}
use near_aurora_bridge.Valset.{Valset, to_hashmap, to_hashset, hashmap_loop, hashset_loop}
use near_aurora_bridge.Float.{round24}
use near_aurora_bridge.Valset.Diff.{power_diff, select, add_unpaired, add_paired}
use near_aurora_bridge.Valset.PowerDiff.{power_diff-eq, total_distance}

-- Address 1 has two members, of which the last counts, and one member has no address.
abbrev old_set : Valset
old_set = record {
  nonce = 1;
  members =
      record { power = 500; eth_address = some 1 }
      ∷ record { power = 700; eth_address = some 2 }
      ∷ record { power = 90; eth_address = none }
      ∷ record { power = 400; eth_address = some 1 }
      ∷ [];
  reward_amount = 0;
  reward_token = none;
}

abbrev new_set : Valset
new_set = record {
  nonce = 2;
  members =
      record { power = 600; eth_address = some 2 }
      ∷ record { power = 4294960000; eth_address = some 3 }
      ∷ [];
  reward_amount = 0;
  reward_token = none;
}

-- 400 at the first address, 100 at the second, the whole power at the third.
power_diff_of_sets : power_diff old_set new_set ≡ ok 4294960384
unfolding power_diff to_hashmap to_hashset hashmap_loop hashset_loop select add_unpaired add_paired
    round24
power_diff_of_sets = refl

power_diff_of_itself : power_diff old_set old_set ≡ ok 0
unfolding power_diff to_hashmap to_hashset hashmap_loop hashset_loop select add_unpaired add_paired
    round24
power_diff_of_itself = refl

power_diff-eq_example :
    (power_diff old_set new_set ≡ ok (round24 (total_distance old_set new_set)))
    × (round24 (total_distance old_set new_set) ≤ 2 * 2 ^ 32)
power_diff-eq_example = power_diff-eq old_set new_set (omega arith) (omega arith)
