-- ===== src/Valset/Union.antt =====
-- The keys of two tables together, in the order in which `power_diff` of
-- gravity_utils/src/types/valsets.rs could meet them.
use near_aurora_bridge.Base.{
  ℕ, ◌≡◌, refl, sym, ap, ◌∙◌, inl, inr, true, false, Option, none, some, List, [], ◌∷◌, ◌++◌, arith,
  Bool-cases, is_some,
}
use mathlib.Core.List.{append-nil}
use near_aurora_bridge.Types.{EthAddress}
use near_aurora_bridge.HashMap.{HashMap, get, insert, keys}
use near_aurora_bridge.Valset.{Valset, to_hashmap, ValsetMember, hashmap_loop}
use near_aurora_bridge.Valset.Addresses.{
  all_addresses, keys-hashmap_loop, units, add_once, add_addresses,
}
use near_aurora_bridge.Valset.Diff.{select}
use near_aurora_bridge.Valset.Loops.{holds, is_some-get-units}

-- The keys of one table, and then those that the other alone has.
abbrev pub both_keys : HashMap ℕ → HashMap ℕ → List EthAddress
both_keys a r = keys a ++ select false (units r) (units a)

add_once_old :
    (k : EthAddress) (a : HashMap ℕ) (ys : List EthAddress)
    → holds a k ≡ true
    → add_once k (keys a ++ ys) ≡ keys a ++ ys
add_once_old k [] ys h = cc
add_once_old k ((j, v) ∷ a) ys h = ground (arith, add_once_old k a ys)

add_once_new :
    (k : EthAddress) (a : HashMap ℕ) (ys : List EthAddress)
    → holds a k ≡ false
    → add_once k (keys a ++ ys) ≡ keys a ++ add_once k ys
add_once_new k [] ys h = refl
add_once_new k ((j, v) ∷ a) ys h = ground (arith, add_once_new k a ys)

select_old :
    (k p : ℕ) (r a : HashMap ℕ)
    → is_some (get k (units a)) ≡ true
    → select false (units (insert k p r)) (units a) ≡ select false (units r) (units a)
unfolding select
select_old k p [] a h = ground arith
select_old k p ((j, v) ∷ r) a h = ground (arith, select_old k p r a h)

select_new :
    (k p : ℕ) (r a : HashMap ℕ)
    → is_some (get k (units a)) ≡ false
    → select false (units (insert k p r)) (units a) ≡ add_once k (select false (units r) (units a))
unfolding select
select_new k p [] a h = ground arith
select_new k p ((j, v) ∷ r) a h = ground (arith, select_new k p r a h)

step_union :
    (o : Option EthAddress) (p : ℕ) (r a : HashMap ℕ)
    → elim o [ none ↦ both_keys a r | some k ↦ add_once k (both_keys a r) ]
      ≡ both_keys a (elim o [ none ↦ r | some k ↦ insert k p r ])
step_union none p r a = refl
step_union (some k) p r a = elim (Bool-cases (holds a k)) [
  | inl h ↦
      rw (select_old k p r a (is_some-get-units k a ∙ h))
        (add_once_old k a (select false (units r) (units a)) h)
  | inr h ↦
      rw (select_new k p r a (is_some-get-units k a ∙ h))
        (add_once_new k a (select false (units r) (units a)) h)
]

union_loop :
    (ms : List ValsetMember) (r a : HashMap ℕ)
    → add_addresses ms (both_keys a r) ≡ both_keys a (hashmap_loop ms r)
unfolding add_addresses hashmap_loop
union_loop [] r a = refl
union_loop (m ∷ ms) r a =
    ap (add_addresses ms) (step_union m.eth_address m.power r a)
    ∙ union_loop ms (elim m.eth_address [ none ↦ r | some k ↦ insert k m.power r ]) a

both_keys-nil : (a : HashMap ℕ) → both_keys a [] ≡ keys a
unfolding select
both_keys-nil a = append-nil (keys a)

pub all_addresses-both_keys :
    (v w : Valset) → all_addresses v w ≡ both_keys (to_hashmap v) (to_hashmap w)
unfolding to_hashmap
all_addresses-both_keys v w =
    ap (add_addresses w.members)
      (sym (keys-hashmap_loop v.members []) ∙ sym (both_keys-nil (hashmap_loop v.members [])))
    ∙ union_loop w.members [] (hashmap_loop v.members [])
