-- ===== src/Valset/Addresses.antt =====
-- The addresses of a validator set, each once, and the power that stands behind each of them, as
-- an account of `to_hashmap` and `to_hashset` of gravity_utils/src/types/valsets.rs.
use near_aurora_bridge.Base.{
  ℕ, ◌+◌, ◌≤◌, ◌≡◌, refl, sym, ap, ◌∙◌, Option, none, some, List, [], ◌∷◌, arith, ltb, ◌==◌,
  if◌then◌else◌,
}
use near_aurora_bridge.Types.{EthAddress}
use near_aurora_bridge.HashMap.{HashMap, get, insert, keys, get-insert}
use near_aurora_bridge.Valset.{
  Valset, ValsetMember, to_hashmap, to_hashset, hashmap_loop, hashset_loop, has_address,
}

-- The power of the last member with an address.
abbrev pub last_power : List ValsetMember → EthAddress → Option ℕ
last_power [] a = none
last_power (m ∷ ms) a = elim (last_power ms a) [
  | none ↦ if has_address m a then some m.power else none
  | some p ↦ some p
]

abbrev pub or_zero : Option ℕ → ℕ
or_zero none = 0
or_zero (some p) = p

abbrev pub power_at : List ValsetMember → EthAddress → ℕ
power_at ms a = or_zero (last_power ms a)

abbrev pub count : EthAddress → List EthAddress → ℕ
count a [] = 0
count a (x ∷ xs) = (if x == a then 1 else 0) + count a xs

-- An address goes to the end of a list that does not have it.
abbrev pub add_once : EthAddress → List EthAddress → List EthAddress
add_once a [] = a ∷ []
add_once a (x ∷ xs) = if x == a then a ∷ xs else x ∷ add_once a xs

unfoldable pub add_addresses : List ValsetMember → List EthAddress → List EthAddress
add_addresses [] xs = xs
add_addresses (m ∷ ms) xs =
    add_addresses ms (elim m.eth_address [ none ↦ xs | some a ↦ add_once a xs ])

-- The addresses of two sets, each once.
abbrev pub all_addresses : Valset → Valset → List EthAddress
all_addresses v w = add_addresses w.members (add_addresses v.members [])

get_step :
    (a : EthAddress) (o : Option EthAddress) (p : ℕ) (res : HashMap ℕ)
    → get a (elim o [ none ↦ res | some b ↦ insert b p res ])
      ≡ (if has_address (record { power = p; eth_address = o }) a then some p else get a res)
get_step a none p res = refl
get_step a (some b) p res = ground (arith, get-insert b a p res)

get-hashmap_loop :
    (a : EthAddress) (ms : List ValsetMember) (res : HashMap ℕ)
    → get a (hashmap_loop ms res) ≡ elim (last_power ms a) [ none ↦ get a res | some p ↦ some p ]
unfolding hashmap_loop
get-hashmap_loop a [] res = refl
get-hashmap_loop a (m ∷ ms) res =
    rw (get-hashmap_loop a ms (elim m.eth_address [ none ↦ res | some b ↦ insert b m.power res ]))
      (ground (arith, get_step a m.eth_address m.power res))

pub get-to_hashmap : (a : EthAddress) (v : Valset) → get a (to_hashmap v) ≡ last_power v.members a
unfolding to_hashmap
get-to_hashmap a v = rw (get-hashmap_loop a v.members []) (ground arith)

-- The keys alone.
abbrev pub units {ℓ} : {V : Type ℓ} → HashMap V → HashMap (Unit {0})
units [] = []
units ((k, v) ∷ m) = (k, tt) ∷ units m

units-insert : (k v : ℕ) (m : HashMap ℕ) → units (insert k v m) ≡ insert k tt (units m)
units-insert k v [] = refl
units-insert k v ((j, w) ∷ m) = ground (arith, units-insert k v m)

units_step :
    (o : Option EthAddress) (p : ℕ) (res : HashMap ℕ)
    → elim o [ none ↦ units res | some a ↦ insert a tt (units res) ]
      ≡ units (elim o [ none ↦ res | some a ↦ insert a p res ])
units_step none p res = refl
units_step (some a) p res = sym (units-insert a p res)

hashset_loop-units :
    (ms : List ValsetMember) (res : HashMap ℕ)
    → hashset_loop ms (units res) ≡ units (hashmap_loop ms res)
unfolding hashset_loop hashmap_loop
hashset_loop-units [] res = refl
hashset_loop-units (m ∷ ms) res =
    ap (hashset_loop ms) (units_step m.eth_address m.power res)
    ∙ hashset_loop-units ms (elim m.eth_address [ none ↦ res | some a ↦ insert a m.power res ])

pub to_hashset-units : (v : Valset) → to_hashset v ≡ units (to_hashmap v)
unfolding to_hashset to_hashmap
to_hashset-units v = hashset_loop-units v.members []

keys-insert : (k v : ℕ) (m : HashMap ℕ) → keys (insert k v m) ≡ add_once k (keys m)
keys-insert k v [] = refl
keys-insert k v ((j, w) ∷ m) = ground (arith, keys-insert k v m)

keys_step :
    (o : Option EthAddress) (p : ℕ) (res : HashMap ℕ)
    → keys (elim o [ none ↦ res | some a ↦ insert a p res ])
      ≡ elim o [ none ↦ keys res | some a ↦ add_once a (keys res) ]
keys_step none p res = refl
keys_step (some a) p res = keys-insert a p res

pub keys-hashmap_loop :
    (ms : List ValsetMember) (res : HashMap ℕ)
    → keys (hashmap_loop ms res) ≡ add_addresses ms (keys res)
unfolding hashmap_loop add_addresses
keys-hashmap_loop [] res = refl
keys-hashmap_loop (m ∷ ms) res =
    keys-hashmap_loop ms (elim m.eth_address [ none ↦ res | some a ↦ insert a m.power res ])
    ∙ ap (add_addresses ms) (keys_step m.eth_address m.power res)

-- No address comes twice.
abbrev pub Once : List EthAddress → Type 0
Once xs = (a : EthAddress) → count a xs ≤ 1

count-add_once :
    (a b : EthAddress) (xs : List EthAddress)
    → count b (add_once a xs)
      ≡ (if a == b then (if ltb 0 (count b xs) then count b xs else 1) else count b xs)
count-add_once a b [] = ground arith
count-add_once a b (x ∷ xs) = ground (arith, count-add_once a b xs)

add_once-Once : (a : EthAddress) (xs : List EthAddress) → Once xs → Once (add_once a xs)
add_once-Once a xs h b = ground (arith, count-add_once a b xs, h b)

option_Once :
    (o : Option EthAddress) (xs : List EthAddress)
    → Once xs
    → Once (elim o [ none ↦ xs | some a ↦ add_once a xs ])
option_Once none xs h = h
option_Once (some a) xs h = add_once-Once a xs h

pub add_addresses-Once :
    (ms : List ValsetMember) (xs : List EthAddress) → Once xs → Once (add_addresses ms xs)
unfolding add_addresses
add_addresses-Once [] xs h = h
add_addresses-Once (m ∷ ms) xs h =
    add_addresses-Once ms (elim m.eth_address [ none ↦ xs | some a ↦ add_once a xs ])
      (option_Once m.eth_address xs h)
