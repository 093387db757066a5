-- ===== src/Valset.antt =====
-- `Valset` and `ValsetMember` of gravity_utils/src/types/valsets.rs, with the queries that read
-- one validator set. The logging is left out.
pub mod Addresses
pub mod Diff
pub mod Distance
pub mod Loops
pub mod PowerDiff
mod Tests
pub mod Union
use near_aurora_bridge.Base.{
  ℕ, ◌≡◌, Bool, false, Option, none, some, List, [], ◌∷◌, ◌++◌, map, ◌==◌, if◌then◌else◌, rpc_error,
  Outcome, ok, err,
}
use near_aurora_bridge.HashMap.{HashMap, insert}
use mathlib.Core.List.{append-nil, append_assoc}
use near_aurora_bridge.Types.{EthAddress, Uint256, zero_address}

pub record ValsetMember : Type 0 where
  pub power : ℕ
  pub eth_address : Option EthAddress

pub record Valset : Type 0 where
  pub nonce : ℕ
  pub members : List ValsetMember
  pub reward_amount : Uint256
  pub reward_token : Option EthAddress

-- `match val.eth_address { Some(a) => a, None => EthAddress::default() }`
abbrev pub address_or_zero : Option EthAddress → EthAddress
address_or_zero none = zero_address
address_or_zero (some a) = a

-- The loop of `filter_empty_addresses`, with its two vectors.
filter_loop : List ValsetMember → List EthAddress × List ℕ → List EthAddress × List ℕ
filter_loop [] out = out
filter_loop (m ∷ ms) (addresses, powers) =
    filter_loop ms (addresses ++ address_or_zero m.eth_address ∷ [], powers ++ m.power ∷ [])

unfoldable pub filter_empty_addresses : Valset → List EthAddress × List ℕ
unfolding filter_loop
filter_empty_addresses v = filter_loop v.members ([], [])

-- `val.eth_address == Some(address)`
abbrev has_address : ValsetMember → EthAddress → Bool
has_address m a = elim m.eth_address [ none ↦ false | some b ↦ b == a ]

get_power_in : List ValsetMember → EthAddress → Outcome ℕ
get_power_in [] a = err rpc_error
get_power_in (m ∷ ms) a = if has_address m a then ok m.power else get_power_in ms a

-- Its error is a `CosmosGrpcError`, which becomes an `RpcError`.
unfoldable pub get_power : Valset → EthAddress → Outcome ℕ
unfolding get_power_in
get_power v a = get_power_in v.members a

-- A later member with the same address replaces an earlier one.
unfoldable pub hashmap_loop : List ValsetMember → HashMap ℕ → HashMap ℕ
hashmap_loop [] res = res
hashmap_loop (m ∷ ms) res =
    hashmap_loop ms (elim m.eth_address [ none ↦ res | some a ↦ insert a m.power res ])

unfoldable pub to_hashmap : Valset → HashMap ℕ
unfolding hashmap_loop
to_hashmap v = hashmap_loop v.members []

unfoldable pub hashset_loop : List ValsetMember → HashMap (Unit {0}) → HashMap (Unit {0})
hashset_loop [] res = res
hashset_loop (m ∷ ms) res =
    hashset_loop ms (elim m.eth_address [ none ↦ res | some a ↦ insert a tt res ])

-- A `HashSet` is a `HashMap` with no values.
unfoldable pub to_hashset : Valset → HashMap (Unit {0})
unfolding hashset_loop
to_hashset v = hashset_loop v.members []

-- The two vectors of `filter_empty_addresses` run parallel to the members.
filter_loop-eq :
    (ms : List ValsetMember) (xs : List EthAddress) (ps : List ℕ)
    → filter_loop ms (xs, ps)
      ≡ (xs ++ map (λ m. address_or_zero m.eth_address) ms, ps ++ map (λ m. m.power) ms)
unfolding filter_loop
filter_loop-eq [] xs ps = simp append-nil
filter_loop-eq (m ∷ ms) xs ps = simp (
  filter_loop-eq ms (xs ++ address_or_zero m.eth_address ∷ []) (ps ++ m.power ∷ []),
  append_assoc,
)

pub filter_empty_addresses-eq :
    (v : Valset)
    → filter_empty_addresses v
      ≡ (map (λ m. address_or_zero m.eth_address) v.members, map (λ m. m.power) v.members)
unfolding filter_empty_addresses
filter_empty_addresses-eq v = filter_loop-eq v.members [] []
