-- ===== src/Confirm.antt =====
-- The trait `Confirm` and `get_hashmap` of gravity_utils/src/types/valsets.rs, and the three
-- kinds of confirmation, of valsets.rs, batches.rs and logic_call.rs.
use near_aurora_bridge.Base.{
  ℕ, ◌≡◌, refl, Option, none, some, List, [], ◌∷◌, arith, ◌==◌, if◌then◌else◌,
}
use near_aurora_bridge.HashMap.{HashMap, get, insert, get-insert}
use near_aurora_bridge.Types.{EthAddress, EthSignature}

pub record Confirm {ℓ} (T : Type ℓ) : Type ℓ where
  pub get_eth_address : T → EthAddress
  pub get_signature : T → EthSignature

-- A Cosmos address is only compared and passed on, so it is a number too.
pub record ValsetConfirmResponse : Type 0 where
  pub orchestrator : ℕ
  pub eth_address : EthAddress
  pub nonce : ℕ
  pub eth_signature : EthSignature

pub record BatchConfirmResponse : Type 0 where
  pub nonce : ℕ
  pub orchestrator : ℕ
  pub token_contract : EthAddress
  pub ethereum_signer : EthAddress
  pub eth_signature : EthSignature

pub record LogicCallConfirmResponse : Type 0 where
  pub invalidation_id : List ℕ
  pub invalidation_nonce : ℕ
  pub ethereum_signer : EthAddress
  pub orchestrator : ℕ
  pub eth_signature : EthSignature

instance abbrev pub valset_confirm : Confirm ValsetConfirmResponse
valset_confirm = record {
  get_eth_address = λ c. c.eth_address;
  get_signature = λ c. c.eth_signature;
}

instance abbrev pub batch_confirm : Confirm BatchConfirmResponse
batch_confirm = record {
  get_eth_address = λ c. c.ethereum_signer;
  get_signature = λ c. c.eth_signature;
}

instance abbrev pub logic_call_confirm : Confirm LogicCallConfirmResponse
logic_call_confirm = record {
  get_eth_address = λ c. c.ethereum_signer;
  get_signature = λ c. c.eth_signature;
}

module _ {ℓ} {T : Type ℓ} ⦃c : Confirm T⦄ where
  get_hashmap_loop : List T → HashMap T → HashMap T
  get_hashmap_loop [] out = out
  get_hashmap_loop (t ∷ ts) out = get_hashmap_loop ts (insert (c.get_eth_address t) t out)

  unfoldable pub get_hashmap : List T → HashMap T
  unfolding get_hashmap_loop
  get_hashmap input = get_hashmap_loop input []

  -- The last confirmation from an address.
  abbrev pub last_from : List T → EthAddress → Option T
  last_from [] a = none
  last_from (t ∷ ts) a = elim (last_from ts a) [
    | none ↦ if c.get_eth_address t == a then some t else none
    | some u ↦ some u
  ]

  get-get_hashmap_loop :
      (a : EthAddress) (ts : List T) (out : HashMap T)
      → get a (get_hashmap_loop ts out)
        ≡ elim (last_from ts a) [ none ↦ get a out | some u ↦ some u ]
  unfolding get_hashmap_loop
  get-get_hashmap_loop a [] out = refl
  get-get_hashmap_loop a (t ∷ ts) out =
      rw (get-get_hashmap_loop a ts (insert (c.get_eth_address t) t out))
        (ground (arith, get-insert (c.get_eth_address t) a t out))

  -- In the table of the confirmations, a look-up by address finds the last one from that address, or
  -- nothing if there is none.
  pub get-get_hashmap : (a : EthAddress) (ts : List T) → get a (get_hashmap ts) ≡ last_from ts a
  unfolding get_hashmap
  get-get_hashmap a ts = rw (get-get_hashmap_loop a ts []) (ground arith)

  pub last_from_address :
      (ts : List T) (a : EthAddress) (t : T) → last_from ts a ≡ some t → c.get_eth_address t ≡ a
  last_from_address [] a t e = cc
  last_from_address (x ∷ ts) a t e = ground (arith, last_from_address ts a t)
