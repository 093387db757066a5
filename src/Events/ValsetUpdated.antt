-- ===== src/Events/ValsetUpdated.antt =====
-- `ValsetUpdatedEvent` of ethereum_events.rs. The check that the members are sorted only logs.
use near_aurora_bridge.Base.{
  ℕ, zero, suc, ◌+◌, not, Option, none, some, List, [], ◌∷◌, ◌++◌, ltb, ◌==◌, if◌then◌else◌,
  validation_error, Outcome, ok, reject_if, or_err, slice, try_map, u64_max, usize_max, add_u64,
  mul_u64, ◌>>=◌, ◌>>◌,
}
use near_aurora_bridge.Types.{EthAddress, Uint256, zero_address}
use near_aurora_bridge.Bytes.{Log, Reader, topic, narrow, slice_from}
use near_aurora_bridge.Events.Fields.{filter_by_nonce}
use near_aurora_bridge.Valset.{ValsetMember}

pub record ValsetUpdatedEvent : Type 0 where
  pub valset_nonce : ℕ
  pub event_nonce : ℕ
  pub block_height : Uint256
  pub reward_amount : Uint256
  pub reward_token : Option EthAddress
  pub members : List ValsetMember

pub record ValsetDataBytes : Type 0 where
  pub event_nonce : ℕ
  pub reward_amount : Uint256
  pub reward_token : Option EthAddress
  pub members : List ValsetMember

-- `for i in start..start + rounds { out.push(body(i)?) }`
unfoldable pub for_range {ℓ} : {A : Type ℓ} → (ℕ → Outcome A) → ℕ → ℕ → List A → Outcome (List A)
for_range body zero i out = ok out
for_range body (suc rounds) i out = do x ← body i; for_range body rounds (i + 1) (out ++ x ∷ [])

-- The zero address stands for no reward.
abbrev pub reward_token_of : EthAddress → Option EthAddress
reward_token_of a = if a == zero_address then none else some a

module _ (d : Reader) where
  unfoldable pub member_at : List ℕ → ℕ → ℕ → ℕ → Outcome ValsetMember
  member_at input powers_offset eth_addresses_offset i = do
    let power_start = add_u64 (mul_u64 i 32) powers_offset
    let address_start = add_u64 (mul_u64 i 32) eth_addresses_offset
    power_data ← slice power_start (add_u64 power_start 32) input
    let wide_power = d.from_bytes_be power_data
    address_data ← slice (add_u64 address_start 12) (add_u64 address_start 32) input
    eth_address ← or_err (d.from_slice address_data) validation_error
    power ← narrow u64_max wide_power
    ok (record { power = power; eth_address = some eth_address })

  unfoldable pub decode_members : List ℕ → ℕ → Outcome (List ValsetMember)
  decode_members input len_eth_addresses = do
    let index_start = mul_u64 (add_u64 6 len_eth_addresses) 32
    len_data ← slice index_start (add_u64 index_start 32) input
    reject_if (ltb usize_max (d.from_bytes_be len_data)) validation_error
    -- parsed from `len_eth_addresses`, not from the word just read
    let len_powers = len_eth_addresses
    reject_if (not (len_powers == len_eth_addresses)) validation_error
    for_range (member_at input (add_u64 index_start 32) 192) len_eth_addresses 0 []

  unfoldable pub decode_data_bytes : List ℕ → Outcome ValsetDataBytes
  decode_data_bytes input = do
    nonce_data ← slice 0 32 input
    event_nonce ← narrow u64_max (d.from_bytes_be nonce_data)
    reward_amount_data ← slice 32 64 input
    let reward_amount = d.from_bytes_be reward_amount_data
    reward_token_data ← slice 64 96 input
    reward_token_bytes ← slice_from 12 reward_token_data
    reward_token ← or_err (d.from_slice reward_token_bytes) validation_error
    len_data ← slice 160 192 input
    len_eth_addresses ← narrow usize_max (d.from_bytes_be len_data)
    members ← decode_members input len_eth_addresses
    ok (record {
      event_nonce = event_nonce;
      reward_amount = reward_amount;
      reward_token = reward_token_of reward_token;
      members = members;
    })

  unfoldable pub valset_from_log : Log → Outcome ValsetUpdatedEvent
  valset_from_log input = do
    valset_nonce_data ← or_err (topic input 1) validation_error
    valset_nonce ← narrow u64_max (d.from_bytes_be valset_nonce_data)
    block_height ← or_err input.block_number validation_error
    decoded_bytes ← decode_data_bytes input.bytes
    ok (record {
      valset_nonce = valset_nonce;
      event_nonce = decoded_bytes.event_nonce;
      block_height = block_height;
      reward_amount = decoded_bytes.reward_amount;
      reward_token = decoded_bytes.reward_token;
      members = decoded_bytes.members;
    })

  unfoldable pub valset_from_logs : List Log → Outcome (List ValsetUpdatedEvent)
  valset_from_logs input = try_map valset_from_log input

unfoldable pub filter_valsets : ℕ → List ValsetUpdatedEvent → List ValsetUpdatedEvent
filter_valsets event_nonce input = filter_by_nonce (λ e. e.event_nonce) event_nonce input
