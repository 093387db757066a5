-- ===== src/Events/SendToCosmos.antt =====
-- `SendToCosmosEvent` of ethereum_events.rs.
use near_aurora_bridge.Base.{
  ℕ, ◌||◌, List, ltb, if◌then◌else◌, validation_error, Outcome, ok, err, unwrap, or_err, slice,
  try_map, u64_max, ◌>>=◌,
}
use near_aurora_bridge.Types.{EthAddress, Uint256}
use near_aurora_bridge.Bytes.{Log, Reader, topic, slice_from}
use near_aurora_bridge.Events.Fields.{filter_by_nonce}

pub record SendToCosmosEvent : Type 0 where
  pub erc20 : EthAddress
  pub sender : EthAddress
  pub destination : ℕ
  pub amount : Uint256
  pub event_nonce : ℕ
  pub block_height : Uint256

module _ (d : Reader) where
  deposit_fields : Log → List ℕ → List ℕ → List ℕ → Outcome SendToCosmosEvent
  deposit_fields input erc20_data sender_data destination_data = do
    erc20_bytes ← slice 12 32 erc20_data
    erc20 ← or_err (d.from_slice erc20_bytes) validation_error
    sender_bytes ← slice 12 32 sender_data
    sender ← or_err (d.from_slice sender_bytes) validation_error
    c_address_bytes ← slice 12 32 destination_data
    destination ← unwrap (d.cosmos_from_bytes c_address_bytes)
    amount_data ← slice 0 32 input.bytes
    let amount = d.from_bytes_be amount_data
    nonce_data ← slice_from 32 input.bytes
    let event_nonce = d.from_bytes_be nonce_data
    block_height ← or_err input.block_number validation_error
    if ltb u64_max event_nonce || ltb u64_max block_height
        then err validation_error
        else ok (record {
          erc20 = erc20;
          sender = sender;
          destination = destination;
          amount = amount;
          event_nonce = event_nonce;
          block_height = block_height;
        })

  unfoldable pub deposit_from_log : Log → Outcome SendToCosmosEvent
  unfolding deposit_fields
  deposit_from_log input = do
    erc20_data ← or_err (topic input 1) validation_error
    sender_data ← or_err (topic input 2) validation_error
    destination_data ← or_err (topic input 3) validation_error
    deposit_fields input erc20_data sender_data destination_data

  unfoldable pub deposit_from_logs : List Log → Outcome (List SendToCosmosEvent)
  deposit_from_logs input = try_map deposit_from_log input

unfoldable pub filter_deposits : ℕ → List SendToCosmosEvent → List SendToCosmosEvent
filter_deposits event_nonce input = filter_by_nonce (λ e. e.event_nonce) event_nonce input
