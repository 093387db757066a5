-- ===== src/Events/BatchExecuted.antt =====
-- `TransactionBatchExecutedEvent` of ethereum_events.rs.
use near_aurora_bridge.Base.{
  ℕ, ◌||◌, List, ltb, if◌then◌else◌, validation_error, Outcome, ok, err, or_err, slice, try_map,
  u64_max, ◌>>=◌,
}
use near_aurora_bridge.Types.{EthAddress, Uint256}
use near_aurora_bridge.Bytes.{Log, Reader, topic}
use near_aurora_bridge.Events.Fields.{filter_by_nonce}

pub record TransactionBatchExecutedEvent : Type 0 where
  pub batch_nonce : ℕ
  pub block_height : Uint256
  pub erc20 : EthAddress
  pub event_nonce : ℕ

module _ (d : Reader) where
  batch_fields : Log → List ℕ → List ℕ → Outcome TransactionBatchExecutedEvent
  batch_fields input batch_nonce_data erc20_data = do
    let batch_nonce = d.from_bytes_be batch_nonce_data
    erc20_bytes ← slice 12 32 erc20_data
    erc20 ← or_err (d.from_slice erc20_bytes) validation_error
    let event_nonce = d.from_bytes_be input.bytes
    block_height ← or_err input.block_number validation_error
    if ltb u64_max event_nonce || (ltb u64_max batch_nonce || ltb u64_max block_height)
        then err validation_error
        else ok (record {
          batch_nonce = batch_nonce;
          block_height = block_height;
          erc20 = erc20;
          event_nonce = event_nonce;
        })

  unfoldable pub batch_from_log : Log → Outcome TransactionBatchExecutedEvent
  unfolding batch_fields
  batch_from_log input = do
    batch_nonce_data ← or_err (topic input 1) validation_error
    erc20_data ← or_err (topic input 2) validation_error
    batch_fields input batch_nonce_data erc20_data

  unfoldable pub batch_from_logs : List Log → Outcome (List TransactionBatchExecutedEvent)
  batch_from_logs input = try_map batch_from_log input

unfoldable pub filter_batches :
    ℕ → List TransactionBatchExecutedEvent → List TransactionBatchExecutedEvent
filter_batches event_nonce input = filter_by_nonce (λ e. e.event_nonce) event_nonce input
