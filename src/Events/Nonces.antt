-- ===== src/Events/Nonces.antt =====
-- Events that are read from their topics, and the ranges that `from_log` ensures for any log.
use near_aurora_bridge.Base.{
  ℕ, ◌^◌, ◌≤◌, ◌<◌, ◌≡◌, refl, ◌&&◌, some, [], ◌∷◌, arith, leb, if◌then◌else◌, validation_error, ok,
  err, u64_max,
}
use near_aurora_bridge.Bytes.{Log, Reader}
use near_aurora_bridge.Bytes.Encoding.{
  be_bytes, words, ReadsWords, slice_word, slice_topic, slice_from_second,
}
use near_aurora_bridge.Events.{
  TransactionBatchExecutedEvent, batch_from_log, SendToCosmosEvent, deposit_from_log,
  Erc20DeployedEvent, deploy_from_log, ValsetUpdatedEvent, valset_from_log, decode_data_bytes,
}

module _ (d : Reader) (reads : ReadsWords d) where
  -- A log of the contract's layout gives a batch event with its values, if the two nonces and the
  -- block number fit 64 bits, and a validation error if one of them does not.
  pub batch_from_log-eq :
      (signature batch_nonce token event_nonce height : ℕ)
      → batch_nonce < 2 ^ 256
      → token < 2 ^ 160
      → event_nonce < 2 ^ 256
      → batch_from_log d (record {
        topics = be_bytes 32 signature ∷ be_bytes 32 batch_nonce ∷ be_bytes 32 token ∷ [];
        bytes = be_bytes 32 event_nonce;
        block_number = some height;
      })
        ≡ (if leb event_nonce u64_max && (leb batch_nonce u64_max && leb height u64_max)
            then ok (record {
              batch_nonce = batch_nonce;
              block_height = height;
              erc20 = token;
              event_nonce = event_nonce;
            })
            else err validation_error)
  unfolding batch_from_log
  batch_from_log-eq signature batch_nonce token event_nonce height hb ht he =
      rw
        (
          slice_topic token,
          reads.address token ht,
          reads.number batch_nonce hb,
          reads.number event_nonce he,
        )
        (ground arith)

  -- A log of the contract's layout gives a deposit event with its values, if the nonce and the block
  -- number fit 64 bits, and a validation error if one of them does not.
  pub deposit_from_log-eq :
      (signature token sender destination cosmos_address amount event_nonce height : ℕ)
      → token < 2 ^ 160
      → sender < 2 ^ 160
      → d.cosmos_from_bytes (be_bytes 20 destination) ≡ some cosmos_address
      → amount < 2 ^ 256
      → event_nonce < 2 ^ 256
      → deposit_from_log d (record {
        topics =
            be_bytes 32 signature
            ∷ be_bytes 32 token
            ∷ be_bytes 32 sender
            ∷ be_bytes 32 destination
            ∷ [];
        bytes = words (amount ∷ event_nonce ∷ []);
        block_number = some height;
      })
        ≡ (if leb event_nonce u64_max && leb height u64_max
            then ok (record {
              erc20 = token;
              sender = sender;
              destination = cosmos_address;
              amount = amount;
              event_nonce = event_nonce;
              block_height = height;
            })
            else err validation_error)
  unfolding deposit_from_log
  deposit_from_log-eq signature token sender destination cosmos_address amount event_nonce height ht
        hs hd ha he =
      rw
        (
          slice_topic token,
          reads.address token ht,
          slice_topic sender,
          reads.address sender hs,
          slice_topic destination,
          hd,
          slice_word (amount ∷ event_nonce ∷ []) 0 amount refl,
          reads.number amount ha,
          slice_from_second amount event_nonce,
          reads.number event_nonce he,
        )
        (ground arith)

module _ (d : Reader) where
  -- Whatever the log holds, a batch event that is read from it has nonces and a block number of 64 bits,
  -- and the log's block number.
  batch_from_log_bounds :
      (log : Log) (e : TransactionBatchExecutedEvent)
      → batch_from_log d log ≡ ok e
      → (e.event_nonce ≤ u64_max)
        × (e.batch_nonce ≤ u64_max)
        × (e.block_height ≤ u64_max)
        × (log.block_number ≡ some e.block_height)
  unfolding batch_from_log
  batch_from_log_bounds log e h = ground arith

  deposit_from_log_bounds :
      (log : Log) (e : SendToCosmosEvent)
      → deposit_from_log d log ≡ ok e
      → (e.event_nonce ≤ u64_max)
        × (e.block_height ≤ u64_max)
        × (log.block_number ≡ some e.block_height)
  unfolding deposit_from_log
  deposit_from_log_bounds log e h = ground arith

  deploy_from_log_bounds :
      (log : Log) (e : Erc20DeployedEvent)
      → deploy_from_log d log ≡ ok e
      → (e.event_nonce ≤ u64_max) × (e.decimals ≤ 255) × (log.block_number ≡ some e.block_height)
  unfolding deploy_from_log
  deploy_from_log_bounds log e h = ground arith

  valset_from_log_bounds :
      (log : Log) (e : ValsetUpdatedEvent)
      → valset_from_log d log ≡ ok e
      → (e.event_nonce ≤ u64_max)
        × (e.valset_nonce ≤ u64_max)
        × (log.block_number ≡ some e.block_height)
  unfolding valset_from_log decode_data_bytes
  valset_from_log_bounds log e h = ground arith
