-- ===== src/Events/Erc20Deployed.antt =====
-- `Erc20DeployedEvent` of ethereum_events.rs.
use near_aurora_bridge.Base.{
  ℕ, ◌+◌, ◌*◌, ◌/◌, List, validation_error, Outcome, ok, or_err, slice, try_map, u64_max, u32_max,
  ◌>>=◌,
}
use near_aurora_bridge.Types.{EthAddress, Uint256}
use near_aurora_bridge.Bytes.{Log, Reader, topic, narrow, from_utf8}
use near_aurora_bridge.Events.Fields.{filter_by_nonce}

-- The three strings are their bytes.
pub record Erc20DeployedEvent : Type 0 where
  pub cosmos_denom : List ℕ
  pub erc20_address : EthAddress
  pub name : List ℕ
  pub symbol : List ℕ
  pub decimals : ℕ
  pub event_nonce : ℕ
  pub block_height : Uint256

module _ (d : Reader) where
  -- The number in the word at a byte offset.
  unfoldable pub number_at : List ℕ → ℕ → Outcome Uint256
  number_at bytes index_start = do
    cut ← slice index_start (index_start + 32) bytes
    ok (d.from_bytes_be cut)

  -- A string of a given length; the offset behind it comes back too.
  unfoldable pub string_at : List ℕ → ℕ → ℕ → Outcome (List ℕ × ℕ)
  string_at bytes index_start len = do
    cut ← slice index_start (index_start + len) bytes
    text ← or_err (from_utf8 cut) validation_error
    ok (text, index_start + len)

  -- A string behind its length, at the next full word.
  unfoldable pub padded_string_at : List ℕ → ℕ → Outcome (List ℕ × ℕ)
  unfolding number_at string_at
  padded_string_at bytes index_end = do
    let index_start = (index_end + 31) / 32 * 32
    wide ← number_at bytes index_start
    len ← narrow u32_max wide
    string_at bytes (index_start + 32) len

  unfoldable pub deploy_fields : Log → EthAddress → Outcome Erc20DeployedEvent
  unfolding number_at string_at padded_string_at
  deploy_fields input erc20 = do
    wide_decimals ← number_at input.bytes (3 * 32)
    decimals ← narrow 255 wide_decimals
    wide_nonce ← number_at input.bytes (4 * 32)
    event_nonce ← narrow u64_max wide_nonce
    wide_len ← number_at input.bytes (5 * 32)
    denom_len ← narrow u32_max wide_len
    denom ← string_at input.bytes (6 * 32) denom_len
    erc20_name ← padded_string_at input.bytes denom.1
    symbol ← padded_string_at input.bytes erc20_name.1
    block_height ← or_err input.block_number validation_error
    ok (record {
      cosmos_denom = denom.0;
      erc20_address = erc20;
      name = erc20_name.0;
      symbol = symbol.0;
      decimals = decimals;
      event_nonce = event_nonce;
      block_height = block_height;
    })

  unfoldable pub deploy_from_log : Log → Outcome Erc20DeployedEvent
  unfolding deploy_fields
  deploy_from_log input = do
    new_token_contract_data ← or_err (topic input 1) validation_error
    erc20_bytes ← slice 12 32 new_token_contract_data
    erc20 ← or_err (d.from_slice erc20_bytes) validation_error
    deploy_fields input erc20

  unfoldable pub deploy_from_logs : List Log → Outcome (List Erc20DeployedEvent)
  deploy_from_logs input = try_map deploy_from_log input

unfoldable pub filter_deploys : ℕ → List Erc20DeployedEvent → List Erc20DeployedEvent
filter_deploys event_nonce input = filter_by_nonce (λ e. e.event_nonce) event_nonce input
