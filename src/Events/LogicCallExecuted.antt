-- ===== src/Events/LogicCallExecuted.antt =====
-- `LogicCallExecutedEvent` of ethereum_events.rs.
use near_aurora_bridge.Base.{ℕ, List, Outcome, panic, try_map}
use near_aurora_bridge.Types.{Uint256}
use near_aurora_bridge.Bytes.{Log}
use near_aurora_bridge.Events.Fields.{filter_by_nonce}

pub record LogicCallExecutedEvent : Type 0 where
  pub invalidation_id : List ℕ
  pub invalidation_nonce : ℕ
  pub return_data : List ℕ
  pub event_nonce : ℕ
  pub block_height : Uint256

-- `unimplemented!()`
unfoldable pub logic_call_from_log : Log → Outcome LogicCallExecutedEvent
logic_call_from_log input = panic

unfoldable pub logic_call_from_logs : List Log → Outcome (List LogicCallExecutedEvent)
logic_call_from_logs input = try_map logic_call_from_log input

unfoldable pub filter_logic_calls : ℕ → List LogicCallExecutedEvent → List LogicCallExecutedEvent
filter_logic_calls event_nonce input = filter_by_nonce (λ e. e.event_nonce) event_nonce input
