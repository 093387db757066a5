-- ===== src/Logic/Conversion.antt =====
-- The conversions between logic calls and protobuf messages, of
-- gravity_utils/src/types/logic_call.rs and types.rs.
use near_aurora_bridge.Base.{
  ℕ, ◌≡◌, refl, inl, inr, ◌||◌, some, List, [], ◌∷◌, map, if◌then◌else◌, Bool-cases, is_empty,
  validation_error, Outcome, ok, err, reject_if, or_err, try_map, ◌>>=◌, ◌>>◌,
}
use near_aurora_bridge.Types.{EthAddress, Uint256, Erc20Token}
use near_aurora_bridge.Batches.Conversion.{Erc20TokenMessage, Parser, token_try_from}
use near_aurora_bridge.Cosmos.{Printer}
use near_aurora_bridge.Logic.{LogicCall}

-- gravity_proto::gravity::OutgoingLogicCall
pub record OutgoingLogicCall : Type 0 where
  pub transfers : List Erc20TokenMessage
  pub fees : List Erc20TokenMessage
  pub logic_contract_address : List ℕ
  pub payload : List ℕ
  pub timeout : ℕ
  pub invalidation_id : List ℕ
  pub invalidation_nonce : ℕ
  pub block : ℕ

module _ (p : Parser) where
  unfoldable pub logic_call_try_from : OutgoingLogicCall → Outcome LogicCall
  logic_call_try_from input = do
    transfers ← try_map (token_try_from p) input.transfers
    fees ← try_map (token_try_from p) input.fees
    reject_if (is_empty transfers || is_empty fees) validation_error
    logic_contract_address ←
        or_err (p.parse_eth_address input.logic_contract_address) validation_error
    ok (record {
      transfers = transfers;
      fees = fees;
      logic_contract_address = logic_contract_address;
      payload = input.payload;
      timeout = input.timeout;
      invalidation_id = input.invalidation_id;
      invalidation_nonce = input.invalidation_nonce;
    })

module _ (d : Printer) where
  abbrev pub token_into : Erc20Token → Erc20TokenMessage
  token_into t = record {
    contract = d.eth_address_to_string t.token_contract_address;
    amount = d.uint256_to_string t.amount;
  }

  -- The block is a dummy, which no signature covers.
  abbrev pub logic_call_into : LogicCall → OutgoingLogicCall
  logic_call_into call = record {
    transfers = map token_into call.transfers;
    fees = map token_into call.fees;
    logic_contract_address = d.eth_address_to_string call.logic_contract_address;
    payload = call.payload;
    timeout = call.timeout;
    invalidation_id = call.invalidation_id;
    invalidation_nonce = call.invalidation_nonce;
    block = 0;
  }

-- What the crates print they parse back.
abbrev pub ReadsBack : Parser → Printer → Type 0
ReadsBack p d =
    ((a : EthAddress) → p.parse_eth_address (d.eth_address_to_string a) ≡ some a)
    × ((n : Uint256) → p.parse_uint (d.uint256_to_string n) ≡ some n)

module _ (p : Parser) (d : Printer) (reads : ReadsBack p d) where
  token_try_from-into : (t : Erc20Token) → token_try_from p (token_into d t) ≡ ok t
  unfolding token_try_from
  token_try_from-into t = rw (reads.1 t.amount, reads.0 t.token_contract_address) refl

  try_map-into : (ts : List Erc20Token) → try_map (token_try_from p) (map (token_into d) ts) ≡ ok ts
  unfolding try_map
  try_map-into [] = refl
  try_map-into (t ∷ ts) = rw (token_try_from-into t, try_map-into ts) refl

  -- Where the crates parse back what they print: a logic call survives the conversion to its protobuf
  -- message and back, if it has transfers and fees, and else the conversion back is an error.
  pub logic_call_try_from-into :
      (call : LogicCall)
      → logic_call_try_from p (logic_call_into d call)
        ≡ (if is_empty call.transfers || is_empty call.fees then err validation_error else ok call)
  unfolding logic_call_try_from
  logic_call_try_from-into call =
      rw (try_map-into call.transfers, try_map-into call.fees, reads.0 call.logic_contract_address)
        (elim (Bool-cases (is_empty call.transfers || is_empty call.fees)) [
          | inl e ↦ rw e refl
          | inr e ↦ rw e refl
        ])
