-- ===== src/Logic.antt =====
-- `LogicCall` of gravity_utils/src/types/logic_call.rs, and the message that validators sign for
-- it, of ethereum_gravity/src/message_signatures.rs.
pub mod Conversion
use near_aurora_bridge.Base.{ℕ, ◌≡◌, List, [], ◌∷◌, ◌++◌, map}
use mathlib.Core.List.{append-nil, append_assoc}
use near_aurora_bridge.Types.{EthAddress, Uint256, Erc20Token}
use near_aurora_bridge.Messages.{
  Abi, fixed_string, uint, address, uints, addresses, unbounded_bytes, bytes,
}

pub record LogicCall : Type 0 where
  pub transfers : List Erc20Token
  pub fees : List Erc20Token
  pub logic_contract_address : EthAddress
  pub payload : List ℕ
  pub timeout : ℕ
  pub invalidation_id : List ℕ
  pub invalidation_nonce : ℕ

-- The loop over tokens that fills the vector of the amounts and that of the contracts.
columns_loop : List Erc20Token → List Uint256 × List EthAddress → List Uint256 × List EthAddress
columns_loop [] out = out
columns_loop (item ∷ items) (amounts, contracts) =
    columns_loop items (amounts ++ item.amount ∷ [], contracts ++ item.token_contract_address ∷ [])

unfoldable pub token_columns : List Erc20Token → List Uint256 × List EthAddress
unfolding columns_loop
token_columns items = columns_loop items ([], [])

-- "logicCall"
abbrev pub logic_call_name : List ℕ
logic_call_name = 108 ∷ 111 ∷ 103 ∷ 105 ∷ 99 ∷ 67 ∷ 97 ∷ 108 ∷ 108 ∷ []

module _ (abi : Abi) (gravity_id : List ℕ) where
  unfoldable pub encode_logic_call_confirm : LogicCall → List ℕ
  encode_logic_call_confirm call =
      let (transfer_amounts, transfer_token_contracts) = token_columns call.transfers in
      let (fee_amounts, fee_token_contracts) = token_columns call.fees in
      abi.encode_tokens (
        fixed_string gravity_id
        ∷ fixed_string logic_call_name
        ∷ uints transfer_amounts
        ∷ addresses transfer_token_contracts
        ∷ uints fee_amounts
        ∷ addresses fee_token_contracts
        ∷ address call.logic_contract_address
        ∷ unbounded_bytes call.payload
        ∷ uint call.timeout
        ∷ bytes call.invalidation_id
        ∷ uint call.invalidation_nonce
        ∷ [])

  unfoldable pub encode_logic_call_confirm_hashed : LogicCall → List ℕ
  encode_logic_call_confirm_hashed call = abi.get_ethereum_msg_hash (encode_logic_call_confirm call)

-- The two vectors run parallel to the tokens.
columns_loop-eq :
    (items : List Erc20Token) (amounts : List Uint256) (contracts : List EthAddress)
    → columns_loop items (amounts, contracts) ≡ (
      amounts ++ map (λ t. t.amount) items,
      contracts ++ map (λ t. t.token_contract_address) items,
    )
unfolding columns_loop
columns_loop-eq [] amounts contracts = simp append-nil
columns_loop-eq (item ∷ items) amounts contracts = simp (
  columns_loop-eq items (amounts ++ item.amount ∷ [])
      (contracts ++ item.token_contract_address ∷ []),
  append_assoc,
)

pub token_columns-eq :
    (items : List Erc20Token)
    → token_columns items ≡ (map (λ t. t.amount) items, map (λ t. t.token_contract_address) items)
unfolding token_columns
token_columns-eq items = columns_loop-eq items [] []
