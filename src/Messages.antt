-- ===== src/Messages.antt =====
-- ethereum_gravity/src/message_signatures.rs: the messages that validators sign.
use near_aurora_bridge.Base.{ℕ, Option, none, some, List, [], ◌∷◌, Outcome, ok, ◌>>=◌}
use near_aurora_bridge.Types.{EthAddress, Uint256, zero_address}
use near_aurora_bridge.Valset.{Valset, filter_empty_addresses}
use near_aurora_bridge.Batches.{TransactionBatch, get_checkpoint_values}

-- clarity::abi::Token, as far as the messages use it. A string is the list of its bytes.
pub data Token : Type 0 where
  fixed_string : List ℕ → Token
  uint : Uint256 → Token
  address : EthAddress → Token
  uints : List Uint256 → Token
  addresses : List EthAddress → Token
  unbounded_bytes : List ℕ → Token
  bytes : List ℕ → Token

-- What clarity does and the messages use: the ABI encoding, and the hash of a message.
pub record Abi : Type 0 where
  pub encode_tokens : List Token → List ℕ
  pub get_ethereum_msg_hash : List ℕ → List ℕ

-- "checkpoint"
abbrev pub checkpoint_name : List ℕ
checkpoint_name = 99 ∷ 104 ∷ 101 ∷ 99 ∷ 107 ∷ 112 ∷ 111 ∷ 105 ∷ 110 ∷ 116 ∷ []

-- "transactionBatch"
abbrev pub transaction_batch_name : List ℕ
transaction_batch_name =
    116 ∷ 114 ∷ 97 ∷ 110 ∷ 115 ∷ 97 ∷ 99 ∷ 116 ∷ 105 ∷ 111 ∷ 110 ∷ 66 ∷ 97 ∷ 116 ∷ 99 ∷ 104 ∷ []

abbrev token_or_zero : Option EthAddress → EthAddress
token_or_zero none = zero_address
token_or_zero (some v) = v

module _ (abi : Abi) (gravity_id : List ℕ) where
  unfoldable pub encode_valset_confirm : Valset → List ℕ
  encode_valset_confirm valset =
      let (eth_addresses, powers) = filter_empty_addresses valset in
      abi.encode_tokens (
        fixed_string gravity_id
        ∷ fixed_string checkpoint_name
        ∷ uint valset.nonce
        ∷ addresses eth_addresses
        ∷ uints powers
        ∷ uint valset.reward_amount
        ∷ address (token_or_zero valset.reward_token)
        ∷ [])

  unfoldable pub encode_valset_confirm_hashed : Valset → List ℕ
  encode_valset_confirm_hashed valset = abi.get_ethereum_msg_hash (encode_valset_confirm valset)

  unfoldable pub encode_tx_batch_confirm : TransactionBatch → Outcome (List ℕ)
  encode_tx_batch_confirm batch = do
    values ← get_checkpoint_values batch
    ok (
        abi.encode_tokens (
          fixed_string gravity_id
          ∷ fixed_string transaction_batch_name
          ∷ uints values.amounts
          ∷ addresses values.destinations
          ∷ uints values.fees
          ∷ uint batch.nonce
          ∷ address batch.token_contract
          ∷ uint batch.batch_timeout
          ∷ []))

  unfoldable pub encode_tx_batch_confirm_hashed : TransactionBatch → Outcome (List ℕ)
  encode_tx_batch_confirm_hashed batch = do
    digest ← encode_tx_batch_confirm batch
    ok (abi.get_ethereum_msg_hash digest)
