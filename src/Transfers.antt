-- ===== src/Transfers.antt =====
-- ethereum_gravity/src/send_to_cosmos.rs and deploy_erc20.rs: the transactions of the users of the
-- bridge.
use near_aurora_bridge.Base.{
  ℕ, zero, suc, ◌+◌, Bool, true, false, Option, none, some, List, [], ◌∷◌, ◌++◌, ltb, if◌then◌else◌,
  is_some, length, validation_error, rpc_error, Outcome, ok, err, panic, or_err, ◌>>=◌, ◌>>◌,
}
pub mod Sent
mod Tests
pub mod Destination
use near_aurora_bridge.Types.{EthAddress, Uint256}

-- web30's options of a transaction, as far as they are looked at.
pub data SendTxOption : Type 0 where
  nonce_option : Uint256 → SendTxOption
  gas_limit_option : Uint256 → SendTxOption
  other_option : ℕ → SendTxOption

-- The functions of the contract, with their arguments. A string is the list of its bytes.
pub data BridgeCall : Type 0 where
  send_to_cosmos_call : EthAddress → List ℕ → Uint256 → BridgeCall
  deploy_erc20_call : List ℕ → List ℕ → List ℕ → ℕ → BridgeCall

-- What is handed to the node: an approval, or a call of the contract.
pub data Submission : Type 0 where
  approval : EthAddress → List SendTxOption → Submission
  call : BridgeCall → List SendTxOption → Submission

-- The node's answers, and clarity's encoding; `none` is an error. The test of the approval is
-- repeated, and answers anew each time.
pub record Node : Type 0 where
  pub check_erc20_approved : ℕ → Option Bool
  pub eth_get_transaction_count : Option Uint256
  pub approve_erc20_transfers : List SendTxOption → Option Uint256
  pub wait_for_transaction : Uint256 → Option (Unit {0})
  pub encode_call : BridgeCall → Option (List ℕ)
  pub send_transaction : List ℕ → List SendTxOption → Option Uint256

-- SEND_TO_COSMOS_GAS_LIMIT
abbrev pub send_to_cosmos_gas_limit : Uint256
send_to_cosmos_gas_limit = 100000

unfoldable pub has_nonce : List SendTxOption → Bool
has_nonce [] = false
has_nonce (nonce_option n ∷ options) = true
has_nonce (gas_limit_option g ∷ options) = has_nonce options
has_nonce (other_option o ∷ options) = has_nonce options

unfoldable pub has_gas_limit : List SendTxOption → Bool
has_gas_limit [] = false
has_gas_limit (gas_limit_option g ∷ options) = true
has_gas_limit (nonce_option n ∷ options) = has_gas_limit options
has_gas_limit (other_option o ∷ options) = has_gas_limit options

-- The default limit goes in where the user has set none.
unfoldable pub add_gas_limit : List SendTxOption → List SendTxOption
add_gas_limit options =
    if has_gas_limit options
    then options
    else options ++ gas_limit_option send_to_cosmos_gas_limit ∷ []

abbrev pub add_nonce : Option Uint256 → List SendTxOption → List SendTxOption
add_nonce none options = options
add_nonce (some nonce) options = options ++ nonce_option (nonce + 1) ∷ []

-- `while bytes.len() < 32 { bytes.insert(0, 0u8) }`, with a round for each byte that may be missing.
unfoldable pub pad_loop : ℕ → List ℕ → List ℕ
pad_loop zero bytes = bytes
pad_loop (suc fuel) bytes =
    let rest = pad_loop fuel (0 ∷ bytes) in if ltb (length bytes) 32 then rest else bytes

unfoldable pub pad_destination : List ℕ → List ℕ
pad_destination bytes = pad_loop 32 bytes

-- Repeats a failed test while there is time: `retries` times.
unfoldable pub check_approved : (ℕ → Option Bool) → ℕ → ℕ → Option Bool
check_approved check zero i = check i
check_approved check (suc retries) i =
    let rest = check_approved check retries (i + 1) in
    elim (check i) [ none ↦ rest | some approved ↦ some approved ]

abbrev pub wait_if : Node → Bool → Uint256 → Outcome (Unit {0})
wait_if node true txid = or_err (node.wait_for_transaction txid) rpc_error
wait_if node false txid = ok tt

-- The transaction itself, and the wait for it. The result comes with what was handed to the node.
unfoldable pub submit_call :
    Node → Bool → BridgeCall → List SendTxOption → Outcome Uint256 × List Submission
submit_call node waits c options = elim (node.encode_call c) [
  | none ↦ (err validation_error, [])
  | some payload ↦ (
    (do
      tx_hash ← or_err (node.send_transaction payload options) rpc_error
      waited ← wait_if node waits tx_hash
      ok tx_hash),
    call c options ∷ [],
  )
]

-- An approval: its nonce, unless it fails, and what was handed to the node.
unfoldable pub approve :
    Node → Bool → EthAddress → List SendTxOption → Outcome Uint256 × List Submission
approve node waits erc20 options = elim node.eth_get_transaction_count [
  | none ↦ (err rpc_error, [])
  | some nonce ↦ (
    (do
      txid ← or_err (node.approve_erc20_transfers (options ++ nonce_option nonce ∷ [])) rpc_error
      waited ← wait_if node waits txid
      ok nonce),
    approval erc20 (options ++ nonce_option nonce ∷ []) ∷ [],
  )
]

-- After the approval, if there was one.
unfoldable pub send_deposit :
    Node
    → Bool
    → EthAddress
    → Uint256
    → List ℕ
    → Option Uint256
    → List SendTxOption
    → Outcome Uint256 × List Submission
send_deposit node waits erc20 amount cosmos_destination approve_nonce options =
    submit_call node waits (send_to_cosmos_call erc20 (pad_destination cosmos_destination) amount)
      (add_nonce approve_nonce (add_gas_limit options))

abbrev pub after_approval :
    Outcome Uint256 × List Submission
    → (Uint256 → Outcome Uint256 × List Submission)
    → Outcome Uint256 × List Submission
after_approval (ok nonce, before) f = ((f nonce).0, before ++ (f nonce).1)
after_approval (err e, before) f = (err e, before)
after_approval (panic, before) f = (panic, before)

abbrev pub retries_of : Option ℕ → ℕ
retries_of none = 0
retries_of (some n) = n

-- `wait_timeout` holds the number of retries that there is time for; without it nothing is waited
-- for. The destination is the list of its bytes.
unfoldable pub send_to_cosmos :
    Node
    → Option ℕ
    → EthAddress
    → Uint256
    → List ℕ
    → List SendTxOption
    → Outcome Uint256 × List Submission
send_to_cosmos node wait_timeout erc20 amount cosmos_destination options =
    if has_nonce options
    then (err validation_error, [])
    else elim (check_approved node.check_erc20_approved (retries_of wait_timeout) 0) [
      | none ↦ (panic, [])
      | some true ↦
          send_deposit node (is_some wait_timeout) erc20 amount cosmos_destination none options
      | some false ↦ after_approval (approve node (is_some wait_timeout) erc20 options) (λ nonce.
          send_deposit node (is_some wait_timeout) erc20 amount cosmos_destination (some nonce)
            options)
    ]

unfoldable pub deploy_erc20 :
    Node
    → Bool
    → List ℕ
    → List ℕ
    → List ℕ
    → ℕ
    → List SendTxOption
    → Outcome Uint256 × List Submission
deploy_erc20 node waits cosmos_denom erc20_name erc20_symbol decimals options =
    submit_call node waits (deploy_erc20_call cosmos_denom erc20_name erc20_symbol decimals) options
