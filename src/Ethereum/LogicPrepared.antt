-- ===== src/Ethereum/LogicPrepared.antt =====
-- When `send_eth_logic_call` sends a transaction, and which.
use near_aurora_bridge.Base.{
  ℕ, ◌≤◌, ◌<◌, ◌≡◌, refl, some, List, arith, ltb, leb, le→ltb, tests, rpc_error, ok, or_err,
  >>=-eq-ok,
}
use near_aurora_bridge.Types.{Uint256, Clarity}
use near_aurora_bridge.Valset.{Valset}
use near_aurora_bridge.Confirm.{LogicCallConfirmResponse}
use near_aurora_bridge.Logic.{LogicCall}
use near_aurora_bridge.Messages.{Abi}
use near_aurora_bridge.Ethereum.{Crates, Transaction, Web3, get_logic_call_nonce}
use near_aurora_bridge.Ethereum.Submit.{Ours}
use near_aurora_bridge.Ethereum.Prepared.{behind_exits, leb→lt, lt→leb, or_err-ok}
use near_aurora_bridge.Ethereum.LogicCall.{
  encode_logic_call_payload, prepare_call, send_eth_logic_call,
}

module _ (k : Clarity) (abi : Abi) (x : Crates) (ours : Ours) (current_valset : Valset) where
  -- The node says that the contract is behind the call, and that the call has not timed out.
  unfoldable pub FreshCall : Web3 → LogicCall → Type 0
  FreshCall web3 call =
      (n : ℕ) × (h : Uint256) × (get_logic_call_nonce x web3 ours.contract call.invalidation_id
          ours.eth_address
        ≡ ok n)
      × (n < call.invalidation_nonce)
      × (web3.eth_block_number ≡ some h)
      × (h ≤ call.timeout)

  -- The transaction calls the contract with the call and its ordered signatures.
  pub CarriesCall : LogicCall → List LogicCallConfirmResponse → Transaction → Type 0
  CarriesCall call sigs t =
      (t.to ≡ ours.contract)
      × (encode_logic_call_payload k abi x ours current_valset call sigs ≡ ok t.payload)

  prepare_call-FreshCall :
      (web3 : Web3) (call : LogicCall) (sigs : List LogicCallConfirmResponse) (t : Transaction)
      → prepare_call k abi x ours current_valset web3 call sigs ≡ ok (some t)
      → FreshCall web3 call × CarriesCall call sigs t
  unfolding prepare_call FreshCall CarriesCall
  prepare_call-FreshCall web3 call sigs t e =
      let (n, en, e1) =
        >>=-eq-ok (get_logic_call_nonce x web3 ours.contract call.invalidation_id ours.eth_address)
          _ e in
      let (h, eh, e2) = >>=-eq-ok (or_err web3.eth_block_number rpc_error) _ e1 in
      let (behind, in_time, p, ep, et) =
        behind_exits (leb call.invalidation_nonce n) (ltb call.timeout h)
          (encode_logic_call_payload k abi x ours current_valset call sigs) _ t e2 in
      (
        (
          n,
          h,
          en,
          leb→lt call.invalidation_nonce n behind,
          or_err-ok web3.eth_block_number rpc_error h eh,
          omega (tests, in_time),
        ),
        rw (← et) (refl, ep),
      )

  -- A submission that hands over a transaction has found the call fresh, and carries it.
  pub send_call-FreshCall :
      (web3 later : Web3) (call : LogicCall) (sigs : List LogicCallConfirmResponse)
      (t : Transaction)
      → (send_eth_logic_call k abi x ours current_valset web3 later call sigs).1 ≡ some t
      → FreshCall web3 call × CarriesCall call sigs t
  unfolding send_eth_logic_call
  send_call-FreshCall web3 later call sigs t e =
      prepare_call-FreshCall web3 call sigs t (ground arith)

  -- A fresh call is sent.
  pub send_call_sends :
      (web3 later : Web3) (call : LogicCall) (sigs : List LogicCallConfirmResponse)
      (payload : List ℕ)
      → FreshCall web3 call
      → encode_logic_call_payload k abi x ours current_valset call sigs ≡ ok payload
      → (send_eth_logic_call k abi x ours current_valset web3 later call sigs).1
        ≡ some (record { to = ours.contract; payload = payload; sender = ours.eth_address })
  unfolding send_eth_logic_call prepare_call FreshCall
  send_call_sends web3 later call sigs payload (n, h, en, behind, eh, hi) ep =
      rw
        (
          send_eth_logic_call,
          prepare_call,
          en,
          eh,
          lt→leb call.invalidation_nonce n behind,
          le→ltb call.timeout h hi,
          ep,
        )
        refl
