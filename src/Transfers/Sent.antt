-- ===== src/Transfers/Sent.antt =====
-- What `send_to_cosmos` hands to the node.
use near_aurora_bridge.Base.{
  ℕ, ◌+◌, ◌≡◌, refl, sym, ◌∙◌, ◌≢◌, ◌⊎◌, inl, inr, false, Option, none, some, List, [], ◌∷◌, ◌++◌,
  Option-cases, is_some, rpc_error, Outcome, ok, err, panic, or_err, >>=-eq-ok, ok_inj,
}
use near_aurora_bridge.Types.{EthAddress, Uint256}
use near_aurora_bridge.Transfers.{
  SendTxOption, nonce_option, send_to_cosmos_call, Submission, approval, call, Node, has_nonce,
  add_gas_limit, pad_destination, check_approved, retries_of, submit_call, approve, send_deposit,
  after_approval, wait_if, send_to_cosmos,
}

or_err-some : (o : Option Uint256) (a : Uint256) → or_err o rpc_error ≡ ok a → o ≡ some a
or_err-some none a e = cc
or_err-some (some b) a e = cc

after_approval_cases :
    (a : Outcome Uint256 × List Submission) (f : Uint256 → Outcome Uint256 × List Submission)
    → ((after_approval a f).1 ≡ a.1)
      ⊎ ((m : Uint256) × (a.0 ≡ ok m) × ((after_approval a f).1 ≡ a.1 ++ (f m).1))
after_approval_cases (ok m, sent) f = inr (m, refl, refl)
after_approval_cases (err e, sent) f = inl refl
after_approval_cases (panic, sent) f = inl refl

module _ (node : Node) (wait_timeout : Option ℕ) (erc20 : EthAddress) (amount : Uint256)
    (cosmos_destination : List ℕ) (options : List SendTxOption) where
  deposit_sent :
      (n : Uint256)
      → let sent =
          (send_deposit node
            (is_some wait_timeout)
            erc20
            amount
            cosmos_destination
            (some n)
            options).1 in
        (sent ≡ [])
        ⊎ (sent
            ≡ call
                (send_to_cosmos_call erc20 (pad_destination cosmos_destination) amount)
                (add_gas_limit options ++ nonce_option (n + 1) ∷ [])
              ∷ [])
  unfolding send_deposit submit_call
  deposit_sent n =
      elim (Option-cases (
        node.encode_call (send_to_cosmos_call erc20 (pad_destination cosmos_destination) amount))) [
          | inl e ↦ inl (rw (send_deposit, submit_call, e) refl)
          | inr (payload, e) ↦ inr (rw (send_deposit, submit_call, e) refl)
        ]

  -- The node has taken the approval, and has told that it is on the chain, if that is waited for.
  abbrev pub Approved : Uint256 → Type 0
  Approved n =
      (txid : Uint256) × (node.approve_erc20_transfers (options ++ nonce_option n ∷ []) ≡ some txid)
      × ((wait_timeout ≡ none) ⊎ (node.wait_for_transaction txid ≡ some tt))

  waited :
      (o : Option ℕ) (txid : Uint256) (u : Unit {0})
      → wait_if node (is_some o) txid ≡ ok u
      → (o ≡ none) ⊎ (node.wait_for_transaction txid ≡ some tt)
  waited none txid u e = inl refl
  waited (some t) txid u e = elim (Option-cases (node.wait_for_transaction txid)) [
    | inl en ↦ let never : err rpc_error ≡ ok u = rw en at e in cc
    | inr (v, ev) ↦ inr ev
  ]

  approve_cases :
      let a = approve node (is_some wait_timeout) erc20 options in
      (((m : Uint256) → a.0 ≢ ok m) × (a.1 ≡ []))
      ⊎ ((n : Uint256) × (node.eth_get_transaction_count ≡ some n)
          × (a.1 ≡ approval erc20 (options ++ nonce_option n ∷ []) ∷ [])
          × ((m : Uint256) → a.0 ≡ ok m → (m ≡ n) × Approved n))
  unfolding approve
  approve_cases = elim (Option-cases node.eth_get_transaction_count) [
    | inl e ↦ inl (rw (approve, e) ((λ m h. cc), refl))
    | inr (n, e) ↦ inr (
      n,
      e,
      rw (approve, e) refl,
      λ m h.
          let (txid, et, h1) =
            >>=-eq-ok
              (or_err (node.approve_erc20_transfers (options ++ nonce_option n ∷ [])) rpc_error) _
              (rw (approve, e) at h) in
          let (w, ew, h2) = >>=-eq-ok (wait_if node (is_some wait_timeout) txid) _ h1 in
          (
            sym (ok_inj h2),
            (
              txid,
              or_err-some (node.approve_erc20_transfers (options ++ nonce_option n ∷ [])) txid et,
              waited wait_timeout txid w ew,
            ),
          ),
    )
  ]

  -- The approval goes out under a nonce, and the transfer, if at all, after it and under the next one,
  -- once the node has taken the approval.
  abbrev pub InOrder : List Submission → Type 0
  InOrder sent =
      (sent ≡ [])
      ⊎ ((n : Uint256) × (node.eth_get_transaction_count ≡ some n)
          × ((sent ≡ approval erc20 (options ++ nonce_option n ∷ []) ∷ [])
              ⊎ (Approved n
                  × (sent
                      ≡ approval erc20 (options ++ nonce_option n ∷ [])
                        ∷ call
                            (send_to_cosmos_call erc20 (pad_destination cosmos_destination) amount)
                            (add_gas_limit options ++ nonce_option (n + 1) ∷ [])
                        ∷ []))))

  -- A transfer that is not approved yet: if the user has set no nonce, and the node tells that the
  -- contract may not move the tokens, then nothing is handed over, or the approval alone under the
  -- account's nonce, or after it the transfer under the next nonce; the transfer only if the node has
  -- taken the approval, and has answered the wait for it where there is a time limit to wait for.
  pub send_to_cosmos-InOrder :
      has_nonce options ≡ false
      → check_approved node.check_erc20_approved (retries_of wait_timeout) 0 ≡ some false
      → InOrder (send_to_cosmos node wait_timeout erc20 amount cosmos_destination options).1
  unfolding send_to_cosmos
  send_to_cosmos-InOrder no_nonce not_approved =
      rw (send_to_cosmos, no_nonce, not_approved)
        (elim (after_approval_cases (approve node (is_some wait_timeout) erc20 options) _) [
          | inl stopped ↦ elim (approve_cases) [
            | inl nothing ↦ inl (stopped ∙ nothing.1)
            | inr (n, en, sent, accepted) ↦ inr (n, en, inl (stopped ∙ sent))
          ]
          | inr (m, em, followed) ↦ elim (approve_cases) [
            | inl nothing ↦ absurd (nothing.0 m em)
            | inr (n, en, sent, accepted) ↦ elim (deposit_sent m) [
              | inl quiet ↦ inr (n, en, inl (followed ∙ rw (sent, quiet) refl))
              | inr transfer ↦ inr (
                n,
                en,
                inr ((accepted m em).1, followed ∙ rw (sent, transfer, (accepted m em).0) refl),
              )
            ]
          ]
        ])
