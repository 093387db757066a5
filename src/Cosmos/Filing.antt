-- ===== src/Cosmos/Filing.antt =====
-- What `send_ethereum_claims` files under the nonces.
use near_aurora_bridge.Base.{
  ℕ, ◌<◌, ◌≡◌, refl, true, List, [], ◌∷◌, ◌++◌, map, arith, is_some, All, All-map, Outcome, ok,
  is_ok, try_map, is_ok→ok, ok_inj, try_map-cons, u64_max, ◌>>=◌,
}
use near_aurora_bridge.BTreeMap.{BTreeMap, insert, insert_all, keys}
use near_aurora_bridge.BTreeMap.Entries.{keys-append, insert_all-append}
use near_aurora_bridge.Events.{
  ValsetUpdatedEvent, TransactionBatchExecutedEvent, SendToCosmosEvent, Erc20DeployedEvent,
  LogicCallExecutedEvent,
}
use near_aurora_bridge.Oracle.{Claims}
use near_aurora_bridge.Cosmos.{Msg, Printer}
use near_aurora_bridge.Cosmos.Claims.{
  deposit_msg, withdraw_msg, deploy_msg, logic_call_msg, valset_msg, file_msgs, order_msgs,
}

-- The nonces of all the events.
abbrev pub nonces : Claims → List ℕ
nonces c =
    map (λ e. e.event_nonce) c.deposits
    ++ (map (λ e. e.event_nonce) c.withdraws
        ++ (map (λ e. e.event_nonce) c.erc20_deploys
            ++ (map (λ e. e.event_nonce) c.logic_calls ++ map (λ e. e.event_nonce) c.valsets)))

-- A function that gives messages under the nonces of their events.
abbrev KeepsNonce : {E : Type 0} → (E → Outcome (ℕ × Msg)) → (E → ℕ) → Type 0
KeepsNonce {E} msg_of nonce_of = (e : E) (kv : ℕ × Msg) → msg_of e ≡ ok kv → kv.0 ≡ nonce_of e

file_msgs_lem :
    {E : Type 0} (msg_of : E → Outcome (ℕ × Msg)) (es : List E) (m : BTreeMap Msg)
    (kvs : List (ℕ × Msg))
    → try_map msg_of es ≡ ok kvs
    → file_msgs msg_of es m ≡ ok (insert_all kvs m)
unfolding file_msgs try_map
file_msgs_lem msg_of [] m kvs e = rw (← ok_inj e) refl
file_msgs_lem msg_of (x ∷ xs) m kvs e =
    let (kv, rest, ex, er, same) = try_map-cons msg_of x xs kvs e in
    rw (ex, same) (file_msgs_lem msg_of xs (insert kv.0 kv.1 m) rest er)

try_map-keys :
    {E : Type 0} (msg_of : E → Outcome (ℕ × Msg)) (nonce_of : E → ℕ)
    → KeepsNonce msg_of nonce_of
    → (es : List E) (kvs : List (ℕ × Msg)) → try_map msg_of es ≡ ok kvs
    → keys kvs ≡ map nonce_of es
unfolding try_map
try_map-keys msg_of nonce_of keeps [] kvs e = rw (← ok_inj e) refl
try_map-keys msg_of nonce_of keeps (x ∷ xs) kvs e =
    let (kv, rest, ex, er, same) = try_map-cons msg_of x xs kvs e in
    rw (same, keeps x kv ex, try_map-keys msg_of nonce_of keeps xs rest er)

try_map_ok :
    {E : Type 0} {V : Type 0} (f : E → Outcome V) (es : List E)
    → All (λ x. is_ok (f x) ≡ true) es
    → (ys : List V) × (try_map f es ≡ ok ys)
unfolding try_map
try_map_ok f [] h = ([], refl)
try_map_ok f (x ∷ xs) h =
    let (y, ey) = is_ok→ok (f x) h.0 in
    let (ys, eys) = try_map_ok f xs h.1 in (y ∷ ys, rw (ey, eys))

-- Each event's block height fits, and each receiver can be printed.
abbrev pub IsSendable : Printer → List ℕ → Claims → Type 0
IsSendable p receiver_prefix c =
    All
      (λ e.
        (e.block_height < u64_max) × (is_some (p.to_bech32 receiver_prefix e.destination) ≡ true))
      c.deposits
    × All (λ e. e.block_height < u64_max) c.withdraws
    × All (λ e. e.block_height < u64_max) c.erc20_deploys
    × All (λ e. e.block_height < u64_max) c.logic_calls
    × All (λ e. e.block_height < u64_max) c.valsets

module _ (p : Printer) (receiver_prefix orchestrator : List ℕ) where
  -- The messages of all the events with their nonces, in the order in which they are filed.
  abbrev pub entries : Claims → Outcome (List (ℕ × Msg))
  entries c = do
    deposits ← try_map (deposit_msg p receiver_prefix orchestrator) c.deposits
    withdraws ← try_map (withdraw_msg p receiver_prefix orchestrator) c.withdraws
    deploys ← try_map (deploy_msg p receiver_prefix orchestrator) c.erc20_deploys
    logic_calls ← try_map (logic_call_msg p receiver_prefix orchestrator) c.logic_calls
    valsets ← try_map (valset_msg p receiver_prefix orchestrator) c.valsets
    ok (deposits ++ (withdraws ++ (deploys ++ (logic_calls ++ valsets))))

  deposit_msg-keeps : KeepsNonce (deposit_msg p receiver_prefix orchestrator) (λ e. e.event_nonce)
  unfolding deposit_msg
  deposit_msg-keeps e kv h = ground arith

  withdraw_msg-keeps : KeepsNonce (withdraw_msg p receiver_prefix orchestrator) (λ e. e.event_nonce)
  unfolding withdraw_msg
  withdraw_msg-keeps e kv h = ground arith

  deploy_msg-keeps : KeepsNonce (deploy_msg p receiver_prefix orchestrator) (λ e. e.event_nonce)
  unfolding deploy_msg
  deploy_msg-keeps e kv h = ground arith

  logic_call_msg-keeps :
      KeepsNonce (logic_call_msg p receiver_prefix orchestrator) (λ e. e.event_nonce)
  unfolding logic_call_msg
  logic_call_msg-keeps e kv h = ground arith

  valset_msg-keeps : KeepsNonce (valset_msg p receiver_prefix orchestrator) (λ e. e.event_nonce)
  unfolding valset_msg
  valset_msg-keeps e kv h = ground arith

  deposit_msg_ok :
      (e : SendToCosmosEvent)
      → e.block_height < u64_max
      → is_some (p.to_bech32 receiver_prefix e.destination) ≡ true
      → is_ok (deposit_msg p receiver_prefix orchestrator e) ≡ true
  unfolding deposit_msg
  deposit_msg_ok e h k = ground arith

  withdraw_msg_ok :
      (e : TransactionBatchExecutedEvent)
      → e.block_height < u64_max
      → is_ok (withdraw_msg p receiver_prefix orchestrator e) ≡ true
  unfolding withdraw_msg
  withdraw_msg_ok e h = ground arith

  deploy_msg_ok :
      (e : Erc20DeployedEvent)
      → e.block_height < u64_max
      → is_ok (deploy_msg p receiver_prefix orchestrator e) ≡ true
  unfolding deploy_msg
  deploy_msg_ok e h = ground arith

  logic_call_msg_ok :
      (e : LogicCallExecutedEvent)
      → e.block_height < u64_max
      → is_ok (logic_call_msg p receiver_prefix orchestrator e) ≡ true
  unfolding logic_call_msg
  logic_call_msg_ok e h = ground arith

  valset_msg_ok :
      (e : ValsetUpdatedEvent)
      → e.block_height < u64_max
      → is_ok (valset_msg p receiver_prefix orchestrator e) ≡ true
  unfolding valset_msg
  valset_msg_ok e h = ground arith

  order_msgs-eq :
      (c : Claims) (ds ws es ls vs : List (ℕ × Msg))
      → try_map (deposit_msg p receiver_prefix orchestrator) c.deposits ≡ ok ds
      → try_map (withdraw_msg p receiver_prefix orchestrator) c.withdraws ≡ ok ws
      → try_map (deploy_msg p receiver_prefix orchestrator) c.erc20_deploys ≡ ok es
      → try_map (logic_call_msg p receiver_prefix orchestrator) c.logic_calls ≡ ok ls
      → try_map (valset_msg p receiver_prefix orchestrator) c.valsets ≡ ok vs
      → order_msgs p receiver_prefix orchestrator c
        ≡ ok (insert_all (ds ++ (ws ++ (es ++ (ls ++ vs)))) [])
  unfolding order_msgs
  order_msgs-eq c ds ws es ls vs ed ew ee el ev = rw (
    insert_all-append ds (ws ++ (es ++ (ls ++ vs))) [],
    insert_all-append ws (es ++ (ls ++ vs)) (insert_all ds []),
    insert_all-append es (ls ++ vs) (insert_all ws (insert_all ds [])),
    insert_all-append ls vs (insert_all es (insert_all ws (insert_all ds []))),
    file_msgs_lem _ c.deposits [] ds ed,
    file_msgs_lem _ c.withdraws (insert_all ds []) ws ew,
    file_msgs_lem _ c.erc20_deploys (insert_all ws (insert_all ds [])) es ee,
    file_msgs_lem _ c.logic_calls (insert_all es (insert_all ws (insert_all ds []))) ls el,
    file_msgs_lem _ c.valsets (insert_all ls (insert_all es (insert_all ws (insert_all ds [])))) vs
        ev,
  )

  -- Sendable events become messages, filed in the order of the five arrays under their nonces.
  pub order_msgs-entries :
      (c : Claims)
      → IsSendable p receiver_prefix c
      → (kvs : List (ℕ × Msg)) × (entries c ≡ ok kvs)
        × (keys kvs ≡ nonces c)
        × (order_msgs p receiver_prefix orchestrator c ≡ ok (insert_all kvs []))
  order_msgs-entries c (hd, hw, he, hl, hv) =
      let (ds, ed) =
        try_map_ok (deposit_msg p receiver_prefix orchestrator) c.deposits
          (All-map (λ e h. deposit_msg_ok e h.0 h.1) c.deposits hd) in
      let (ws, ew) =
        try_map_ok (withdraw_msg p receiver_prefix orchestrator) c.withdraws
          (All-map withdraw_msg_ok c.withdraws hw) in
      let (es, ee) =
        try_map_ok (deploy_msg p receiver_prefix orchestrator) c.erc20_deploys
          (All-map deploy_msg_ok c.erc20_deploys he) in
      let (ls, el) =
        try_map_ok (logic_call_msg p receiver_prefix orchestrator) c.logic_calls
          (All-map logic_call_msg_ok c.logic_calls hl) in
      let (vs, ev) =
        try_map_ok (valset_msg p receiver_prefix orchestrator) c.valsets
          (All-map valset_msg_ok c.valsets hv) in
      (
        ds ++ (ws ++ (es ++ (ls ++ vs))),
        rw (ed, ew, ee, el, ev) refl,
        simp (
          keys-append,
          try_map-keys _ _ deposit_msg-keeps c.deposits ds ed,
          try_map-keys _ _ withdraw_msg-keeps c.withdraws ws ew,
          try_map-keys _ _ deploy_msg-keeps c.erc20_deploys es ee,
          try_map-keys _ _ logic_call_msg-keeps c.logic_calls ls el,
          try_map-keys _ _ valset_msg-keeps c.valsets vs ev,
        ),
        order_msgs-eq c ds ws es ls vs ed ew ee el ev,
      )
