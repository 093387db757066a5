-- ===== src/Cosmos/Tests.antt =====
-- Runs of the messages to Cosmos.
use near_aurora_bridge.Base.{ℕ, ◌+◌, ◌*◌, ◌≡◌, refl, some, List, [], ◌∷◌, map, arith, ok, try_map}
use near_aurora_bridge.BTreeMap.{IsDistinct, last_entry}
use near_aurora_bridge.Events.{SendToCosmosEvent, TransactionBatchExecutedEvent}
use near_aurora_bridge.Oracle.{Claims}
use near_aurora_bridge.Cosmos.{
  Coin, Msg, send_to_cosmos_claim, batch_send_to_eth_claim, reply, Printer, Contact, PrivateKey,
  broadcast, submit,
}
use near_aurora_bridge.Cosmos.Claims.{
  send_ethereum_claims, order_msgs, file_msgs, deposit_msg, withdraw_msg, deploy_msg,
  logic_call_msg, valset_msg,
}
use near_aurora_bridge.Cosmos.Requests.{Wide, send_to_eth, transfer}
use near_aurora_bridge.Cosmos.Balances.{send_to_eth-eq}
use near_aurora_bridge.Cosmos.Filing.{nonces, IsSendable, entries}
use near_aurora_bridge.Cosmos.Sends.{SendsOnce, send_ethereum_claims-Perm, send_ethereum_claims-eq}

-- Numbers are printed as one digit, and the account 7 is printed as itself.
abbrev pub printer : Printer
printer = record {
  eth_address_to_string = λ a. a ∷ [];
  cosmos_address_to_string = λ a. a ∷ [];
  uint256_to_string = λ n. n ∷ [];
  to_bech32 = λ prefix a. some (a ∷ []);
  bytes_to_hex_str = λ b. b;
  signature_to_bytes = λ s. s.v ∷ s.r ∷ s.s ∷ [];
}

-- The answer to a transaction is the list of its messages.
abbrev pub contact : List Coin → Contact (List ℕ) (List ℕ)
contact balances = record {
  get_prefix = [];
  get_message_args = λ a fee. reply [];
  get_balances = λ a. reply balances;
  send_transaction = λ b. reply b;
  wait_for_tx = λ t. reply t;
}

-- Only the nonces of claims are signed.
abbrev nonce_of : Msg → ℕ
nonce_of (send_to_cosmos_claim c) = c.event_nonce
nonce_of (batch_send_to_eth_claim c) = c.event_nonce
nonce_of _ = 0

abbrev pub key : PrivateKey (List ℕ)
key = record {
  to_address = λ prefix. some 7;
  sign_std_msg = λ msgs args. reply (map nonce_of msgs);
}

abbrev pub fee : Coin
fee = record { amount = 1; denom = 5 ∷ [] }

abbrev deposit : ℕ → SendToCosmosEvent
deposit n = record {
  erc20 = 1;
  sender = 2;
  destination = 3;
  amount = 4;
  event_nonce = n;
  block_height = 100;
}

abbrev withdraw : ℕ → TransactionBatchExecutedEvent
withdraw n = record { batch_nonce = 9; block_height = 101; erc20 = 1; event_nonce = n }

abbrev claims : List SendToCosmosEvent → Claims
claims deposits = record {
  deposits = deposits;
  withdraws = withdraw 12 ∷ [];
  erc20_deploys = [];
  logic_calls = [];
  valsets = [];
}

abbrev three : Claims
three = claims (deposit 13 ∷ deposit 11 ∷ [])

abbrev three_swapped : Claims
three_swapped = claims (deposit 11 ∷ deposit 13 ∷ [])

claims_run :
    send_ethereum_claims printer (contact []) key three fee ≡ ok (reply (11 ∷ 12 ∷ 13 ∷ []))
unfolding send_ethereum_claims order_msgs file_msgs deposit_msg withdraw_msg deploy_msg
    logic_call_msg valset_msg broadcast submit
claims_run = refl

three-IsSendable : IsSendable printer [] three
three-IsSendable = (((omega arith, refl), ((omega arith, refl), tt)), (omega arith, tt), tt, tt, tt)

swapped-IsSendable : IsSendable printer [] three_swapped
swapped-IsSendable =
    (((omega arith, refl), ((omega arith, refl), tt)), (omega arith, tt), tt, tt, tt)

three-IsDistinct : IsDistinct (nonces three)
three-IsDistinct = ground arith

send_ethereum_claims-Perm_example : SendsOnce printer (contact []) key 7 three fee
send_ethereum_claims-Perm_example =
    send_ethereum_claims-Perm printer (contact []) key 7 three fee refl three-IsSendable
      three-IsDistinct

abbrev deposit_entry : ℕ → ℕ × Msg
deposit_entry n = (
  n,
  send_to_cosmos_claim (record {
    event_nonce = n;
    block_height = 100;
    token_contract = 1 ∷ [];
    amount = 4 ∷ [];
    cosmos_receiver = 3 ∷ [];
    ethereum_sender = 2 ∷ [];
    orchestrator = 7 ∷ [];
  }),
)

abbrev withdraw_entry : ℕ × Msg
withdraw_entry = (
  12,
  batch_send_to_eth_claim (record {
    event_nonce = 12;
    block_height = 101;
    token_contract = 1 ∷ [];
    batch_nonce = 9;
    orchestrator = 7 ∷ [];
  }),
)

three-entries :
    entries printer [] (7 ∷ []) three
    ≡ ok (deposit_entry 13 ∷ deposit_entry 11 ∷ withdraw_entry ∷ [])
unfolding try_map deposit_msg withdraw_msg deploy_msg logic_call_msg valset_msg
three-entries = refl

swapped_entries :
    entries printer [] (7 ∷ []) three_swapped
    ≡ ok (deposit_entry 11 ∷ deposit_entry 13 ∷ withdraw_entry ∷ [])
unfolding try_map deposit_msg withdraw_msg deploy_msg logic_call_msg valset_msg
swapped_entries = refl

same_last :
    (nonce : ℕ)
    → last_entry (deposit_entry 13 ∷ deposit_entry 11 ∷ withdraw_entry ∷ []) nonce
      ≡ last_entry (deposit_entry 11 ∷ deposit_entry 13 ∷ withdraw_entry ∷ []) nonce
same_last nonce = ground arith

send_ethereum_claims-eq_example :
    send_ethereum_claims printer (contact []) key three fee
    ≡ send_ethereum_claims printer (contact []) key three_swapped fee
send_ethereum_claims-eq_example =
    send_ethereum_claims-eq printer (contact []) key 7 three three_swapped fee
      (deposit_entry 13 ∷ deposit_entry 11 ∷ withdraw_entry ∷ [])
      (deposit_entry 11 ∷ deposit_entry 13 ∷ withdraw_entry ∷ []) refl three-IsSendable
      swapped-IsSendable three-entries swapped_entries same_last

-- The bridge fee of 50 is more than the account has: the check does not see it.
abbrev coin : ℕ → Coin
coin n = record { amount = n; denom = 6 ∷ [] }

abbrev wide : Wide
wide = record { add = λ a b. ok (a + b); mul = λ a b. ok (a * b) }

send_to_eth-eq_example :
    send_to_eth printer (contact (coin 12 ∷ [])) key wide 9 (coin 10) (coin 50) fee
    ≡ ok (transfer printer (contact (coin 12 ∷ [])) key 9 (coin 10) (coin 50) fee 7)
send_to_eth-eq_example =
    send_to_eth-eq printer (contact (coin 12 ∷ [])) key wide 9 (coin 10) (coin 50) fee 7
      (coin 12 ∷ []) refl refl ((λ a b h. refl), (λ a b h. refl)) (omega arith)
