-- ===== src/Client/Tests.antt =====
-- A run of `cosmos_to_eth` of nabt/src/client/cosmos_to_eth.rs.
use near_aurora_bridge.Base.{
  ℕ, ◌+◌, ◌*◌, ◌≡◌, refl, true, false, none, some, List, [], ◌∷◌, unrecoverable_error, ok, err,
}
use near_aurora_bridge.Cosmos.{Coin, reply, Printer, Contact, PrivateKey, broadcast, submit}
use near_aurora_bridge.Cosmos.Requests.{
  Wide, send_to_eth, send_request_batch, balance_loop, transfer,
}
use near_aurora_bridge.Startup.{check_for_fee}
use near_aurora_bridge.Startup.Urls.{http, https_start}
use near_aurora_bridge.Startup.Connections.{create_rpc_connections, connect_grpc, check_scheme}
use near_aurora_bridge.Client.{
  CosmosToEthOpts, Chains, asked_transfer, asked_batch, cosmos_to_eth, check_transfer, ask_transfer,
  ask_batch, find_coin, check_balance,
}

abbrev coin : ℕ → Coin
coin n = record { amount = n; denom = 5 ∷ [] }

abbrev printing : Printer
printing = record {
  eth_address_to_string = λ a. a ∷ [];
  cosmos_address_to_string = λ a. a ∷ [];
  uint256_to_string = λ n. n ∷ [];
  to_bech32 = λ prefix a. some (a ∷ []);
  bytes_to_hex_str = λ b. b;
  signature_to_bytes = λ s. [];
}

-- The account holds 100 coins, and a transaction is answered by its fee.
abbrev chain : Contact (List ℕ) (List ℕ)
chain = record {
  get_prefix = 9 ∷ [];
  get_message_args = λ a fee. reply (fee.gas_limit ∷ []);
  get_balances = λ a. reply (coin 100 ∷ []);
  send_transaction = λ b. reply b;
  wait_for_tx = λ t. reply t;
}

abbrev wide : Wide
wide = record { add = λ a b. ok (a + b); mul = λ a b. ok (a * b) }

abbrev signing : PrivateKey (List ℕ)
signing = record { to_address = λ prefix. some 7; sign_std_msg = λ msgs args. reply args }

abbrev nodes : Chains (List ℕ) (List ℕ)
nodes = record {
  network = record {
    parse_url = λ text. some (record { scheme = http; port = none; host_str = none });
    connect = λ text. true;
    eth_block_number = λ text. false;
    new_contact = λ text prefix. true;
  };
  contact_at = λ url prefix. chain;
  denom_to_erc20 = λ url denom. some (3 ∷ []);
  coin_balances = coin 100 ∷ [];
  fee_balances = coin 100 ∷ [];
}

-- A transfer of so many coins, with a fee of one.
abbrev sending : ℕ → CosmosToEthOpts
sending n = record {
  amount = coin n;
  fees = coin 1;
  cosmos_grpc = https_start;
  eth_destination = 2;
  no_batch = false;
}

transfer_run :
    cosmos_to_eth printing signing wide nodes (sending 40) (9 ∷ [])
    ≡ (ok tt, asked_transfer (reply (500000 ∷ [])) ∷ asked_batch (reply (500000000 ∷ [])) ∷ [])
unfolding cosmos_to_eth check_transfer ask_transfer ask_batch find_coin check_balance check_for_fee
    create_rpc_connections connect_grpc check_scheme send_to_eth send_request_batch balance_loop
    transfer broadcast submit
transfer_run = refl

-- The whole balance cannot be sent.
whole_balance :
    cosmos_to_eth printing signing wide nodes (sending 100) (9 ∷ []) ≡ (err unrecoverable_error, [])
unfolding cosmos_to_eth check_transfer find_coin check_balance check_for_fee create_rpc_connections
    connect_grpc check_scheme
whole_balance = refl
