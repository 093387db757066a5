-- ===== src/Startup/ConnectTests.antt =====
-- Runs of `create_rpc_connections` of gravity_utils/src/connection_prep.rs.
use near_aurora_bridge.Base.{
  ℕ, ◌≡◌, refl, true, none, some, List, [], ◌∷◌, ◌++◌, if◌then◌else◌, ok, panic,
}
use near_aurora_bridge.Cosmos.Requests.{same_text}
use near_aurora_bridge.Startup.Urls.{localhost, http, https_start, print_number, ipv4_host}
use near_aurora_bridge.Startup.Connections.{
  Network, create_rpc_connections, check_scheme, connect_grpc, connect_eth, eth_fallback,
  eth_localhost, grpc_fallback, grpc_localhost,
}
use near_aurora_bridge.Startup.Connected.{Connected, create_rpc_connections-Connected}

-- "https://a//" and the same without the slashes
abbrev far : List ℕ
far = https_start ++ 97 ∷ []

abbrev far_with_slashes : List ℕ
far_with_slashes = far ++ 47 ∷ 47 ∷ []

-- "http://localhost:8545", and what it falls back to
abbrev near : List ℕ
near = http ++ 58 ∷ 47 ∷ 47 ∷ localhost ++ 58 ∷ 56 ∷ 53 ∷ 52 ∷ 53 ∷ []

abbrev near_by_number : List ℕ
near_by_number = http ++ ipv4_host ++ 56 ∷ 53 ∷ 52 ∷ 53 ∷ []

-- A Cosmos node far away, and an Ethereum node here that the name does not reach.
abbrev two_nodes : Network
two_nodes = record {
  parse_url = λ text.
      if same_text text near
      then some (record { scheme = http; port = some 8545; host_str = some localhost })
      else some (record {
        scheme = 104 ∷ 116 ∷ 116 ∷ 112 ∷ 115 ∷ [];
        port = none;
        host_str = some (97 ∷ []);
      });
  connect = λ text. same_text text far;
  eth_block_number = λ text. same_text text near_by_number;
  new_contact = λ text prefix. true;
}

connections_run :
    create_rpc_connections two_nodes (110 ∷ []) (some far_with_slashes) (some near)
    ≡ ok (record { web3 = some near_by_number; grpc = some far; contact = some far })
unfolding create_rpc_connections connect_grpc connect_eth eth_fallback eth_localhost check_scheme
    print_number
connections_run = refl

-- No node answers.
no_connection : create_rpc_connections two_nodes (110 ∷ []) (some near) none ≡ panic
unfolding create_rpc_connections connect_grpc grpc_fallback grpc_localhost check_scheme print_number
no_connection = refl

create_rpc_connections-Connected_example :
    Connected two_nodes
      (110 ∷ [])
      (some far_with_slashes)
      (some near)
      (create_rpc_connections two_nodes (110 ∷ []) (some far_with_slashes) (some near))
create_rpc_connections-Connected_example =
    create_rpc_connections-Connected two_nodes (110 ∷ []) (some far_with_slashes) (some near)
