-- ===== src/Startup/Connections.antt =====
-- `create_rpc_connections` and `check_scheme` of gravity_utils/src/connection_prep.rs. A client is
-- named by the URL that it uses. The time limit is left out.
use near_aurora_bridge.Base.{
  ℕ, Bool, true, false, not, ◌||◌, Option, none, some, List, ◌++◌, if◌then◌else◌, is_some, Outcome,
  ok, panic, assert, unwrap, ◌>>=◌, ◌>>◌,
}
use near_aurora_bridge.Cosmos.Requests.{same_text}
use near_aurora_bridge.Startup.{contains}
use near_aurora_bridge.Startup.Urls.{
  localhost, http, https, ipv6_host, ipv4_host, https_start, on_80, on_443, trim_end_matches,
  to_lowercase, print_number,
}

-- The crate url.
pub record Url : Type 0 where
  pub scheme : List ℕ
  pub port : Option ℕ
  pub host_str : Option (List ℕ)

-- Which URLs parse, which of them answer, and for which a Contact can be made.
pub record Network : Type 0 where
  pub parse_url : List ℕ → Option Url
  pub connect : List ℕ → Bool
  pub eth_block_number : List ℕ → Bool
  pub new_contact : List ℕ → List ℕ → Bool

pub record Connections : Type 0 where
  pub web3 : Option (List ℕ)
  pub grpc : Option (List ℕ)
  pub contact : Option (List ℕ)

unfoldable pub check_scheme : Url → Outcome (Unit {0})
check_scheme input = assert (same_text input.scheme http || same_text input.scheme https)

-- The four cases of a `match` on two attempts.
abbrev pub only_one : Bool → Bool → List ℕ → List ℕ → Outcome (List ℕ)
only_one true false first second = ok first
only_one false true first second = ok second
only_one true true first second = panic
only_one false false first second = panic

abbrev pub port_or_80 : Option ℕ → ℕ
port_or_80 none = 80
port_or_80 (some port) = port

abbrev pub ipv6_url : Url → List ℕ
ipv6_url url = url.scheme ++ ipv6_host ++ print_number (port_or_80 url.port)

abbrev pub ipv4_url : Url → List ℕ
ipv4_url url = url.scheme ++ ipv4_host ++ print_number (port_or_80 url.port)

abbrev pub https_on_80_url : List ℕ → List ℕ
https_on_80_url body = https_start ++ body ++ on_80

abbrev pub https_on_443_url : List ℕ → List ℕ
https_on_443_url body = https_start ++ body ++ on_443

module _ (n : Network) where
  unfoldable pub grpc_localhost : Url → Outcome (List ℕ)
  grpc_localhost url =
      only_one (n.connect (ipv4_url url)) (n.connect (ipv6_url url)) (ipv4_url url) (ipv6_url url)

  unfoldable pub grpc_upgrade : Url → Outcome (List ℕ)
  grpc_upgrade url = do
    body ← unwrap url.host_str
    only_one (n.connect (https_on_80_url body)) (n.connect (https_on_443_url body))
        (https_on_80_url body) (https_on_443_url body)

  -- The URL that is used where the given one does not answer.
  unfoldable pub grpc_fallback : Url → List ℕ → Outcome (List ℕ)
  grpc_fallback url grpc_url =
      if contains (to_lowercase grpc_url) localhost
      then grpc_localhost url
      else if not (is_some url.port) || same_text url.scheme http
      then grpc_upgrade url
      else panic

  unfoldable pub connect_grpc : List ℕ → List ℕ → Outcome (List ℕ)
  connect_grpc address_prefix grpc_url = do
    url ← unwrap (n.parse_url grpc_url)
    check_scheme url
    used ←
        if n.connect (trim_end_matches grpc_url)
        then ok (trim_end_matches grpc_url)
        else grpc_fallback url grpc_url
    assert (n.new_contact used address_prefix)
    ok used

  unfoldable pub eth_localhost : Url → Outcome (List ℕ)
  eth_localhost url =
      only_one (n.eth_block_number (ipv4_url url)) (n.eth_block_number (ipv6_url url))
        (ipv4_url url) (ipv6_url url)

  unfoldable pub eth_upgrade : Url → Outcome (List ℕ)
  eth_upgrade url = do
    body ← unwrap url.host_str
    only_one (n.eth_block_number (https_on_80_url body))
        (n.eth_block_number (https_on_443_url body)) (https_on_80_url body) (https_on_443_url body)

  unfoldable pub eth_fallback : Url → List ℕ → Outcome (List ℕ)
  eth_fallback url eth_url =
      if contains (to_lowercase eth_url) localhost
      then eth_localhost url
      else if not (is_some url.port) || same_text url.scheme http
      then eth_upgrade url
      else panic

  unfoldable pub connect_eth : List ℕ → Outcome (List ℕ)
  connect_eth eth_rpc_url = do
    url ← unwrap (n.parse_url eth_rpc_url)
    check_scheme url
    if n.eth_block_number (trim_end_matches eth_rpc_url)
        then ok (trim_end_matches eth_rpc_url)
        else eth_fallback url (trim_end_matches eth_rpc_url)

  -- What is done with a URL that may not be given.
  abbrev pub if_given : (List ℕ → Outcome (List ℕ)) → Option (List ℕ) → Outcome (Option (List ℕ))
  if_given f none = ok none
  if_given f (some url) = do used ← f url; ok (some used)

  unfoldable pub create_rpc_connections :
      List ℕ → Option (List ℕ) → Option (List ℕ) → Outcome Connections
  create_rpc_connections address_prefix grpc_url eth_rpc_url = do
    grpc ← if_given (connect_grpc address_prefix) grpc_url
    web3 ← if_given connect_eth eth_rpc_url
    ok (record { web3 = web3; grpc = grpc; contact = grpc })
