-- ===== src/Startup/Connected.antt =====
-- `create_rpc_connections` of gravity_utils/src/connection_prep.rs as a whole.
use near_aurora_bridge.Base.{
  ℕ, ◌≡◌, refl, ◌⊎◌, inl, inr, true, false, Option, none, some, List, Bool-cases, Outcome, ok, err,
  panic, ◌>>=◌, ◌>>◌, assert, unwrap,
}
use near_aurora_bridge.Startup.Connections.{
  Network, Connections, check_scheme, connect_grpc, connect_eth, if_given, create_rpc_connections,
}
use near_aurora_bridge.Startup.Reached.{
  Reached, Unreached, Attempt, used_url, url-Attempt, connect_eth-Attempt, connect_grpc-eq,
}

-- For a URL that is given there is a client, and else there is none.
abbrev pub EachGiven : (List ℕ → List ℕ → Type 0) → Option (List ℕ) → Option (List ℕ) → Type 0
EachGiven P none none = Unit {0}
EachGiven P none (some used) = ⊥
EachGiven P (some text) none = ⊥
EachGiven P (some text) (some used) = P text used

abbrev pub SomeGiven : (List ℕ → Type 0) → Option (List ℕ) → Type 0
SomeGiven P none = ⊥
SomeGiven P (some text) = P text

module _ (n : Network) (address_prefix : List ℕ) where
  -- The client for Cosmos answers, and so does a Contact with the same URL.
  abbrev pub GrpcReached : List ℕ → List ℕ → Type 0
  GrpcReached text used =
      Reached n.parse_url n.connect text used × (n.new_contact used address_prefix ≡ true)

  -- The URL leads nowhere, or what it leads to makes no Contact.
  abbrev pub GrpcFails : List ℕ → Type 0
  GrpcFails text =
      Unreached n.parse_url n.connect text
      ⊎ ((used : List ℕ) × Reached n.parse_url n.connect text used
          × (n.new_contact used address_prefix ≡ false))

  abbrev GrpcAttempt : List ℕ → Outcome (List ℕ) → Type 0
  GrpcAttempt text (ok used) = GrpcReached text used
  GrpcAttempt text (err e) = ⊥
  GrpcAttempt text panic = GrpcFails text

  contact-GrpcAttempt :
      (text : List ℕ) (r : Outcome (List ℕ))
      → Attempt n.parse_url n.connect text r
      → GrpcAttempt text (r >>= λ used. assert (n.new_contact used address_prefix) >> ok used)
  contact-GrpcAttempt text (err e) a = a
  contact-GrpcAttempt text panic a = inl a
  contact-GrpcAttempt text (ok used) a = elim (Bool-cases (n.new_contact used address_prefix)) [
    | inl made ↦ rw made (a, made)
    | inr refused ↦ rw refused (inr (used, a, refused))
  ]

  connect_grpc-GrpcAttempt : (text : List ℕ) → GrpcAttempt text (connect_grpc n address_prefix text)
  connect_grpc-GrpcAttempt text = rw (connect_grpc-eq n address_prefix text) (
      contact-GrpcAttempt text
        (unwrap (n.parse_url text) >>= λ url. check_scheme url >> used_url n.connect url text text)
        (url-Attempt n.parse_url n.connect text text (λ h. h) (n.parse_url text) refl))

  abbrev pub Connected : Option (List ℕ) → Option (List ℕ) → Outcome Connections → Type 0
  Connected grpc_url eth_rpc_url (ok c) =
      EachGiven GrpcReached grpc_url c.grpc
      × (c.contact ≡ c.grpc)
      × EachGiven (Reached n.parse_url n.eth_block_number) eth_rpc_url c.web3
  Connected grpc_url eth_rpc_url (err e) = ⊥
  Connected grpc_url eth_rpc_url panic =
      SomeGiven GrpcFails grpc_url
      ⊎ SomeGiven (Unreached n.parse_url n.eth_block_number) eth_rpc_url

  eth-Connected :
      (grpc_url eth_rpc_url grpc : Option (List ℕ))
      → EachGiven GrpcReached grpc_url grpc
      → Connected grpc_url eth_rpc_url (
          if_given n (connect_eth n) eth_rpc_url >>= λ web3.
          ok (record { web3 = web3; grpc = grpc; contact = grpc }))
  eth-Connected grpc_url none grpc g = (g, refl, tt)
  eth-Connected grpc_url (some text) grpc g = go (connect_eth n text) (connect_eth-Attempt n text)
    where
      go :
          (r : Outcome (List ℕ))
          → Attempt n.parse_url n.eth_block_number text r
          → Connected grpc_url (some text) (
              r >>= (λ used. ok (some used)) >>= λ web3.
              ok (record { web3 = web3; grpc = grpc; contact = grpc }))
      go (ok used) a = (g, refl, a)
      go (err e) a = a
      go panic a = inr a

  -- `create_rpc_connections` never returns an error. When it returns, there is a client for each of the
  -- two URLs that is given and for no other; the client answers, and the Contact has the same URL as the
  -- client for Cosmos. The URL in use is the given one less its final slashes; or it is one with the
  -- scheme and the port of the given one on this machine, if that names localhost; or it is one with
  -- https. It panics only if a given URL does not parse, has a scheme other than http and https, or does
  -- not answer itself, or if no Contact can be made for the client for Cosmos.
  pub create_rpc_connections-Connected :
      (grpc_url eth_rpc_url : Option (List ℕ))
      → Connected grpc_url eth_rpc_url
          (create_rpc_connections n address_prefix grpc_url eth_rpc_url)
  unfolding create_rpc_connections
  create_rpc_connections-Connected none eth_rpc_url = eth-Connected none eth_rpc_url none tt
  create_rpc_connections-Connected (some text) eth_rpc_url =
      go (connect_grpc n address_prefix text) (connect_grpc-GrpcAttempt text)
    where
      go :
          (r : Outcome (List ℕ))
          → GrpcAttempt text r
          → Connected (some text) eth_rpc_url (
              r >>= (λ used. ok (some used)) >>= λ grpc.
              if_given n (connect_eth n) eth_rpc_url >>= λ web3.
              ok (record { web3 = web3; grpc = grpc; contact = grpc }))
      go (ok used) a = eth-Connected (some text) eth_rpc_url (some used) a
      go (err e) a = a
      go panic a = inl a
