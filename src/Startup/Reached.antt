-- ===== src/Startup/Reached.antt =====
-- What `create_rpc_connections` of gravity_utils/src/connection_prep.rs connects to, and when it
-- panics.
use near_aurora_bridge.Base.{
  ℕ, ◌≡◌, refl, sym, ap, subst, ◌⊎◌, inl, inr, Bool, true, false, not, ◌||◌, Option, none, some,
  List, [], ◌∷◌, ◌++◌, arith, ◌==◌, if◌then◌else◌, Bool-cases, is_some, Outcome, ok, err, panic,
  ◌>>=◌, ◌>>◌, assert, unwrap,
}
use near_aurora_bridge.Cosmos.Requests.{same_text}
use near_aurora_bridge.Startup.{starts_with, contains}
use near_aurora_bridge.Startup.Urls.{
  localhost, https_start, http, https, trim_end_matches, to_lowercase,
}
use near_aurora_bridge.Startup.Connections.{
  Url, Network, check_scheme, only_one, ipv6_url, ipv4_url, https_on_80_url, https_on_443_url,
  grpc_localhost, grpc_upgrade, grpc_fallback, connect_grpc, eth_localhost, eth_upgrade,
  eth_fallback, connect_eth,
}

-- The given URL less its slashes, or the same scheme and port on this machine, if the URL names it, or
-- else an upgrade to https.
abbrev pub Safer : Url → List ℕ → List ℕ → Type 0
Safer url text used =
    (used ≡ trim_end_matches text)
    ⊎ ((contains (to_lowercase text) localhost ≡ true)
        × ((used ≡ ipv4_url url) ⊎ (used ≡ ipv6_url url)))
    ⊎ (starts_with used https_start ≡ true)

-- A client that answers.
abbrev pub Reached : (List ℕ → Option Url) → (List ℕ → Bool) → List ℕ → List ℕ → Type 0
Reached parse answers text used =
    (url : Url) × (parse text ≡ some url) × (answers used ≡ true) × Safer url text used

-- The URL does not parse, has another scheme, or does not answer.
abbrev pub Unreached : (List ℕ → Option Url) → (List ℕ → Bool) → List ℕ → Type 0
Unreached parse answers text =
    (parse text ≡ none)
    ⊎ ((url : Url) × (parse text ≡ some url)
        × ((same_text url.scheme http || same_text url.scheme https) ≡ false))
    ⊎ (answers (trim_end_matches text) ≡ false)

-- The property of an attempt at one URL.
abbrev pub Attempt : (List ℕ → Option Url) → (List ℕ → Bool) → List ℕ → Outcome (List ℕ) → Type 0
Attempt parse answers text (ok used) = Reached parse answers text used
Attempt parse answers text (err e) = ⊥
Attempt parse answers text panic = Unreached parse answers text

starts_with_https : (xs : List ℕ) → starts_with (https_start ++ xs) https_start ≡ true
starts_with_https xs = refl

module _ (parse : List ℕ → Option Url) (answers : List ℕ → Bool) (text : List ℕ) (url : Url)
    (e : parse text ≡ some url) (silent : answers (trim_end_matches text) ≡ false) where
  only_one-Attempt :
      (u v : List ℕ)
      → Safer url text u
      → Safer url text v
      → Attempt parse answers text (only_one (answers u) (answers v) u v)
  only_one-Attempt u v su sv = elim (Bool-cases (answers u)) [
    | inl yu ↦ elim (Bool-cases (answers v)) [
      | inl yv ↦ rw (yu, yv) (inr (inr silent))
      | inr nv ↦ rw (yu, nv) (url, e, yu, su)
    ]
    | inr nu ↦ elim (Bool-cases (answers v)) [
      | inl yv ↦ rw (nu, yv) (url, e, yv, sv)
      | inr nv ↦ rw (nu, nv) (inr (inr silent))
    ]
  ]

  upgrade-Attempt :
      (host : Option (List ℕ))
      → Attempt parse answers text (
          unwrap host >>= λ body.
          only_one
            (answers (https_on_80_url body))
            (answers (https_on_443_url body))
            (https_on_80_url body)
            (https_on_443_url body))
  upgrade-Attempt none = inr (inr silent)
  upgrade-Attempt (some body) =
      only_one-Attempt (https_on_80_url body) (https_on_443_url body) (inr (inr refl))
        (inr (inr refl))

abbrev pub upgrade : (List ℕ → Bool) → Option (List ℕ) → Outcome (List ℕ)
upgrade answers host_str = unwrap host_str >>= λ body.
    only_one (answers (https_on_80_url body)) (answers (https_on_443_url body))
      (https_on_80_url body) (https_on_443_url body)

-- Both fallbacks are this one, for the URL that is looked at.
abbrev pub fallback : (List ℕ → Bool) → Url → List ℕ → Outcome (List ℕ)
fallback answers url seen =
    if contains (to_lowercase seen) localhost
    then only_one (answers (ipv4_url url)) (answers (ipv6_url url)) (ipv4_url url) (ipv6_url url)
    else if not (is_some url.port) || same_text url.scheme http
    then upgrade answers url.host_str
    else panic

-- The given URL is tried first.
abbrev pub used_url : (List ℕ → Bool) → Url → List ℕ → List ℕ → Outcome (List ℕ)
used_url answers url text seen =
    if answers (trim_end_matches text)
    then ok (trim_end_matches text)
    else fallback answers url seen

module _ (parse : List ℕ → Option Url) (answers : List ℕ → Bool) (text seen : List ℕ)
    (sees : contains (to_lowercase seen) localhost ≡ true
      → contains (to_lowercase text) localhost ≡ true) where
  fallback-Attempt :
      (url : Url)
      → parse text ≡ some url
      → answers (trim_end_matches text) ≡ false
      → Attempt parse answers text (fallback answers url seen)
  fallback-Attempt url e silent = elim (Bool-cases (contains (to_lowercase seen) localhost)) [
    | inl here ↦ rw here (
        only_one-Attempt parse answers text url e silent (ipv4_url url) (ipv6_url url)
          (inr (inl (sees here, inl refl))) (inr (inl (sees here, inr refl))))
    | inr away ↦ rw away (elim (Bool-cases (not (is_some url.port) || same_text url.scheme http)) [
      | inl answered ↦ rw answered (upgrade-Attempt parse answers text url e silent url.host_str)
      | inr failed ↦ rw failed (inr (inr silent))
    ])
  ]

  scheme-Attempt :
      (url : Url) (b : Bool)
      → parse text ≡ some url
      → (same_text url.scheme http || same_text url.scheme https) ≡ b
      → Attempt parse answers text (assert b >> used_url answers url text seen)
  scheme-Attempt url false e bad = inr (inl (url, e, bad))
  scheme-Attempt url true e good = elim (Bool-cases (answers (trim_end_matches text))) [
    | inl answered ↦ rw answered (url, e, answered, inl refl)
    | inr failed ↦ rw failed (fallback-Attempt url e failed)
  ]

  pub url-Attempt :
      (o : Option Url)
      → parse text ≡ o
      → Attempt parse answers text
          (unwrap o >>= λ url. check_scheme url >> used_url answers url text seen)
  unfolding check_scheme
  url-Attempt none e = inl e
  url-Attempt (some url) e =
      scheme-Attempt url (same_text url.scheme http || same_text url.scheme https) e refl

starts_with_nil : (xs : List ℕ) → starts_with xs [] ≡ true
starts_with_nil [] = refl
starts_with_nil (x ∷ xs) = refl

-- A text with more at its end contains what it contained.
starts_with_more :
    (xs ys part : List ℕ) → starts_with xs part ≡ true → starts_with (xs ++ ys) part ≡ true
starts_with_more xs ys [] h = starts_with_nil (xs ++ ys)
starts_with_more [] ys (p ∷ part) h = cc
starts_with_more (x ∷ xs) ys (p ∷ part) h = ground (arith, h, starts_with_more xs ys part)

contains_nil : (xs : List ℕ) → contains xs [] ≡ true
contains_nil [] = refl
contains_nil (x ∷ xs) = refl

contains_more : (xs ys part : List ℕ) → contains xs part ≡ true → contains (xs ++ ys) part ≡ true
contains_more xs ys [] h = contains_nil (xs ++ ys)
contains_more [] ys (p ∷ part) h = cc
contains_more (x ∷ xs) ys (p ∷ part) h =
    ground (arith, h, starts_with_more (x ∷ xs) ys (p ∷ part), contains_more xs ys (p ∷ part))

trim_case :
    (c : ℕ) (cs t zs : List ℕ)
    → cs ≡ t ++ zs
    → (ws : List ℕ) × (c ∷ cs
        ≡ elim t [ [] ↦ if c == 47 then [] else c ∷ [] | d ∷ ds ↦ c ∷ d ∷ ds ] ++ ws)
trim_case c cs [] zs e = elim (Bool-cases (c == 47)) [
  | inl slash ↦ rw slash (c ∷ cs, refl)
  | inr other ↦ rw other (cs, refl)
]
trim_case c cs (d ∷ ds) zs e = (zs, ap (λ xs. c ∷ xs) e)

-- What `trim_end_matches` cuts off.
trim_end_matches-rest : (text : List ℕ) → (ws : List ℕ) × (text ≡ trim_end_matches text ++ ws)
trim_end_matches-rest [] = ([], refl)
trim_end_matches-rest (c ∷ cs) =
    let (zs, e) = trim_end_matches-rest cs in trim_case c cs (trim_end_matches cs) zs e

to_lowercase-append :
    (xs ys : List ℕ) → to_lowercase (xs ++ ys) ≡ to_lowercase xs ++ to_lowercase ys
to_lowercase-append [] ys = refl
to_lowercase-append (x ∷ xs) ys = cc (to_lowercase-append xs ys)

contains-trim_end_matches :
    (text part : List ℕ)
    → contains (to_lowercase (trim_end_matches text)) part ≡ true
    → contains (to_lowercase text) part ≡ true
contains-trim_end_matches text part h =
    let (ws, e) = trim_end_matches-rest text in
    subst (λ t. contains (to_lowercase t) part ≡ true) (sym e)
      (rw (to_lowercase-append (trim_end_matches text) ws)
        (contains_more (to_lowercase (trim_end_matches text)) (to_lowercase ws) part h))

module _ (n : Network) where
  pub connect_eth-Attempt :
      (text : List ℕ) → Attempt n.parse_url n.eth_block_number text (connect_eth n text)
  unfolding connect_eth eth_fallback eth_localhost eth_upgrade
  connect_eth-Attempt text =
      url-Attempt n.parse_url n.eth_block_number text (trim_end_matches text)
        (contains-trim_end_matches text localhost) (n.parse_url text) refl

  pub connect_grpc-eq :
      (prefix text : List ℕ)
      → connect_grpc n prefix text ≡ (
          (unwrap (n.parse_url text) >>= λ url.
          check_scheme url >> used_url n.connect url text text)
          >>= λ used. assert (n.new_contact used prefix) >> ok used)
  unfolding connect_grpc grpc_fallback grpc_localhost grpc_upgrade check_scheme
  connect_grpc-eq prefix text = ground arith
