-- ===== src/Relayer/Update.antt =====
-- What `relay_valsets` sends.
use near_aurora_bridge.Base.{
  ℕ, ◌≤◌, ◌<◌, ◌≡◌, refl, sym, ap, ◌∙◌, inl, inr, Bool, true, false, not, Option, none, some, List,
  ◌∷◌, arith, ltb, ◌==◌, if◌then◌else◌, ltb→lt, lt→ltb, ltb→le, ==→eq, ==_self, Bool-cases, Outcome,
  ok, err, panic, assert, some_inj, >>=-eq-ok, ◌>>=◌,
}
use near_aurora_bridge.Types.{EthAddress, Uint256, Clarity}
use near_aurora_bridge.Valset.{Valset}
use near_aurora_bridge.Confirm.{ValsetConfirmResponse}
use near_aurora_bridge.Messages.{Abi}
use near_aurora_bridge.Ethereum.{
  Crates, Transaction, Web3, GasCost, get_total, u128_max, get_valset_nonce,
}
use near_aurora_bridge.Ethereum.Submit.{Ours}
use near_aurora_bridge.Ethereum.ValsetUpdate.{
  encode_valset_update_payload, estimate_valset_cost, prepare_valset, send_eth_valset_update,
}
use near_aurora_bridge.Relayer.Valsets.{ValsetQueries}
use near_aurora_bridge.Relayer.Newest.{
  Honest, IsNewest, Submittable, NoneAbove, find_latest_valid_valset-IsNewest,
}
use near_aurora_bridge.Relayer.Submit.{Moments}
use near_aurora_bridge.Relayer.ValsetRelay.{
  decide_valset, relay_valid_valset, relay_found, relay_valsets,
}

-- What stands behind the early exit.
behind_exit :
    (c : Bool) (m : Outcome (List ℕ)) (f : List ℕ → Transaction) (t : Transaction)
    → (if not c then ok none else do p ← m; ok (some (f p))) ≡ ok (some t)
    → (c ≡ true) × (p : List ℕ) × (m ≡ ok p) × (f p ≡ t)
behind_exit false m f t e = cc
behind_exit true (ok p) f t e = (refl, p, refl, cc)
behind_exit true (err x) f t e = cc
behind_exit true panic f t e = cc

module _ (k : Clarity) (abi : Abi) (x : Crates) (ours : Ours) (weth : EthAddress) (market : Bool)
    (current_valset : Valset) where
  -- The transaction replaces the current set, which the contract still holds, by the new one.
  pub Replaces : Web3 → Valset → List ValsetConfirmResponse → Transaction → Type 0
  Replaces web3 valset confirmed t =
      (get_valset_nonce x web3 ours.contract ours.eth_address ≡ ok current_valset.nonce)
      × (t.to ≡ ours.contract)
      × (encode_valset_update_payload k abi x ours valset current_valset confirmed ≡ ok t.payload)

  prepare_valset-Replaces :
      (web3 : Web3) (valset : Valset) (confirmed : List ValsetConfirmResponse) (t : Transaction)
      → prepare_valset k abi x ours valset current_valset confirmed web3 ≡ ok (some t)
      → Replaces web3 valset confirmed t
  unfolding prepare_valset Replaces
  prepare_valset-Replaces web3 valset confirmed t e =
      let (u, eu, e1) = >>=-eq-ok (assert (ltb current_valset.nonce valset.nonce)) _ e in
      let (n, en, e2) = >>=-eq-ok (get_valset_nonce x web3 ours.contract ours.eth_address) _ e1 in
      let (same, p, ep, et) =
        behind_exit (n == current_valset.nonce)
          (encode_valset_update_payload k abi x ours valset current_valset confirmed) _ t e2 in
      (en ∙ ap ok (==→eq n current_valset.nonce same), rw (← et) refl, rw (← et) ep)

  -- What is sent of a result of the search.
  relay_found-Replaces :
      (at : Moments) (ov : Option Valset) (oc : Option (List ValsetConfirmResponse))
      (t : Transaction)
      → (relay_found k abi x ours weth market current_valset at ov oc).1 ≡ some t
      → (v : Valset) × (cs : List ValsetConfirmResponse) × (ov ≡ some v)
        × (oc ≡ some cs)
        × (current_valset.nonce < v.nonce)
        × Replaces at.sending v cs t
  unfolding relay_found relay_valid_valset send_eth_valset_update
  relay_found-Replaces at none oc t e = cc
  relay_found-Replaces at (some v) none t e = cc
  relay_found-Replaces at (some v) (some cs) t e =
      let prepared : prepare_valset k abi x ours v current_valset cs at.sending ≡ ok (some t) =
        ground arith in
      (v, cs, refl, refl, ground arith, prepare_valset-Replaces at.sending v cs t prepared)

  -- Where what Cosmos gives for each nonce up to that of its latest set carries that nonce, and no test
  -- of signatures panics: a transaction that `relay_valsets` sends replaces the current set, which the
  -- contract still holds, by the newest set that can be submitted in the bridge's current state, and
  -- that has a higher nonce; it carries the two sets and the signatures in the current set's order.
  pub relay_valsets-newest :
      (q : ValsetQueries) (at : Moments) (latest : Valset) (valsets : List Valset) (t : Transaction)
      → ((m : ℕ) → m ≤ latest.nonce → Honest k abi q ours.gravity_id current_valset m)
      → (relay_valsets k abi x ours weth market current_valset q at (some (latest ∷ valsets))).1
        ≡ some t
      → (n : ℕ) × (v : Valset) × (cs : List ValsetConfirmResponse) × Submittable k abi q
          ours.gravity_id current_valset n v cs
        × NoneAbove k abi q ours.gravity_id current_valset n latest.nonce
        × (current_valset.nonce < v.nonce)
        × Replaces at.sending v cs t
  unfolding relay_valsets IsNewest
  relay_valsets-newest q at latest valsets t honest e =
      let (r, er, newest) =
        find_latest_valid_valset-IsNewest k abi q ours.gravity_id current_valset latest.nonce
          honest in
      let sent : (relay_found k abi x ours weth market current_valset at r.latest_valset
            r.latest_confirmed).1
          ≡ some t =
        rw (relay_valsets, er) at e in
      let (v, cs, ev, ec, lt, replaces) =
        relay_found-Replaces at r.latest_valset r.latest_confirmed t sent in
      elim newest [
        | inl (w, ds, n, ew, ed, pos, le, here, above) ↦
            let same : w ≡ v = some_inj (sym ew ∙ ev) in
            let same_confirms : ds ≡ cs = some_inj (sym ed ∙ ec) in
            (n, v, cs, rw (← same, ← same_confirms) here, above, lt, replaces)
        | inr (nothing, _, _) ↦ absurd (ground arith)
      ]

  -- The cost of the update is estimated and fits 128 bits, and its payload can be encoded.
  unfoldable pub Encodable : Web3 → Valset → List ValsetConfirmResponse → Type 0
  Encodable web3 v cs =
      (cost : GasCost) × (total : Uint256) × (payload : List ℕ) × (estimate_valset_cost k abi x ours
          v current_valset cs web3
        ≡ ok cost)
      × (get_total x cost ≡ ok total)
      × (total < u128_max)
      × (encode_valset_update_payload k abi x ours v current_valset cs ≡ ok payload)

  relay_valid_valset-sends :
      (at : Moments) (v : Valset) (cs : List ValsetConfirmResponse)
      → market ≡ false
      → current_valset.nonce < v.nonce
      → get_valset_nonce x at.sending ours.contract ours.eth_address ≡ ok current_valset.nonce
      → Encodable at.estimating v cs
      → (t : Transaction) × ((relay_valid_valset k abi x ours weth market current_valset at v cs).1
          ≡ some t)
  unfolding relay_valid_valset decide_valset send_eth_valset_update prepare_valset Encodable
  relay_valid_valset-sends at v cs off lt held (cost, total, payload, ec, et, fits, ep) =
      let decided : decide_valset k abi x ours weth market current_valset at.estimating v cost
          ≡ ok true =
        rw (decide_valset, et) (ground arith) in
      let prepared : prepare_valset k abi x ours v current_valset cs at.sending
          ≡ ok
              (some (record { to = ours.contract; payload = payload; sender = ours.eth_address })) =
        rw
          (
            prepare_valset,
            lt→ltb current_valset.nonce v.nonce lt,
            held,
            ==_self current_valset.nonce,
            ep,
          )
          refl in
      (
        record { to = ours.contract; payload = payload; sender = ours.eth_address },
        rw (relay_valid_valset, ec, decided, send_eth_valset_update, prepared) refl,
      )

  -- What Cosmos gives for a nonce carries that nonce.
  Submittable-nonce :
      (q : ValsetQueries) (m : ℕ) (w : Valset) (ds : List ValsetConfirmResponse)
      → Honest k abi q ours.gravity_id current_valset m
      → Submittable k abi q ours.gravity_id current_valset m w ds
      → w.nonce ≡ m
  unfolding Honest Submittable
  Submittable-nonce q m w ds honest (ev, ec, passes) = (honest w ev).0

  -- Where what Cosmos gives for each nonce up to that of its latest set carries that nonce, and no test
  -- of signatures panics; the market is not asked; the contract holds the current set; the update to
  -- any set that can be submitted is estimated, within 128 bits, and encoded; and some set with a
  -- nonce above the current one, up to the latest, can be submitted: `relay_valsets` sends a
  -- transaction.
  pub relay_valsets-sends :
      (q : ValsetQueries) (at : Moments) (latest : Valset) (valsets : List Valset) (n : ℕ)
      (v : Valset) (cs : List ValsetConfirmResponse)
      → ((m : ℕ) → m ≤ latest.nonce → Honest k abi q ours.gravity_id current_valset m)
      → market ≡ false
      → get_valset_nonce x at.sending ours.contract ours.eth_address ≡ ok current_valset.nonce
      → ((m : ℕ) (w : Valset) (ds : List ValsetConfirmResponse)
          → Submittable k abi q ours.gravity_id current_valset m w ds
          → Encodable at.estimating w ds)
      → Submittable k abi q ours.gravity_id current_valset n v cs
      → current_valset.nonce < n
      → n ≤ latest.nonce
      → (t : Transaction) × ((relay_valsets k abi x ours weth market current_valset q at
            (some (latest ∷ valsets))).1
          ≡ some t)
  unfolding relay_valsets relay_found IsNewest NoneAbove
  relay_valsets-sends q at latest valsets n v cs honest off held encodes here lt le =
      let (r, er, newest) =
        find_latest_valid_valset-IsNewest k abi q ours.gravity_id current_valset latest.nonce
          honest in
      elim newest [
        | inl (w, ds, m, ew, ed, pos, le', there, above) ↦
            let higher : n ≤ m = elim (Bool-cases (ltb m n)) [
              | inl below ↦ absurd (above n v cs (ltb→lt m n below) le here)
              | inr high ↦ ltb→le m n high
            ] in
            let newer : current_valset.nonce < w.nonce =
              rw (Submittable-nonce q m w ds (honest m le') there) (omega arith) in
            let (t, sent) =
              relay_valid_valset-sends at w ds off newer held (encodes m w ds there) in
            (
              t,
              rw (relay_valsets, er, ew, ed, relay_found, lt→ltb current_valset.nonce w.nonce newer)
                  sent,
            )
        | inr (_, _, above) ↦ absurd (above n v cs (omega arith) le here)
      ]
