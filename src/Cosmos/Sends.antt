-- ===== src/Cosmos/Sends.antt =====
-- Which messages `send_ethereum_claims` sends, and in which order.
use near_aurora_bridge.Base.{ℕ, ◌≡◌, refl, sym, ap, ◌∙◌, some, List, [], arith, ok, ok_inj}
use mathlib.Core.List.{Perm}
use near_aurora_bridge.BTreeMap.{
  BTreeMap, insert_all, IsDistinct, IsOrdered, insert_all-IsOrdered, last_entry, get,
  get-insert_all,
}
use near_aurora_bridge.BTreeMap.Extensional.{get_ext}
use near_aurora_bridge.BTreeMap.Entries.{insert_all-Perm}
use near_aurora_bridge.Oracle.{Claims}
use near_aurora_bridge.Cosmos.{Coin, Msg, Printer, Contact, PrivateKey, broadcast, fee_of}
use near_aurora_bridge.Cosmos.Claims.{values, send_ethereum_claims}
use near_aurora_bridge.Cosmos.Filing.{nonces, IsSendable, entries, order_msgs-entries}

module _ {Args Tx : Type 0} (p : Printer) (contact : Contact Args Tx) where
  abbrev pub SendsLast : PrivateKey Args → ℕ → Claims → Coin → Type 0
  SendsLast key our_address c fee =
      (kvs : List (ℕ × Msg)) × (m : BTreeMap Msg) × (entries p contact.get_prefix
          (p.cosmos_address_to_string our_address) c
        ≡ ok kvs)
      × IsOrdered m
      × ((nonce : ℕ) → get nonce m ≡ last_entry kvs nonce)
      × (send_ethereum_claims p contact key c fee
          ≡ ok (broadcast contact key our_address (fee_of fee 500000000) (values m)))

  -- The messages of all the events are sent, each once, in the order of their nonces.
  abbrev pub SendsOnce : PrivateKey Args → ℕ → Claims → Coin → Type 0
  SendsOnce key our_address c fee =
      (kvs : List (ℕ × Msg)) × (m : BTreeMap Msg) × (entries p contact.get_prefix
          (p.cosmos_address_to_string our_address) c
        ≡ ok kvs)
      × IsOrdered m
      × Perm m kvs
      × (send_ethereum_claims p contact key c fee
          ≡ ok (broadcast contact key our_address (fee_of fee 500000000) (values m)))

  -- What is sent, if the account has an address and the events can be sent: the messages of all the
  -- events, filed in order and taken out in the order of their nonces. The nonces ascend; a look-up by
  -- nonce finds the message that was filed last under it.
  pub send_ethereum_claims-last :
      (key : PrivateKey Args) (our_address : ℕ) (c : Claims) (fee : Coin)
      → key.to_address contact.get_prefix ≡ some our_address
      → IsSendable p contact.get_prefix c
      → SendsLast key our_address c fee
  unfolding send_ethereum_claims
  send_ethereum_claims-last key our_address c fee ea h =
      let (kvs, ek, en, eo) =
        order_msgs-entries p contact.get_prefix (p.cosmos_address_to_string our_address) c h in
      (
        kvs,
        insert_all kvs [],
        ek,
        insert_all-IsOrdered kvs [] tt,
        (λ nonce. ground (arith, get-insert_all kvs [] nonce)),
        rw (ea, eo) refl,
      )

  -- Where the account has an address, each event's block is below the greatest number of 64 bits, each
  -- receiver can be printed, and no two events have the same nonce: no event is lost, and the messages
  -- that are sent are those of all the events, each once, in the order of their nonces.
  pub send_ethereum_claims-Perm :
      (key : PrivateKey Args) (our_address : ℕ) (c : Claims) (fee : Coin)
      → key.to_address contact.get_prefix ≡ some our_address
      → IsSendable p contact.get_prefix c
      → IsDistinct (nonces c)
      → SendsOnce key our_address c fee
  unfolding send_ethereum_claims
  send_ethereum_claims-Perm key our_address c fee ea h d =
      let (kvs, ek, en, eo) =
        order_msgs-entries p contact.get_prefix (p.cosmos_address_to_string our_address) c h in
      (
        kvs,
        insert_all kvs [],
        ek,
        insert_all-IsOrdered kvs [] tt,
        insert_all-Perm kvs (rw en d),
        rw (ea, eo) refl,
      )

  -- Under the same conditions on the account, the blocks and the receivers: what is sent depends only
  -- on the message that is last filed under each nonce, so that two sets of events with the same last
  -- messages are sent alike, whatever the order of their events and of their kinds.
  pub send_ethereum_claims-eq :
      (key : PrivateKey Args) (our_address : ℕ) (c d : Claims) (fee : Coin)
      (kvs lvs : List (ℕ × Msg))
      → key.to_address contact.get_prefix ≡ some our_address
      → IsSendable p contact.get_prefix c
      → IsSendable p contact.get_prefix d
      → entries p contact.get_prefix (p.cosmos_address_to_string our_address) c ≡ ok kvs
      → entries p contact.get_prefix (p.cosmos_address_to_string our_address) d ≡ ok lvs
      → ((nonce : ℕ) → last_entry kvs nonce ≡ last_entry lvs nonce)
      → send_ethereum_claims p contact key c fee ≡ send_ethereum_claims p contact key d fee
  send_ethereum_claims-eq key our_address c d fee kvs lvs ea hc hd ec ed same =
      let (kvs', m, ek, om, gm, sm) = send_ethereum_claims-last key our_address c fee ea hc in
      let (lvs', n, el, on, gn, sn) = send_ethereum_claims-last key our_address d fee ea hd in
      let maps : m ≡ n = get_ext m n om on (λ j.
        gm j
        ∙ ap (λ x. last_entry x j) (ok_inj (sym ek ∙ ec))
        ∙ same j
        ∙ ap (λ x. last_entry x j) (ok_inj (sym ed ∙ el))
        ∙ sym (gn j)) in
      rw (sm, sn, maps) refl
