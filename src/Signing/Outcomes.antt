-- ===== src/Signing/Outcomes.antt =====
-- When `order_sigs` succeeds, fails and panics, and what it returns.
use near_aurora_bridge.Base.{
  ℕ, ◌+◌, ◌^◌, ◌<◌, ◌≡◌, ◌⊎◌, inl, inr, List, [], ◌∷◌, map, arith, ltb, if◌then◌else◌, length, All,
  validation_error, ok, err, panic,
}
use mathlib.Core.Path.{fun_ext}
use near_aurora_bridge.Float.{required_power, lt_66-gravity_power_to_percent}
use near_aurora_bridge.Types.{Clarity}
use near_aurora_bridge.Valset.{Valset}
use near_aurora_bridge.Confirm.{Confirm, get_hashmap, get-get_hashmap, last_from}
use near_aurora_bridge.HashMap.{get}
use near_aurora_bridge.Signing.{SignatureStatus, no_status, get_signature_status, order_sigs}
use near_aurora_bridge.Signing.Entries.{entry, signed_power, total_power, Verifies}
use near_aurora_bridge.Signing.Loop.{
  status_loop_entries, status_loop-tally, status_loop_ok, status_loop_panics,
}

module _ {ℓ} {T : Type ℓ} ⦃c : Confirm T⦄ (k : Clarity) (message : List ℕ) where
  -- The look-up table holds the last confirmation from each address.
  votes_eq : (sigs : List T) → (λ a. get a (get_hashmap sigs)) ≡ last_from sigs
  votes_eq sigs = fun_ext (λ a. get-get_hashmap a sigs)

  -- On success the entries are in the members' order, and every confirmation that was used verifies.
  pub get_signature_status_entries :
      (v : Valset) (sigs : List T) (st : SignatureStatus)
      → get_signature_status k message v sigs ≡ ok st
      → (st.ordered_signatures ≡ map (entry (last_from sigs)) v.members)
        × All (Verifies k message (last_from sigs)) v.members
  unfolding get_signature_status
  get_signature_status_entries v [] st e = cc
  get_signature_status_entries v (t ∷ ts) st e = rw (← votes_eq (t ∷ ts)) (
      status_loop_entries k message (get_hashmap (t ∷ ts)) v.members (no_status (length v.members))
        st e)

  -- A successful `get_signature_status` has sorted the members' powers into votes, unset keys and
  -- missing votes, with nothing lost, if the total fits 64 bits; the votes are those of the members
  -- for whose address a confirmation is given.
  pub get_signature_status_partition :
      (v : Valset) (sigs : List T) (st : SignatureStatus)
      → get_signature_status k message v sigs ≡ ok st
      → total_power v.members < 2 ^ 64
      → (st.power_of_good_sigs + st.power_of_unset_keys + st.power_of_nonvoters
          ≡ total_power v.members)
        × (st.power_of_good_sigs ≡ signed_power (last_from sigs) v.members)
  unfolding get_signature_status
  get_signature_status_partition v [] st e b = cc
  get_signature_status_partition v (t ∷ ts) st e b = rw (← votes_eq (t ∷ ts)) (
      let both =
        status_loop-tally k message (get_hashmap (t ∷ ts)) v.members (no_status (length v.members))
          st e (omega arith) in
      omega arith)

  get_signature_status_ok :
      (v : Valset) (t : T) (ts : List T)
      → All (Verifies k message (last_from (t ∷ ts))) v.members
      → (st : SignatureStatus) × (get_signature_status k message v (t ∷ ts) ≡ ok st)
  unfolding get_signature_status
  get_signature_status_ok v t ts verified =
      status_loop_ok k message (get_hashmap (t ∷ ts)) v.members (no_status (length v.members))
        (rw (votes_eq (t ∷ ts)) verified)

  get_signature_status_panics :
      (v : Valset) (t : T) (ts : List T)
      → (get_signature_status k message v (t ∷ ts) ≡ panic)
        ⊎ ((st : SignatureStatus) × (get_signature_status k message v (t ∷ ts) ≡ ok st))
  unfolding get_signature_status
  get_signature_status_panics v t ts =
      status_loop_panics k message (get_hashmap (t ∷ ts)) v.members (no_status (length v.members))

  -- Where some confirmation is given, every confirmation in use recovers to the address it is filed
  -- under, and the total power fits 64 bits: `order_sigs` returns the members' entries, in the
  -- members' order, if those who signed hold a power of 2834678144 at least, and else an error.
  pub order_sigs-eq :
      (v : Valset) (t : T) (ts : List T)
      → All (Verifies k message (last_from (t ∷ ts))) v.members
      → total_power v.members < 2 ^ 64
      → order_sigs k message v (t ∷ ts) ≡ (
          if ltb (signed_power (last_from (t ∷ ts)) v.members) required_power
          then err validation_error
          else ok (map (entry (last_from (t ∷ ts))) v.members))
  unfolding order_sigs
  order_sigs-eq v t ts verified b =
      let (st, e) = get_signature_status_ok v t ts verified in
      let (entries, _) = get_signature_status_entries v (t ∷ ts) st e in
      let (_, power) = get_signature_status_partition v (t ∷ ts) st e b in
      rw (e, lt_66-gravity_power_to_percent st.power_of_good_sigs, power, entries)

  -- One confirmation in use that does not recover to its address makes the call panic.
  pub order_sigs_panics :
      (v : Valset) (t : T) (ts : List T)
      → ¬ All (Verifies k message (last_from (t ∷ ts))) v.members
      → order_sigs k message v (t ∷ ts) ≡ panic
  unfolding order_sigs
  order_sigs_panics v t ts forged = elim (get_signature_status_panics v t ts) [
    | inl e ↦ rw e
    | inr (st, e) ↦ absurd (forged (get_signature_status_entries v (t ∷ ts) st e).1)
  ]
