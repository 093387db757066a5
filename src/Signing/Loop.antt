-- ===== src/Signing/Loop.antt =====
-- The loop of `get_signature_status` over all the members, by induction from one round.
use near_aurora_bridge.Base.{
  ℕ, ◌+◌, ◌^◌, ◌<◌, ◌≡◌, refl, ◌∙◌, ◌⊎◌, inl, inr, List, [], ◌∷◌, ◌++◌, map, arith, All, ok, panic,
  >>=-eq-ok, is_ok→ok,
}
use mathlib.Core.List.{append-nil, append_assoc}
use near_aurora_bridge.HashMap.{HashMap, get}
use near_aurora_bridge.Types.{Clarity}
use near_aurora_bridge.Valset.{ValsetMember}
use near_aurora_bridge.Confirm.{Confirm}
use near_aurora_bridge.Signing.{SignatureStatus, add_member, status_loop}
use near_aurora_bridge.Signing.Entries.{
  entry, signed_power, total_power, tally, Verifies, add_member-entry, add_member-tally,
  add_member_ok, add_member_panics,
}

module _ {ℓ} {T : Type ℓ} ⦃c : Confirm T⦄ (k : Clarity) (message : List ℕ) (h : HashMap T) where
  pub status_loop_entries :
      (ms : List ValsetMember) (st st' : SignatureStatus)
      → status_loop k message h ms st ≡ ok st'
      → (st'.ordered_signatures ≡ st.ordered_signatures ++ map (entry (λ a. get a h)) ms)
        × All (Verifies k message (λ a. get a h)) ms
  unfolding status_loop
  status_loop_entries [] st st' e = (ground (arith, append-nil st.ordered_signatures), tt)
  status_loop_entries (m ∷ ms) st st' e =
      let (st1, e1, e2) = >>=-eq-ok (add_member k message h st m) (status_loop k message h ms) e in
      let (entry_eq, verified) = add_member-entry k message h st m st1 e1 in
      let (rest_eq, all_verified) = status_loop_entries ms st1 st' e2 in
      (rest_eq ∙ simp (entry_eq, append_assoc), (verified, all_verified))

  pub status_loop-tally :
      (ms : List ValsetMember) (st st' : SignatureStatus)
      → status_loop k message h ms st ≡ ok st'
      → tally st + total_power ms < 2 ^ 64
      → (tally st' ≡ tally st + total_power ms)
        × (st'.power_of_good_sigs ≡ st.power_of_good_sigs + signed_power (λ a. get a h) ms)
  unfolding status_loop
  status_loop-tally [] st st' e b = ground arith
  status_loop-tally (m ∷ ms) st st' e b =
      let (st1, e1, e2) = >>=-eq-ok (add_member k message h st m) (status_loop k message h ms) e in
      let step = add_member-tally k message h st m st1 e1 (omega arith) in
      let rest = status_loop-tally ms st1 st' e2 (omega arith) in omega arith

  pub status_loop_ok :
      (ms : List ValsetMember) (st : SignatureStatus)
      → All (Verifies k message (λ a. get a h)) ms
      → (st' : SignatureStatus) × (status_loop k message h ms st ≡ ok st')
  unfolding status_loop
  status_loop_ok [] st v = (st, refl)
  status_loop_ok (m ∷ ms) st v =
      let (st1, e1) = is_ok→ok _ (add_member_ok k message h st m v.0) in
      let (st2, e2) = status_loop_ok ms st1 v.1 in (st2, rw e1 e2)

  pub status_loop_panics :
      (ms : List ValsetMember) (st : SignatureStatus)
      → (status_loop k message h ms st ≡ panic)
        ⊎ ((st' : SignatureStatus) × (status_loop k message h ms st ≡ ok st'))
  unfolding status_loop
  status_loop_panics [] st = inr (st, refl)
  status_loop_panics (m ∷ ms) st = elim (add_member_panics k message h st m) [
    | inl e ↦ inl (rw e)
    | inr o ↦ let (st1, e1) = is_ok→ok _ o in rw e1 (status_loop_panics ms st1)
  ]
