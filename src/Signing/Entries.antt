-- ===== src/Signing/Entries.antt =====
-- What `get_signature_status` computes, member by member.
use near_aurora_bridge.Base.{
  ℕ, ◌+◌, ◌^◌, ◌<◌, ◌≡◌, ◌⊎◌, true, Option, none, some, List, [], ◌∷◌, ◌++◌, arith, ok, panic,
  is_ok,
}
use near_aurora_bridge.HashMap.{HashMap, get}
use near_aurora_bridge.Types.{EthAddress, Clarity, zero_address}
use near_aurora_bridge.Valset.{ValsetMember}
use near_aurora_bridge.Confirm.{Confirm}
use near_aurora_bridge.Signing.{GravitySignature, SignatureStatus, signed, unsigned, add_member}

module _ {ℓ} {T : Type ℓ} ⦃c : Confirm T⦄ where
  -- The signature that stands for a member, given the confirmation that each address has.
  abbrev pub entry : (EthAddress → Option T) → ValsetMember → GravitySignature
  entry vote m = elim m.eth_address [
    | none ↦ unsigned m.power zero_address
    | some a ↦ elim (vote a) [
      | none ↦ unsigned m.power a
      | some t ↦ signed m.power a (c.get_signature t)
    ]
  ]

  -- The power that a member adds to the votes.
  abbrev pub vote_power : (EthAddress → Option T) → ValsetMember → ℕ
  vote_power vote m = elim m.eth_address [
    | none ↦ 0
    | some a ↦ elim (vote a) [ none ↦ 0 | some t ↦ m.power ]
  ]

  abbrev pub signed_power : (EthAddress → Option T) → List ValsetMember → ℕ
  signed_power vote [] = 0
  signed_power vote (m ∷ ms) = vote_power vote m + signed_power vote ms

-- The power of all the members that the loop has passed.
abbrev pub tally : SignatureStatus → ℕ
tally st = st.power_of_good_sigs + st.power_of_unset_keys + st.power_of_nonvoters

abbrev pub total_power : List ValsetMember → ℕ
total_power [] = 0
total_power (m ∷ ms) = m.power + total_power ms

module _ {ℓ} {T : Type ℓ} ⦃c : Confirm T⦄ (k : Clarity) (message : List ℕ) where
  -- The member's confirmation, if there is one, carries its own signature of the message.
  abbrev pub Verifies : (EthAddress → Option T) → ValsetMember → Type 0
  Verifies vote m = elim m.eth_address [
    | none ↦ Unit {0}
    | some a ↦ elim (vote a) [
      | none ↦ Unit {0}
      | some t ↦
          (c.get_eth_address t ≡ a)
          × (k.is_valid (c.get_signature t) ≡ true)
          × (k.recover (c.get_signature t) message ≡ some a)
    ]
  ]

  -- A round that succeeds appends the member's entry, and has verified its confirmation.
  pub add_member-entry :
      (h : HashMap T) (st : SignatureStatus) (m : ValsetMember) (st' : SignatureStatus)
      → add_member k message h st m ≡ ok st'
      → (st'.ordered_signatures ≡ st.ordered_signatures ++ entry (λ a. get a h) m ∷ [])
        × Verifies (λ a. get a h) m
  unfolding add_member
  add_member-entry h st m st' e = ground arith

  pub add_member-tally :
      (h : HashMap T) (st : SignatureStatus) (m : ValsetMember) (st' : SignatureStatus)
      → add_member k message h st m ≡ ok st'
      → tally st + m.power < 2 ^ 64
      → (tally st' ≡ tally st + m.power)
        × (st'.power_of_good_sigs ≡ st.power_of_good_sigs + vote_power (λ a. get a h) m)
  unfolding add_member
  add_member-tally h st m st' e b = ground arith

  -- Where the confirmation verifies the round succeeds; in no case is there an error.
  pub add_member_ok :
      (h : HashMap T) (st : SignatureStatus) (m : ValsetMember)
      → Verifies (λ a. get a h) m
      → is_ok (add_member k message h st m) ≡ true
  unfolding add_member
  add_member_ok h st m v = ground arith

  pub add_member_panics :
      (h : HashMap T) (st : SignatureStatus) (m : ValsetMember)
      → (add_member k message h st m ≡ panic) ⊎ (is_ok (add_member k message h st m) ≡ true)
  unfolding add_member
  add_member_panics h st m = ground arith
