-- ===== src/Signing/Alignment.antt =====
-- The arrays that are submitted to the contract: `to_arrays` of signatures.rs after `order_sigs`,
-- beside `filter_empty_addresses`.
use near_aurora_bridge.Base.{
  ℕ, ◌≡◌, refl, Option, List, [], ◌∷◌, ◌++◌, map, arith, if◌then◌else◌, validation_error, Outcome,
  ok, err, >>=-eq-ok,
}
use mathlib.Core.List.{append-nil, append_assoc}
use near_aurora_bridge.Float.{gravity_power_to_percent, lt_66}
use near_aurora_bridge.Types.{EthAddress, Uint256, Clarity}
use near_aurora_bridge.Valset.{
  Valset, ValsetMember, address_or_zero, filter_empty_addresses, filter_empty_addresses-eq,
}
use near_aurora_bridge.Confirm.{Confirm, last_from}
use near_aurora_bridge.Signing.{
  GravitySignature, GravitySignatureArrays, SignatureStatus, get_signature_status, order_sigs,
  to_arrays, to_arrays_loop,
}
use near_aurora_bridge.Signing.Entries.{entry}
use near_aurora_bridge.Signing.Outcomes.{get_signature_status_entries}

-- The arrays as five projections.
abbrev columns : GravitySignatureArrays → List GravitySignature → GravitySignatureArrays
columns out gs = record {
  addresses = out.addresses ++ map (λ g. g.eth_address) gs;
  powers = out.powers ++ map (λ g. g.power) gs;
  v = out.v ++ map (λ g. g.v) gs;
  r = out.r ++ map (λ g. g.r) gs;
  s = out.s ++ map (λ g. g.s) gs;
}

to_arrays_loop-eq :
    (gs : List GravitySignature) (out : GravitySignatureArrays)
    → to_arrays_loop gs out ≡ columns out gs
unfolding to_arrays_loop
to_arrays_loop-eq [] out = simp append-nil
to_arrays_loop-eq (g ∷ gs) out = simp (to_arrays_loop-eq gs, append_assoc)

map-map {ℓ} :
    {A : Type ℓ} (f : A → GravitySignature) (g : GravitySignature → Uint256) (xs : List A)
    → map g (map f xs) ≡ map (λ x. g (f x)) xs
map-map f g [] = refl
map-map f g (x ∷ xs) = cc (map-map f g xs)

module _ {ℓ} {T : Type ℓ} ⦃c : Confirm T⦄ where
  entry_addresses :
      (vote : EthAddress → Option T) (ms : List ValsetMember)
      → map (λ g. g.eth_address) (map (entry vote) ms) ≡ map (λ m. address_or_zero m.eth_address) ms
  entry_addresses vote [] = refl
  entry_addresses vote (m ∷ ms) = ground (arith, entry_addresses vote ms)

  entry_powers :
      (vote : EthAddress → Option T) (ms : List ValsetMember)
      → map (λ g. g.power) (map (entry vote) ms) ≡ map (λ m. m.power) ms
  entry_powers vote [] = refl
  entry_powers vote (m ∷ ms) = ground (arith, entry_powers vote ms)

  -- The arrays beside the members of a set: a place for each member, with the member's address and
  -- power, and with the signature that the member has given or zeros.
  abbrev pub Aligned : (EthAddress → Option T) → Valset → GravitySignatureArrays → Type 0
  Aligned vote valset arrays =
      ((arrays.addresses, arrays.powers) ≡ filter_empty_addresses valset)
      × (arrays.v ≡ map (λ m. (entry vote m).v) valset.members)
      × (arrays.r ≡ map (λ m. (entry vote m).r) valset.members)
      × (arrays.s ≡ map (λ m. (entry vote m).s) valset.members)

  ordered_arrays :
      (valset : Valset) (vote : EthAddress → Option T)
      → Aligned vote valset (to_arrays (map (entry vote) valset.members))
  unfolding to_arrays
  ordered_arrays valset vote = (
    simp (
      to_arrays_loop-eq,
      filter_empty_addresses-eq,
      entry_addresses vote valset.members,
      entry_powers vote valset.members,
    ),
    simp (to_arrays_loop-eq, map-map (entry vote) (λ g. g.v) valset.members),
    simp (to_arrays_loop-eq, map-map (entry vote) (λ g. g.r) valset.members),
    simp (to_arrays_loop-eq, map-map (entry vote) (λ g. g.s) valset.members),
  )

  -- Whenever `order_sigs` succeeds, the five arrays built from its signatures run parallel to the
  -- validator set: their addresses and powers are the arrays that `filter_empty_addresses` gives for
  -- the same set, and their v, r and s hold at each member's place the parts of the last signature
  -- from the member's address, or zeros where there is none.
  pub order_sigs_arrays :
      (k : Clarity) (message : List ℕ) (v : Valset) (sigs : List T) (out : List GravitySignature)
      → order_sigs k message v sigs ≡ ok out
      → Aligned (last_from sigs) v (to_arrays out)
  unfolding order_sigs
  order_sigs_arrays k message v sigs out e =
      let (st, status_eq, rest) = >>=-eq-ok (get_signature_status k message v sigs) (accept) e in
      let (entries, _) = get_signature_status_entries k message v sigs st status_eq in
      rw (accepted st rest, entries) (ordered_arrays v (last_from sigs))
    where
      accept : SignatureStatus → Outcome (List GravitySignature)
      accept st =
          if lt_66 (gravity_power_to_percent st.power_of_good_sigs)
          then err validation_error
          else ok st.ordered_signatures

      accepted : (st : SignatureStatus) → accept st ≡ ok out → out ≡ st.ordered_signatures
      accepted st h = ground arith
