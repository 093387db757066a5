-- ===== src/Signing/Tests.antt =====
-- Runs of `order_sigs` on three validators, of whom one has no Ethereum key.
use near_aurora_bridge.Base.{
  ℕ, ◌+◌, ◌≡◌, refl, true, Option, none, some, List, [], ◌∷◌, map, arith, ltb, if◌then◌else◌,
  validation_error, ok, err, panic,
}
use near_aurora_bridge.Types.{Clarity}
use near_aurora_bridge.Valset.{Valset, ValsetMember}
use near_aurora_bridge.Confirm.{ValsetConfirmResponse, valset_confirm, last_from, get_hashmap}
use near_aurora_bridge.Float.{gravity_power_to_percent, round24, required_power}
use near_aurora_bridge.Signing.{
  GravitySignature, SignatureStatus, order_sigs, to_arrays, get_signature_status, unsigned,
  status_loop, add_member,
}
use near_aurora_bridge.Signing.Entries.{entry, signed_power, total_power}
use near_aurora_bridge.Signing.Outcomes.{
  order_sigs-eq, order_sigs_panics, get_signature_status_partition,
}
use near_aurora_bridge.Signing.Alignment.{Aligned, order_sigs_arrays}

-- A signature that recovers to its own `r`.
abbrev clarity : Clarity
clarity = record { is_valid = λ s. true; recover = λ s m. some s.r }

abbrev member : ℕ → Option ℕ → ValsetMember
member power a = record { power = power; eth_address = a }

abbrev valset : Valset
valset = record {
  nonce = 7;
  members = member 3000000000 (some 11) ∷ member 900000000 none ∷ member 394967295 (some 12) ∷ [];
  reward_amount = 0;
  reward_token = none;
}

abbrev confirm : ℕ → ℕ → ValsetConfirmResponse
confirm a signer = record {
  orchestrator = 1;
  eth_address = a;
  nonce = 7;
  eth_signature = record { v = 27; r = signer; s = 5 };
}

-- The second confirmation from 11 replaces the first.
abbrev confirms : List ValsetConfirmResponse
confirms = confirm 11 99 ∷ confirm 11 11 ∷ []

abbrev ordered : List GravitySignature
ordered =
    record { power = 3000000000; eth_address = 11; v = 27; r = 11; s = 5 }
    ∷ unsigned 900000000 0
    ∷ unsigned 394967295 12
    ∷ []

order_sigs_run : order_sigs clarity [] valset confirms ≡ ok ordered
unfolding order_sigs gravity_power_to_percent round24 get_hashmap get_signature_status status_loop
    add_member
order_sigs_run = refl

-- With the first confirmation alone the message was signed by someone else.
order_sigs_forged : order_sigs clarity [] valset (confirm 11 99 ∷ []) ≡ panic
unfolding order_sigs get_hashmap get_signature_status status_loop add_member
order_sigs_forged = refl

order_sigs-eq_example : order_sigs clarity [] valset confirms ≡ (
    if ltb (signed_power (last_from confirms) valset.members) required_power
    then err validation_error
    else ok (map (entry (last_from confirms)) valset.members))
order_sigs-eq_example =
    order_sigs-eq clarity [] valset (confirm 11 99) (confirm 11 11 ∷ [])
      ((refl, refl, refl), (tt, (tt, tt))) (omega arith)

order_sigs_panics_example : order_sigs clarity [] valset (confirm 11 99 ∷ []) ≡ panic
order_sigs_panics_example =
    order_sigs_panics clarity [] valset (confirm 11 99) [] (λ h. ground arith)

order_sigs_arrays_example : Aligned (last_from confirms) valset (to_arrays ordered)
order_sigs_arrays_example = order_sigs_arrays clarity [] valset confirms ordered order_sigs_run

abbrev status : SignatureStatus
status = record {
  ordered_signatures = ordered;
  power_of_good_sigs = 3000000000;
  power_of_unset_keys = 900000000;
  number_of_unset_key_validators = 1;
  power_of_nonvoters = 394967295;
  number_of_nonvoters = 1;
  num_validators = 3;
}

status_run : get_signature_status clarity [] valset confirms ≡ ok status
unfolding get_signature_status get_hashmap status_loop add_member
status_run = refl

get_signature_status_partition_example :
    (status.power_of_good_sigs + status.power_of_unset_keys + status.power_of_nonvoters
      ≡ total_power valset.members)
    × (status.power_of_good_sigs ≡ signed_power (last_from confirms) valset.members)
get_signature_status_partition_example =
    get_signature_status_partition clarity [] valset confirms status status_run (omega arith)
