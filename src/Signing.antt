-- ===== src/Signing.antt =====
-- `get_signature_status` and `order_sigs` of gravity_utils/src/types/valsets.rs, and signatures.rs.
use near_aurora_bridge.Base.{
  ℕ, not, none, some, List, [], ◌∷◌, ◌++◌, ◌==◌, if◌then◌else◌, length, is_empty, validation_error,
  Outcome, ok, err, panic, assert, reject_if, unwrap, add_u64, ◌>>=◌, ◌>>◌,
}
pub mod Entries
pub mod Loop
pub mod Outcomes
pub mod Alignment
mod Tests
use near_aurora_bridge.Float.{gravity_power_to_percent, lt_66}
use near_aurora_bridge.HashMap.{HashMap, get}
use near_aurora_bridge.Types.{EthAddress, Uint256, EthSignature, Clarity, zero_address}
use near_aurora_bridge.Valset.{Valset, ValsetMember}
use near_aurora_bridge.Confirm.{Confirm, get_hashmap}

pub record GravitySignature : Type 0 where
  pub power : ℕ
  pub eth_address : EthAddress
  pub v : Uint256
  pub r : Uint256
  pub s : Uint256

-- The three token arrays are kept as the lists that `into()` encodes.
pub record GravitySignatureArrays : Type 0 where
  pub addresses : List EthAddress
  pub powers : List ℕ
  pub v : List Uint256
  pub r : List Uint256
  pub s : List Uint256

pub to_arrays_loop : List GravitySignature → GravitySignatureArrays → GravitySignatureArrays
to_arrays_loop [] out = out
to_arrays_loop (g ∷ gs) out = to_arrays_loop gs (record {
  addresses = out.addresses ++ g.eth_address ∷ [];
  powers = out.powers ++ g.power ∷ [];
  v = out.v ++ g.v ∷ [];
  r = out.r ++ g.r ∷ [];
  s = out.s ++ g.s ∷ [];
})

unfoldable pub to_arrays : List GravitySignature → GravitySignatureArrays
unfolding to_arrays_loop
to_arrays input =
    to_arrays_loop input (record { addresses = []; powers = []; v = []; r = []; s = [] })

pub record SignatureStatus : Type 0 where
  pub ordered_signatures : List GravitySignature
  pub power_of_good_sigs : ℕ
  pub power_of_unset_keys : ℕ
  pub number_of_unset_key_validators : ℕ
  pub power_of_nonvoters : ℕ
  pub number_of_nonvoters : ℕ
  pub num_validators : ℕ

abbrev pub signed : ℕ → EthAddress → EthSignature → GravitySignature
signed power a sig = record { power = power; eth_address = a; v = sig.v; r = sig.r; s = sig.s }

abbrev pub unsigned : ℕ → EthAddress → GravitySignature
unsigned power a = record { power = power; eth_address = a; v = 0; r = 0; s = 0 }

-- The loop's variables before the first member.
abbrev pub no_status : ℕ → SignatureStatus
no_status members = record {
  ordered_signatures = [];
  power_of_good_sigs = 0;
  power_of_unset_keys = 0;
  number_of_unset_key_validators = 0;
  power_of_nonvoters = 0;
  number_of_nonvoters = 0;
  num_validators = members;
}

-- A member with no Ethereum key.
add_unset : SignatureStatus → ℕ → SignatureStatus
add_unset st power = record st {
  ordered_signatures = st.ordered_signatures ++ unsigned power zero_address ∷ [];
  power_of_unset_keys = add_u64 st.power_of_unset_keys power;
  number_of_unset_key_validators = add_u64 st.number_of_unset_key_validators 1;
}

-- A member that has not signed.
add_nonvoter : SignatureStatus → ℕ → EthAddress → SignatureStatus
add_nonvoter st power a = record st {
  ordered_signatures = st.ordered_signatures ++ unsigned power a ∷ [];
  power_of_nonvoters = add_u64 st.power_of_nonvoters power;
  number_of_nonvoters = add_u64 st.number_of_nonvoters 1;
}

add_good : SignatureStatus → ℕ → EthAddress → EthSignature → SignatureStatus
add_good st power a sig = record st {
  ordered_signatures = st.ordered_signatures ++ signed power a sig ∷ [];
  power_of_good_sigs = add_u64 st.power_of_good_sigs power;
}

module _ {ℓ} {T : Type ℓ} ⦃c : Confirm T⦄ (k : Clarity) (signed_message : List ℕ) where
  add_vote : SignatureStatus → ℕ → EthAddress → T → Outcome SignatureStatus
  unfolding add_good
  add_vote st power a sig = do
    assert (c.get_eth_address sig == a)
    assert (k.is_valid (c.get_signature sig))
    recover_key ← unwrap (k.recover (c.get_signature sig) signed_message)
    if recover_key == c.get_eth_address sig
        then ok (add_good st power (c.get_eth_address sig) (c.get_signature sig))
        else panic

  add_keyed : HashMap T → SignatureStatus → ℕ → EthAddress → Outcome SignatureStatus
  unfolding add_vote add_nonvoter
  add_keyed sigs st power a = elim (get a sigs) [
    | none ↦ ok (add_nonvoter st power a)
    | some sig ↦ add_vote st power a sig
  ]

  -- One round of the loop over the members.
  unfoldable pub add_member : HashMap T → SignatureStatus → ValsetMember → Outcome SignatureStatus
  unfolding add_keyed add_unset
  add_member sigs st m = elim m.eth_address [
    | none ↦ ok (add_unset st m.power)
    | some a ↦ add_keyed sigs st m.power a
  ]

  unfoldable pub status_loop :
      HashMap T → List ValsetMember → SignatureStatus → Outcome SignatureStatus
  status_loop sigs [] st = ok st
  status_loop sigs (m ∷ ms) st = do st' ← add_member sigs st m; status_loop sigs ms st'

  unfoldable pub get_signature_status : Valset → List T → Outcome SignatureStatus
  get_signature_status valset signatures = do
    reject_if (is_empty signatures) validation_error
    status_loop (get_hashmap signatures) valset.members (no_status (length valset.members))

  -- The message of the error is left out.
  unfoldable pub order_sigs : Valset → List T → Outcome (List GravitySignature)
  order_sigs valset signatures = do
    status ← get_signature_status valset signatures
    if lt_66 (gravity_power_to_percent status.power_of_good_sigs)
        then err validation_error
        else ok status.ordered_signatures
