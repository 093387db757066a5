-- ===== src/Relayer/Valsets.antt =====
-- `find_latest_valid_valset` of relayer/src/valset_relaying.rs.
use near_aurora_bridge.Base.{
  ℕ, zero, suc, Option, none, some, List, [], ◌∷◌, ◌==◌, GravityError, Outcome, ok, err, panic,
  ◌>>◌, assert, ◌>>=◌,
}
use near_aurora_bridge.Types.{Clarity}
use near_aurora_bridge.Valset.{Valset}
use near_aurora_bridge.Confirm.{ValsetConfirmResponse, valset_confirm}
use near_aurora_bridge.Signing.{order_sigs}
use near_aurora_bridge.Messages.{Abi, encode_valset_confirm_hashed}

-- What the Cosmos node answers; `none` is a failed query.
pub record ValsetQueries : Type 0 where
  pub get_valset : ℕ → Option (Option Valset)
  pub get_all_valset_confirms : ℕ → Option (List ValsetConfirmResponse)

-- The three results: the set, its confirmations, and the last error of a set that does not pass.
pub record Latest : Type 0 where
  pub latest_valset : Option Valset
  pub latest_confirmed : Option (List ValsetConfirmResponse)
  pub last_error : Option GravityError

-- `for confirm in confirms.iter() { assert_eq!(valset.nonce, confirm.nonce) }`
abbrev pub assert_nonces : ℕ → List ValsetConfirmResponse → Outcome (Unit {0})
assert_nonces nonce [] = ok tt
assert_nonces nonce (confirm ∷ confirms) = do
  assert (nonce == confirm.nonce)
  assert_nonces nonce confirms

module _ (k : Clarity) (abi : Abi) (q : ValsetQueries) (gravity_id : List ℕ)
    (current_valset : Valset) where
  -- The test of one set, with its confirmations, against the set that the bridge holds.
  abbrev pub check_valset : Valset → List ValsetConfirmResponse → Outcome (Unit {0})
  check_valset valset confirms = do
    sigs ← order_sigs k (encode_valset_confirm_hashed abi gravity_id valset) current_valset confirms
    ok tt

  -- The loop, from a nonce down, with the error of the rounds before.
  unfoldable pub search_down : ℕ → Option GravityError → Outcome Latest
  search_down zero last_error =
      ok (record { latest_valset = none; latest_confirmed = none; last_error = last_error })
  search_down (suc n) last_error = elim (q.get_valset (suc n)) [
    | none ↦ search_down n last_error
    | some none ↦ search_down n last_error
    | some (some valset) ↦
        assert (valset.nonce == suc n) >> elim (q.get_all_valset_confirms (suc n)) [
          | none ↦ search_down n last_error
          | some confirms ↦
              assert_nonces valset.nonce confirms >> elim (check_valset valset confirms) [
                | ok u ↦ ok (record {
                  latest_valset = some valset;
                  latest_confirmed = some confirms;
                  last_error = last_error;
                })
                | err e ↦ search_down n (some e)
                | panic ↦ panic
              ]
        ]
  ]

  unfoldable pub find_latest_valid_valset : ℕ → Outcome Latest
  unfolding search_down
  find_latest_valid_valset latest_nonce = search_down latest_nonce none
