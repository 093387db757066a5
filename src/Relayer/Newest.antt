-- ===== src/Relayer/Newest.antt =====
-- `find_latest_valid_valset` finds the newest set that can be submitted.
use near_aurora_bridge.Base.{
  ℕ, zero, suc, ◌≤◌, ◌<◌, ◌≡◌, refl, subst, ◌∙◌, ◌≢◌, ◌⊎◌, inl, inr, Option, none, some, List, [],
  ◌∷◌, arith, leb, leb→le, ==_self, Bool-cases, Option-cases, All, GravityError, ok, panic,
  Outcome-cases,
}
use near_aurora_bridge.Types.{Clarity}
use near_aurora_bridge.Valset.{Valset}
use near_aurora_bridge.Confirm.{ValsetConfirmResponse}
use near_aurora_bridge.Messages.{Abi}
use near_aurora_bridge.Relayer.Valsets.{
  ValsetQueries, Latest, assert_nonces, check_valset, search_down, find_latest_valid_valset,
}

Nat_cases : (i n : ℕ) → i ≤ suc n → (i ≤ n) ⊎ (i ≡ suc n)
Nat_cases i n h = elim (Bool-cases (leb i n)) [
  | inl e ↦ inl (leb→le i n e)
  | inr e ↦ inr (ground arith)
]

module _ (k : Clarity) (abi : Abi) (q : ValsetQueries) (gravity_id : List ℕ)
    (current_valset : Valset) where
  -- The node gives a set and confirmations for the nonce, and the set passes the test.
  unfoldable pub Submittable : ℕ → Valset → List ValsetConfirmResponse → Type 0
  Submittable n v cs =
      (q.get_valset n ≡ some (some v))
      × (q.get_all_valset_confirms n ≡ some cs)
      × (check_valset k abi q gravity_id current_valset v cs ≡ ok tt)

  -- What the node gives for a nonce carries that nonce, and its test does not panic.
  unfoldable pub Honest : ℕ → Type 0
  Honest n =
      (v : Valset)
      → q.get_valset n ≡ some (some v)
      → (v.nonce ≡ n)
        × ((cs : List ValsetConfirmResponse)
            → q.get_all_valset_confirms n ≡ some cs
            → All (λ c. c.nonce ≡ n) cs
              × (check_valset k abi q gravity_id current_valset v cs ≢ panic))

  -- No nonce above `low`, up to `high`, can be submitted.
  unfoldable pub NoneAbove : ℕ → ℕ → Type 0
  NoneAbove low high =
      (n : ℕ) (v : Valset) (cs : List ValsetConfirmResponse)
      → low < n
      → n ≤ high
      → ¬ Submittable n v cs

  -- A result is the newest set that can be submitted with a nonce up to `high`, or there is none.
  unfoldable pub IsNewest : ℕ → Latest → Type 0
  IsNewest high r =
      ((v : Valset) × (cs : List ValsetConfirmResponse) × (n : ℕ) × (r.latest_valset ≡ some v)
        × (r.latest_confirmed ≡ some cs)
        × (0 < n)
        × (n ≤ high)
        × Submittable n v cs
        × NoneAbove n high)
      ⊎ ((r.latest_valset ≡ none) × (r.latest_confirmed ≡ none) × NoneAbove 0 high)

  -- A nonce that cannot be submitted does not change what is newest.
  skip :
      (n : ℕ) (r : Latest)
      → ((v : Valset) (cs : List ValsetConfirmResponse) → ¬ Submittable (suc n) v cs)
      → IsNewest n r
      → IsNewest (suc n) r
  unfolding IsNewest NoneAbove
  skip n r none_here (inl (v, cs, m, ev, ec, pos, le, here, above)) =
      inl (v, cs, m, ev, ec, pos, omega arith, here, above')
    where
      above' : NoneAbove m (suc n)
      above' i w ds lo hi s = elim (Nat_cases i n hi) [
        | inl le' ↦ above i w ds lo le' s
        | inr e ↦ none_here w ds (subst (λ j. Submittable j w ds) e s)
      ]
  skip n r none_here (inr (ev, ec, above)) = inr (ev, ec, above')
    where
      above' : NoneAbove 0 (suc n)
      above' i w ds lo hi s = elim (Nat_cases i n hi) [
        | inl le' ↦ above i w ds lo le' s
        | inr e ↦ none_here w ds (subst (λ j. Submittable j w ds) e s)
      ]

  assert_nonces_ok :
      (n : ℕ) (cs : List ValsetConfirmResponse)
      → All (λ c. c.nonce ≡ n) cs
      → assert_nonces n cs ≡ ok tt
  assert_nonces_ok n [] all = refl
  assert_nonces_ok n (c ∷ cs) (h, all) = rw (h, ==_self n) (assert_nonces_ok n cs all)

  -- The search from a nonce down ends with the newest set.
  Ends : ℕ → Option GravityError → Type 0
  Ends n e =
      (r : Latest) × (search_down k abi q gravity_id current_valset n e ≡ ok r) × IsNewest n r

  -- A round that goes on to the nonce below.
  Ends-below :
      (n : ℕ) (e e' : Option GravityError)
      → Ends n e'
      → search_down k abi q gravity_id current_valset (suc n) e
        ≡ search_down k abi q gravity_id current_valset n e'
      → ((v : Valset) (cs : List ValsetConfirmResponse) → ¬ Submittable (suc n) v cs)
      → Ends (suc n) e
  unfolding Ends
  Ends-below n e e' (r, er, newest) eq none_here = (r, eq ∙ er, skip n r none_here newest)

  -- A round whose node gives a set and confirmations.
  Ends-checked :
      (n : ℕ) (e : Option GravityError) (v : Valset) (cs : List ValsetConfirmResponse)
      → ((e' : Option GravityError) → Ends n e')
      → q.get_valset (suc n) ≡ some (some v)
      → q.get_all_valset_confirms (suc n) ≡ some cs
      → v.nonce ≡ suc n
      → All (λ c. c.nonce ≡ suc n) cs
      → check_valset k abi q gravity_id current_valset v cs ≢ panic
      → Ends (suc n) e
  unfolding search_down Ends IsNewest NoneAbove Submittable
  Ends-checked n e v cs below ev ec en all safe =
      elim (Outcome-cases (check_valset k abi q gravity_id current_valset v cs)) [
        | inl (u, eo) ↦ (
          record { latest_valset = some v; latest_confirmed = some cs; last_error = e },
          simp (search_down, ev, en, ==_self (suc n), ec, assert_nonces_ok (suc n) cs all, eo),
          inl (
            v,
            cs,
            suc n,
            refl,
            refl,
            omega arith,
            omega arith,
            (ev, ec, eo),
            λ m w ds lo hi. absurd (omega arith),
          ),
        )
        | inr (inl (x, eo)) ↦
            Ends-below n e (some x) (below (some x))
              (simp (search_down, ev, en, ==_self (suc n), ec, assert_nonces_ok (suc n) cs all, eo))
              (λ w ds s. cc)
        | inr (inr eo) ↦ absurd (safe eo)
      ]

  search_down-IsNewest : (n : ℕ) (e : Option GravityError) → ((m : ℕ) → m ≤ n → Honest m) → Ends n e
  unfolding search_down Ends IsNewest NoneAbove Submittable Honest
  search_down-IsNewest zero e honest = (
    record { latest_valset = none; latest_confirmed = none; last_error = e },
    refl,
    inr (refl, refl, λ n v cs lo hi. absurd (omega arith)),
  )
  search_down-IsNewest (suc n) e honest =
      let below =
        λ (e' : Option GravityError). search_down-IsNewest n e' (λ m le. honest m (omega arith)) in
      elim (Option-cases (q.get_valset (suc n))) [
        | inl e0 ↦ Ends-below n e e (below e) (rw (search_down, e0)) (λ v cs s. cc)
        | inr (none, e0) ↦ Ends-below n e e (below e) (rw (search_down, e0)) (λ v cs s. cc)
        | inr (some v, e0) ↦
            let (en, hv) = honest (suc n) (omega arith) v e0 in
            elim (Option-cases (q.get_all_valset_confirms (suc n))) [
              | inl e1 ↦
                  Ends-below n e e (below e) (rw (search_down, e0, en, ==_self (suc n), e1))
                    (λ w ds s. cc)
              | inr (cs, e1) ↦
                  let (all, safe) = hv cs e1 in Ends-checked n e v cs below e0 e1 en all safe
            ]
      ]

  -- Where what the Cosmos node gives for each nonce up to `latest_nonce` carries that nonce, and no
  -- test of signatures panics: the search returns a set that can be submitted to the bridge in its
  -- current state, with its confirmations, and none with a higher nonce can be; or it returns
  -- nothing, and no nonce up to `latest_nonce` can be submitted.
  pub find_latest_valid_valset-IsNewest :
      (latest_nonce : ℕ)
      → ((m : ℕ) → m ≤ latest_nonce → Honest m)
      → (r : Latest) × (find_latest_valid_valset k abi q gravity_id current_valset latest_nonce
          ≡ ok r)
        × IsNewest latest_nonce r
  unfolding find_latest_valid_valset Ends
  find_latest_valid_valset-IsNewest latest_nonce honest =
      search_down-IsNewest latest_nonce none honest
