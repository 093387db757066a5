-- ===== src/BTreeMap/Entries.antt =====
-- A `BTreeMap` that is filled with entries of distinct keys holds these entries.
use near_aurora_bridge.Base.{
  ℕ, ◌≡◌, refl, sym, ap, subst, ◌⊎◌, inl, inr, List, [], ◌∷◌, ◌++◌, arith, ltb, ==_ne, Bool-cases,
  Any,
}
use mathlib.Core.List.{Perm, perm_middle, append-nil}
use mathlib.Core.List.Perm
use near_aurora_bridge.BTreeMap.{BTreeMap, insert, insert_all, keys, IsDistinct}

module _ {ℓ} {V : Type ℓ} where
  -- No key of the entries is one of the map's.
  abbrev Disjoint : List (ℕ × V) → BTreeMap V → Type 0
  Disjoint [] m = Unit {0}
  Disjoint ((k, v) ∷ kvs) m = ¬ Any (λ i. i ≡ k) (keys m) × Disjoint kvs m

  key-insert :
      (k j : ℕ) (v : V) (m : BTreeMap V)
      → Any (λ i. i ≡ j) (keys (insert k v m))
      → (k ≡ j) ⊎ Any (λ i. i ≡ j) (keys m)
  key-insert k j v [] h = h
  key-insert k j v ((i, w) ∷ m) h = ground (arith, key-insert k j v m)

  Disjoint-insert :
      (k : ℕ) (v : V) (kvs : List (ℕ × V)) (m : BTreeMap V)
      → ¬ Any (λ i. i ≡ k) (keys kvs)
      → Disjoint kvs m
      → Disjoint kvs (insert k v m)
  Disjoint-insert k v [] m n d = tt
  Disjoint-insert k v ((j, w) ∷ kvs) m n d = (
    λ h. elim (key-insert k j v m h) [ inl e ↦ n (inl (sym e)) | inr i ↦ d.0 i ],
    Disjoint-insert k v kvs m (λ h. n (inr h)) d.1,
  )

  insert-Perm :
      (k : ℕ) (v : V) (m : BTreeMap V)
      → ¬ Any (λ i. i ≡ k) (keys m)
      → Perm (insert k v m) ((k, v) ∷ m)
  insert-Perm k v [] n = Perm.refl ((k, v) ∷ [])
  insert-Perm k v ((j, w) ∷ m) n = elim (Bool-cases (ltb k j)) [
    | inl below ↦ rw below (Perm.refl ((k, v) ∷ ((j, w) ∷ m)))
    | inr above ↦
        rw (above, ==_ne k j (λ e. n (inl (sym e))))
          (Perm.trans (Perm.cons (j, w) (insert-Perm k v m (λ h. n (inr h))))
            (Perm.swap (k, v) (j, w) m))
  ]

  insert_all-append_Perm :
      (kvs : List (ℕ × V)) (m : BTreeMap V)
      → IsDistinct (keys kvs)
      → Disjoint kvs m
      → Perm (insert_all kvs m) (kvs ++ m)
  insert_all-append_Perm [] m i d = Perm.refl m
  insert_all-append_Perm ((k, v) ∷ kvs) m i d =
      Perm.trans (insert_all-append_Perm kvs (insert k v m) i.1 (Disjoint-insert k v kvs m i.0 d.1))
        (Perm.trans (Perm.append_left kvs (insert-Perm k v m d.0)) (perm_middle kvs m))

  Disjoint-nil : (kvs : List (ℕ × V)) → Disjoint kvs []
  Disjoint-nil [] = tt
  Disjoint-nil ((k, v) ∷ kvs) = (λ h. h, Disjoint-nil kvs)

  -- The keys of a map that was filled with entries of distinct keys are theirs, each once.
  pub insert_all-Perm : (kvs : List (ℕ × V)) → IsDistinct (keys kvs) → Perm (insert_all kvs []) kvs
  insert_all-Perm kvs i =
      subst (Perm (insert_all kvs [])) (append-nil kvs)
        (insert_all-append_Perm kvs [] i (Disjoint-nil kvs))

  pub keys-append : (kvs lvs : List (ℕ × V)) → keys (kvs ++ lvs) ≡ keys kvs ++ keys lvs
  keys-append [] lvs = refl
  keys-append ((k, v) ∷ kvs) lvs = ap (◌∷◌ k) (keys-append kvs lvs)

  pub insert_all-append :
      (kvs lvs : List (ℕ × V)) (m : BTreeMap V)
      → insert_all (kvs ++ lvs) m ≡ insert_all lvs (insert_all kvs m)
  insert_all-append [] lvs m = refl
  insert_all-append ((k, v) ∷ kvs) lvs m = insert_all-append kvs lvs (insert k v m)
