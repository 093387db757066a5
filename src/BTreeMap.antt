-- ===== src/BTreeMap.antt =====
-- `std::collections::BTreeMap` with number keys, as the list of its entries in the order of the
-- keys.
pub mod Entries
pub mod Extensional
use near_aurora_bridge.Base.{
  ℕ, ◌<◌, ◌≡◌, refl, Option, none, some, List, [], ◌∷◌, arith, ltb, ◌==◌, if◌then◌else◌, Any,
}

abbrev pub BTreeMap {ℓ} : Type ℓ → Type ℓ
BTreeMap V = List (ℕ × V)

-- No number is in the list twice.
abbrev pub IsDistinct : List ℕ → Type 0
IsDistinct [] = Unit {0}
IsDistinct (k ∷ ks) = ¬ Any (λ j. j ≡ k) ks × IsDistinct ks

module _ {ℓ} {V : Type ℓ} where
  abbrev pub insert : ℕ → V → BTreeMap V → BTreeMap V
  insert k v [] = (k, v) ∷ []
  insert k v ((j, w) ∷ m) =
      if ltb k j then (k, v) ∷ (j, w) ∷ m else if k == j then (k, v) ∷ m else (j, w) ∷ insert k v m

  abbrev pub get : ℕ → BTreeMap V → Option V
  get k [] = none
  get k ((j, v) ∷ m) = if j == k then some v else get k m

  -- The entries are inserted one after the other.
  abbrev pub insert_all : List (ℕ × V) → BTreeMap V → BTreeMap V
  insert_all [] m = m
  insert_all ((k, v) ∷ kvs) m = insert_all kvs (insert k v m)

  -- All the keys are above a bound.
  abbrev pub IsAbove : ℕ → BTreeMap V → Type 0
  IsAbove b [] = Unit {0}
  IsAbove b ((k, v) ∷ m) = (b < k) × IsAbove b m

  -- The keys ascend, so no key is there twice.
  abbrev pub IsOrdered : BTreeMap V → Type 0
  IsOrdered [] = Unit {0}
  IsOrdered ((k, v) ∷ m) = IsAbove k m × IsOrdered m

  -- The value of the last entry with a key.
  abbrev pub last_entry : List (ℕ × V) → ℕ → Option V
  last_entry [] k = none
  last_entry ((j, v) ∷ kvs) k = elim (last_entry kvs k) [
    | none ↦ if j == k then some v else none
    | some w ↦ some w
  ]

  abbrev pub keys : List (ℕ × V) → List ℕ
  keys [] = []
  keys ((k, v) ∷ kvs) = k ∷ keys kvs

  IsAbove-weaken : (a b : ℕ) (m : BTreeMap V) → a < b → IsAbove b m → IsAbove a m
  IsAbove-weaken a b [] h k = tt
  IsAbove-weaken a b ((j, v) ∷ m) h k = (omega arith, IsAbove-weaken a b m h k.1)

  IsAbove-insert :
      (b k : ℕ) (v : V) (m : BTreeMap V) → b < k → IsAbove b m → IsAbove b (insert k v m)
  IsAbove-insert b k v [] h a = (h, tt)
  IsAbove-insert b k v ((j, w) ∷ m) h a = ground (arith, IsAbove-insert b k v m h)

  pub insert-IsOrdered : (k : ℕ) (v : V) (m : BTreeMap V) → IsOrdered m → IsOrdered (insert k v m)
  insert-IsOrdered k v [] o = (tt, tt)
  insert-IsOrdered k v ((j, w) ∷ m) o =
      ground (arith, IsAbove-weaken k j m, IsAbove-insert j k v m, insert-IsOrdered k v m o.1)

  pub insert_all-IsOrdered :
      (kvs : List (ℕ × V)) (m : BTreeMap V) → IsOrdered m → IsOrdered (insert_all kvs m)
  insert_all-IsOrdered [] m o = o
  insert_all-IsOrdered ((k, v) ∷ kvs) m o =
      insert_all-IsOrdered kvs (insert k v m) (insert-IsOrdered k v m o)

  pub get-insert :
      (k j : ℕ) (v : V) (m : BTreeMap V)
      → get j (insert k v m) ≡ (if k == j then some v else get j m)
  get-insert k j v [] = refl
  get-insert k j v ((i, w) ∷ m) = ground (arith, get-insert k j v m)

  -- A look-up finds the last entry with the key.
  pub get-insert_all :
      (kvs : List (ℕ × V)) (m : BTreeMap V) (j : ℕ)
      → get j (insert_all kvs m) ≡ elim (last_entry kvs j) [ none ↦ get j m | some v ↦ some v ]
  get-insert_all [] m j = refl
  get-insert_all ((k, v) ∷ kvs) m j =
      rw (get-insert_all kvs (insert k v m) j) (ground (arith, get-insert k j v m))
