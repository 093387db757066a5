-- ===== src/BTreeMap/Extensional.antt =====
-- Two maps in which every look-up has the same answer are the same.
use near_aurora_bridge.Base.{
  ℕ, ◌≤◌, ◌≡◌, refl, sym, subst, ◌∙◌, none, some, [], ◌∷◌, arith, ==_self, some_inj,
}
use mathlib.Core.Option.{none-ne-some}
use near_aurora_bridge.BTreeMap.{BTreeMap, get, IsAbove, IsOrdered}

module _ {ℓ} {V : Type ℓ} where
  get-below : (b j : ℕ) (m : BTreeMap V) → j ≤ b → IsAbove b m → get j m ≡ none
  get-below b j [] h a = refl
  get-below b j ((k, v) ∷ m) h a = ground (arith, get-below b j m h a.1)

  get_head : (k : ℕ) (v : V) (m : BTreeMap V) → get k ((k, v) ∷ m) ≡ some v
  get_head k v m = rw (==_self k)

  -- What the two tails answer is the same as well.
  get_tails :
      (k j : ℕ) (v : V) (m n : BTreeMap V)
      → IsAbove k m
      → IsAbove k n
      → get j ((k, v) ∷ m) ≡ get j ((k, v) ∷ n)
      → get j m ≡ get j n
  get_tails k j v m n a b e = ground (arith, get-below k k m, get-below k k n)

  head_keys :
      (k j : ℕ) (v w : V) (m n : BTreeMap V)
      → IsAbove k m
      → IsAbove j n
      → ((i : ℕ) → get i ((k, v) ∷ m) ≡ get i ((j, w) ∷ n))
      → k ≡ j
  head_keys k j v w m n a b e = ground (arith, e k, e j, get-below j k n, get-below k j m)

  head_values :
      (k : ℕ) (v w : V) (m n : BTreeMap V) → get k ((k, v) ∷ m) ≡ get k ((k, w) ∷ n) → v ≡ w
  head_values k v w m n e = some_inj (sym (get_head k v m) ∙ e ∙ get_head k w n)

  -- Two maps with the same answer to every look-up are the same.
  pub get_ext :
      (m n : BTreeMap V) → IsOrdered m → IsOrdered n → ((j : ℕ) → get j m ≡ get j n) → m ≡ n
  get_ext [] [] o p e = refl
  get_ext [] ((k, v) ∷ n) o p e = absurd (none-ne-some _ (e k ∙ get_head k v n))
  get_ext ((k, v) ∷ m) [] o p e = absurd (none-ne-some _ (sym (e k) ∙ get_head k v m))
  get_ext ((k, v) ∷ m) ((j, w) ∷ n) o p e =
      let key : k ≡ j = head_keys k j v w m n o.0 p.0 e in
      let same : ((i : ℕ) → get i ((k, v) ∷ m) ≡ get i ((k, w) ∷ n)) =
        λ i. subst (λ x. get i ((k, v) ∷ m) ≡ get i ((x, w) ∷ n)) (sym key) (e i) in
      let value : v ≡ w = head_values k v w m n (same k) in
      let above : IsAbove k n = subst (λ x. IsAbove x n) (sym key) p.0 in
      let tails : m ≡ n =
        get_ext m n o.1 p.1 (λ i. get_tails k i v m n o.0 above (rw value (rw value at same i))) in
      cc
