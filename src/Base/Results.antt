-- ===== src/Base/Results.antt =====
-- gravity_utils/src/error.rs, and the outcome of a Rust call: a value, an error, or a panic.
use Prim.Native.Nat.{ℕ, ◌+◌, ◌-◌, ◌≤◌, ◌<◌}
use mathlib.Core.Path.{◌≡◌, refl, sym, ◌∙◌}
use mathlib.Core.Logic.{◌⊎◌, inl, inr}
use mathlib.Core.Bool.{Bool, true, false, ◌&&◌}
use mathlib.Core.Option.{Option, none, some}
use mathlib.Core.List.{List, [], ◌∷◌, ◌++◌}
use native.Mathlib.Omega.{arith}
use near_aurora_bridge.Base.Tests.{leb, le→leb, if◌then◌else◌}
use near_aurora_bridge.Base.Lists.{length, take, drop, length-append, drop-append, take-append}

-- The text that an error carries is not kept: no code reads it.
pub data GravityError : Type 0 where
  validation_error unrecoverable_error rpc_error : GravityError

-- `panic` stands for a failed assertion, an `unwrap` of nothing, or an index out of range.
pub data Outcome {ℓ} (A : Type ℓ) : Type ℓ where
  ok : A → Outcome A
  err : GravityError → Outcome A
  panic : Outcome A

infixl 5 ◌>>=◌ ◌>>◌
abbrev pub ◌>>=◌ {ℓ κ} : {B : Type κ} {A : Type ℓ} → Outcome A → (A → Outcome B) → Outcome B
panic >>= f = panic
err e >>= f = err e
ok a >>= f = f a

abbrev pub ◌>>◌ {ℓ} : {B : Type ℓ} → Outcome (Unit {0}) → Outcome B → Outcome B
m >> k = m >>= λ _. k

-- `assert!`
abbrev pub assert : Bool → Outcome (Unit {0})
assert true = ok tt
assert false = panic

-- `if bad { return Err(e) }`
abbrev pub reject_if : Bool → GravityError → Outcome (Unit {0})
reject_if true e = err e
reject_if false e = ok tt

-- `unwrap`, `expect`
abbrev pub unwrap {ℓ} : {A : Type ℓ} → Option A → Outcome A
unwrap none = panic
unwrap (some a) = ok a

-- `ok_or(e)?`
abbrev pub or_err {ℓ} : {A : Type ℓ} → Option A → GravityError → Outcome A
or_err none e = err e
or_err (some a) e = ok a

abbrev pub is_ok {ℓ} : {A : Type ℓ} → Outcome A → Bool
is_ok (ok a) = true
is_ok (err e) = false
is_ok panic = false

-- `xs[a..b]`
unfoldable pub slice {ℓ} : {A : Type ℓ} → ℕ → ℕ → List A → Outcome (List A)
slice a b xs = if leb a b && leb b (length xs) then ok (take (b - a) (drop a xs)) else panic

pub slice_lem {ℓ} :
    {A : Type ℓ} (a b : ℕ) (xs : List A)
    → a ≤ b
    → b ≤ length xs
    → slice a b xs ≡ ok (take (b - a) (drop a xs))
unfolding slice
slice_lem a b xs h k = rw (le→leb a b h, le→leb b (length xs) k)

-- A cut that reaches past the end panics.
pub slice_panics {ℓ} : {A : Type ℓ} (a b : ℕ) (xs : List A) → length xs < b → slice a b xs ≡ panic
unfolding slice
slice_panics a b xs h = ground arith

-- `for item in input { res.push(f(item)?) }`
unfoldable pub try_map {ℓ κ} :
    {A : Type ℓ} {B : Type κ} → (A → Outcome B) → List A → Outcome (List B)
try_map f [] = ok []
try_map f (x ∷ xs) = do y ← f x; ys ← try_map f xs; ok (y ∷ ys)

-- Inversion of a successful bind.
pub >>=-eq-ok {ℓ κ} :
    {B : Type κ} {b : B} {A : Type ℓ} (m : Outcome A) (f : A → Outcome B)
    → (m >>= f) ≡ ok b
    → (a : A) × (m ≡ ok a) × (f a ≡ ok b)
>>=-eq-ok panic f h = cc
>>=-eq-ok (err x) f h = cc
>>=-eq-ok (ok a) f h = (a, refl, h)

pub is_ok→ok {ℓ} : {A : Type ℓ} (m : Outcome A) → is_ok m ≡ true → (a : A) × (m ≡ ok a)
is_ok→ok (ok a) h = (a, refl)
is_ok→ok (err e) h = cc
is_ok→ok panic h = cc

-- Cutting out what stands behind a prefix.
pub slice_middle {ℓ} :
    {A : Type ℓ} (pre mid post : List A) (a b : ℕ)
    → a ≡ length pre
    → b ≡ length pre + length mid
    → slice a b (pre ++ (mid ++ post)) ≡ ok mid
slice_middle pre mid post a b ha hb =
    rw (ha, hb)
      (slice_lem (length pre) (length pre + length mid) (pre ++ (mid ++ post)) (omega arith)
          (omega (arith, length-append pre (mid ++ post), length-append mid post))
        ∙ rw (difference, drop-append pre (mid ++ post), take-append mid post))
  where
    difference : length pre + length mid - length pre ≡ length mid
    difference = omega arith

pub Outcome-cases {ℓ} :
    {A : Type ℓ} (m : Outcome A)
    → ((a : A) × (m ≡ ok a)) ⊎ (((e : GravityError) × (m ≡ err e)) ⊎ (m ≡ panic))
Outcome-cases (ok a) = inl (a, refl)
Outcome-cases (err e) = inr (inl (e, refl))
Outcome-cases panic = inr (inr refl)

pub ok_inj {ℓ} : {A : Type ℓ} {a b : A} → ok a ≡ ok b → a ≡ b
ok_inj h = cc

-- The first of the results, and the others.
pub try_map-cons {ℓ κ} :
    {A : Type ℓ} {B : Type κ} (f : A → Outcome B) (x : A) (xs : List A) (ys : List B)
    → try_map f (x ∷ xs) ≡ ok ys
    → (y : B) × (rest : List B) × (f x ≡ ok y) × (try_map f xs ≡ ok rest) × (ys ≡ y ∷ rest)
unfolding try_map
try_map-cons f x xs ys e =
    let (y, ey, e1) = >>=-eq-ok (f x) _ e in
    let (rest, er, e2) = >>=-eq-ok (try_map f xs) _ e1 in (y, rest, ey, er, sym (ok_inj e2))
