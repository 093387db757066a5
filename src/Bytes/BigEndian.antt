-- ===== src/Bytes/BigEndian.antt =====
-- A reader of big-endian bytes, which shows that what is relied on of num256 and clarity can hold.
use near_aurora_bridge.Base.{
  ℕ, zero, suc, ◌+◌, ◌*◌, ◌/◌, ◌%◌, ◌^◌, ◌<◌, ◌≡◌, ap, none, some, List, [], ◌∷◌, arith, ◌==◌,
  if◌then◌else◌, length,
}
use native.Mathlib.Nat.{pow-suc, div-add-mod, div-div-eq-div-mul, div-eq_of_lt}
use near_aurora_bridge.Bytes.{Reader}
use near_aurora_bridge.Bytes.Encoding.{be_bytes, ReadsWords, length-be_bytes}

abbrev be_value_from : ℕ → List ℕ → ℕ
be_value_from acc [] = acc
be_value_from acc (b ∷ bs) = be_value_from (acc * 256 + b) bs

abbrev pub be_value : List ℕ → ℕ
be_value bs = be_value_from 0 bs

-- One digit more: `q` is `n / p`, in turn 256 * q2 + r.
digits :
    (p q q2 r acc n v : ℕ)
    → v + q * p ≡ (acc * 256 + r) * p + n
    → 256 * q2 + r ≡ q
    → v + q2 * (p * 256) ≡ acc * (p * 256) + n
digits p q q2 r acc n v ih e = grind (arith, ap (λ (t : ℕ). t * p) e)

be_value_from-be_bytes :
    (k acc n : ℕ) → be_value_from acc (be_bytes k n) + n / 256 ^ k * 256 ^ k ≡ acc * 256 ^ k + n
unfolding be_bytes
be_value_from-be_bytes zero acc n = omega arith
be_value_from-be_bytes (suc k) acc n =
    rw (pow-suc 256 k, ← div-div-eq-div-mul n (256 ^ k) 256)
      (digits (256 ^ k) (n / 256 ^ k) (n / 256 ^ k / 256) (n / 256 ^ k % 256) acc n _
        (be_value_from-be_bytes k (acc * 256 + n / 256 ^ k % 256) n)
        (div-add-mod (n / 256 ^ k) 256))

be_value-be_bytes : (k n : ℕ) → n < 256 ^ k → be_value (be_bytes k n) ≡ n
be_value-be_bytes k n h =
    omega (arith, be_value_from-be_bytes k 0 n, ap (λ (t : ℕ). t * 256 ^ k) (div-eq_of_lt h))

abbrev pub big_endian : Reader
big_endian = record {
  from_bytes_be = be_value;
  from_slice = λ bs. if length bs == 20 then some (be_value bs) else none;
  cosmos_from_bytes = λ bs. some (be_value bs);
}

pub big_endian-ReadsWords : ReadsWords big_endian
big_endian-ReadsWords = record {
  number = λ n h. be_value-be_bytes 32 n (omega arith);
  address = λ a h. rw (length-be_bytes 20 a) (ap some (be_value-be_bytes 20 a (omega arith)));
}
