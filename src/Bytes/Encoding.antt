-- ===== src/Bytes/Encoding.antt =====
-- The layout of Ethereum's ABI, as far as the events use it: numbers in 32 bytes, most significant
-- byte first, one after the other.
use Prim.Native.Nat.add
use near_aurora_bridge.Bytes.{Reader, slice_from}
use near_aurora_bridge.Base.{
  ℕ, zero, suc, ◌+◌, ◌-◌, ◌*◌, ◌/◌, ◌%◌, ◌^◌, ◌<◌, ◌≡◌, refl, ap, subst, ◌∙◌, some, List, [], ◌∷◌,
  ◌++◌, arith, length, get_elem?, take, drop, length-append, drop-append, take-append, drop-drop,
  ok, slice, slice_lem, some_inj,
}

-- The last `k` bytes of a number.
unfoldable pub be_bytes : ℕ → ℕ → List ℕ
be_bytes zero n = []
be_bytes (suc k) n = n / 256 ^ k % 256 ∷ be_bytes k n

abbrev pub words : List ℕ → List ℕ
words [] = []
words (w ∷ ws) = be_bytes 32 w ++ words ws

-- What is relied on of num256 and clarity: 32 bytes are read as the number that they spell, and 20
-- bytes as the address that they spell.
pub record ReadsWords (d : Reader) : Type 0 where
  pub number : (n : ℕ) → n < 2 ^ 256 → d.from_bytes_be (be_bytes 32 n) ≡ n
  pub address : (a : ℕ) → a < 2 ^ 160 → d.from_slice (be_bytes 20 a) ≡ some a

pub length-be_bytes : (k n : ℕ) → length (be_bytes k n) ≡ k
unfolding be_bytes
length-be_bytes zero n = refl
length-be_bytes (suc k) n = ap suc (length-be_bytes k n)

pub length-words : (ws : List ℕ) → length (words ws) ≡ length ws * 32
length-words [] = refl
length-words (w ∷ ws) =
    omega (arith, length-append (be_bytes 32 w) (words ws), length-be_bytes 32 w, length-words ws)

pub get_elem?-lt {ℓ} :
    {A : Type ℓ} (xs : List A) (i : ℕ) (x : A) → get_elem? xs i ≡ some x → i < length xs
get_elem?-lt [] i y e = cc
get_elem?-lt (x ∷ xs) zero y e = omega arith
get_elem?-lt (x ∷ xs) (suc i) y e = omega (arith, get_elem?-lt xs i y e)

drop_word : (w : ℕ) (ys : List ℕ) → drop 32 (be_bytes 32 w ++ ys) ≡ ys
drop_word w ys =
    subst (λ n. drop n (be_bytes 32 w ++ ys) ≡ ys) (length-be_bytes 32 w)
      (drop-append (be_bytes 32 w) ys)

take_bytes : (k n : ℕ) (ys : List ℕ) → take k (be_bytes k n ++ ys) ≡ be_bytes k n
take_bytes k n ys =
    subst (λ m. take m (be_bytes k n ++ ys) ≡ be_bytes k n) (length-be_bytes k n)
      (take-append (be_bytes k n) ys)

-- The last 20 bytes of a word.
pub drop_address : (w : ℕ) (ys : List ℕ) → drop 12 (be_bytes 32 w ++ ys) ≡ be_bytes 20 w ++ ys
unfolding be_bytes
drop_address w ys = refl

drop-words :
    (ws : List ℕ) (i w : ℕ)
    → get_elem? ws i ≡ some w
    → (rest : List ℕ) × (drop (i * 32) (words ws) ≡ be_bytes 32 w ++ rest)
drop-words [] i w e = cc
drop-words (x ∷ ws) zero w e = (words ws, rw (some_inj e))
drop-words (x ∷ ws) (suc i) w e =
    let (rest, eq) = drop-words ws i w e in
    let shift : suc i * 32 ≡ 32 + i * 32 = omega arith in
    (
      rest,
      rw (shift, ← drop-drop (i * 32) 32 (be_bytes 32 x ++ words ws), drop_word x (words ws)) eq,
    )

-- Cutting a word out of a list of words.
pub slice_word :
    (ws : List ℕ) (i w : ℕ)
    → get_elem? ws i ≡ some w
    → slice (i * 32) (i * 32 + 32) (words ws) ≡ ok (be_bytes 32 w)
slice_word ws i w e =
    let (rest, eq) = drop-words ws i w e in
    slice_lem (i * 32) (i * 32 + 32) (words ws) (omega arith)
      (omega (arith, length-words ws, get_elem?-lt ws i w e))
    ∙ rw (difference, eq, take_bytes 32 w rest)
  where
    difference : i * 32 + 32 - i * 32 ≡ 32
    difference = omega arith

-- Cutting the address out of a word, which it shares with twelve bytes of zero.
pub slice_address :
    (ws : List ℕ) (i w : ℕ)
    → get_elem? ws i ≡ some w
    → slice (i * 32 + 12) (i * 32 + 32) (words ws) ≡ ok (be_bytes 20 w)
slice_address ws i w e =
    let (rest, eq) = drop-words ws i w e in
    slice_lem (i * 32 + 12) (i * 32 + 32) (words ws) (omega arith)
      (omega (arith, length-words ws, get_elem?-lt ws i w e))
    ∙ rw (
      difference,
      ← drop-drop 12 (i * 32) (words ws),
      eq,
      drop_address w rest,
      take_bytes 20 w rest,
    )
  where
    difference : i * 32 + 32 - (i * 32 + 12) ≡ 20
    difference = omega arith

last_bytes : (w : ℕ) → take 20 (drop 12 (be_bytes 32 w)) ≡ be_bytes 20 w
unfolding be_bytes
last_bytes w = refl

-- The address in a topic.
pub slice_topic : (w : ℕ) → slice 12 32 (be_bytes 32 w) ≡ ok (be_bytes 20 w)
slice_topic w =
    slice_lem 12 32 (be_bytes 32 w) (omega arith) (omega (arith, length-be_bytes 32 w))
    ∙ ap ok (last_bytes w)

-- The bytes of a word from the twelfth on.
pub slice_from_address : (w : ℕ) → slice_from 12 (be_bytes 32 w) ≡ ok (be_bytes 20 w)
unfolding slice_from
slice_from_address w = rw (length-be_bytes 32 w) (slice_topic w)

pub get_elem?-append_right {ℓ} :
    {A : Type ℓ} (xs ys : List A) (i : ℕ) → get_elem? (xs ++ ys) (length xs + i) ≡ get_elem? ys i
get_elem?-append_right [] ys i = rw add.zero
get_elem?-append_right (x ∷ xs) ys i = rw add.suc (get_elem?-append_right xs ys i)

pub get_elem?-append_left {ℓ} :
    {A : Type ℓ} (xs ys : List A) (i : ℕ) (x : A)
    → get_elem? xs i ≡ some x
    → get_elem? (xs ++ ys) i ≡ some x
get_elem?-append_left [] ys i x e = cc
get_elem?-append_left (y ∷ xs) ys zero x e = e
get_elem?-append_left (y ∷ xs) ys (suc i) x e = get_elem?-append_left xs ys i x e

pub slice_from_second : (a b : ℕ) → slice_from 32 (words (a ∷ b ∷ [])) ≡ ok (be_bytes 32 b)
unfolding slice_from
slice_from_second a b = rw (length-words (a ∷ b ∷ [])) (slice_word (a ∷ b ∷ []) 1 b refl)
