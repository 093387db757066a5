-- ===== src/Events/ValsetRoundTrip.antt =====
-- Decoding the data of a `ValsetUpdatedEvent` against its layout in the log:
-- `eventNonce, rewardAmount, rewardToken, offset, offset, length, addresses, length, powers`.
use near_aurora_bridge.Base.{
  ℕ, suc, ◌+◌, ◌*◌, ◌^◌, ◌<◌, ◌≡◌, refl, sym, ap, subst, ◌∙◌, some, List, [], ◌∷◌, ◌++◌, map, arith,
  le→ltb, ==_self, length, get_elem?, All, Outcome, ok, length-map, get_elem?-map, get_elem?-All,
  u64_max, usize_max, add_u64, mul_u64,
}
use mathlib.Core.List.{append-nil, append_assoc}
use native.Mathlib.Nat.{add-zero}
use Prim.Native.Nat.add
use near_aurora_bridge.Types.{EthAddress}
use near_aurora_bridge.Bytes.{Reader}
use near_aurora_bridge.Bytes.Encoding.{
  words, ReadsWords, slice_word, get_elem?-lt, slice_address, slice_from_address,
  get_elem?-append_right, get_elem?-append_left,
}
use near_aurora_bridge.Valset.{ValsetMember}
use near_aurora_bridge.Events.{
  decode_data_bytes, decode_members, member_at, for_range, reward_token_of,
}

-- A member as a power and an address.
abbrev pub to_member : ℕ × EthAddress → ValsetMember
to_member (power, a) = record { power = power; eth_address = some a }

-- A number that fits its type.
abbrev pub Fits : ℕ × EthAddress → Type 0
Fits (power, a) = (power < 2 ^ 64) × (a < 2 ^ 160)

abbrev tail_words : List (ℕ × EthAddress) → ℕ → List ℕ
tail_words members len_powers = map (λ m. m.1) members ++ len_powers ∷ map (λ m. m.0) members

abbrev head_words : ℕ → ℕ → ℕ → List (ℕ × EthAddress) → List ℕ
head_words nonce amount token members =
    nonce ∷ amount ∷ token ∷ 160 ∷ (192 + length members * 32) ∷ length members ∷ []

-- The log's data, with any word in the place of the powers' length.
abbrev pub encode_data : ℕ → ℕ → EthAddress → List (ℕ × EthAddress) → ℕ → List ℕ
encode_data nonce amount token members len_powers =
    words (head_words nonce amount token members ++ tail_words members len_powers)

for_range-eq {ℓ κ} :
    {A : Type ℓ} {B : Type κ} (body : ℕ → Outcome A) (g : B → A) (xs : List B) (i : ℕ)
    (out : List A)
    → ((j : ℕ) (x : B) → get_elem? xs j ≡ some x → body (i + j) ≡ ok (g x))
    → for_range body (length xs) i out ≡ ok (out ++ map g xs)
unfolding for_range
for_range-eq body g [] i out h = ap ok (sym (append-nil out))
for_range-eq body g (x ∷ xs) i out h =
    let first : body i ≡ ok (g x) = subst (λ n. body n ≡ ok (g x)) (add-zero i) (h 0 x refl) in
    rw first (
      for_range-eq body g xs (i + 1) (out ++ g x ∷ []) later
      ∙ ap ok (append_assoc out (g x ∷ []) (map g xs)))
  where
    later : (j : ℕ) (y : _) → get_elem? xs j ≡ some y → body (i + 1 + j) ≡ ok (g y)
    later j y e = subst (λ n. body n ≡ ok (g y)) (omega arith) (h (suc j) y e)

module _ (d : Reader) (reads : ReadsWords d) where
  member_at_word :
      (ws : List ℕ) (n i p a : ℕ)
      → n < 2 ^ 32
      → i < n
      → get_elem? ws (7 + n + i) ≡ some p
      → get_elem? ws (6 + i) ≡ some a
      → Fits (p, a)
      → member_at d (words ws) ((7 + n) * 32) 192 i ≡ ok (to_member (p, a))
  unfolding member_at
  member_at_word ws n i p a small below power_eq address_eq fits = rw (
    power_start,
    address_start,
    address_end,
    power_end,
    slice_word ws (7 + n + i) p power_eq,
    slice_address ws (6 + i) a address_eq,
    reads.number p (omega arith),
    reads.address a fits.1,
    le→ltb u64_max p (omega arith),
  )
    where
      power_start : add_u64 (mul_u64 i 32) ((7 + n) * 32) ≡ (7 + n + i) * 32
      power_start = omega arith

      power_end : add_u64 ((7 + n + i) * 32) 32 ≡ (7 + n + i) * 32 + 32
      power_end = omega arith

      address_start : add_u64 (add_u64 (mul_u64 i 32) 192) 12 ≡ (6 + i) * 32 + 12
      address_start = omega arith

      address_end : add_u64 (add_u64 (mul_u64 i 32) 192) 32 ≡ (6 + i) * 32 + 32
      address_end = omega arith

  module _ (nonce amount token : ℕ) (members : List (ℕ × EthAddress)) (len_powers : ℕ) where
    abbrev all_words : List ℕ
    all_words = head_words nonce amount token members ++ tail_words members len_powers

    address_word :
        (i p a : ℕ) → get_elem? members i ≡ some (p, a) → get_elem? all_words (6 + i) ≡ some a
    address_word i p a e =
        get_elem?-append_right (head_words nonce amount token members)
          (tail_words members len_powers) i
        ∙ get_elem?-append_left (map (λ m. m.1) members) (len_powers ∷ map (λ m. m.0) members) i a
            (get_elem?-map (λ m. m.1) members i (p, a) e)

    powers_word :
        (i : ℕ)
        → get_elem? all_words (6 + length members + i)
          ≡ get_elem? (len_powers ∷ map (λ m. m.0) members) i
    powers_word i =
        subst (λ n. get_elem? all_words n ≡ get_elem? (len_powers ∷ map (λ m. m.0) members) i)
          (omega (arith, length-map {A = ℕ × EthAddress} (λ m. m.1) members))
          (get_elem?-append_right (head_words nonce amount token members)
              (tail_words members len_powers) (length (map (λ m. m.1) members) + i)
            ∙ get_elem?-append_right (map (λ m. m.1) members) (len_powers ∷ map (λ m. m.0) members)
                i)

    power_word :
        (i p a : ℕ)
        → get_elem? members i ≡ some (p, a)
        → get_elem? all_words (7 + length members + i) ≡ some p
    power_word i p a e =
        subst (λ n. get_elem? all_words n ≡ some p) (omega arith)
          (powers_word (suc i) ∙ get_elem?-map (λ m. m.0) members i (p, a) e)

    read_members :
        length members < 2 ^ 32
        → All Fits members
        → for_range
            (member_at d (words all_words) ((6 + length members) * 32 + 32) 192)
            (length members)
            0
            []
          ≡ ok (map to_member members)
    read_members small fits =
        subst
          (λ n.
            for_range (member_at d (words all_words) n 192) (length members) 0 []
            ≡ ok (map to_member members))
          (omega arith)
          (for_range-eq (member_at d (words all_words) ((7 + length members) * 32) 192) to_member
            members 0 [] at)
      where
        at :
            (j : ℕ) (m : ℕ × EthAddress)
            → get_elem? members j ≡ some m
            → member_at d (words all_words) ((7 + length members) * 32) 192 (0 + j)
              ≡ ok (to_member m)
        at j (p, a) e = rw add.zero (
            member_at_word all_words (length members) j p a small (get_elem?-lt members j (p, a) e)
              (power_word j p a e) (address_word j p a e)
              (get_elem?-All Fits members j (p, a) fits e))

    decode_members-words :
        length members < 2 ^ 32
        → len_powers < 2 ^ 64
        → All Fits members
        → decode_members d (words all_words) (length members) ≡ ok (map to_member members)
    unfolding decode_members
    decode_members-words small len fits =
        rw
          (
            start,
            end,
            slice_word all_words (6 + length members) len_powers at_zero,
            reads.number len_powers (omega arith),
            le→ltb usize_max len_powers (omega arith),
            ==_self (length members),
          )
          (read_members small fits)
      where
        start : mul_u64 (add_u64 6 (length members)) 32 ≡ (6 + length members) * 32
        start = omega arith

        end : add_u64 ((6 + length members) * 32) 32 ≡ (6 + length members) * 32 + 32
        end = omega arith

        at_zero : get_elem? all_words (6 + length members) ≡ some len_powers
        at_zero =
            subst (λ n. get_elem? all_words n ≡ some len_powers) (add-zero (6 + length members))
              (powers_word 0)

    -- The round trip: the data of a log in the contract's layout, with up to 2 ^ 32 members, is decoded
    -- into the values that were laid out, the zero address as no reward. The word that gives the
    -- number of powers may be any number of 64 bits.
    pub decode_data_bytes-encode_data :
        nonce < 2 ^ 64
        → amount < 2 ^ 256
        → token < 2 ^ 160
        → length members < 2 ^ 32
        → len_powers < 2 ^ 64
        → All Fits members
        → decode_data_bytes d (encode_data nonce amount token members len_powers)
          ≡ ok (record {
            event_nonce = nonce;
            reward_amount = amount;
            reward_token = reward_token_of token;
            members = map to_member members;
          })
    unfolding decode_data_bytes
    decode_data_bytes-encode_data hn ha ht small len fits = rw (
      slice_word all_words 0 nonce refl,
      reads.number nonce (omega arith),
      le→ltb u64_max nonce (omega arith),
      slice_word all_words 1 amount refl,
      reads.number amount ha,
      slice_word all_words 2 token refl,
      slice_from_address token,
      reads.address token ht,
      slice_word all_words 5 (length members) refl,
      reads.number (length members) (omega arith),
      le→ltb usize_max (length members) (omega arith),
      decode_members-words small len fits,
    )
