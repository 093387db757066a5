-- ===== src/Transfers/Destination.antt =====
-- The destination of a transfer, as the contract's event returns it.
use near_aurora_bridge.Base.{
  ℕ, zero, suc, ◌+◌, ◌^◌, ◌≤◌, ◌<◌, ◌≡◌, refl, sym, ap, subst, ◌∙◌, ◌&&◌, some, List, [], ◌∷◌, ◌++◌,
  arith, leb, if◌then◌else◌, lt→ltb, le→ltb, length, validation_error, ok, err, slice, slice_middle,
  u64_max,
}
use mathlib.Core.List.{append-nil}
use near_aurora_bridge.Bytes.{Reader}
use near_aurora_bridge.Bytes.Encoding.{
  be_bytes, words, ReadsWords, slice_word, slice_topic, slice_from_second,
}
use near_aurora_bridge.Events.{deposit_from_log}
use near_aurora_bridge.Transfers.{pad_loop, pad_destination}

zeros : ℕ → List ℕ
zeros zero = []
zeros (suc n) = 0 ∷ zeros n

length-zeros : (n : ℕ) → length (zeros n) ≡ n
unfolding zeros
length-zeros zero = refl
length-zeros (suc n) = ap suc (length-zeros n)

zeros_shift : (n : ℕ) (bytes : List ℕ) → zeros n ++ (0 ∷ bytes) ≡ 0 ∷ (zeros n ++ bytes)
unfolding zeros
zeros_shift zero bytes = refl
zeros_shift (suc n) bytes = ap (◌∷◌ 0) (zeros_shift n bytes)

pad_loop-zeros :
    (fuel missing : ℕ) (bytes : List ℕ)
    → length bytes + missing ≡ 32
    → missing ≤ fuel
    → pad_loop fuel bytes ≡ zeros missing ++ bytes
unfolding pad_loop zeros
pad_loop-zeros zero zero bytes e h = refl
pad_loop-zeros zero (suc m) bytes e h = absurd (omega arith)
pad_loop-zeros (suc fuel) zero bytes e h = rw (le→ltb (length bytes) 32 (omega arith)) refl
pad_loop-zeros (suc fuel) (suc m) bytes e h =
    rw (lt→ltb (length bytes) 32 (omega arith))
      (pad_loop-zeros fuel m (0 ∷ bytes) (omega arith) (omega arith) ∙ zeros_shift m bytes)

-- An address of 20 bytes stands at the end of the padded word.
slice-pad_destination :
    (bytes : List ℕ) → length bytes ≡ 20 → slice 12 32 (pad_destination bytes) ≡ ok bytes
unfolding pad_destination
slice-pad_destination bytes e =
    rw (pad_destination, pad_loop-zeros 32 12 bytes (omega arith) (omega arith))
      (subst (λ m. slice 12 32 (zeros 12 ++ m) ≡ ok bytes) (append-nil bytes)
        (slice_middle (zeros 12) bytes [] 12 32 (sym (length-zeros 12))
          (omega (arith, length-zeros 12))))

module _ (d : Reader) (reads : ReadsWords d) where
  -- Where the crates read words and addresses back: the event of a transfer to an account whose
  -- address has 20 bytes names, as its destination, the account that these bytes stand for, and the
  -- transfer's token and amount; it is refused only where the nonce or the block number do not fit 64
  -- bits.
  pub deposit_from_log-pad_destination :
      (signature token sender cosmos_address amount event_nonce height : ℕ) (destination : List ℕ)
      → token < 2 ^ 160
      → sender < 2 ^ 160
      → length destination ≡ 20
      → d.cosmos_from_bytes destination ≡ some cosmos_address
      → amount < 2 ^ 256
      → event_nonce < 2 ^ 256
      → deposit_from_log d (record {
        topics =
            be_bytes 32 signature
            ∷ be_bytes 32 token
            ∷ be_bytes 32 sender
            ∷ pad_destination destination
            ∷ [];
        bytes = words (amount ∷ event_nonce ∷ []);
        block_number = some height;
      })
        ≡ (if leb event_nonce u64_max && leb height u64_max
            then ok (record {
              erc20 = token;
              sender = sender;
              destination = cosmos_address;
              amount = amount;
              event_nonce = event_nonce;
              block_height = height;
            })
            else err validation_error)
  unfolding deposit_from_log
  deposit_from_log-pad_destination signature token sender cosmos_address amount event_nonce height
        destination ht hs size hd ha he =
      rw
        (
          slice_topic token,
          reads.address token ht,
          slice_topic sender,
          reads.address sender hs,
          slice-pad_destination destination size,
          hd,
          slice_word (amount ∷ event_nonce ∷ []) 0 amount refl,
          reads.number amount ha,
          slice_from_second amount event_nonce,
          reads.number event_nonce he,
        )
        (ground arith)
