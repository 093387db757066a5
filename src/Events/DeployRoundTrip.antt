-- ===== src/Events/DeployRoundTrip.antt =====
-- Decoding an `Erc20DeployedEvent` against its layout: six words, then three strings, each filled
-- up to full words, the last two behind their lengths.
use near_aurora_bridge.Base.{
  ℕ, zero, suc, ◌+◌, ◌-◌, ◌*◌, ◌/◌, ◌^◌, ◌<◌, ◌≡◌, refl, sym, ap, ◌∙◌, some, List, [], ◌∷◌, ◌++◌,
  arith, le→ltb, length, length-append, ok, slice_middle, u64_max, u32_max,
}
use mathlib.Core.List.{append_assoc}
use near_aurora_bridge.Bytes.{Reader, from_utf8}
use near_aurora_bridge.Bytes.Encoding.{
  be_bytes, words, ReadsWords, length-be_bytes, length-words, slice_topic,
}
use near_aurora_bridge.Events.{deploy_from_log, number_at, string_at, padded_string_at}

-- The next multiple of 32.
abbrev pub round_up : ℕ → ℕ
round_up n = (n + 31) / 32 * 32

abbrev pub zeros : ℕ → List ℕ
zeros zero = []
zeros (suc n) = 0 ∷ zeros n

length-zeros : (n : ℕ) → length (zeros n) ≡ n
length-zeros zero = refl
length-zeros (suc n) = ap suc (length-zeros n)

-- A string in full words.
abbrev pub pad : List ℕ → List ℕ
pad s = s ++ zeros (round_up (length s) - length s)

length-pad : (s : List ℕ) → length (pad s) ≡ round_up (length s)
length-pad s = omega (
  arith,
  length-append s (zeros (round_up (length s) - length s)),
  length-zeros (round_up (length s) - length s),
)

-- The log's data; the three offsets of the strings are not read.
abbrev pub encode_deploy : List ℕ → ℕ → ℕ → List ℕ → List ℕ → List ℕ → List ℕ
encode_deploy offsets decimals nonce denom name symbol =
    words offsets
    ++ (be_bytes 32 decimals
        ++ (be_bytes 32 nonce
            ++ (be_bytes 32 (length denom)
                ++ (pad denom
                    ++ (be_bytes 32 (length name)
                        ++ (pad name ++ (be_bytes 32 (length symbol) ++ pad symbol)))))))

module _ (d : Reader) (reads : ReadsWords d) where
  number_at_middle :
      (pre : List ℕ) (n : ℕ) (post : List ℕ) {bytes : List ℕ} (a : ℕ)
      → bytes ≡ pre ++ (be_bytes 32 n ++ post)
      → a ≡ length pre
      → n < 2 ^ 256
      → number_at d bytes a ≡ ok n
  unfolding number_at
  number_at_middle pre n post a e ha hn = rw (
    e,
    slice_middle pre (be_bytes 32 n) post a (a + 32) ha (omega (arith, length-be_bytes 32 n)),
    reads.number n hn,
  )

  string_at_middle :
      (pre s post : List ℕ) {bytes : List ℕ} (a : ℕ)
      → bytes ≡ pre ++ (s ++ post)
      → a ≡ length pre
      → from_utf8 s ≡ some s
      → string_at d bytes a (length s) ≡ ok (s, a + length s)
  unfolding string_at
  string_at_middle pre s post a e ha utf8 =
      rw (e, slice_middle pre s post a (a + length s) ha (omega arith), utf8)

  -- A padded string behind its length.
  padded_string_at_middle :
      (pre s post : List ℕ) {bytes : List ℕ} (index_end : ℕ)
      → bytes ≡ pre ++ (be_bytes 32 (length s) ++ (s ++ post))
      → round_up index_end ≡ length pre
      → length s < 2 ^ 32
      → from_utf8 s ≡ some s
      → padded_string_at d bytes index_end ≡ ok (s, length pre + 32 + length s)
  unfolding padded_string_at
  padded_string_at_middle pre s post index_end e start short utf8 =
      rw
        (
          number_at_middle pre (length s) (s ++ post) (round_up index_end) e start (omega arith),
          le→ltb u32_max (length s) (omega arith),
          start,
        )
        (string_at_middle (pre ++ be_bytes 32 (length s)) s post (length pre + 32)
          (e ∙ sym (append_assoc pre (be_bytes 32 (length s)) (s ++ post)))
          (omega (arith, length-append pre (be_bytes 32 (length s)), length-be_bytes 32 (length s)))
          utf8)

  module _ (o1 o2 o3 decimals nonce : ℕ) (denom name symbol : List ℕ) (small : decimals < 256)
      (nonce_fits : nonce < 2 ^ 64) (denom_short : length denom < 2 ^ 32)
      (name_short : length name < 2 ^ 32) (symbol_short : length symbol < 2 ^ 32)
      (denom_utf8 : from_utf8 denom ≡ some denom) (name_utf8 : from_utf8 name ≡ some name)
      (symbol_utf8 : from_utf8 symbol ≡ some symbol) where
    abbrev offsets : List ℕ
    offsets = o1 ∷ o2 ∷ o3 ∷ []

    abbrev log_data : List ℕ
    log_data = encode_deploy offsets decimals nonce denom name symbol

    -- What stands before the denom, before the name's length, and before the symbol's length.
    abbrev before_denom : List ℕ
    before_denom = words (o1 ∷ o2 ∷ o3 ∷ decimals ∷ nonce ∷ length denom ∷ [])

    abbrev before_name : List ℕ
    before_name = before_denom ++ pad denom

    abbrev before_symbol : List ℕ
    before_symbol = before_name ++ (be_bytes 32 (length name) ++ pad name)

    decimals_read : number_at d log_data 96 ≡ ok decimals
    decimals_read =
        number_at_middle (words offsets) decimals _ 96 refl (omega (arith, length-words offsets))
          (omega arith)

    abbrev symbol_part : List ℕ
    symbol_part = be_bytes 32 (length symbol) ++ pad symbol

    abbrev name_part : List ℕ
    name_part = be_bytes 32 (length name) ++ (pad name ++ symbol_part)

    nonce_read : number_at d log_data 128 ≡ ok nonce
    nonce_read =
        number_at_middle (words (o1 ∷ o2 ∷ o3 ∷ decimals ∷ [])) nonce
          (be_bytes 32 (length denom) ++ (pad denom ++ name_part)) 128 (simp append_assoc)
          (omega (arith, length-words (o1 ∷ o2 ∷ o3 ∷ decimals ∷ []))) (omega arith)

    denom_len_read : number_at d log_data 160 ≡ ok (length denom)
    denom_len_read =
        number_at_middle (words (o1 ∷ o2 ∷ o3 ∷ decimals ∷ nonce ∷ [])) (length denom)
          (pad denom ++ name_part) 160 (simp append_assoc)
          (omega (arith, length-words (o1 ∷ o2 ∷ o3 ∷ decimals ∷ nonce ∷ []))) (omega arith)

    length-before_denom : length before_denom ≡ 192
    length-before_denom = length-words (o1 ∷ o2 ∷ o3 ∷ decimals ∷ nonce ∷ length denom ∷ [])

    length-before_name : length before_name ≡ 192 + round_up (length denom)
    length-before_name =
        omega (arith, length-append before_denom (pad denom), length-pad denom, length-before_denom)

    length-before_symbol :
        length before_symbol ≡ 224 + round_up (length denom) + round_up (length name)
    length-before_symbol = omega (
      arith,
      length-append before_name (be_bytes 32 (length name) ++ pad name),
      length-append (be_bytes 32 (length name)) (pad name),
      length-be_bytes 32 (length name),
      length-pad name,
      length-before_name,
    )

    denom_read : string_at d log_data 192 (length denom) ≡ ok (denom, 192 + length denom)
    denom_read =
        string_at_middle before_denom denom
          (zeros (round_up (length denom) - length denom) ++ name_part) 192 (simp append_assoc)
          (sym length-before_denom) denom_utf8

    name_read :
        padded_string_at d log_data (192 + length denom)
        ≡ ok (name, length before_name + 32 + length name)
    name_read =
        padded_string_at_middle before_name name
          (zeros (round_up (length name) - length name) ++ symbol_part) (192 + length denom)
          (simp append_assoc) (omega (arith, length-before_name)) name_short name_utf8

    symbol_read :
        padded_string_at d log_data (length before_name + 32 + length name)
        ≡ ok (symbol, length before_symbol + 32 + length symbol)
    symbol_read =
        padded_string_at_middle before_symbol symbol
          (zeros (round_up (length symbol) - length symbol)) (length before_name + 32 + length name)
          (simp append_assoc) (omega (arith, length-before_name, length-before_symbol)) symbol_short
          symbol_utf8

    -- The round trip: a log in the contract's layout, its token address in the second topic, is decoded
    -- into the values that were laid out, the strings without the zeros that fill their last words.
    -- The strings are valid UTF-8 and shorter than 2 ^ 32 bytes.
    pub deploy_from_log-encode_deploy :
        (signature token height : ℕ)
        → token < 2 ^ 160
        → deploy_from_log d (record {
          topics = be_bytes 32 signature ∷ be_bytes 32 token ∷ [];
          bytes = log_data;
          block_number = some height;
        })
          ≡ ok (record {
            cosmos_denom = denom;
            erc20_address = token;
            name = name;
            symbol = symbol;
            decimals = decimals;
            event_nonce = nonce;
            block_height = height;
          })
    unfolding deploy_from_log
    deploy_from_log-encode_deploy signature token height token_fits = rw (
      slice_topic token,
      reads.address token token_fits,
      decimals_read,
      le→ltb 255 decimals (omega arith),
      nonce_read,
      le→ltb u64_max nonce (omega arith),
      denom_len_read,
      le→ltb u32_max (length denom) (omega arith),
      denom_read,
      name_read,
      symbol_read,
    )
