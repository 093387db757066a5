-- ===== src/Cosmos/Verified.antt =====
-- What the signer sends, the relayer reads back and can use: the confirmations from end to end.
use near_aurora_bridge.Base.{
  ℕ, ◌^◌, ◌<◌, ◌≡◌, refl, ap, subst, ◌∙◌, inl, inr, true, none, some, List, [], ◌∷◌, map, arith,
  ltb, ◌==◌, if◌then◌else◌, Option-cases, All, validation_error, ok, err, try_map,
}
use near_aurora_bridge.Types.{EthAddress, EthSignature, Clarity}
use near_aurora_bridge.Float.{required_power}
use near_aurora_bridge.Valset.{Valset, ValsetMember}
use near_aurora_bridge.Logic.{
  LogicCall, encode_logic_call_confirm, encode_logic_call_confirm_hashed,
}
use near_aurora_bridge.Confirm.{
  Confirm, ValsetConfirmResponse, LogicCallConfirmResponse, valset_confirm, logic_call_confirm,
  last_from, last_from_address,
}
use near_aurora_bridge.Signing.{order_sigs}
use near_aurora_bridge.Signing.Entries.{entry, signed_power, total_power, Verifies}
use near_aurora_bridge.Signing.Outcomes.{order_sigs-eq}
use near_aurora_bridge.Messages.{Abi, encode_valset_confirm, encode_valset_confirm_hashed}
use near_aurora_bridge.Cosmos.{Printer, EthPrivateKey}
use near_aurora_bridge.Batches.Conversion.{Parser}
use near_aurora_bridge.Cosmos.Queries.{
  GravityQueryClient, get_all_valset_confirms, get_logic_call_signatures,
}
use near_aurora_bridge.Cosmos.Confirms.{
  ConfirmParser, confirm_of_valset, confirm_of_logic_call, valset_confirm_try_from,
  logic_call_confirm_try_from,
}

-- A validator's keys: the Ethereum key, and the address of the account that sends.
pub record Signer : Type 0 where
  pub key : EthPrivateKey
  pub account : ℕ

-- What the key signs is a valid signature, from which the key's address can be recovered.
abbrev pub Signs : Clarity → Abi → Signer → Type 0
Signs k abi s =
    (message : List ℕ)
    → (k.is_valid (s.key.sign_ethereum_msg message) ≡ true)
      × (k.recover (s.key.sign_ethereum_msg message) (abi.get_ethereum_msg_hash message)
          ≡ some s.key.eth_address)

-- What the crates print they parse back.
abbrev pub ReadsConfirms : ConfirmParser → Printer → Type 0
ReadsConfirms r p =
    ((a : ℕ) → r.parse_cosmos_address (p.cosmos_address_to_string a) ≡ some a)
    × ((a : EthAddress) → r.parse_eth_address (p.eth_address_to_string a) ≡ some a)
    × ((s : EthSignature)
        → r.parse_signature (p.bytes_to_hex_str (p.signature_to_bytes s)) ≡ some s)
    × ((b : List ℕ) → r.hex_str_to_bytes (p.bytes_to_hex_str b) ≡ some b)

module _ {T : Type 0} ⦃c : Confirm T⦄ (k : Clarity) (message : List ℕ) where
  -- A confirmation that carries its own signature of a message.
  abbrev Own : T → Type 0
  Own t =
      (k.is_valid (c.get_signature t) ≡ true)
      × (k.recover (c.get_signature t) message ≡ some (c.get_eth_address t))

  last_from-Own :
      (ts : List T) (a : EthAddress) (t : T) → All Own ts → last_from ts a ≡ some t → Own t
  last_from-Own [] a t h e = cc
  last_from-Own (u ∷ ts) a t h e = elim (Option-cases (last_from ts a)) [
    | inl en ↦
        let found : (if c.get_eth_address u == a then some u else none) ≡ some t = rw en at e in
        subst Own (first_same u t found) h.0
    | inr (w, ew) ↦
        let found : some w ≡ some t = rw ew at e in last_from-Own ts a t h.1 (ew ∙ found)
  ]
    where
      first_same : (u t : T) → (if c.get_eth_address u == a then some u else none) ≡ some t → u ≡ t
      first_same u t found = ground arith

  member-Verifies :
      (ts : List T) (m : ValsetMember) → All Own ts → Verifies k message (last_from ts) m
  member-Verifies ts m h = elim (Option-cases m.eth_address) [
    | inl e ↦ rw (e, Verifies) tt
    | inr (a, e) ↦ elim (Option-cases (last_from ts a)) [
      | inl en ↦ rw (e, Verifies, en) tt
      | inr (t, et) ↦
          let own = last_from-Own ts a t h et in
          let from = last_from_address ts a t et in
          rw (e, Verifies, et) (from, own.0, own.1 ∙ ap some from)
    ]
  ]

  Own-Verifies :
      (ts : List T) (ms : List ValsetMember)
      → All Own ts
      → All (Verifies k message (last_from ts)) ms
  Own-Verifies ts [] h = tt
  Own-Verifies ts (m ∷ ms) h = (member-Verifies ts m h, Own-Verifies ts ms h)

  -- Confirmations that carry their own signatures never make `order_sigs` panic: their power decides.
  pub Own-order_sigs :
      (v : Valset) (t : T) (ts : List T)
      → All Own (t ∷ ts)
      → total_power v.members < 2 ^ 64
      → order_sigs k message v (t ∷ ts) ≡ (
          if ltb (signed_power (last_from (t ∷ ts)) v.members) required_power
          then err validation_error
          else ok (map (entry (last_from (t ∷ ts))) v.members))
  Own-order_sigs v t ts h b = order_sigs-eq k message v t ts (Own-Verifies (t ∷ ts) v.members h) b

module _ (k : Clarity) (abi : Abi) (p : Printer) (r : ConfirmParser) (gravity_id : List ℕ) where
  -- What is read back of a signer's confirmation of a validator set.
  abbrev pub valset_response : Valset → Signer → ValsetConfirmResponse
  valset_response valset s = record {
    orchestrator = s.account;
    eth_address = s.key.eth_address;
    nonce = valset.nonce;
    eth_signature = s.key.sign_ethereum_msg (encode_valset_confirm abi gravity_id valset);
  }

  abbrev pub logic_call_response : LogicCall → Signer → LogicCallConfirmResponse
  logic_call_response call s = record {
    invalidation_id = call.invalidation_id;
    invalidation_nonce = call.invalidation_nonce;
    ethereum_signer = s.key.eth_address;
    orchestrator = s.account;
    eth_signature = s.key.sign_ethereum_msg (encode_logic_call_confirm abi gravity_id call);
  }

  valset_reads :
      ReadsConfirms r p
      → (valset : Valset) (ss : List Signer)
      → try_map
          (valset_confirm_try_from r)
          (map (λ s. confirm_of_valset p abi s.key gravity_id s.account valset) ss)
        ≡ ok (map (valset_response valset) ss)
  unfolding try_map valset_confirm_try_from confirm_of_valset
  valset_reads reads valset [] = refl
  valset_reads (rc, re, rs, rb) valset (s ∷ ss) =
      rw
        (
          rc s.account,
          re s.key.eth_address,
          rs (s.key.sign_ethereum_msg (encode_valset_confirm abi gravity_id valset)),
          valset_reads (rc, re, rs, rb) valset ss,
        )
        refl

  logic_call_reads :
      ReadsConfirms r p
      → (call : LogicCall) (ss : List Signer)
      → try_map
          (logic_call_confirm_try_from r)
          (map (λ s. confirm_of_logic_call p abi s.key gravity_id s.account call) ss)
        ≡ ok (map (logic_call_response call) ss)
  unfolding try_map logic_call_confirm_try_from confirm_of_logic_call
  logic_call_reads reads call [] = refl
  logic_call_reads (rc, re, rs, rb) call (s ∷ ss) =
      rw
        (
          rb call.invalidation_id,
          rc s.account,
          re s.key.eth_address,
          rs (s.key.sign_ethereum_msg (encode_logic_call_confirm abi gravity_id call)),
          logic_call_reads (rc, re, rs, rb) call ss,
        )
        refl

  valset-Own :
      (valset : Valset) (ss : List Signer)
      → All (Signs k abi) ss
      → All
          (Own k (encode_valset_confirm_hashed abi gravity_id valset))
          (map (valset_response valset) ss)
  unfolding encode_valset_confirm_hashed
  valset-Own valset [] h = tt
  valset-Own valset (s ∷ ss) h =
      (h.0 (encode_valset_confirm abi gravity_id valset), valset-Own valset ss h.1)

  logic_call-Own :
      (call : LogicCall) (ss : List Signer)
      → All (Signs k abi) ss
      → All
          (Own k (encode_logic_call_confirm_hashed abi gravity_id call))
          (map (logic_call_response call) ss)
  unfolding encode_logic_call_confirm_hashed
  logic_call-Own call [] h = tt
  logic_call-Own call (s ∷ ss) h =
      (h.0 (encode_logic_call_confirm abi gravity_id call), logic_call-Own call ss h.1)

  -- Where the crates parse back what they print, and sign so that the key's address can be recovered:
  -- the confirmations of a validator set that signers have sent parse when the relayer asks for
  -- them, as one response for each signer with the signer's addresses and signature of the set, and
  -- make no test of the relayer panic; they can be submitted exactly if the members of the current
  -- set whose addresses are among those of the signers hold the required power, and else are refused.
  pub confirm_of_valset-order_sigs :
      ReadsConfirms r p
      → (numbers : Parser) (client : GravityQueryClient) (valset current_valset : Valset)
        (s : Signer) (ss : List Signer)
      → client.valset_confirms_by_nonce valset.nonce
        ≡ some (map (λ s. confirm_of_valset p abi s.key gravity_id s.account valset) (s ∷ ss))
      → All (Signs k abi) (s ∷ ss)
      → total_power current_valset.members < 2 ^ 64
      → let cs = map (valset_response valset) (s ∷ ss) in
        (get_all_valset_confirms numbers r p client valset.nonce ≡ ok cs)
        × (order_sigs k (encode_valset_confirm_hashed abi gravity_id valset) current_valset cs ≡ (
            if ltb (signed_power (last_from cs) current_valset.members) required_power
            then err validation_error
            else ok (map (entry (last_from cs)) current_valset.members)))
  unfolding get_all_valset_confirms
  confirm_of_valset-order_sigs reads numbers client valset current_valset s ss sent signs b = (
    rw (get_all_valset_confirms, sent) (valset_reads reads valset (s ∷ ss)),
    Own-order_sigs k _ current_valset (valset_response valset s) (map (valset_response valset) ss)
        (valset-Own valset (s ∷ ss) signs) b,
  )

  -- Under the same conditions, the confirmations of a logic call that signers have sent parse, and can be
  -- submitted exactly if the members of the current set among the signers hold the required power.
  pub confirm_of_logic_call-order_sigs :
      ReadsConfirms r p
      → (numbers : Parser) (client : GravityQueryClient) (call : LogicCall)
        (current_valset : Valset) (s : Signer) (ss : List Signer)
      → client.logic_confirms call.invalidation_id call.invalidation_nonce
        ≡ some (map (λ s. confirm_of_logic_call p abi s.key gravity_id s.account call) (s ∷ ss))
      → All (Signs k abi) (s ∷ ss)
      → total_power current_valset.members < 2 ^ 64
      → let cs = map (logic_call_response call) (s ∷ ss) in
        (get_logic_call_signatures numbers r p client call.invalidation_id call.invalidation_nonce
          ≡ ok cs)
        × (order_sigs k (encode_logic_call_confirm_hashed abi gravity_id call) current_valset cs ≡ (
            if ltb (signed_power (last_from cs) current_valset.members) required_power
            then err validation_error
            else ok (map (entry (last_from cs)) current_valset.members)))
  unfolding get_logic_call_signatures
  confirm_of_logic_call-order_sigs reads numbers client call current_valset s ss sent signs b = (
    rw (get_logic_call_signatures, sent) (logic_call_reads reads call (s ∷ ss)),
    Own-order_sigs k _ current_valset (logic_call_response call s)
        (map (logic_call_response call) ss) (logic_call-Own call (s ∷ ss) signs) b,
  )
