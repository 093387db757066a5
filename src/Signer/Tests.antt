-- ===== src/Signer/Tests.antt =====
-- Rounds of the signer.
use near_aurora_bridge.Base.{
  ℕ, ◌≡◌, refl, ap, inl, inr, none, some, List, [], ◌∷◌, map, Any, unrecoverable_error, rpc_error,
  ok, err,
}
use near_aurora_bridge.Valset.{Valset}
use near_aurora_bridge.Logic.{LogicCall}
use near_aurora_bridge.Messages.{Abi}
use near_aurora_bridge.Oracle.{moving}
use near_aurora_bridge.Cosmos.{
  Msg, valset_confirm_msg, confirm_batch, confirm_logic_call, Coin, insufficient_gas, reply, fault,
  Printer, Contact, PrivateKey, EthPrivateKey, submit, broadcast,
}
use near_aurora_bridge.Cosmos.Confirms.{
  send_valset_confirms, send_batch_confirm, send_logic_call_confirm,
}
use near_aurora_bridge.Signer.{
  SignerRound, signed_valsets, signed_call, check_for_fee_error, sign_valsets, sign_batch,
  sign_call, signer_round, signer_loop,
}
use near_aurora_bridge.Signer.Rounds.{Refused, signer_loop-Refused}
use near_aurora_bridge.Signer.Signs.{signer_round_signs}

abbrev printer : Printer
printer = record {
  eth_address_to_string = λ a. a ∷ [];
  cosmos_address_to_string = λ a. a ∷ [];
  uint256_to_string = λ n. n ∷ [];
  to_bech32 = λ prefix a. some (a ∷ []);
  bytes_to_hex_str = λ b. b;
  signature_to_bytes = λ s. s.v ∷ s.r ∷ s.s ∷ [];
}

abbrev abi : Abi
abi = record { encode_tokens = λ ts. []; get_ethereum_msg_hash = λ m. m }

abbrev eth_key : EthPrivateKey
eth_key = record { eth_address = 11; sign_ethereum_msg = λ m. record { v = 27; r = 11; s = 5 } }

-- A message is signed as the number of its kind.
abbrev kind_of : Msg → ℕ
kind_of (valset_confirm_msg c) = 1
kind_of (confirm_batch c) = 2
kind_of (confirm_logic_call c) = 3
kind_of _ = 0

abbrev key : PrivateKey (List ℕ)
key = record { to_address = λ prefix. some 7; sign_std_msg = λ msgs args. reply (map kind_of msgs) }

abbrev fee : Coin
fee = record { amount = 1; denom = 5 ∷ [] }

-- A node that accepts, or refuses, every transaction.
abbrev accepts : Contact (List ℕ) (List ℕ)
accepts = record {
  get_prefix = [];
  get_message_args = λ a fee. reply [];
  get_balances = λ a. reply [];
  send_transaction = λ b. reply b;
  wait_for_tx = λ t. reply t;
}

abbrev refuses : Contact (List ℕ) (List ℕ)
refuses = record {
  get_prefix = [];
  get_message_args = λ a fee. reply [];
  get_balances = λ a. reply [];
  send_transaction = λ b. fault insufficient_gas;
  wait_for_tx = λ t. reply t;
}

abbrev valset : Valset
valset = record { nonce = 7; members = []; reward_amount = 0; reward_token = none }

abbrev bridge_call : LogicCall
bridge_call = record {
  transfers = [];
  fees = [];
  logic_contract_address = 9;
  payload = [];
  timeout = 100;
  invalidation_id = 1 ∷ [];
  invalidation_nonce = 2;
}

-- There are a validator set and a logic call to sign; the query for batches fails.
abbrev round : Contact (List ℕ) (List ℕ) → SignerRound (List ℕ) (List ℕ)
round call_contact = record {
  latest_eth_block = some 90;
  latest_cosmos_block = some moving;
  unsigned_valsets = ok (valset ∷ []);
  unsigned_batch = err rpc_error;
  unsigned_call = ok (some bridge_call);
  valsets_contact = accepts;
  batch_contact = accepts;
  call_contact = call_contact;
}

-- The second round is the last.
signer_run :
    signer_loop printer abi eth_key key fee [] (round accepts ∷ round refuses ∷ round accepts ∷ [])
    ≡ (
      err unrecoverable_error,
      signed_valsets (reply (1 ∷ []))
          ∷ signed_call (reply (3 ∷ []))
          ∷ signed_valsets (reply (1 ∷ []))
          ∷ signed_call (fault insufficient_gas)
          ∷ [],
    )
unfolding signer_loop signer_round sign_valsets sign_batch sign_call check_for_fee_error
    send_valset_confirms send_batch_confirm send_logic_call_confirm submit broadcast
signer_run = refl

signer_loop-Refused_example :
    (unrecoverable_error ≡ unrecoverable_error)
    × Any
        (Refused printer abi eth_key key fee [])
        (round accepts ∷ round refuses ∷ round accepts ∷ [])
signer_loop-Refused_example =
    signer_loop-Refused printer abi eth_key key fee []
      (round accepts ∷ round refuses ∷ round accepts ∷ []) unrecoverable_error
      (ap (λ r. r.0) signer_run)

accepted : ¬ Refused printer abi eth_key key fee [] (round accepts)
unfolding Refused send_valset_confirms send_batch_confirm send_logic_call_confirm submit broadcast
accepted (inl (v, vs, e, (f, ef, fees))) = cc
accepted (inr (inl (b, e, (f, ef, fees)))) = cc
accepted (inr (inr (c, e, (f, ef, fees)))) = cc

signer_round_signs_example :
    signer_round printer abi eth_key key fee [] (round accepts)
    ≡ (ok tt, signed_valsets (reply (1 ∷ [])) ∷ signed_call (reply (3 ∷ [])) ∷ [])
unfolding submit broadcast
signer_round_signs_example =
    signer_round_signs printer abi eth_key key fee [] (λ prefix. (7, refl)) (round accepts) accepted
      refl (λ e. cc) (λ e. cc) (λ e. cc)
