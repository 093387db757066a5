-- ===== src/Cosmos/ReadTests.antt =====
-- Round trips of the protobuf messages, and the confirmations of two signers.
use near_aurora_bridge.Base.{
  ℕ, ◌+◌, ◌≡◌, refl, ◌≢◌, true, Option, none, some, List, [], ◌∷◌, map, arith, ltb, if◌then◌else◌,
  All, validation_error, ok, err,
}
use near_aurora_bridge.Types.{EthSignature, zero_address, Clarity}
use near_aurora_bridge.Float.{required_power}
use near_aurora_bridge.Valset.{Valset, ValsetMember}
use near_aurora_bridge.Batches.{BatchTransaction, TransactionBatch}
use near_aurora_bridge.Batches.Conversion.{Parser, Adds, batch_try_from}
use near_aurora_bridge.Messages.{Abi, encode_valset_confirm_hashed}
use near_aurora_bridge.Confirm.{last_from, valset_confirm}
use near_aurora_bridge.Signing.Entries.{entry, signed_power}
use near_aurora_bridge.Signing.{order_sigs}
use near_aurora_bridge.Cosmos.Confirms.{ConfirmParser, confirm_of_valset}
use near_aurora_bridge.Cosmos.Queries.{GravityQueryClient, get_all_valset_confirms}
use near_aurora_bridge.Cosmos.Protobuf.{
  valset_from, valset_into, valset_from-into, batch_into, batch_try_from-into,
}
use near_aurora_bridge.Cosmos.Verified.{
  valset_response, Signer, Signs, ReadsConfirms, confirm_of_valset-order_sigs,
}
use near_aurora_bridge.Logic.Conversion.{ReadsBack}
use near_aurora_bridge.Cosmos.Tests.{printer}

abbrev digit : List ℕ → Option ℕ
digit [] = none
digit (a ∷ text) = some a

abbrev parser : Parser
parser = record {
  parse_uint = digit;
  parse_eth_address = digit;
  parse_cosmos_address = λ text. some text;
  add = λ a b. ok (a + b);
}

parser_reads : ReadsBack parser printer
parser_reads = (λ a. refl, λ n. refl)

abbrev member : ℕ → Option ℕ → ValsetMember
member power a = record { power = power; eth_address = a }

abbrev valset : Valset
valset = record {
  nonce = 7;
  members = member 3000000000 (some 11) ∷ member 900000000 none ∷ member 394967295 (some 12) ∷ [];
  reward_amount = 3;
  reward_token = some 5;
}

valset_from-into_example : valset_from parser (valset_into printer valset) ≡ ok valset
valset_from-into_example = valset_from-into parser printer parser_reads refl valset (λ e. five e)
  where
    five : valset.reward_token ≢ some zero_address
    five e = ground arith

abbrev transaction : ℕ → BatchTransaction
transaction n = record {
  id = n;
  sender = 8 ∷ [];
  destination = 9;
  erc20_token = record { amount = 100; token_contract_address = 5 };
  erc20_fee = record { amount = n; token_contract_address = 5 };
}

abbrev batch : TransactionBatch
batch = record {
  nonce = 2;
  batch_timeout = 1000;
  transactions = transaction 3 ∷ transaction 4 ∷ [];
  total_fee = record { amount = 7; token_contract_address = 5 };
  token_contract = 5;
}

parser-Adds : Adds parser
unfolding Adds
parser-Adds = λ a b h. refl

batch_try_from-into_example : batch_try_from parser (batch_into printer (λ s. s) batch) ≡ ok batch
batch_try_from-into_example =
    batch_try_from-into parser printer parser_reads (λ s. s) (λ s. refl) parser-Adds batch
      (transaction 3) (transaction 4 ∷ []) refl refl refl (omega arith)

-- A signature that recovers to its own `r`.
abbrev clarity : Clarity
clarity = record { is_valid = λ s. true; recover = λ s m. some s.r }

abbrev abi : Abi
abi = record { encode_tokens = λ ts. []; get_ethereum_msg_hash = λ m. m }

abbrev signer : ℕ → Signer
signer a = record {
  key = record { eth_address = a; sign_ethereum_msg = λ m. record { v = 27; r = a; s = 5 } };
  account = a;
}

abbrev signature : List ℕ → Option EthSignature
signature (v ∷ r ∷ s ∷ []) = some (record { v = v; r = r; s = s })
signature _ = none

abbrev confirm_parser : ConfirmParser
confirm_parser = record {
  parse_cosmos_address = digit;
  parse_eth_address = digit;
  parse_signature = signature;
  hex_str_to_bytes = λ b. some b;
}

confirms_read : ReadsConfirms confirm_parser printer
confirms_read = (λ a. refl, λ a. refl, λ s. refl, λ b. refl)

abbrev client : GravityQueryClient
client = record {
  valset_request = λ n. none;
  current_valset = none;
  last_pending_valset_request_by_addr = λ a. none;
  last_valset_requests = none;
  valset_confirms_by_nonce = λ n. some (
      map (λ s. confirm_of_valset printer abi s.key [] s.account valset)
        (signer 11 ∷ signer 12 ∷ []));
  last_pending_batch_request_by_addr = λ a. none;
  outgoing_tx_batches = none;
  batch_confirms = λ n a. none;
  last_event_nonce_by_addr = λ a. none;
  outgoing_logic_calls = none;
  logic_confirms = λ i n. none;
  last_pending_logic_call_by_addr = λ a. none;
}

signers_sign : All (Signs clarity abi) (signer 11 ∷ signer 12 ∷ [])
signers_sign = (λ m. (refl, refl), (λ m. (refl, refl), tt))

confirm_of_valset-order_sigs_example :
    let cs =
      map
        (valset_response clarity abi printer confirm_parser [] valset)
        (signer 11 ∷ signer 12 ∷ []) in
    (get_all_valset_confirms parser confirm_parser printer client 7 ≡ ok cs)
    × (order_sigs clarity (encode_valset_confirm_hashed abi [] valset) valset cs ≡ (
        if ltb (signed_power (last_from cs) valset.members) required_power
        then err validation_error
        else ok (map (entry (last_from cs)) valset.members)))
confirm_of_valset-order_sigs_example =
    confirm_of_valset-order_sigs clarity abi printer confirm_parser [] confirms_read parser client
      valset valset (signer 11) (signer 12 ∷ []) refl signers_sign (omega arith)
