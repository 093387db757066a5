-- ===== src/Batches/Tests.antt =====
-- A batch of two transfers, read from its message.
use near_aurora_bridge.Base.{
  ℕ, ◌+◌, ◌^◌, ◌≡◌, refl, Option, none, some, List, [], ◌∷◌, arith, ltb, if◌then◌else◌, lt→ltb, ok,
  panic, try_map,
}
use near_aurora_bridge.Batches.{
  BatchTransaction, TransactionBatch, get_checkpoint_values, get_checkpoint_values-eq,
}
use near_aurora_bridge.Batches.Conversion.{
  Erc20TokenMessage, OutgoingTransferTx, OutgoingTxBatch, Parser, Adds, token_try_from,
  transaction_try_from, batch_try_from, batch_try_from-eq,
}

-- A number is written as one byte, and an addition panics beyond 256 bits.
abbrev first_byte : List ℕ → Option ℕ
first_byte [] = none
first_byte (n ∷ ns) = some n

abbrev parser : Parser
parser = record {
  parse_uint = first_byte;
  parse_eth_address = first_byte;
  parse_cosmos_address = λ s. some s;
  add = λ a b. if ltb (a + b) (2 ^ 256) then ok (a + b) else panic;
}

adds : Adds parser
unfolding Adds
adds a b h = rw (lt→ltb (a + b) (2 ^ 256) h) refl

abbrev token : ℕ → Erc20TokenMessage
token n = record { contract = 5 ∷ []; amount = n ∷ [] }

abbrev transfer : ℕ → ℕ → OutgoingTransferTx
transfer n fee = record {
  id = n;
  sender = [];
  dest_address = 9 ∷ [];
  erc20_token = some (token 100);
  erc20_fee = some (token fee);
}

abbrev message : OutgoingTxBatch
message = record {
  batch_nonce = 4;
  batch_timeout = 70;
  transactions = transfer 1 3 ∷ transfer 2 8 ∷ [];
  token_contract = 5 ∷ [];
}

abbrev parsed : ℕ → ℕ → BatchTransaction
parsed n fee = record {
  id = n;
  sender = [];
  destination = 9;
  erc20_token = record { amount = 100; token_contract_address = 5 };
  erc20_fee = record { amount = fee; token_contract_address = 5 };
}

abbrev batch : TransactionBatch
batch = record {
  nonce = 4;
  batch_timeout = 70;
  transactions = parsed 1 3 ∷ parsed 2 8 ∷ [];
  total_fee = record { amount = 11; token_contract_address = 5 };
  token_contract = 5;
}

parse_run :
    try_map (transaction_try_from parser) message.transactions ≡ ok (parsed 1 3 ∷ parsed 2 8 ∷ [])
unfolding try_map transaction_try_from token_try_from
parse_run = refl

batch_try_from-eq_example : batch_try_from parser message ≡ ok batch
batch_try_from-eq_example =
    batch_try_from-eq parser adds message (parsed 1 3) (parsed 2 8 ∷ []) parse_run (omega arith)

get_checkpoint_values-eq_example :
    get_checkpoint_values batch
    ≡ ok (record { amounts = 100 ∷ 100 ∷ []; destinations = 9 ∷ 9 ∷ []; fees = 3 ∷ 8 ∷ [] })
get_checkpoint_values-eq_example = get_checkpoint_values-eq batch
