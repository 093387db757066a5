-- ===== src/Batches/Conversion.antt =====
-- The conversions from protobuf messages of gravity_utils/src/types/batches.rs, and of `Erc20Token`
-- in types.rs.
use near_aurora_bridge.Base.{
  ℕ, ◌+◌, ◌^◌, ◌<◌, ◌≡◌, refl, ap, ◌∙◌, Option, none, some, List, [], ◌∷◌, ◌++◌, arith,
  validation_error, Outcome, ok, err, or_err, try_map, ok_inj, try_map-cons, ◌>>=◌,
}
use mathlib.Core.List.{append-nil, append_assoc}
use near_aurora_bridge.Types.{EthAddress, Uint256, Erc20Token}
use near_aurora_bridge.Batches.{BatchTransaction, TransactionBatch}

-- gravity_proto::gravity::Erc20Token. A string is the list of its bytes.
pub record Erc20TokenMessage : Type 0 where
  pub contract : List ℕ
  pub amount : List ℕ

-- gravity_proto::gravity::OutgoingTransferTx
pub record OutgoingTransferTx : Type 0 where
  pub id : ℕ
  pub sender : List ℕ
  pub dest_address : List ℕ
  pub erc20_token : Option Erc20TokenMessage
  pub erc20_fee : Option Erc20TokenMessage

-- gravity_proto::gravity::OutgoingTxBatch, less the field that is not read.
pub record OutgoingTxBatch : Type 0 where
  pub batch_nonce : ℕ
  pub batch_timeout : ℕ
  pub transactions : List OutgoingTransferTx
  pub token_contract : List ℕ

-- What the crates do: the parsing of strings, where `none` is an error, and the addition of num256.
pub record Parser : Type 0 where
  pub parse_uint : List ℕ → Option Uint256
  pub parse_eth_address : List ℕ → Option EthAddress
  pub parse_cosmos_address : List ℕ → Option (List ℕ)
  pub add : Uint256 → Uint256 → Outcome Uint256

-- A sum that fits 256 bits is computed exactly.
unfoldable pub Adds : Parser → Type 0
Adds p = (a b : Uint256) → a + b < 2 ^ 256 → p.add a b ≡ ok (a + b)

abbrev pub total_fees : List BatchTransaction → ℕ
total_fees [] = 0
total_fees (t ∷ ts) = t.erc20_fee.amount + total_fees ts

module _ (p : Parser) where
  unfoldable pub token_try_from : Erc20TokenMessage → Outcome Erc20Token
  token_try_from input = do
    amount ← or_err (p.parse_uint input.amount) validation_error
    contract ← or_err (p.parse_eth_address input.contract) validation_error
    ok (record { amount = amount; token_contract_address = contract })

  unfoldable pub transaction_try_from : OutgoingTransferTx → Outcome BatchTransaction
  transaction_try_from input = do
    fee ← or_err input.erc20_fee validation_error
    token ← or_err input.erc20_token validation_error
    sender ← or_err (p.parse_cosmos_address input.sender) validation_error
    destination ← or_err (p.parse_eth_address input.dest_address) validation_error
    erc20_token ← token_try_from token
    erc20_fee ← token_try_from fee
    ok (record {
      id = input.id;
      sender = sender;
      destination = destination;
      erc20_token = erc20_token;
      erc20_fee = erc20_fee;
    })

  -- The running total keeps the contract of the first fee.
  abbrev pub add_fee : Option Erc20Token → Erc20Token → Outcome Erc20Token
  add_fee none fee = ok fee
  add_fee (some total_fee) fee = do
    amount ← p.add total_fee.amount fee.amount
    ok (record { amount = amount; token_contract_address = total_fee.token_contract_address })

  unfoldable pub batch_loop :
      List OutgoingTransferTx
      → List BatchTransaction
      → Option Erc20Token
      → Outcome (List BatchTransaction × Option Erc20Token)
  batch_loop [] transactions running_total_fee = ok (transactions, running_total_fee)
  batch_loop (input ∷ inputs) transactions running_total_fee = do
    tx ← transaction_try_from input
    total_fee ← add_fee running_total_fee tx.erc20_fee
    batch_loop inputs (transactions ++ tx ∷ []) (some total_fee)

  abbrev finish_batch :
      OutgoingTxBatch → List BatchTransaction × Option Erc20Token → Outcome TransactionBatch
  finish_batch input (transactions, none) = err validation_error
  finish_batch input (transactions, some total_fee) = ok (record {
    nonce = input.batch_nonce;
    batch_timeout = input.batch_timeout;
    transactions = transactions;
    total_fee = total_fee;
    token_contract = total_fee.token_contract_address;
  })

  unfoldable pub batch_try_from : OutgoingTxBatch → Outcome TransactionBatch
  batch_try_from input = do
    totals ← batch_loop input.transactions [] none
    finish_batch input totals

  -- The loop behind the first transaction.
  batch_loop-eq :
      Adds p
      → (inputs : List OutgoingTransferTx) (ts acc : List BatchTransaction) (total : Erc20Token)
      → try_map transaction_try_from inputs ≡ ok ts
      → total.amount + total_fees ts < 2 ^ 256
      → batch_loop inputs acc (some total)
        ≡ ok (
          acc ++ ts,
          some (record {
            amount = total.amount + total_fees ts;
            token_contract_address = total.token_contract_address;
          }),
        )
  unfolding batch_loop try_map Adds
  batch_loop-eq adds [] ts acc total e b =
      let none_added : total.amount + 0 ≡ total.amount = omega arith in
      rw (← ok_inj e) (simp (append-nil, none_added))
  batch_loop-eq adds (input ∷ inputs) ts acc total e b =
      let (t, rest, et, er, same) = try_map-cons transaction_try_from input inputs ts e in
      let sum : total.amount + total_fees ts
          ≡ total.amount + (t.erc20_fee.amount + total_fees rest) =
        rw same refl in
      let assoc : total.amount + (t.erc20_fee.amount + total_fees rest)
          ≡ total.amount + t.erc20_fee.amount + total_fees rest =
        omega arith in
      let added = adds total.amount t.erc20_fee.amount (omega arith) in
      let later =
        batch_loop-eq adds inputs rest (acc ++ t ∷ [])
          (record {
            amount = total.amount + t.erc20_fee.amount;
            token_contract_address = total.token_contract_address;
          })
          er (omega arith) in
      rw (et, added, same, assoc) (later ∙ rw (append_assoc acc (t ∷ []) rest) refl)

  -- The whole loop, where there is a first transaction.
  batch_loop_first :
      Adds p
      → (inputs : List OutgoingTransferTx) (t : BatchTransaction) (ts : List BatchTransaction)
      → try_map transaction_try_from inputs ≡ ok (t ∷ ts)
      → total_fees (t ∷ ts) < 2 ^ 256
      → batch_loop inputs [] none
        ≡ ok (
          t ∷ ts,
          some (record {
            amount = total_fees (t ∷ ts);
            token_contract_address = t.erc20_fee.token_contract_address;
          }),
        )
  unfolding batch_loop try_map
  batch_loop_first adds [] t ts e b = cc
  batch_loop_first adds (input ∷ inputs) t ts e b =
      let (y, rest, ey, er, same) = try_map-cons transaction_try_from input inputs (t ∷ ts) e in
      let head : y ≡ t = cc in
      let tail : rest ≡ ts = cc in
      rw (ey, head) (batch_loop-eq adds inputs ts (t ∷ []) t.erc20_fee (er ∙ ap ok tail) b)

  -- Where there are transactions and all parse, a sum that fits 256 bits is exact, and the sum of the
  -- fees fits: the batch has the transactions in their order, the sum of the fees as its total, and the
  -- contract of the first fee as its token.
  pub batch_try_from-eq :
      Adds p
      → (input : OutgoingTxBatch) (t : BatchTransaction) (ts : List BatchTransaction)
      → try_map transaction_try_from input.transactions ≡ ok (t ∷ ts)
      → total_fees (t ∷ ts) < 2 ^ 256
      → batch_try_from input
        ≡ ok (record {
          nonce = input.batch_nonce;
          batch_timeout = input.batch_timeout;
          transactions = t ∷ ts;
          total_fee = record {
            amount = total_fees (t ∷ ts);
            token_contract_address = t.erc20_fee.token_contract_address;
          };
          token_contract = t.erc20_fee.token_contract_address;
        })
  unfolding batch_try_from
  batch_try_from-eq adds input t ts e b =
      rw (batch_try_from, batch_loop_first adds input.transactions t ts e b) refl
