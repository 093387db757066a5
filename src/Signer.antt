-- ===== src/Signer.antt =====
-- `eth_signer_main_loop` and `check_for_fee_error` of orchestrator/src/main_loop.rs.
pub mod Rounds
pub mod Signs
mod Tests
use near_aurora_bridge.Base.{
  ℕ, Option, none, some, List, [], ◌∷◌, ◌++◌, if◌then◌else◌, unrecoverable_error, Outcome, ok, err,
  panic,
}
use near_aurora_bridge.Types.{Uint256}
use near_aurora_bridge.Valset.{Valset}
use near_aurora_bridge.Batches.{TransactionBatch}
use near_aurora_bridge.Logic.{LogicCall}
use near_aurora_bridge.Messages.{Abi}
use near_aurora_bridge.Oracle.{ChainStatus, nodes_ready}
use near_aurora_bridge.Cosmos.{
  Coin, CosmosGrpcError, insufficient_fees, insufficient_gas, bad_input, other_error, Reply, reply,
  fault, Printer, Contact, PrivateKey, EthPrivateKey,
}
use near_aurora_bridge.Cosmos.Confirms.{
  send_valset_confirms, send_batch_confirm, send_logic_call_confirm,
}

-- The answers of the nodes in one round; the client answers anew to each of the three messages.
pub record SignerRound (Args Tx : Type 0) : Type 0 where
  pub latest_eth_block : Option Uint256
  pub latest_cosmos_block : Option ChainStatus
  pub unsigned_valsets : Outcome (List Valset)
  pub unsigned_batch : Outcome (Option TransactionBatch)
  pub unsigned_call : Outcome (Option LogicCall)
  pub valsets_contact : Contact Args Tx
  pub batch_contact : Contact Args Tx
  pub call_contact : Contact Args Tx

-- The answer to what one of the three functions that send confirmations has submitted.
pub data Signed (Tx : Type 0) : Type 0 where
  signed_valsets signed_batch signed_call : Reply Tx → Signed Tx

-- A refused fee or gas limit is fatal; every other error is only reported.
unfoldable pub check_for_fee_error : {Tx : Type 0} → Reply Tx → Outcome (Unit {0})
check_for_fee_error (reply tx) = ok tt
check_for_fee_error (fault (insufficient_fees min_fees)) = err unrecoverable_error
check_for_fee_error (fault insufficient_gas) = err unrecoverable_error
check_for_fee_error (fault bad_input) = ok tt
check_for_fee_error (fault other_error) = ok tt

-- A submission: its answer is tested, and kept.
abbrev pub after_answer :
    {Tx : Type 0}
    → (Reply Tx → Signed Tx)
    → Outcome (Reply Tx)
    → Outcome (Unit {0}) × List (Signed Tx)
after_answer f (ok res) = (check_for_fee_error res, f res ∷ [])
after_answer f (err e) = (err e, [])
after_answer f panic = (panic, [])

-- What comes after, unless the part before has ended the round.
abbrev pub and_then :
    {Tx : Type 0}
    → Outcome (Unit {0}) × List (Signed Tx)
    → Outcome (Unit {0}) × List (Signed Tx)
    → Outcome (Unit {0}) × List (Signed Tx)
and_then (ok u, before) (r, after) = (r, before ++ after)
and_then (err e, before) later = (err e, before)
and_then (panic, before) later = (panic, before)

-- A query whose error is reported, and whose result is signed.
abbrev pub on_ok :
    {A Tx : Type 0}
    → Outcome A
    → (A → Outcome (Unit {0}) × List (Signed Tx))
    → Outcome (Unit {0}) × List (Signed Tx)
on_ok (ok a) f = f a
on_ok (err e) f = (ok tt, [])
on_ok panic f = (panic, [])

abbrev pub on_some :
    {A Tx : Type 0}
    → Option A
    → (A → Outcome (Unit {0}) × List (Signed Tx))
    → Outcome (Unit {0}) × List (Signed Tx)
on_some none f = (ok tt, [])
on_some (some a) f = f a

module _ {Args Tx : Type 0} (p : Printer) (abi : Abi) (eth_key : EthPrivateKey)
    (key : PrivateKey Args) (fee : Coin) (gravity_id : List ℕ) where
  unfoldable pub sign_valsets :
      SignerRound Args Tx → List Valset → Outcome (Unit {0}) × List (Signed Tx)
  sign_valsets r [] = (ok tt, [])
  sign_valsets r (v ∷ vs) =
      after_answer signed_valsets
        (send_valset_confirms p abi r.valsets_contact eth_key key gravity_id fee (v ∷ vs))

  unfoldable pub sign_batch :
      SignerRound Args Tx → TransactionBatch → Outcome (Unit {0}) × List (Signed Tx)
  sign_batch r batch =
      after_answer signed_batch
        (send_batch_confirm p abi r.batch_contact eth_key key gravity_id fee (batch ∷ []))

  unfoldable pub sign_call : SignerRound Args Tx → LogicCall → Outcome (Unit {0}) × List (Signed Tx)
  sign_call r call =
      after_answer signed_call
        (send_logic_call_confirm p abi r.call_contact eth_key key gravity_id fee (call ∷ []))

  -- The result of a round, and the answers to what it submits.
  unfoldable pub signer_round : SignerRound Args Tx → Outcome (Unit {0}) × List (Signed Tx)
  signer_round r =
      if nodes_ready r.latest_eth_block r.latest_cosmos_block
      then and_then (on_ok r.unsigned_valsets (sign_valsets r)) (
          and_then (on_ok r.unsigned_batch (λ b. on_some b (sign_batch r)))
            (on_ok r.unsigned_call (λ c. on_some c (sign_call r))))
      else (ok tt, [])

  -- The rounds, up to the first error.
  unfoldable pub signer_loop : List (SignerRound Args Tx) → Outcome (Unit {0}) × List (Signed Tx)
  signer_loop [] = (ok tt, [])
  signer_loop (r ∷ rs) = and_then (signer_round r) (signer_loop rs)

-- The loop starts once the bridge's id is read; `none` is the end of the time for that.
unfoldable pub eth_signer_main_loop :
    {Args Tx : Type 0}
    → Printer
    → Abi
    → EthPrivateKey
    → PrivateKey Args
    → Coin
    → Option (List ℕ)
    → List (SignerRound Args Tx)
    → Outcome (Unit {0}) × List (Signed Tx)
eth_signer_main_loop p abi eth_key key fee none rs = (err unrecoverable_error, [])
eth_signer_main_loop p abi eth_key key fee (some gravity_id) rs =
    signer_loop p abi eth_key key fee gravity_id rs
