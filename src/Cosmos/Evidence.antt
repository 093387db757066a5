-- ===== src/Cosmos/Evidence.antt =====
-- Evidence of a bad signature: cosmos_gravity/src/utils.rs, and its submission in send.rs.
use near_aurora_bridge.Base.{ℕ, List, [], ◌∷◌, Outcome, ok, unwrap, ◌>>=◌}
use near_aurora_bridge.Types.{EthSignature}
use near_aurora_bridge.Valset.{Valset}
use near_aurora_bridge.Batches.{TransactionBatch}
use near_aurora_bridge.Batches.Conversion.{OutgoingTxBatch}
use near_aurora_bridge.Logic.{LogicCall}
use near_aurora_bridge.Logic.Conversion.{OutgoingLogicCall, logic_call_into}
use near_aurora_bridge.Cosmos.{
  Coin, submit_bad_signature_evidence_msg, Reply, Printer, Contact, PrivateKey, broadcast, fee_of,
}
use near_aurora_bridge.Cosmos.Protobuf.{ValsetMessage, valset_into, batch_into}

pub data BadSignatureEvidence : Type 0 where
  valset_evidence : Valset → BadSignatureEvidence
  batch_evidence : TransactionBatch → BadSignatureEvidence
  logic_call_evidence : LogicCall → BadSignatureEvidence

-- What deep_space encodes, under the type's address.
pub data ProtoMessage : Type 0 where
  proto_valset : ValsetMessage → ProtoMessage
  proto_batch : OutgoingTxBatch → ProtoMessage
  proto_logic_call : OutgoingLogicCall → ProtoMessage

module _ (d : Printer) (sender_to_string : List ℕ → List ℕ)
    (encode_any : ProtoMessage → List ℕ) where
  unfoldable pub to_any : BadSignatureEvidence → List ℕ
  to_any (valset_evidence v) = encode_any (proto_valset (valset_into d v))
  to_any (batch_evidence b) = encode_any (proto_batch (batch_into d sender_to_string b))
  to_any (logic_call_evidence l) = encode_any (proto_logic_call (logic_call_into d l))

  unfoldable pub submit_bad_signature_evidence :
      {Args Tx : Type 0}
      → Contact Args Tx
      → PrivateKey Args
      → Coin
      → BadSignatureEvidence
      → EthSignature
      → Outcome (Reply Tx)
  submit_bad_signature_evidence contact key fee signed_object signature = do
    our_address ← unwrap (key.to_address contact.get_prefix)
    ok (
        broadcast contact key our_address (fee_of fee 500000000) (
          submit_bad_signature_evidence_msg (to_any signed_object)
            (d.bytes_to_hex_str (d.signature_to_bytes signature))
            (d.cosmos_address_to_string our_address)
          ∷ []))
