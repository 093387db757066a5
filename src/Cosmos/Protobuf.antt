-- ===== src/Cosmos/Protobuf.antt =====
-- The conversions between validator sets, batches and protobuf messages: valsets.rs and batches.rs
-- of gravity_utils/src/types.
use near_aurora_bridge.Base.{
  ℕ, ◌^◌, ◌<◌, ◌≡◌, refl, ap, ◌∙◌, ◌≢◌, inl, inr, Option, none, some, List, [], ◌∷◌, map, ◌==◌,
  if◌then◌else◌, ==_ne, Option-cases, Outcome, ok, unwrap, try_map, ◌>>=◌,
}
use near_aurora_bridge.Types.{EthAddress, Erc20Token, zero_address}
use near_aurora_bridge.Valset.{Valset, ValsetMember}
use near_aurora_bridge.Batches.{BatchTransaction, TransactionBatch}
use near_aurora_bridge.Batches.Conversion.{
  OutgoingTransferTx, OutgoingTxBatch, Parser, Adds, total_fees, token_try_from,
  transaction_try_from, batch_try_from, batch_try_from-eq,
}
use near_aurora_bridge.Logic.Conversion.{token_into, ReadsBack}
use near_aurora_bridge.Cosmos.{BridgeValidator, Printer}
use near_aurora_bridge.Cosmos.Claims.{bridge_validator, validator_address}

-- gravity_proto::gravity::Valset
pub record ValsetMessage : Type 0 where
  pub nonce : ℕ
  pub height : ℕ
  pub members : List BridgeValidator
  pub reward_amount : List ℕ
  pub reward_token : List ℕ

-- `reward_token.unwrap_or(ZERO_ADDRESS)`, and back.
abbrev reward_token_from : EthAddress → Option EthAddress
reward_token_from parsed_reward_token =
    if parsed_reward_token == zero_address then none else some parsed_reward_token

abbrev reward_token_into : Option EthAddress → EthAddress
reward_token_into none = zero_address
reward_token_into (some a) = a

module _ (p : Parser) where
  -- A string that is no address stands for no address.
  abbrev pub member_from : BridgeValidator → ValsetMember
  member_from input = record {
    power = input.power;
    eth_address = p.parse_eth_address input.ethereum_address;
  }

  unfoldable pub valset_from : ValsetMessage → Outcome Valset
  valset_from input = do
    parsed_reward_token ← unwrap (p.parse_eth_address input.reward_token)
    reward_amount ← unwrap (p.parse_uint input.reward_amount)
    ok (record {
      nonce = input.nonce;
      members = map member_from input.members;
      reward_amount = reward_amount;
      reward_token = reward_token_from parsed_reward_token;
    })

module _ (d : Printer) where
  -- The height is a dummy, which no signature covers.
  abbrev pub valset_into : Valset → ValsetMessage
  valset_into v = record {
    nonce = v.nonce;
    height = 0;
    members = map (bridge_validator d) v.members;
    reward_amount = d.uint256_to_string v.reward_amount;
    reward_token = d.eth_address_to_string (reward_token_into v.reward_token);
  }

  -- `sender_to_string` prints the sender's address.
  module _ (sender_to_string : List ℕ → List ℕ) where
    abbrev pub transaction_into : BatchTransaction → OutgoingTransferTx
    transaction_into t = record {
      id = t.id;
      sender = sender_to_string t.sender;
      dest_address = d.eth_address_to_string t.destination;
      erc20_token = some (token_into d t.erc20_token);
      erc20_fee = some (token_into d t.erc20_fee);
    }

    abbrev pub batch_into : TransactionBatch → OutgoingTxBatch
    batch_into b = record {
      batch_nonce = b.nonce;
      batch_timeout = b.batch_timeout;
      transactions = map transaction_into b.transactions;
      token_contract = d.eth_address_to_string b.token_contract;
    }

module _ (p : Parser) (d : Printer) (reads : ReadsBack p d) where
  member_from-into :
      p.parse_eth_address [] ≡ none
      → (m : ValsetMember) → p.parse_eth_address (validator_address d m.eth_address) ≡ m.eth_address
  member_from-into empty m = elim (Option-cases m.eth_address) [
    | inl e ↦ rw e empty
    | inr (a, e) ↦ rw e (reads.0 a)
  ]

  members_from-into :
      p.parse_eth_address [] ≡ none
      → (ms : List ValsetMember) → map (member_from p) (map (bridge_validator d) ms) ≡ ms
  members_from-into empty [] = refl
  members_from-into empty (m ∷ ms) = simp (member_from-into empty m, members_from-into empty ms)

  reward_from-into :
      (o : Option EthAddress) → o ≢ some zero_address → reward_token_from (reward_token_into o) ≡ o
  reward_from-into none n = refl
  reward_from-into (some a) n = rw (==_ne a zero_address (λ e. n (ap some e))) refl

  -- Where the crates parse back what they print, and the empty string is no address: a validator set
  -- survives the conversion to its protobuf message and back, members without an Ethereum key
  -- included, unless its reward is in the token with the zero address.
  pub valset_from-into :
      p.parse_eth_address [] ≡ none
      → (v : Valset) → v.reward_token ≢ some zero_address
      → valset_from p (valset_into d v) ≡ ok v
  unfolding valset_from
  valset_from-into empty v n =
      rw (reads.0 (reward_token_into v.reward_token), reads.1 v.reward_amount)
        (simp (members_from-into empty v.members, reward_from-into v.reward_token n))

  module _ (sender_to_string : List ℕ → List ℕ)
      (senders : (s : List ℕ) → p.parse_cosmos_address (sender_to_string s) ≡ some s) where
    token_reads : (t : Erc20Token) → token_try_from p (token_into d t) ≡ ok t
    unfolding token_try_from
    token_reads t = rw (reads.1 t.amount, reads.0 t.token_contract_address) refl

    transactions_from-into :
        (ts : List BatchTransaction)
        → try_map (transaction_try_from p) (map (transaction_into d sender_to_string) ts) ≡ ok ts
    unfolding try_map transaction_try_from
    transactions_from-into [] = refl
    transactions_from-into (t ∷ ts) =
        rw
          (
            senders t.sender,
            reads.0 t.destination,
            token_reads t.erc20_token,
            token_reads t.erc20_fee,
            transactions_from-into ts,
          )
          refl

    -- Under the same conditions, and where a sum that fits 256 bits is exact: a batch survives the
    -- conversion to its protobuf message and back, if it has transactions, its token is that of the
    -- first fee, and its total fee is the sum of the fees, which fits.
    pub batch_try_from-into :
        Adds p
        → (b : TransactionBatch) (t : BatchTransaction) (ts : List BatchTransaction)
        → b.transactions ≡ t ∷ ts
        → b.token_contract ≡ t.erc20_fee.token_contract_address
        → b.total_fee ≡ record {
          amount = total_fees (t ∷ ts);
          token_contract_address = t.erc20_fee.token_contract_address;
        }
        → total_fees (t ∷ ts) < 2 ^ 256
        → batch_try_from p (batch_into d sender_to_string b) ≡ ok b
    batch_try_from-into adds b t ts et ec ef fits =
        batch_try_from-eq p adds (batch_into d sender_to_string b) t ts
          (rw et (transactions_from-into (t ∷ ts))) fits
        ∙ rw (← et, ← ef, ← ec) refl
