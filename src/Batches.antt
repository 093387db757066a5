-- ===== src/Batches.antt =====
-- `TransactionBatch` of gravity_utils/src/types/batches.rs.
pub mod Conversion
mod Tests
use near_aurora_bridge.Base.{
  ℕ, ◌≡◌, List, [], ◌∷◌, ◌++◌, map, ◌==◌, ==_self, length, Outcome, ok, assert, length-map, ◌>>◌,
}
use mathlib.Core.List.{append-nil, append_assoc}
use near_aurora_bridge.Types.{EthAddress, Uint256, Erc20Token}

-- The sender's Cosmos address is only passed on.
pub record BatchTransaction : Type 0 where
  pub id : ℕ
  pub sender : List ℕ
  pub destination : EthAddress
  pub erc20_token : Erc20Token
  pub erc20_fee : Erc20Token

pub record TransactionBatch : Type 0 where
  pub nonce : ℕ
  pub batch_timeout : ℕ
  pub transactions : List BatchTransaction
  pub total_fee : Erc20Token
  pub token_contract : EthAddress

pub record Checkpoint : Type 0 where
  pub amounts : List Uint256
  pub destinations : List EthAddress
  pub fees : List Uint256

checkpoint_loop : List BatchTransaction → Checkpoint → Checkpoint
checkpoint_loop [] out = out
checkpoint_loop (item ∷ items) out = checkpoint_loop items (record {
  amounts = out.amounts ++ item.erc20_token.amount ∷ [];
  destinations = out.destinations ++ item.destination ∷ [];
  fees = out.fees ++ item.erc20_fee.amount ∷ [];
})

-- The three vectors, after the two assertions on their lengths.
unfoldable pub get_checkpoint_values : TransactionBatch → Outcome Checkpoint
unfolding checkpoint_loop
get_checkpoint_values batch = do
  let out =
      checkpoint_loop batch.transactions (record { amounts = []; destinations = []; fees = [] })
  assert (length out.amounts == length out.destinations)
  assert (length out.fees == length out.destinations)
  ok out

-- The vectors run parallel to the transactions.
checkpoint_loop-eq :
    (items : List BatchTransaction) (out : Checkpoint)
    → checkpoint_loop items out ≡ record {
      amounts = out.amounts ++ map (λ i. i.erc20_token.amount) items;
      destinations = out.destinations ++ map (λ i. i.destination) items;
      fees = out.fees ++ map (λ i. i.erc20_fee.amount) items;
    }
unfolding checkpoint_loop
checkpoint_loop-eq [] out = simp append-nil
checkpoint_loop-eq (item ∷ items) out = simp (
  checkpoint_loop-eq items (record {
    amounts = out.amounts ++ item.erc20_token.amount ∷ [];
    destinations = out.destinations ++ item.destination ∷ [];
    fees = out.fees ++ item.erc20_fee.amount ∷ [];
  }),
  append_assoc,
)

-- Neither assertion on the lengths fails, and the result holds the amounts, the destinations and the
-- fees of the transactions, in their order.
pub get_checkpoint_values-eq :
    (batch : TransactionBatch)
    → get_checkpoint_values batch
      ≡ ok (record {
        amounts = map (λ i. i.erc20_token.amount) batch.transactions;
        destinations = map (λ i. i.destination) batch.transactions;
        fees = map (λ i. i.erc20_fee.amount) batch.transactions;
      })
unfolding get_checkpoint_values
get_checkpoint_values-eq batch = rw (
  checkpoint_loop-eq batch.transactions (record { amounts = []; destinations = []; fees = [] }),
  length-map (λ (i : BatchTransaction). i.erc20_token.amount) batch.transactions,
  length-map (λ (i : BatchTransaction). i.erc20_fee.amount) batch.transactions,
  length-map (λ (i : BatchTransaction). i.destination) batch.transactions,
  ==_self (length batch.transactions),
)
