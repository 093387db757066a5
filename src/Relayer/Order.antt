-- ===== src/Relayer/Order.antt =====
-- What `submit_batches` sends for a token: due batches, in their order.
use near_aurora_bridge.Base.{
  ℕ, ◌+◌, ◌≡◌, refl, Bool, Option, none, some, List, [], ◌∷◌, Outcome, ok, err, panic,
}
use near_aurora_bridge.Types.{EthAddress, Uint256, Clarity}
use near_aurora_bridge.Valset.{Valset}
use near_aurora_bridge.Messages.{Abi}
use near_aurora_bridge.Ethereum.{Crates, Transaction, Web3, get_tx_batch_nonce}
use near_aurora_bridge.Ethereum.Submit.{Ours}
use near_aurora_bridge.Relayer.Batches.{SubmittableBatch}
use near_aurora_bridge.Relayer.Submit.{
  Moments, submit_batch, add_round, submit_loop, submit_token_batches,
}
use near_aurora_bridge.Relayer.Due.{Due, Ready, submit_batch-Due, submit_batch-Ready}

module _ (k : Clarity) (abi : Abi) (x : Crates) (ours : Ours) (current_valset : Valset) where
  module _ (weth : EthAddress) (market : Bool) where
    -- The round panics, as where an answer of the node does not fit its type.
    pub Crashes : Uint256 → ℕ → Moments → SubmittableBatch → Type 0
    Crashes height latest at b =
        (submit_batch k abi x ours current_valset weth market height latest at b).0 ≡ panic

    -- Round by round from round `i`: a transaction that is due is sent for the batch, or the batch is
    -- passed over, which is then not ready. A round that panics is the last.
    pub data Relays (height : Uint256) (latest : ℕ) (at : ℕ → Moments)
        : ℕ → List SubmittableBatch → List (SubmittableBatch × Transaction) → Type 0 where
      finish : (i : ℕ) → Relays height latest at i [] []
      crash :
          (i : ℕ) (b : SubmittableBatch) (bs : List SubmittableBatch)
          → Crashes height latest (at i) b
          → Relays height latest at i (b ∷ bs) []
      crash_sent :
          (i : ℕ) (b : SubmittableBatch) (t : Transaction) (bs : List SubmittableBatch)
          → Crashes height latest (at i) b
          → Due k abi x ours current_valset weth market height latest (at i) b t
          → Relays height latest at i (b ∷ bs) ((b, t) ∷ [])
      pass :
          (i : ℕ) (b : SubmittableBatch) (bs : List SubmittableBatch)
          (sent : List (SubmittableBatch × Transaction))
          → ¬ Ready k abi x ours current_valset weth market height latest (at i) b
          → Relays height latest at (i + 1) bs sent
          → Relays height latest at i (b ∷ bs) sent
      send :
          (i : ℕ) (b : SubmittableBatch) (t : Transaction) (bs : List SubmittableBatch)
          (sent : List (SubmittableBatch × Transaction))
          → Due k abi x ours current_valset weth market height latest (at i) b t
          → Relays height latest at (i + 1) bs sent
          → Relays height latest at i (b ∷ bs) ((b, t) ∷ sent)

    -- One round before the later ones, by its result.
    add_round-Relays :
        (height : Uint256) (latest : ℕ) (at : ℕ → Moments) (i : ℕ) (b : SubmittableBatch)
        (bs : List SubmittableBatch) (sent : List (SubmittableBatch × Transaction))
        (r : Outcome (Unit {0}) × Option Transaction)
        → (r.0 ≡ panic → Crashes height latest (at i) b)
        → (r.1 ≡ none → ¬ Ready k abi x ours current_valset weth market height latest (at i) b)
        → ((t : Transaction)
            → r.1 ≡ some t
            → Due k abi x ours current_valset weth market height latest (at i) b t)
        → Relays height latest at (i + 1) bs sent
        → Relays height latest at i (b ∷ bs) (add_round b r sent)
    add_round-Relays height latest at i b bs sent (panic, none) dies idle due rest =
        crash i b bs (dies refl)
    add_round-Relays height latest at i b bs sent (panic, some t) dies idle due rest =
        crash_sent i b t bs (dies refl) (due t refl)
    add_round-Relays height latest at i b bs sent (ok u, none) dies idle due rest =
        pass i b bs sent (idle refl) rest
    add_round-Relays height latest at i b bs sent (ok u, some t) dies idle due rest =
        send i b t bs sent (due t refl) rest
    add_round-Relays height latest at i b bs sent (err e, none) dies idle due rest =
        pass i b bs sent (idle refl) rest
    add_round-Relays height latest at i b bs sent (err e, some t) dies idle due rest =
        send i b t bs sent (due t refl) rest

    submit_loop-Relays :
        (height : Uint256) (latest : ℕ) (at : ℕ → Moments) (i : ℕ) (bs : List SubmittableBatch)
        → Relays height latest at i bs
            (submit_loop k abi x ours current_valset weth market height latest at i bs)
    unfolding submit_loop Crashes
    submit_loop-Relays height latest at i [] = finish i
    submit_loop-Relays height latest at i (b ∷ bs) =
        add_round-Relays height latest at i b bs _
          (submit_batch k abi x ours current_valset weth market height latest (at i) b) (λ e. e)
          (λ e ready.
            submit_batch-Ready k abi x ours current_valset weth market height latest (at i) b ready
              e)
          (submit_batch-Due k abi x ours current_valset weth market height latest (at i) b)
          (submit_loop-Relays height latest at (i + 1) bs)

    -- Where the Ethereum node gives the block height and the contract's latest nonce for the token,
    -- up to a round that panics: a transaction is sent for each batch that is ready, in the batches'
    -- order. What is sent is for a batch with a nonce above the latest and a timeout that is not
    -- behind the block height, both by the answers before the loop and by those when it is sent; it
    -- carries the batch with the ordered signatures; and if the market is enabled, the batch's fees
    -- in WETH were worth more than the estimated cost.
    pub submit_token_batches-Relays :
        (web3 : Web3) (at : ℕ → Moments) (token : EthAddress) (bs : List SubmittableBatch)
        (height : Uint256) (latest : ℕ)
        → web3.eth_block_number ≡ some height
        → get_tx_batch_nonce x web3 ours.contract token ours.eth_address ≡ ok latest
        → Relays height latest at 0 bs
            (submit_token_batches k abi x ours current_valset weth market web3 at token bs)
    unfolding submit_token_batches
    submit_token_batches-Relays web3 at token bs height latest eh el =
        simp (submit_token_batches, eh, el) (submit_loop-Relays height latest at 0 bs)
