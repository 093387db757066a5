-- ===== src/Lib.antt =====
-- The Rust orchestrator of the bridge between a Cosmos chain and Ethereum (orchestrator/). Each
-- validator of the Cosmos chain runs it. Its oracle reads the events of the bridge's contract on
-- Ethereum and sends claims about them to Cosmos; its signer signs the validator sets, the batches of
-- transfers and the logic calls that Cosmos prepares; its relayer takes those that enough validators
-- have signed from Cosmos to Ethereum.
--
-- The oracle: `eth_oracle_main_loop` starts from the block that `get_last_checked_block` finds and
-- calls `check_for_events` on the blocks since; that parses the logs into events, drops those whose
-- nonce Cosmos has seen, sends the rest by `send_ethereum_claims`, and returns the block that is
-- checked next. The signer: `eth_signer_main_loop` asks Cosmos for what is not signed yet and sends
-- confirmations, which the relayer reads back. The relayer:
-- `find_latest_valid_valset` and `get_batches_and_signatures` ask Cosmos for what there is to
-- relay, and test each by `order_sigs`, which puts the signatures in the order of the validator set
-- that the contract holds and compares the power that has signed with a threshold. Then
-- `relay_valsets` and `submit_batches` send what the contract would take; `relay_logic_calls` does
-- the same for logic calls. A user's transfers start with `send_to_cosmos` or `send_to_eth`,
-- the latter in the client's `cosmos_to_eth`, which connects by `create_rpc_connections`.
--
-- Files, and the code under orchestrator/ that they model:
--   Base       what all share; Base/Results: GravityError of gravity_utils/src/error.rs, and results
--              with panics; Base/Words: the arithmetic of 64 bits
--   HashMap    std::collections::HashMap, as a list of entries
--   BTreeMap   std::collections::BTreeMap, as a list of entries in the order of the keys
--   Types      gravity_utils/src/types.rs, and the types of clarity and num256
--   Float      the test `gravity_power_to_percent(power) < 66f32` of
--              gravity_utils/src/types/valsets.rs, in the 24-bit precision of an f32
--   Valset     Valset and ValsetMember of gravity_utils/src/types/valsets.rs; Diff: power_diff
--   Confirm    the trait Confirm and get_hashmap of the same file, with the three kinds of
--              confirmation of valsets.rs, batches.rs and logic_call.rs
--   Signing    get_signature_status and order_sigs of valsets.rs; GravitySignature and to_arrays of
--              gravity_utils/src/types/signatures.rs
--   Bytes      slices of a log's data, UTF-8, and the layout that the contract uses
--   Events     gravity_utils/src/types/ethereum_events.rs: from_log, from_logs and
--              filter_by_event_nonce of the five events
--   Retry      gravity_utils/src/get_with_retry.rs
--   Oracle     orchestrator/src/ethereum_event_watcher.rs, and eth_oracle_main_loop of
--              orchestrator/src/main_loop.rs
--   Resync     orchestrator/src/oracle_resync.rs
--   Batches    gravity_utils/src/types/batches.rs: the structs, get_checkpoint_values, and the
--              conversions from protobuf messages
--   Logic      gravity_utils/src/types/logic_call.rs, and the message that is signed for a logic
--              call, of ethereum_gravity/src/message_signatures.rs
--   Messages   ethereum_gravity/src/message_signatures.rs, for validator sets and batches
--   Cosmos     cosmos_gravity/src/send.rs: Claims (send_ethereum_claims), Confirms (the three
--              functions that send confirmations, and the parsing of what they send), Requests and
--              Evidence (the others); cosmos_gravity/src/query.rs in Queries; in Protobuf the
--              conversions of validator sets and batches of gravity_utils/src/types
--   Signer     eth_signer_main_loop and check_for_fee_error of orchestrator/src/main_loop.rs
--   Startup    the checks of gravity_utils/src/connection_prep.rs; Connections: the setup of the
--              connections in the same file, with the operations on texts in Urls
--   Transfers  ethereum_gravity/src/send_to_cosmos.rs and deploy_erc20.rs
--   Client     nabt/src/client/cosmos_to_eth.rs
--   Ethereum   ethereum_gravity/src/submit_batch.rs, valset_update.rs and logic_call.rs, and of
--              utils.rs the downcasts, get_tx_batch_nonce, get_valset_nonce, get_logic_call_nonce,
--              GasCost and encode_valset_struct
--   Relayer    relayer/src/valset_relaying.rs; relayer/src/batch_relaying.rs, with submit_batches
--              for one token; relayer/src/logic_call_relaying.rs; and
--              relayer/src/find_latest_valset.rs
--
-- State and effects. A function that asks a node takes the answers as a record of functions
-- (World, Chain, ValsetQueries, BatchQueries, CallQueries, ValsetLogs, Web3, Node, Network,
-- Chains, GravityQueryClient), and one that sends something returns what it sends, or the answers
-- to it; a message to Cosmos goes through `broadcast`, whose node is the Contact. A result is
-- `ok`, `err` or `panic`. What the crates clarity, num256, web30, url and deep_space do is a
-- parameter (Clarity, Abi, Num256, Reader, Crates, Parser, ConfirmParser, Printer, Wide,
-- PrivateKey, EthPrivateKey, and parse_url of Network). What is supposed of them in general is
-- that words of bytes are read as numbers and addresses (ReadsWords, which the big-endian reader
-- of Bytes/BigEndian satisfies), that a sum that fits 256 bits is exact (Adds, AddsExactly,
-- WideExactly), that what they print they parse back (ReadsBack, ReadsConfirms), and that a key's
-- address can be recovered from what it signs (Signs).
--
-- Bounds and fuel. Sums of powers wrap around at 64 bits, as in a release build; theorems on sums
-- say where the total fits. Numbers of 256 bits are natural numbers; num256's operations are
-- parameters where they may panic out of range, but for the one step from an account's nonce to
-- the next. `get_last_checked_block` repeats a range as long as a node does not answer, and so
-- recurses on fuel; each round that the nodes answer goes 5000 blocks back, so that one round for
-- each 5000 blocks is enough, besides those in which the nodes fail. `find_latest_valset` goes
-- back in the same steps, and returns where a node fails. All other loops run over a list or down
-- from a nonce.
--
-- Not modelled: logging, waits and timers, what the chains make of a transaction, the loop around the
-- relaying functions, configuration, the command line client (nabt) but for its transfers to
-- Ethereum, the test runner, and generated code.
-- Each call of a node is answered by a fixed function, so that a node that changes its answer within
-- one call is not seen; from one round of the oracle to the next the answers may change, and so they
-- may from one batch to the next, and around the sending of a transaction. The tokens whose batches
-- `submit_batches` sends at the same time do not share state and are modelled one by one.
pub mod Base
pub mod HashMap
pub mod Types
pub mod Float
pub mod Valset
pub mod Confirm
pub mod Signing
pub mod Bytes
pub mod Events
pub mod Retry
pub mod Oracle
pub mod Resync
pub mod Batches
pub mod Logic
pub mod Messages
pub mod BTreeMap
pub mod Cosmos
pub mod Signer
pub mod Startup
pub mod Transfers
pub mod Client
pub mod Ethereum
pub mod Relayer
