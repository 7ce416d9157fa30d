-- ===== src/Lib.antt =====
-- The QBFT consensus of this repository: its core, crates/rbft/src, and what the driver of
-- crates/rbft-node/src does with it.
--
-- A node keeps a `NodeState`: its blockchain, round, clock, the messages received, the proposal
-- accepted in the round and the block last prepared. Its driver calls `add_messages` with what came in
-- from the network and then `node_next`, which runs the handlers in a fixed order until one fires, and
-- returns the messages to send. At each tick the driver gathers the messages of its peers, answers and
-- sends requests for blocks, has the execution layer build a block when one is due, steps the node, and
-- commits a new head to the execution layer.
--
-- The parts, from the data up:
-- Types: the records of types.rs and the messages of types/qbft_message.rs.
-- Env: what other crates give (keccak256, the RLP encodings, ECDSA signing and recovery, the f64
--   arithmetic of the timeouts), a record that is the parameter of what uses it. Its one law is that
--   a signature gives back its signer. Also types/signature.rs and the digests.
-- Chain: types/blockchain.rs. The deque is a head and the older blocks, newest first. Chain/Prune:
--   pruning.
-- Config: types/configuration.rs.
-- Message: the keys and the checks of types/qbft_message.rs, and `proposer` of
--   node_auxilliary_functions.rs, which they call. Message/Leaders: the rotation of the leader.
-- State: types/node_state.rs. State/Order, State/Store: the sorted, indexed store. State/Intake:
--   `add_messages`; State/Retained: what it leaves. State/Rounds: the slice of a round.
-- Sign, Quorum, Votes, Seals, Changes, Justify, Received, BlockOrder:
--   node_auxilliary_functions.rs, in the order of its sections: signing, `f` and `quorum`, the
--   filters of prepares and commits, `valid_new_block`, round changes, the justification of a proposal
--   received and of one to make, and the order by which blocks are sorted. Justify/Unlocked: what the
--   justification of a later round does not look at.
-- Node: node.rs, `node_next` and its handlers. Node/Normal, Node/Changing, Node/Timeouts: the handlers
--   of the normal case, of round changes and of the round timeout. Node/Invariant: the invariant of a
--   node and what a handler may change. Node/Steps, Node/RoundSteps, Node/Deferred: each handler keeps
--   to it.
--   Node/Prepared, Node/Announced, Node/Adopted: what the handlers of prepares, commits and new blocks
--   establish. Votes/Authors: whose prepares are counted.
-- Checks: `valid_node_state` and the queries that change nothing. Checks/Adopting: when they pass.
--   State/Index: `set_messages_received`.
-- Codec: the encodings written by hand, over those of alloy_rlp, a record `Rlp`. Codec/Messages: the
--   tags of a `QbftMessage`, and the frames of rbft-node's rbft_consensus/rbft_protocol.rs.
--   Codec/RoundTrip: decoding gives back what was encoded.
-- Runs: a step, and the calls that a node sees as a relation. Runs/Invariant: what holds along them.
--   Runs/Steady, Runs/Handlers, Runs/RoundHandlers, Runs/Sending: what a handler, and a step, does to
--   the accepted proposal, and what it commits to. Runs/Remembered, Runs/Commits: the commits
--   of a run. Runs/Agreement: several validators and the blocks that they seal.
-- Driver: crates/rbft-node/src/rbft_consensus.rs. Driver/Reth: the execution layer, a record
--   of calls over a state of its own. Driver/Sync: block requests and answers; Sync/Answers,
--   Sync/Imports, Sync/CatchUp: what they give. Driver/Screening: the check of a proposal before
--   the core sees it. Driver/Commit: the commit of a new head to the execution layer.
--   Driver/Advance: a tick, `advance`, over all of these; Advance/Total, Advance/Offered,
--   Advance/Held: it does not panic, and keeps the invariant. Advance/InStep, Advance/Synced: it keeps the model in
--   step with the execution layer. Driver/Peers: the connection map and its events;
--   Peers/Register: the map as a register for each peer. Driver/Reconnect: the loop of a
--   reconnection. Driver/Dialing: which peers a node connects to. Driver/Express: the delivery
--   of transactions to the next proposer. Driver/Contract: rbft_consensus/on_chain_config.rs,
--   over Driver/Selection: the choice of an epoch's validators; Contract/Epoch, Contract/Total,
--   Selection/Sorted, Selection/Subset: what it gives. Driver/DebugBuffer: the ring buffer of the log.
--   Driver/Ticks: rbft_consensus/aligned_interval.rs and the health status of metrics.rs.
--   Driver/Outgoing: the sending at the end of a tick, and the resending of cached messages;
--   Outgoing/Dead: the peers that a failed send takes off the map. Driver/Resend: the timer
--   of the resends.
-- Logjam: crates/rbft-utils/src/logjam.rs, what a parsed line does to the state of the analysis.
--   Logjam/Maps: hash maps. Logjam/Histogram: the delays. Logjam/Delivery: the messages of the
--   summaries; Logjam/Network, Logjam/Missing, Logjam/Reports: what holds of them.
--   Logjam/Wire: the trace events; Wire/Counts, Wire/FirstSend: what is counted, and the first send.
-- Tests: a network of four validators, and each theorem at a concrete input. Tests/Forked: two of them
--   along a run in which they commit to two blocks of one height, in two rounds.
--
-- A function that the source splits by early returns may stand here in several definitions. Code that
-- can panic returns `Exec`, with `panic` for a failed `expect`, a division by 0 and the like. A u64 or usize keeps its wrap-around
-- as in a release build: `Chain.height`, `quorum`, the timeouts. Addresses, hashes, keys and
-- signatures are numbers. A hash set is a list without repetitions, a hash map an association list.
-- `partition_point` is the index of the first element that fails the test, as documented for a
-- partitioned slice; on others, where the source's binary search gives an unspecified index, it is a
-- choice. Loops run over lists, or over a number of rounds that the source
-- fixes before them, so there is no fuel.
--
-- The tick is sequential: the asynchronous calls of the source are made one after the other, and what
-- runs beside it (the connection handler, the reconnection tasks) is a sequence of events of its own.
-- Clock readings are arguments.
--
-- Not modelled: logging and the text that summarises a state; the byte formats of alloy_rlp and of its
-- derive macros; of the driver, the channels and its
-- startup; the network stack and the node binary of crates/rbft-node; of the log analysis, the reading
-- and parsing of files and what is printed; the other tools of crates/rbft-utils, and those of
-- crates/rbft-megatx and crates/rbft-validator-inspector; the contracts.
pub mod Base
pub mod Types
pub mod Env
pub mod Chain
pub mod Config
pub mod Message
pub mod State
pub mod Quorum
pub mod Sign
pub mod Votes
pub mod Seals
pub mod Changes
pub mod Justify
pub mod BlockOrder
pub mod Received
pub mod Node
pub mod Logjam
pub mod Runs
pub mod Checks
pub mod Codec
pub mod Driver
pub mod Tests
