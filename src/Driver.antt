-- ===== src/Driver.antt =====
-- The pure parts of the driver, crates/rbft-node/src: what the asynchronous tasks compute and the state
-- that they share. Channels, clocks, the network and the execution engine are parameters.
pub mod Ticks
pub mod DebugBuffer
pub mod Peers
pub mod Outgoing
pub mod Resend
pub mod Reconnect
pub mod Reth
pub mod Sync
pub mod Screening
pub mod Dialing
pub mod Express
pub mod Selection
pub mod Contract
pub mod Commit
pub mod Advance
