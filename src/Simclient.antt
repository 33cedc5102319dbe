-- ===== src/Simclient.antt =====
-- src/pic_agentic/simclient: the cluster's side of the protocol.
pub mod Follower
pub mod Ledger
pub mod Client
pub mod Control
mod Examples
