-- ===== src/Rcp.antt =====
-- src/pic_agentic/rcp: the envelope of the remote control protocol, its signature and its state.
pub mod Wire
pub mod Envelope
pub mod Dedup
pub mod Sequence
mod Examples
pub mod Samples
