-- ===== src/Server.antt =====
-- src/pic_agentic/server/simulation.py: the server's registry of simulations, its event log and the
-- wait for a state.
pub mod Registry
pub mod Events
pub mod Service
pub mod Wait
mod Examples
