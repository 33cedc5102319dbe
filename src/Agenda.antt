-- ===== src/Agenda.antt =====
-- src/pic_agentic/agenda: declared simulation campaigns.
pub mod Model
pub mod Addressing
pub mod Budget
pub mod Planner
pub mod Campaign
pub mod Engine
pub mod Reuse
mod Examples
