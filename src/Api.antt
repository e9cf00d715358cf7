-- ===== src/Api.antt =====
-- Routes of the API that write to several components.
pub mod Approvals
pub mod Refusals
pub mod Decisions
pub mod Outcomes
pub mod Rejections
