-- ===== src/Domain.antt =====
-- The services that move a case and its jobs together.
pub mod TransitionAndDispatch
pub mod CorrectTriage
pub mod Atomicity
pub mod Correction
