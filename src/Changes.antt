-- ===== src/Changes.antt =====
-- Change requests: their rows, the state machine over their status, and what it allows.
pub mod Rows
pub mod Machine
pub mod Graph
pub mod Transition
pub mod Lookup
pub mod History
