-- ===== src/Notify.antt =====
-- Notifications: when they are sent, to whom, and how an unacknowledged one escalates.
pub mod Rows
pub mod Clock
pub mod Schedule
pub mod Dedup
pub mod Service
pub mod Emission
pub mod Digest
pub mod Letters
pub mod Escalation
pub mod Alerts
pub mod Board
