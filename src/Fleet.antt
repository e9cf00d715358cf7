-- ===== src/Fleet.antt =====
-- Managed hosting: a customer's server from its signup to its removal.
pub mod Rows
pub mod Saga
pub mod Removal
pub mod Billing
pub mod Once
pub mod Endings
pub mod Polling
pub mod Watch
pub mod Alerts
