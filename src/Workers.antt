-- ===== src/Workers.antt =====
-- src/workers: the workers of the agent queues, and src/agents/worker.ts, which runs them.
pub mod Envelope
pub mod Gates
pub mod Floor
pub mod IssueRefs
pub mod Replies
pub mod AutoReply
pub mod Categories
pub mod Frontline
pub mod Routing
pub mod Jobs
pub mod Escalations
pub mod Steward
pub mod Preparation
pub mod Requested
pub mod Prepared
pub mod Guards
pub mod Moves
pub mod Follow
pub mod Handover
pub mod Triage
pub mod Orphans
pub mod Leads
pub mod Outward
pub mod Sending
pub mod Drafting
pub mod Outcomes
pub mod Once
pub mod Critical
pub mod Outage
pub mod Outages
pub mod Unheard
