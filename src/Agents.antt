-- ===== src/Agents.antt =====
-- The agentic engine: action types, token budgets, the rate limit of dispatches, and the dispatcher.
pub mod Actions
pub mod Budget
pub mod RateLimit
pub mod Dispatcher
pub mod Window
pub mod Dispatch
