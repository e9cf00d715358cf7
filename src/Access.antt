-- ===== src/Access.antt =====
-- Who may do what: license tiers, permissions and their dependencies, and the request guards.
pub mod Tiers
pub mod Permissions
pub mod Engine
pub mod Closure
pub mod Least
pub mod Middleware
pub mod Grants
pub mod Roles
