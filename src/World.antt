-- ===== src/World.antt =====
-- The outside world of the agent: every call that leaves the repository, what is known of its
-- answers, and the state that the agent's functions share.
mod Calls
pub mod Go
pub mod Keeps
pub mod Locks
pub mod Confirms
pub mod Returns
pub use Calls.*
