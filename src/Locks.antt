-- ===== src/Locks.antt =====
-- That every handler of the daemon keeps the discipline of its mutexes.
mod Services
pub mod Handlers
