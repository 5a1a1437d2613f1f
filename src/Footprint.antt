-- ===== src/Footprint.antt =====
-- Which files, volumes and commands a handler touches, whatever the outside answers.
pub mod Services
pub mod Prepare
pub mod Start
pub mod Unwrap
pub mod Setup
pub mod Stop
