-- ===== src/Tests.antt =====
-- Runs of the agent in a small outside world, at which the theorems' hypotheses hold.
mod Calm
mod Witnesses
mod Services
mod Commands
mod Threads
