-- ===== src/Registry.antt =====
-- The swarm registry of orchestrator/app/registry.py.
pub mod Range
pub mod Address
pub mod Host
pub mod Donor
pub mod Join
pub mod Ready
pub mod Leave
pub mod Cover
pub mod Sound
pub mod Reach
pub mod Losses
pub mod Reclaim
