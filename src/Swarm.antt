-- ===== src/Swarm.antt =====
-- The layer map of orchestrator/app/swarm_map.py.
pub mod Manifest
pub mod Live
pub mod Complete
pub mod Tiling
pub mod Reached
