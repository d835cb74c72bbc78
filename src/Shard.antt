-- ===== src/Shard.antt =====
-- The shard manager of shard_manager/app.py: one supervised Petals server process, the routes that
-- start, stop and reload it, and the runners that are cached for the HTTP chain.
pub mod Command
pub mod Process
pub mod Routes
pub mod Supervised
pub mod Caches
pub mod Heartbeat
