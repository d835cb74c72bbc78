-- ===== src/Examples.antt =====
-- Runs of the models at concrete inputs, and the theorems at those inputs.
pub mod Hosts
pub mod Payments
pub mod Mothers
pub mod Chains
pub mod Shards
pub mod Engines
pub mod Gates
pub mod Starts
pub mod Clients
