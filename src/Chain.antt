-- ===== src/Chain.antt =====
-- HTTP-chained inference of shard_manager/http_chain.py and shard_manager/local_runner.py (the
-- functions modelled are the same in the copies under packages/cli/runtime): every online host runs its
-- slice of the layers.
pub mod Hosts
pub mod Forward
pub mod Routes
pub mod Whole
pub mod Loop
