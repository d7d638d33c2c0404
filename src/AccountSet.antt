-- ===== src/AccountSet.antt =====
-- The account set graph (cala-ledger/src/account_set/{graph_cache,graph_validation}.rs).
pub mod Walk
pub mod Graph
pub mod Expand
pub mod Cache
pub mod Paths
pub mod Check
pub mod Dag
pub mod Validate
