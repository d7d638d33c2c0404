-- ===== src/Balance.antt =====
-- Balances (cala-ledger/src/balance).
pub mod Snapshot
pub mod Fold
pub mod Direction
pub mod Effective
