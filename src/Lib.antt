-- ===== src/Lib.antt =====
-- cala: a double-entry ledger with balances by currency and layer, maintained inline as transactions
-- are posted or by a streaming rollup, in Rust on PostgreSQL.
--
-- A transaction template and its parameters are evaluated (CEL expressions) into a prepared
-- transaction whose entries balance in every currency and layer. A batch of prepared transactions is
-- validated, and its entries are folded into balance snapshots, one chain of versions for each
-- account and currency that an entry fans into: its own account, and the account sets above it.
--
-- Files and what they model:
--   Prelude     numbers, maps, results and lists that the other files share
--   Types       cala-ledger-core-types/src/{primitives,balance,entry}.rs; `DecimalOps` is the
--               interface of the crate rust_decimal, met by the integers
--   Cel         cala-cel-interpreter/src/{value,cel_type,error}.rs, the coercions of results;
--               `CelOps` is the interface of the crate cel and of the parsers
--   Param       cala-ledger-core-types/src/param.rs, cala-ledger/src/param/mod.rs
--   Template    cala-ledger/src/tx_template/mod.rs: `prepare_transaction`, `prep_entries`
--   Balance     cala-ledger/src/balance/{snapshot,account_balance}.rs: `update_snapshot`,
--               `new_snapshot`, the folds `from_entries` and `from_ec_entries`, `BalanceRange`;
--               cala-ledger/src/balance/effective/data.rs: `re_calculate_snapshots`, `into_snapshots`
--   Velocity    cala-ledger/src/velocity/{context,account_control/value,balance/mod}.rs:
--               the limits of a control, which of them count an entry, the enforcement of a batch;
--               the read of the velocity balances is an argument
--   AccountSet  cala-ledger/src/account_set/graph_cache.rs: the snapshot of the graph, its expansion, its
--               refresh while the graph changes, the check of new members; graph_validation.rs: the
--               count of membership paths, `SetDag` with its traversal, `validate_set_memberships`.
--               A walk has fuel for one visit of each known set, and one more, and is proved not
--               to run out; the binary search has fuel for the length of the batch, and one more
--   Posting     cala-ledger/src/posting/mod.rs: `prepare_all`, `validate`, `fold_balances`; what the
--               flow reads (`PostingState`) is an argument; cala-ledger/src/posting/template_cache.rs;
--               cala-ledger/src/posting/repo.rs: `BalanceKeys`, with `entry_balance_keys`
--   Tests       concrete data, and the theorems at it
--
-- Numbers: a `u32` counter keeps its wrap modulo 2^32 (the release build's); a decimal is a value of
-- an interface whose laws state exact sums, which the crate gives where a result fits its mantissa.
-- Where a sum overflows, the crate panics: that panic is outside the model, and no theorem denies it.
-- An expression may read the clock by a builtin of its CEL context: in one call of a modelled
-- function the clock stands still, as if it were read once. An identifier, a currency and a time are numbers that are compared. A `HashMap` is an association
-- list whose order no statement depends on. All other recursion is structural.
--
-- Not modelled: the SQL statements, the outbox, the event sourcing of entities, the CEL interpreter
-- and the entry points that call the modelled functions around them.
pub mod Prelude
pub mod Types
pub mod Cel
pub mod Param
pub mod Template
pub mod Balance
pub mod Velocity
pub mod AccountSet
pub mod Posting
pub mod Tests
