-- ===== src/Velocity/Enforce.antt =====
-- `new_snapshots_with_limit_enforcement` and `enforce_batch_in_op`
-- (cala-ledger/src/velocity/balance/mod.rs).
pub mod Valued
pub mod Counts
pub mod Collected
pub mod Own
pub mod Chained
pub mod Batch
use cala.Prelude.{
  list_or_empty, ℕ, Option, none, some, List, [], ◌∷◌, Result, ok, err, ◌>>=◌, ◌>>◌, nat_eq, Eq,
  map, is_empty, if◌then◌else◌,
}
use cala.Prelude.Map.{Map, get, insert, remove, keys}
use cala.Types.{
  DecimalOps, BalanceSnapshot, EntryValues, TransactionValues, TransactionId, AccountId,
  AccountSetId, JournalId, DateTime, VelocityContextAccountValues,
}
use cala.Cel.Eval.{CelOps}
use cala.Balance.Fold.{next_snapshot}
use cala.Velocity.{
  AccountVelocityControl, WindowOps, VelocityBalanceKey, VelocityError, panicked, key_eq,
}
use cala.Velocity.Context.{EvalContext, new_context, context_for_entry}
use cala.Velocity.Limit.{enforce}
use cala.Velocity.Collect.{Counted, Checks, Controls, collect_balances_to_check}

-- One evaluation context for each posting.
abbrev pub Contexts : Type 0 → Type 0
Contexts A = Map TransactionId (EvalContext A)

abbrev pub Posting : Type 0 → Type 0
Posting A = TransactionValues × List (EntryValues A)

-- A `get(..).expect(..)`
abbrev pub expect : {A X : Type 0} → Option X → VelocityError A → Result X (VelocityError A)
expect none e = err e
expect (some x) e = ok x

abbrev pub control_accounts :
    {A Expr : Type 0} → Controls A Expr → List VelocityContextAccountValues
control_accounts [] = []
control_accounts ((id, (values, controls)) ∷ m) = values ∷ control_accounts m

module _ {A Expr Ctx : Type 0} (c : CelOps A Expr Ctx) where
  -- `contexts.insert(transaction.id, EvalContext::new(..))` for each posting.
  abbrev pub contexts_of :
      List VelocityContextAccountValues → List (Posting A) → Contexts A → Contexts A
  contexts_of accounts [] m = m
  contexts_of accounts ((tx, entries) ∷ postings) m =
      contexts_of accounts postings (insert tx.id (new_context c tx accounts) m)

module _ {A Expr Ctx : Type 0} ⦃d : DecimalOps A⦄ (c : CelOps A Expr Ctx) where
  -- The loop over the entries of one key: the snapshots written, and the contexts after it.
  unfoldable pub enforce_entries :
      DateTime
      → AccountId
      → Option (BalanceSnapshot A)
      → List (Counted A Expr)
      → Contexts A
      → Result (List (BalanceSnapshot A) × Contexts A) (VelocityError A)
  enforce_entries time account_id latest [] contexts = ok ([], contexts)
  enforce_entries time account_id latest ((l, e) ∷ entries) contexts =
      let new_balance = next_snapshot time account_id latest e in
      expect (get e.transaction_id contexts) (panicked "context built for every posting") >>= λ ec.
      context_for_entry c ec account_id e >>= λ made.
      enforce c l made.0 time new_balance >>= λ passed.
      enforce_entries time account_id (some new_balance) entries
        (insert e.transaction_id made.1 contexts)
      >>= λ rest. ok (new_balance ∷ rest.0, rest.1)

module _ {A Expr Ctx W : Type 0} ⦃d : DecimalOps A⦄ ⦃ops : WindowOps W⦄
    (c : CelOps A Expr Ctx) where
  -- The loop over the keys.
  unfoldable pub new_snapshots_with_limit_enforcement :
      DateTime
      → Map (VelocityBalanceKey W) (Option (BalanceSnapshot A))
      → Checks W A Expr
      → Contexts A
      → Result (Map (VelocityBalanceKey W) (List (BalanceSnapshot A))) (VelocityError A)
  new_snapshots_with_limit_enforcement time current [] contexts = ok []
  new_snapshots_with_limit_enforcement time current ((key, entries) ∷ checks) contexts =
      expect (get key current) (panicked "entries_to_add key missing in current_balances")
      >>= λ latest. enforce_entries c time key.account_id latest entries contexts >>= λ done.
          new_snapshots_with_limit_enforcement time (remove key current) checks done.1 >>= λ rest.
          ok ((key, done.0) ∷ rest)

  -- The loop over the postings of the batch.
  unfoldable pub collect_postings :
      Controls A Expr
      → Map JournalId (Map AccountId (List AccountSetId))
      → List (Posting A)
      → Contexts A × Checks W A Expr
      → Result (Contexts A × Checks W A Expr) (VelocityError A)
  collect_postings controls mappings [] s = ok s
  collect_postings controls mappings ((tx, entries) ∷ postings) s =
      expect (get tx.id s.0) (panicked "context built for every posting") >>= λ ec.
      collect_balances_to_check c controls (list_or_empty (get tx.journal_id mappings)) entries
        (ec, s.1)
      >>= λ done. collect_postings controls mappings postings (insert tx.id done.0 s.0, done.1)

  -- `enforce_batch_in_op`: what it writes. `find_for_update` is the read of the balances that the
  -- checks need, under their locks.
  unfoldable pub enforce_batch :
      (List (VelocityBalanceKey W) → Map (VelocityBalanceKey W) (Option (BalanceSnapshot A)))
      → DateTime
      → List (Posting A)
      → Controls A Expr
      → Map JournalId (Map AccountId (List AccountSetId))
      → Result (Map (VelocityBalanceKey W) (List (BalanceSnapshot A))) (VelocityError A)
  unfolding collect_postings new_snapshots_with_limit_enforcement
  enforce_batch find_for_update time postings controls mappings =
      if is_empty controls
      then ok []
      else (collect_postings controls mappings postings
            (contexts_of c (control_accounts controls) postings [], [])
          >>= λ collected.
              (if is_empty collected.1
                then ok []
                else new_snapshots_with_limit_enforcement time (find_for_update (keys collected.1))
                    collected.1 collected.0))
