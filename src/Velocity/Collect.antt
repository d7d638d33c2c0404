-- ===== src/Velocity/Collect.antt =====
-- `VelocityBalances::collect_balances_to_check` (cala-ledger/src/velocity/balance/mod.rs): which
-- limits count which entries, under the key of the balance that each counts.
pub mod Unique
use cala.Prelude.{
  list_or_empty, ℕ, Bool, Option, none, some, List, [], ◌∷◌, ◌++◌, if◌then◌else◌, Result, ok, err,
  ◌>>=◌, nat_eq, Eq,
}
use cala.Prelude.Map.{Map, get, insert}
use cala.Types.{
  EntryValues, AccountId, AccountSetId, VelocityControlId, VelocityContextAccountValues,
}
use cala.Cel.Eval.{CelOps}
use cala.Balance.Fold.{ancestors}
use cala.Velocity.{
  AccountVelocityLimit, AccountVelocityControl, WindowOps, VelocityBalanceKey, VelocityError,
  key_eq,
}
use cala.Velocity.Context.{EvalContext, context_for_entry}
use cala.Velocity.Limit.{needs_enforcement, window_for_enforcement}

-- A limit, and an entry that it counts.
abbrev pub Counted : Type 0 → Type 0 → Type 0
Counted A Expr = AccountVelocityLimit A Expr × EntryValues A

-- The limits and entries under each key.
abbrev pub Checks : Type 0 → Type 0 → Type 0 → Type 0
Checks W A Expr = Map (VelocityBalanceKey W) (List (Counted A Expr))

-- The values and the controls of the accounts that have any.
abbrev pub Controls : Type 0 → Type 0 → Type 0
Controls A Expr =
    Map AccountId (VelocityContextAccountValues × List (AccountVelocityControl A Expr))

module _ {A Expr Ctx W : Type 0} ⦃ops : WindowOps W⦄ (c : CelOps A Expr Ctx) where
  -- `entry(key).or_default().push(...)`
  unfoldable pub push_check :
      VelocityBalanceKey W → Counted A Expr → Checks W A Expr → Checks W A Expr
  push_check k x checks = insert k (list_or_empty (get k checks) ++ x ∷ []) checks

  abbrev pub key_for :
      W
      → EntryValues A
      → AccountId
      → VelocityControlId
      → AccountVelocityLimit A Expr
      → VelocityBalanceKey W
  key_for window e account_id control_id l = record {
    window = window;
    currency = e.currency;
    journal_id = e.journal_id;
    account_id = account_id;
    control_id = control_id;
    limit_id = l.limit_id;
  }

  abbrev pub push_window :
      EntryValues A
      → AccountId
      → VelocityControlId
      → AccountVelocityLimit A Expr
      → Option W
      → Checks W A Expr
      → Checks W A Expr
  push_window e account_id control_id l none checks = checks
  push_window e account_id control_id l (some w) checks =
      push_check (key_for w e account_id control_id l) (l, e) checks

  -- The loop over the limits of a control.
  unfoldable pub collect_limits :
      Ctx
      → EntryValues A
      → AccountId
      → VelocityControlId
      → List (AccountVelocityLimit A Expr)
      → Checks W A Expr
      → Result (Checks W A Expr) (VelocityError A)
  collect_limits ctx e account_id control_id [] checks = ok checks
  collect_limits ctx e account_id control_id (l ∷ limits) checks =
      window_for_enforcement c l ctx e >>= λ w.
      collect_limits ctx e account_id control_id limits
        (push_window e account_id control_id l w checks)

  -- The loop over the controls of an account.
  unfoldable pub collect_controls :
      Ctx
      → EntryValues A
      → AccountId
      → List (AccountVelocityControl A Expr)
      → Checks W A Expr
      → Result (Checks W A Expr) (VelocityError A)
  collect_controls ctx e account_id [] checks = ok checks
  collect_controls ctx e account_id (control ∷ controls) checks =
      needs_enforcement c control ctx >>= λ needed.
      (if needed
        then collect_limits ctx e account_id control.control_id control.velocity_limits checks
        else ok checks)
      >>= λ next. collect_controls ctx e account_id controls next

  -- The loop over the accounts that an entry fans into.
  unfoldable pub collect_accounts :
      Controls A Expr
      → EntryValues A
      → List AccountId
      → EvalContext A × Checks W A Expr
      → Result (EvalContext A × Checks W A Expr) (VelocityError A)
  collect_accounts controls e [] s = ok s
  collect_accounts controls e (account_id ∷ accounts) s = elim (get account_id controls) [
    | none ↦ collect_accounts controls e accounts s
    | some found ↦ context_for_entry c s.0 account_id e >>= λ made.
        collect_controls made.0 e account_id found.1 s.1 >>= λ checks.
        collect_accounts controls e accounts (made.1, checks)
  ]

  -- The loop over the entries of a posting.
  unfoldable pub collect_balances_to_check :
      Controls A Expr
      → Map AccountId (List AccountSetId)
      → List (EntryValues A)
      → EvalContext A × Checks W A Expr
      → Result (EvalContext A × Checks W A Expr) (VelocityError A)
  collect_balances_to_check controls mappings [] s = ok s
  collect_balances_to_check controls mappings (e ∷ entries) s =
      collect_accounts controls e (ancestors mappings e.account_id ++ e.account_id ∷ []) s
      >>= λ next. collect_balances_to_check controls mappings entries next
