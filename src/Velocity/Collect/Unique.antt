-- ===== src/Velocity/Collect/Unique.antt =====
-- The keys that are collected are distinct.
use mathlib.Core.Path.{subst}
use cala.Prelude.{
  list_or_empty, ◌≡◌, Bool, true, false, Option, none, some, List, [], ◌∷◌, ◌++◌, ok, >>=-eq-ok,
  ok-injective, if◌then◌else◌, inl, inr, Option-cases, nat_eq,
}
use cala.Prelude.Map.{Map, get, IsUnique, insert-IsUnique}
use cala.Types.{EntryValues, AccountId, AccountSetId, VelocityControlId}
use cala.Cel.Eval.{CelOps}
use cala.Balance.Fold.{ancestors}
use cala.Velocity.{AccountVelocityLimit, AccountVelocityControl, WindowOps, key_eq}
use cala.Velocity.Context.{EvalContext, context_for_entry}
use cala.Velocity.Limit.{needs_enforcement, window_for_enforcement}
use cala.Velocity.Collect.{
  Checks, Controls, push_check, push_window, key_for, collect_limits, collect_controls,
  collect_accounts, collect_balances_to_check,
}

module _ {A Expr Ctx W : Type 0} ⦃ops : WindowOps W⦄ (c : CelOps A Expr Ctx) where
  push_window-IsUnique :
      (e : EntryValues A) (account_id : AccountId) (control_id : VelocityControlId)
      (l : AccountVelocityLimit A Expr) (w : Option W) (checks : Checks W A Expr)
      → IsUnique checks
      → IsUnique (push_window c e account_id control_id l w checks)
  unfolding push_check
  push_window-IsUnique e account_id control_id l none checks h = h
  push_window-IsUnique e account_id control_id l (some w) checks h =
      let k = key_for c w e account_id control_id l in
      insert-IsUnique k (list_or_empty (get k checks) ++ (l, e) ∷ []) checks h

  collect_limits-IsUnique :
      (ctx : Ctx) (e : EntryValues A) (account_id : AccountId) (control_id : VelocityControlId)
      (limits : List (AccountVelocityLimit A Expr)) (checks out : Checks W A Expr)
      → IsUnique checks
      → collect_limits c ctx e account_id control_id limits checks ≡ ok out
      → IsUnique out
  unfolding collect_limits
  collect_limits-IsUnique ctx e account_id control_id [] checks out u h =
      subst IsUnique (ok-injective h) u
  collect_limits-IsUnique ctx e account_id control_id (l ∷ limits) checks out u h =
      let (w, _, rest) = >>=-eq-ok (window_for_enforcement c l ctx e) _ h in
      collect_limits-IsUnique ctx e account_id control_id limits _ out
        (push_window-IsUnique e account_id control_id l w checks u) rest

  collect_controls-IsUnique :
      (ctx : Ctx) (e : EntryValues A) (account_id : AccountId)
      (controls : List (AccountVelocityControl A Expr)) (checks out : Checks W A Expr)
      → IsUnique checks
      → collect_controls c ctx e account_id controls checks ≡ ok out
      → IsUnique out
  unfolding collect_controls
  collect_controls-IsUnique ctx e account_id [] checks out u h = subst IsUnique (ok-injective h) u
  collect_controls-IsUnique ctx e account_id (control ∷ controls) checks out u h =
      let (needed, _, p) = >>=-eq-ok (needs_enforcement c control ctx) _ h in
      let (next, made, rest) =
        >>=-eq-ok
          (if needed
            then collect_limits c ctx e account_id control.control_id control.velocity_limits checks
            else ok checks)
          _ p in
      collect_controls-IsUnique ctx e account_id controls next out (of_branch needed next made) rest
    where
      of_branch :
          (needed : Bool) (next : Checks W A Expr)
          → (if needed
              then collect_limits c ctx e account_id control.control_id control.velocity_limits
                  checks
              else ok checks)
            ≡ ok next
          → IsUnique next
      of_branch true next made =
          collect_limits-IsUnique ctx e account_id control.control_id control.velocity_limits checks
            next u made
      of_branch false next made = subst IsUnique (ok-injective made) u

  collect_accounts-IsUnique :
      (controls : Controls A Expr) (e : EntryValues A) (accounts : List AccountId)
      (s out : EvalContext A × Checks W A Expr)
      → IsUnique s.1
      → collect_accounts c controls e accounts s ≡ ok out
      → IsUnique out.1
  unfolding collect_accounts
  collect_accounts-IsUnique controls e [] s out u h = subst (λ o. IsUnique o.1) (ok-injective h) u
  collect_accounts-IsUnique controls e (a ∷ accounts) s out u h =
      elim (Option-cases (get a controls)) [
        | inl absent ↦
            collect_accounts-IsUnique controls e accounts s out u
              (rw (collect_accounts, absent) at h)
        | inr (found, given) ↦
            let (made, _, p) =
              >>=-eq-ok (context_for_entry c s.0 a e) _ (rw (collect_accounts, given) at h) in
            let (checks, collected, rest) =
              >>=-eq-ok (collect_controls c made.0 e a found.1 s.1) _ p in
            collect_accounts-IsUnique controls e accounts (made.1, checks) out
              (collect_controls-IsUnique made.0 e a found.1 s.1 checks u collected) rest
      ]

  pub collect_balances-IsUnique :
      (controls : Controls A Expr) (mappings : Map AccountId (List AccountSetId))
      (entries : List (EntryValues A)) (s out : EvalContext A × Checks W A Expr)
      → IsUnique s.1
      → collect_balances_to_check c controls mappings entries s ≡ ok out
      → IsUnique out.1
  unfolding collect_balances_to_check
  collect_balances-IsUnique controls mappings [] s out u h =
      subst (λ o. IsUnique o.1) (ok-injective h) u
  collect_balances-IsUnique controls mappings (e ∷ entries) s out u h =
      let (next, made, rest) =
        >>=-eq-ok
          (collect_accounts c controls e (ancestors mappings e.account_id ++ e.account_id ∷ []) s) _
          h in
      collect_balances-IsUnique controls mappings entries next out
        (collect_accounts-IsUnique controls e _ s next u made) rest
