-- ===== src/Velocity/Enforce/Collected.antt =====
-- The map that a batch collects holds what its limits count.
use mathlib.Core.Path.{subst}
use mathlib.Core.List.{append-nil, append_assoc}
use cala.Prelude.{
  list_or_empty, ◌≡◌, refl, sym, Bool, true, false, Option, none, some, List, [], ◌∷◌, ◌++◌,
  if◌then◌else◌, ok, >>=-eq-ok, ok-injective, inl, inr, Option-cases, nat_eq, All,
}
use cala.Prelude.Map.{Map, get, insert}
use cala.Types.{
  DecimalOps, VelocityContextAccountValues, EntryValues, EntryId, TransactionId, AccountId,
  AccountSetId, JournalId, VelocityControlId,
}
use cala.Cel.{CelValue}
use cala.Cel.Eval.{CelOps}
use cala.Balance.Fold.{ancestors}
use cala.Velocity.{AccountVelocityLimit, AccountVelocityControl, WindowOps, key_eq}
use cala.Velocity.Context.{EvalContext, entry_value, context_of, context_for_entry}
use cala.Velocity.Limit.{needs_enforcement, window_for_enforcement}
use cala.Velocity.Collect.{
  Checks, Controls, push_window, key_for, collect_limits, collect_controls, collect_accounts,
  collect_balances_to_check,
}
use cala.Velocity.Enforce.{Contexts, Posting, expect, collect_postings}
use cala.Velocity.Enforce.Valued.{
  IsTrueContext, AreTrue, context_for_entry-IsContextOf, insert-AreTrue, expect-is_some,
}
use cala.Velocity.Enforce.Counts.{
  Counts, IsGrouped, push_check-IsGrouped, counts_of_window, counts_of_limit, counts_of_limits,
  if_needed, counts_of_controls, counts_of_account, counts_of_accounts, counts_of_entries,
  counts_of_postings,
}

-- The id of each entry of the batch determines its value.
abbrev pub AreValued :
    {A Expr Ctx : Type 0} → CelOps A Expr Ctx → (EntryId → CelValue A) → List (Posting A) → Type 0
AreValued c value_of = All (λ p. All (λ e. value_of e.id ≡ entry_value c e) p.1)

module _ {A Expr Ctx W : Type 0} ⦃d : DecimalOps A⦄ ⦃ops : WindowOps W⦄ (c : CelOps A Expr Ctx)
    (tx_value : TransactionId → CelValue A) (value_of : EntryId → CelValue A)
    (accounts : Map AccountId (CelValue A)) (controls : Controls A Expr) where
  IsGrouped-append :
      (checks : Checks W A Expr) (xs ys zs : Counts W A Expr)
      → IsGrouped checks ((xs ++ ys) ++ zs)
      → IsGrouped checks (xs ++ (ys ++ zs))
  IsGrouped-append checks xs ys zs h = subst (IsGrouped checks) (append_assoc xs ys zs) h

  IsGrouped-nil :
      (checks : Checks W A Expr) (xs : Counts W A Expr)
      → IsGrouped checks xs
      → IsGrouped checks (xs ++ [])
  IsGrouped-nil checks xs h = subst (IsGrouped checks) (sym (append-nil xs)) h

  push_window-IsGrouped :
      (e : EntryValues A) (a : AccountId) (control_id : VelocityControlId)
      (l : AccountVelocityLimit A Expr) (w : Option W) (checks : Checks W A Expr)
      (counts : Counts W A Expr)
      → IsGrouped checks counts
      → IsGrouped
          (push_window c e a control_id l w checks)
          (counts ++ counts_of_window c tx_value accounts controls e a control_id l w)
  push_window-IsGrouped e a control_id l none checks counts h = IsGrouped-nil checks counts h
  push_window-IsGrouped e a control_id l (some w) checks counts h =
      push_check-IsGrouped c (key_for c w e a control_id l) (l, e) checks counts h

  collect_limits-IsGrouped :
      (ctx : Ctx) (e : EntryValues A) (a : AccountId) (control_id : VelocityControlId)
      (limits : List (AccountVelocityLimit A Expr)) (checks out : Checks W A Expr)
      (counts : Counts W A Expr)
      → IsGrouped checks counts
      → collect_limits c ctx e a control_id limits checks ≡ ok out
      → IsGrouped out
          (counts ++ counts_of_limits c tx_value accounts controls ctx e a control_id limits)
  unfolding collect_limits
  collect_limits-IsGrouped ctx e a control_id [] checks out counts g h =
      IsGrouped-nil out counts (subst (λ o. IsGrouped o counts) (ok-injective h) g)
  collect_limits-IsGrouped ctx e a control_id (l ∷ limits) checks out counts g h =
      let (w, made, rest) = >>=-eq-ok (window_for_enforcement c l ctx e) _ h in
      let here = counts_of_window c tx_value accounts controls e a control_id l w in
      let more = counts_of_limits c tx_value accounts controls ctx e a control_id limits in
      let done =
        collect_limits-IsGrouped ctx e a control_id limits (push_window c e a control_id l w checks)
          out (counts ++ here) (push_window-IsGrouped e a control_id l w checks counts g) rest in
      subst
        (λ r.
          IsGrouped out
            (counts ++ (counts_of_limit c tx_value accounts controls e a control_id l r ++ more)))
        (sym made) (IsGrouped-append out counts here more done)

  collect_controls-IsGrouped :
      (ctx : Ctx) (e : EntryValues A) (a : AccountId) (more : List (AccountVelocityControl A Expr))
      (checks out : Checks W A Expr) (counts : Counts W A Expr)
      → IsGrouped checks counts
      → collect_controls c ctx e a more checks ≡ ok out
      → IsGrouped out (counts ++ counts_of_controls c tx_value accounts controls ctx e a more)
  unfolding collect_controls
  collect_controls-IsGrouped ctx e a [] checks out counts g h =
      IsGrouped-nil out counts (subst (λ o. IsGrouped o counts) (ok-injective h) g)
  collect_controls-IsGrouped ctx e a (control ∷ more) checks out counts g h =
      let (needed, decided, p) = >>=-eq-ok (needs_enforcement c control ctx) _ h in
      let limits =
        counts_of_limits c tx_value accounts controls ctx e a control.control_id
          control.velocity_limits in
      let (next, made, rest) =
        >>=-eq-ok
          (if needed
            then collect_limits c ctx e a control.control_id control.velocity_limits checks
            else ok checks)
          _ p in
      let here = if_needed c tx_value accounts controls (ok needed) limits in
      let later = counts_of_controls c tx_value accounts controls ctx e a more in
      let done =
        collect_controls-IsGrouped ctx e a more next out (counts ++ here)
          (of_branch needed next made) rest in
      subst
        (λ r. IsGrouped out (counts ++ (if_needed c tx_value accounts controls r limits ++ later)))
        (sym decided) (IsGrouped-append out counts here later done)
    where
      of_branch :
          (needed : Bool) (next : Checks W A Expr)
          → (if needed
              then collect_limits c ctx e a control.control_id control.velocity_limits checks
              else ok checks)
            ≡ ok next
          → IsGrouped next (
              counts
              ++ if_needed c tx_value accounts controls (ok needed) (
                  counts_of_limits c tx_value accounts controls ctx e a control.control_id
                    control.velocity_limits))
      of_branch true next made =
          collect_limits-IsGrouped ctx e a control.control_id control.velocity_limits checks next
            counts g made
      of_branch false next made =
          IsGrouped-nil next counts (subst (λ o. IsGrouped o counts) (ok-injective made) g)

  -- The context after an entry is true, and the map has what the entry adds.
  abbrev pub IsKept : TransactionId → EvalContext A × Checks W A Expr → Counts W A Expr → Type 0
  IsKept tx_id s counts =
      IsTrueContext c tx_value value_of accounts tx_id s.0 × IsGrouped s.1 counts

  collect_accounts-IsKept :
      (tx_id : TransactionId) (e : EntryValues A) (targets : List AccountId)
      (s out : EvalContext A × Checks W A Expr) (counts : Counts W A Expr)
      → value_of e.id ≡ entry_value c e
      → IsKept tx_id s counts
      → collect_accounts c controls e targets s ≡ ok out
      → IsKept tx_id out (counts ++ counts_of_accounts c tx_value accounts controls tx_id e targets)
  unfolding collect_accounts
  collect_accounts-IsKept tx_id e [] s out counts own kept h =
      subst (λ o. IsKept tx_id o (counts ++ [])) (ok-injective h)
        (kept.0, IsGrouped-nil s.1 counts kept.1)
  collect_accounts-IsKept tx_id e (a ∷ targets) s out counts own kept h =
      let more = counts_of_accounts c tx_value accounts controls tx_id e targets in
      elim (Option-cases (get a controls)) [
        | inl absent ↦
            subst (λ xs. IsKept tx_id out (counts ++ (xs ++ more))) (sym (of_other absent))
              (collect_accounts-IsKept tx_id e targets s out counts own kept
                (rw (absent, collect_accounts) at h))
        | inr (found, given) ↦
            let (made, evaluated, p) =
              >>=-eq-ok (context_for_entry c s.0 a e) _ (rw (given, collect_accounts) at h) in
            let (checks, collected, rest) =
              >>=-eq-ok (collect_controls c made.0 e a found.1 s.1) _ p in
            let ((account, known, same), still) =
              context_for_entry-IsContextOf c tx_value value_of accounts tx_id s.0 a e made kept.0
                own evaluated in
            let here = counts_of_controls c tx_value accounts controls made.0 e a found.1 in
            let (true_ec, all) =
              collect_accounts-IsKept tx_id e targets (made.1, checks) out (counts ++ here) own
                (
                  still,
                  collect_controls-IsGrouped made.0 e a found.1 s.1 checks counts kept.1 collected,
                )
                rest in
            subst (λ xs. IsKept tx_id out (counts ++ (xs ++ more)))
              (sym (of_account found account given known))
              (
                true_ec,
                subst
                    (λ ctx. IsGrouped out.1 (
                      counts
                      ++ (counts_of_controls c tx_value accounts controls ctx e a found.1 ++ more)))
                    same (IsGrouped-append out.1 counts here more all),
              )
      ]
    where
      of_other :
          get a controls ≡ none
          → counts_of_account {W = W} c tx_value accounts controls tx_id e a ≡ []
      of_other absent = rw (absent, counts_of_account) refl

      of_account :
          (found : VelocityContextAccountValues × List (AccountVelocityControl A Expr))
          (account : CelValue A)
          → get a controls ≡ some found
          → get a accounts ≡ some account
          → counts_of_account {W = W} c tx_value accounts controls tx_id e a
            ≡ counts_of_controls c tx_value accounts controls
                (context_of c (tx_value tx_id) (entry_value c e) account)
                e
                a
                found.1
      of_account found account given known = rw (given, known, counts_of_account) refl

  collect_balances-IsKept :
      (tx_id : TransactionId) (mappings : Map AccountId (List AccountSetId))
      (entries : List (EntryValues A)) (s out : EvalContext A × Checks W A Expr)
      (counts : Counts W A Expr)
      → All (λ e. value_of e.id ≡ entry_value c e) entries
      → IsKept tx_id s counts
      → collect_balances_to_check c controls mappings entries s ≡ ok out
      → IsKept tx_id out
          (counts ++ counts_of_entries c tx_value accounts controls tx_id mappings entries)
  unfolding collect_balances_to_check
  collect_balances-IsKept tx_id mappings [] s out counts own kept h =
      subst (λ o. IsKept tx_id o (counts ++ [])) (ok-injective h)
        (kept.0, IsGrouped-nil s.1 counts kept.1)
  collect_balances-IsKept tx_id mappings (e ∷ entries) s out counts own kept h =
      let targets = ancestors mappings e.account_id ++ e.account_id ∷ [] in
      let (next, made, rest) = >>=-eq-ok (collect_accounts c controls e targets s) _ h in
      let here = counts_of_accounts c tx_value accounts controls tx_id e targets in
      let more = counts_of_entries c tx_value accounts controls tx_id mappings entries in
      let (true_ec, all) =
        collect_balances-IsKept tx_id mappings entries next out (counts ++ here) own.1
          (collect_accounts-IsKept tx_id e targets s next counts own.0 kept made) rest in
      (true_ec, IsGrouped-append out.1 counts here more all)

  pub collect_postings-IsGrouped :
      (mappings : Map JournalId (Map AccountId (List AccountSetId))) (postings : List (Posting A))
      (s out : Contexts A × Checks W A Expr) (counts : Counts W A Expr)
      → AreValued c value_of postings
      → AreTrue c tx_value value_of accounts s.0
      → IsGrouped s.1 counts
      → collect_postings c controls mappings postings s ≡ ok out
      → AreTrue c tx_value value_of accounts out.0
        × IsGrouped out.1
            (counts ++ counts_of_postings c tx_value accounts controls mappings postings)
  unfolding collect_postings
  collect_postings-IsGrouped mappings [] s out counts own all g h =
      subst (λ o. AreTrue c tx_value value_of accounts o.0 × IsGrouped o.1 (counts ++ []))
        (ok-injective h) (all, IsGrouped-nil s.1 counts g)
  collect_postings-IsGrouped mappings ((tx, entries) ∷ postings) s out counts own all g h =
      let mine = list_or_empty (get tx.journal_id mappings) in
      let (ec, known, p) = >>=-eq-ok (expect (get tx.id s.0) _) _ h in
      let (done, collected, rest) =
        >>=-eq-ok (collect_balances_to_check c controls mine entries (ec, s.1)) _ p in
      let here = counts_of_entries c tx_value accounts controls tx.id mine entries in
      let more = counts_of_postings c tx_value accounts controls mappings postings in
      let (still, next) =
        collect_balances-IsKept tx.id mine entries (ec, s.1) done counts own.0
          (all tx.id ec (expect-is_some (get tx.id s.0) _ known), g) collected in
      let (last, grouped_out) =
        collect_postings-IsGrouped mappings postings (insert tx.id done.0 s.0, done.1) out
          (counts ++ here) own.1
          (insert-AreTrue c tx_value value_of accounts s.0 tx.id done.0 all still) next rest in
      (last, IsGrouped-append out.1 counts here more grouped_out)
