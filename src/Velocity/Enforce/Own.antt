-- ===== src/Velocity/Enforce/Own.antt =====
-- What is counted in a batch is of its entries, and is nothing where there are no controls.
use cala.Prelude.{
  list_or_empty, ◌≡◌, refl, ap, ◌∙◌, Bool, true, false, Option, none, some, List, [], ◌∷◌, ◌++◌,
  Result, ok, err, inl, inr, Option-cases, nat_eq, All, All-append,
}
use cala.Prelude.Map.{Map, get}
use cala.Types.{EntryValues, TransactionId, AccountId, AccountSetId, JournalId, VelocityControlId}
use cala.Cel.{CelValue}
use cala.Cel.Eval.{CelOps}
use cala.Balance.Fold.{ancestors}
use cala.Velocity.{AccountVelocityLimit, AccountVelocityControl, WindowOps, VelocityError, key_eq}
use cala.Velocity.Context.{entry_value, context_of}
use cala.Velocity.Limit.{needs_enforcement, window_for_enforcement}
use cala.Velocity.Collect.{Controls}
use cala.Velocity.Enforce.{Posting}
use cala.Velocity.Enforce.Counts.{
  Counts, counts_of_limit, counts_of_limits, if_needed, counts_of_controls, counts_of_account,
  counts_of_accounts, counts_of_entries, counts_of_postings,
}

module _ {A Expr Ctx : Type 0} (W : Type 0) ⦃ops : WindowOps W⦄ (c : CelOps A Expr Ctx)
    (tx_value : TransactionId → CelValue A) (accounts : Map AccountId (CelValue A))
    (controls : Controls A Expr) (P : EntryValues A → Type 0) where
  abbrev pub AllCounted : Counts W A Expr → Type 0
  AllCounted = All (λ x. P x.1.1)

  of_limit :
      (e : EntryValues A) (a : AccountId) (control_id : VelocityControlId)
      (l : AccountVelocityLimit A Expr) (r : Result (Option W) (VelocityError A))
      → P e
      → AllCounted (counts_of_limit {W = W} c tx_value accounts controls e a control_id l r)
  of_limit e a control_id l (err x) h = tt
  of_limit e a control_id l (ok none) h = tt
  of_limit e a control_id l (ok (some w)) h = (h, tt)

  of_limits :
      (ctx : Ctx) (e : EntryValues A) (a : AccountId) (control_id : VelocityControlId)
      (limits : List (AccountVelocityLimit A Expr))
      → P e
      → AllCounted (counts_of_limits {W = W} c tx_value accounts controls ctx e a control_id limits)
  of_limits ctx e a control_id [] h = tt
  of_limits ctx e a control_id (l ∷ limits) h =
      All-append (λ x. P x.1.1)
        (counts_of_limit {W = W} c tx_value accounts controls e a control_id l
          (window_for_enforcement c l ctx e))
        (counts_of_limits {W = W} c tx_value accounts controls ctx e a control_id limits)
        (of_limit e a control_id l (window_for_enforcement c l ctx e) h)
        (of_limits ctx e a control_id limits h)

  of_needed :
      (r : Result Bool (VelocityError A)) (counts : Counts W A Expr)
      → AllCounted counts
      → AllCounted (if_needed {W = W} c tx_value accounts controls r counts)
  of_needed (err x) counts h = tt
  of_needed (ok true) counts h = h
  of_needed (ok false) counts h = tt

  of_controls :
      (ctx : Ctx) (e : EntryValues A) (a : AccountId) (more : List (AccountVelocityControl A Expr))
      → P e
      → AllCounted (counts_of_controls {W = W} c tx_value accounts controls ctx e a more)
  of_controls ctx e a [] h = tt
  of_controls ctx e a (control ∷ more) h =
      let limits =
        counts_of_limits {W = W} c tx_value accounts controls ctx e a control.control_id
          control.velocity_limits in
      All-append (λ x. P x.1.1)
        (if_needed {W = W} c tx_value accounts controls (needs_enforcement c control ctx) limits)
        (counts_of_controls {W = W} c tx_value accounts controls ctx e a more)
        (of_needed (needs_enforcement c control ctx) limits
          (of_limits ctx e a control.control_id control.velocity_limits h))
        (of_controls ctx e a more h)

  of_account :
      (tx_id : TransactionId) (e : EntryValues A) (a : AccountId)
      → P e
      → AllCounted (counts_of_account {W = W} c tx_value accounts controls tx_id e a)
  of_account tx_id e a h = elim (Option-cases (get a controls)) [
    | inl absent ↦ rw (absent, counts_of_account) tt
    | inr (found, given) ↦ elim (Option-cases (get a accounts)) [
      | inl unknown ↦ rw (given, unknown, counts_of_account) tt
      | inr (account, known) ↦
          rw (given, known, counts_of_account)
            (of_controls (context_of c (tx_value tx_id) (entry_value c e) account) e a found.1 h)
    ]
  ]

  of_accounts :
      (tx_id : TransactionId) (e : EntryValues A) (targets : List AccountId)
      → P e
      → AllCounted (counts_of_accounts {W = W} c tx_value accounts controls tx_id e targets)
  of_accounts tx_id e [] h = tt
  of_accounts tx_id e (a ∷ more) h =
      All-append (λ x. P x.1.1) (counts_of_account {W = W} c tx_value accounts controls tx_id e a)
        (counts_of_accounts {W = W} c tx_value accounts controls tx_id e more)
        (of_account tx_id e a h) (of_accounts tx_id e more h)

  of_entries :
      (tx_id : TransactionId) (mappings : Map AccountId (List AccountSetId))
      (entries : List (EntryValues A))
      → All P entries
      → AllCounted (counts_of_entries {W = W} c tx_value accounts controls tx_id mappings entries)
  of_entries tx_id mappings [] h = tt
  of_entries tx_id mappings (e ∷ entries) h =
      let targets = ancestors mappings e.account_id ++ e.account_id ∷ [] in
      All-append (λ x. P x.1.1)
        (counts_of_accounts {W = W} c tx_value accounts controls tx_id e targets)
        (counts_of_entries {W = W} c tx_value accounts controls tx_id mappings entries)
        (of_accounts tx_id e targets h.0) (of_entries tx_id mappings entries h.1)

  pub of_postings :
      (mappings : Map JournalId (Map AccountId (List AccountSetId))) (postings : List (Posting A))
      → All (λ p. All P p.1) postings
      → AllCounted (counts_of_postings {W = W} c tx_value accounts controls mappings postings)
  of_postings mappings [] h = tt
  of_postings mappings ((tx, entries) ∷ postings) h =
      let mine = list_or_empty (get tx.journal_id mappings) in
      All-append (λ x. P x.1.1)
        (counts_of_entries {W = W} c tx_value accounts controls tx.id mine entries)
        (counts_of_postings {W = W} c tx_value accounts controls mappings postings)
        (of_entries tx.id mine entries h.0) (of_postings mappings postings h.1)

module _ {A Expr Ctx : Type 0} (W : Type 0) ⦃ops : WindowOps W⦄ (c : CelOps A Expr Ctx)
    (tx_value : TransactionId → CelValue A) (accounts : Map AccountId (CelValue A)) where
  no_accounts :
      (tx_id : TransactionId) (e : EntryValues A) (targets : List AccountId)
      → counts_of_accounts {W = W} c tx_value accounts [] tx_id e targets ≡ []
  no_accounts tx_id e [] = refl
  no_accounts tx_id e (a ∷ more) = no_accounts tx_id e more

  no_entries :
      (tx_id : TransactionId) (mappings : Map AccountId (List AccountSetId))
      (entries : List (EntryValues A))
      → counts_of_entries {W = W} c tx_value accounts [] tx_id mappings entries ≡ []
  no_entries tx_id mappings [] = refl
  no_entries tx_id mappings (e ∷ entries) =
      ap (λ xs. xs ++ counts_of_entries {W = W} c tx_value accounts [] tx_id mappings entries)
        (no_accounts tx_id e (ancestors mappings e.account_id ++ e.account_id ∷ []))
      ∙ no_entries tx_id mappings entries

  -- Where no account has controls, nothing is counted.
  pub no_postings :
      (mappings : Map JournalId (Map AccountId (List AccountSetId))) (postings : List (Posting A))
      → counts_of_postings {W = W} c tx_value accounts [] mappings postings ≡ []
  no_postings mappings [] = refl
  no_postings mappings ((tx, entries) ∷ postings) =
      ap (λ xs. xs ++ counts_of_postings {W = W} c tx_value accounts [] mappings postings)
        (no_entries tx.id (list_or_empty (get tx.journal_id mappings)) entries)
      ∙ no_postings mappings postings
