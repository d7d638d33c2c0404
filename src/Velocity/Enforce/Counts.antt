-- ===== src/Velocity/Enforce/Counts.antt =====
-- Which limits count which entries of a batch, described without the map that they are collected in.
use mathlib.Core.List.{append-nil}
use cala.Prelude.{
  list_or_empty, ◌≡◌, refl, sym, ap, ◌∙◌, Bool, Option, none, some, List, [], ◌∷◌, ◌++◌,
  if◌then◌else◌, Result, ok, err, inl, inr, Bool-cases, nat_eq,
}
use cala.Prelude.Map.{Map, get, get-insert_same, get-insert_ne}
use cala.Types.{EntryValues, TransactionId, AccountId, AccountSetId, JournalId, VelocityControlId}
use cala.Cel.{CelValue}
use cala.Cel.Eval.{CelOps}
use cala.Balance.Fold.{ancestors}
use cala.Velocity.{
  AccountVelocityLimit, AccountVelocityControl, WindowOps, VelocityBalanceKey, VelocityError,
  key_eq,
}
use cala.Velocity.Context.{entry_value, context_of}
use cala.Velocity.Limit.{needs_enforcement, window_for_enforcement}
use cala.Velocity.Collect.{Counted, Checks, Controls, push_check, key_for}
use cala.Velocity.Enforce.{Posting}

abbrev pub Counts : Type 0 → Type 0 → Type 0 → Type 0
Counts W A Expr = List (VelocityBalanceKey W × Counted A Expr)

abbrev pub grouped : {X : Type 0} → List X → Option (List X)
grouped [] = none
grouped (x ∷ xs) = some (x ∷ xs)

pub list-grouped : {X : Type 0} (xs : List X) → list_or_empty (grouped xs) ≡ xs
list-grouped [] = refl
list-grouped (x ∷ xs) = refl

grouped-snoc : {X : Type 0} (xs : List X) (x : X) → grouped (xs ++ x ∷ []) ≡ some (xs ++ x ∷ [])
grouped-snoc [] x = refl
grouped-snoc (y ∷ xs) x = refl

module _ {A Expr W : Type 0} ⦃ops : WindowOps W⦄ where
  -- What is counted under one key, in order.
  abbrev pub counted_under : VelocityBalanceKey W → Counts W A Expr → List (Counted A Expr)
  counted_under k [] = []
  counted_under k ((j, x) ∷ counts) =
      if key_eq.beq k j then x ∷ counted_under k counts else counted_under k counts

  -- The map has what is counted under each key, and no other key.
  abbrev pub IsGrouped : Checks W A Expr → Counts W A Expr → Type 0
  IsGrouped checks counts =
      (k : VelocityBalanceKey W) → get k checks ≡ grouped (counted_under k counts)

  counted_under-append :
      (k : VelocityBalanceKey W) (xs ys : Counts W A Expr)
      → counted_under k (xs ++ ys) ≡ counted_under k xs ++ counted_under k ys
  counted_under-append k [] ys = refl
  counted_under-append k ((j, x) ∷ xs) ys = elim (Bool-cases (key_eq.beq k j)) [
    | inl same ↦ rw same (ap (◌∷◌ x) (counted_under-append k xs ys))
    | inr other ↦ rw other (counted_under-append k xs ys)
  ]

module _ {A Expr Ctx W : Type 0} ⦃ops : WindowOps W⦄ (c : CelOps A Expr Ctx) where
  pub push_check-IsGrouped :
      (k : VelocityBalanceKey W) (x : Counted A Expr) (checks : Checks W A Expr)
      (counts : Counts W A Expr)
      → IsGrouped checks counts
      → IsGrouped (push_check c k x checks) (counts ++ (k, x) ∷ [])
  unfolding push_check
  push_check-IsGrouped k x checks counts h j =
      let more = list_or_empty (get k checks) ++ x ∷ [] in
      let split = counted_under-append j counts ((k, x) ∷ []) in
      elim (Bool-cases (key_eq.beq j k)) [
        | inr other ↦
            get-insert_ne k j more checks other
            ∙ h j
            ∙ ap grouped (sym (append-nil (counted_under j counts)))
            ∙ sym (ap grouped (rw other at split))
        | inl same ↦
            let e = (key_eq.beq_iff j k).0 same in
            get-insert_same k j more checks same
            ∙ ap (λ xs. some (xs ++ x ∷ []))
                (ap list_or_empty (h k) ∙ list-grouped (counted_under k counts))
            ∙ sym (grouped-snoc (counted_under k counts) x)
            ∙ ap (λ i. grouped (counted_under i counts ++ x ∷ [])) (sym e)
            ∙ sym (ap grouped (rw same at split))
      ]

  module _ (tx_value : TransactionId → CelValue A) (accounts : Map AccountId (CelValue A))
      (controls : Controls A Expr) where
    abbrev pub counts_of_window :
        EntryValues A
        → AccountId
        → VelocityControlId
        → AccountVelocityLimit A Expr
        → Option W
        → Counts W A Expr
    counts_of_window e a control_id l none = []
    counts_of_window e a control_id l (some w) = (key_for c w e a control_id l, (l, e)) ∷ []

    -- A limit counts an entry in the window that it is evaluated to, if any.
    abbrev pub counts_of_limit :
        EntryValues A
        → AccountId
        → VelocityControlId
        → AccountVelocityLimit A Expr
        → Result (Option W) (VelocityError A)
        → Counts W A Expr
    counts_of_limit e a control_id l (err x) = []
    counts_of_limit e a control_id l (ok w) = counts_of_window e a control_id l w

    abbrev pub counts_of_limits :
        Ctx
        → EntryValues A
        → AccountId
        → VelocityControlId
        → List (AccountVelocityLimit A Expr)
        → Counts W A Expr
    counts_of_limits ctx e a control_id [] = []
    counts_of_limits ctx e a control_id (l ∷ limits) =
        counts_of_limit e a control_id l (window_for_enforcement c l ctx e)
        ++ counts_of_limits ctx e a control_id limits

    abbrev pub if_needed : Result Bool (VelocityError A) → Counts W A Expr → Counts W A Expr
    if_needed (err x) counts = []
    if_needed (ok needed) counts = if needed then counts else []

    -- The limits of the controls whose condition holds.
    abbrev pub counts_of_controls :
        Ctx → EntryValues A → AccountId → List (AccountVelocityControl A Expr) → Counts W A Expr
    counts_of_controls ctx e a [] = []
    counts_of_controls ctx e a (control ∷ more) =
        if_needed (needs_enforcement c control ctx)
          (counts_of_limits ctx e a control.control_id control.velocity_limits)
        ++ counts_of_controls ctx e a more

    -- In the context of the entry on the account, where the account has controls.
    abbrev pub counts_of_account : TransactionId → EntryValues A → AccountId → Counts W A Expr
    counts_of_account tx_id e a = elim (get a controls) [
      | none ↦ []
      | some found ↦ elim (get a accounts) [
        | none ↦ []
        | some account ↦
            counts_of_controls (context_of c (tx_value tx_id) (entry_value c e) account) e a found.1
      ]
    ]

    abbrev pub counts_of_accounts : TransactionId → EntryValues A → List AccountId → Counts W A Expr
    counts_of_accounts tx_id e [] = []
    counts_of_accounts tx_id e (a ∷ more) =
        counts_of_account tx_id e a ++ counts_of_accounts tx_id e more

    -- On each set above the account of an entry, and on the account itself.
    abbrev pub counts_of_entries :
        TransactionId → Map AccountId (List AccountSetId) → List (EntryValues A) → Counts W A Expr
    counts_of_entries tx_id mappings [] = []
    counts_of_entries tx_id mappings (e ∷ entries) =
        counts_of_accounts tx_id e (ancestors mappings e.account_id ++ e.account_id ∷ [])
        ++ counts_of_entries tx_id mappings entries

    -- By the sets of the journal of each posting.
    abbrev pub counts_of_postings :
        Map JournalId (Map AccountId (List AccountSetId)) → List (Posting A) → Counts W A Expr
    counts_of_postings mappings [] = []
    counts_of_postings mappings ((tx, entries) ∷ postings) =
        counts_of_entries tx.id (list_or_empty (get tx.journal_id mappings)) entries
        ++ counts_of_postings mappings postings
