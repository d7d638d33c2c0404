-- ===== src/Posting/FoldBalances/Batch.antt =====
-- The balances that a whole batch writes.
use mathlib.Core.Path.{subst}
use cala.Prelude.{
  list_or_empty, ℕ, ◌≡◌, refl, ap, ◌∙◌, Bool, true, false, ◌&&◌, List, [], ◌∷◌, ◌++◌, if◌then◌else◌,
  any, ltb, nat_beq, map, nat_eq, pair_eq, All, All-append, filter, filter-append, is_empty,
  Bool-cases, Option-cases, inl, inr, arith,
}
use cala.Prelude.Map.{Map, get, All-get}
use cala.Prelude.Order.{nat_order, IsAscending, sort_dedup, sort_dedup_lem}
use cala.Types.{DecimalOps, BalanceSnapshot, AccountId, AccountSetId, JournalId, DateTime}
use cala.Balance.Fold.{BalanceKey, from_entries, inline_targets}
use cala.Balance.Fold.Spec.{key_of, of_key, postings}
use cala.Balance.Fold.OneJournal.{IsLoadedOf, fold_of_journal}
use cala.Velocity.Enforce.{Posting}
use cala.Posting.{PostingState}
use cala.Posting.FoldBalances.{
  is_inline, journal_entries, fold_journal, fold_journals, fold_balances, dedup,
}
use cala.Posting.FoldBalances.Journal.{
  AreStored, load_all, load_all-All, load_balances-eq-load_all, running, fold_journal-eq-running,
}

empty_either : {X : Type 0} (b : Bool) → ◌≡◌ {A = List X} [] (if b then [] else [])
empty_either true = refl
empty_either false = refl

append_nil : {X : Type 0} (xs : List X) → (xs ++ []) ≡ xs
append_nil [] = refl
append_nil (x ∷ xs) = ap (◌∷◌ x) (append_nil xs)

-- Is it among the journals?
abbrev is_in : ℕ → List ℕ → Bool
is_in k = any (nat_beq k)

not_in_above :
    (k n : ℕ) (ns : List ℕ) → nat_beq k n ≡ true → All (λ m. ltb n m ≡ true) ns → is_in k ns ≡ false
not_in_above k n [] h hs = refl
not_in_above k n (m ∷ ms) h hs = ground (arith, not_in_above k n ms h hs.1, hs.0)

module _ {A : Type 0} ⦃d : DecimalOps A⦄ where
  -- The snapshots of one balance.
  abbrev pub of_balance :
      JournalId → BalanceKey → List (BalanceSnapshot A) → List (BalanceSnapshot A)
  of_balance j k = filter (λ s. nat_beq j s.journal_id && pair_eq.beq k (key_of s))

  -- Every entry is of its transaction's journal.
  abbrev pub AreOwn : List (Posting A) → Type 0
  AreOwn = All (λ p. All (λ e. e.journal_id ≡ p.0.journal_id) p.1)

  of_balance-append :
      (j : JournalId) (k : BalanceKey) (xs ys : List (BalanceSnapshot A))
      → of_balance j k (xs ++ ys) ≡ of_balance j k xs ++ of_balance j k ys
  of_balance-append j k xs ys =
      filter-append (λ s. nat_beq j s.journal_id && pair_eq.beq k (key_of s)) xs ys

  of_balance_own :
      (j : JournalId) (k : BalanceKey) (snapshots : List (BalanceSnapshot A))
      → All (λ s. s.journal_id ≡ j) snapshots
      → of_balance j k snapshots ≡ of_key k snapshots
  of_balance_own j k [] h = refl
  of_balance_own j k (s ∷ snapshots) h = ground (arith, of_balance_own j k snapshots h.1, h.0)

  of_balance_other :
      (i j : JournalId) (k : BalanceKey) (snapshots : List (BalanceSnapshot A))
      → nat_beq j i ≡ false
      → All (λ s. s.journal_id ≡ i) snapshots
      → of_balance j k snapshots ≡ []
  of_balance_other i j k [] other h = refl
  of_balance_other i j k (s ∷ snapshots) other h =
      ground (arith, of_balance_other i j k snapshots other h.1, h.0)

  journal_entries-own :
      (j : JournalId) (posted : List (Posting A))
      → AreOwn posted
      → All (λ e. e.journal_id ≡ j) (journal_entries j posted)
  unfolding journal_entries
  journal_entries-own j [] own = tt
  journal_entries-own j ((tx, entries) ∷ posted) own = elim (Bool-cases (nat_beq tx.journal_id j)) [
    | inl same ↦
        let here : tx.journal_id ≡ j = ground (arith, same) in
        rw same (
          All-append (λ e. e.journal_id ≡ j) entries (journal_entries j posted)
            (subst (λ i. All (λ e. e.journal_id ≡ i) entries) here own.0)
            (journal_entries-own j posted own.1))
    | inr other ↦ rw other (journal_entries-own j posted own.1)
  ]

  journal_entries-absent :
      (j : JournalId) (posted : List (Posting A))
      → is_in j (map (λ p. p.0.journal_id) posted) ≡ false
      → journal_entries j posted ≡ []
  unfolding journal_entries
  journal_entries-absent j [] h = refl
  journal_entries-absent j ((tx, entries) ∷ posted) h =
      ground (arith, journal_entries-absent j posted)

module _ {A Expr : Type 0} ⦃d : DecimalOps A⦄ (read : PostingState A Expr) where
  read-IsLoadedOf :
      (j : JournalId)
      → AreStored read j
      → (k : BalanceKey) → IsLoadedOf j (k, get (j, k) read.balances)
  read-IsLoadedOf j stored k = elim (Option-cases (get (j, k) read.balances)) [
    | inl absent ↦ rw absent tt
    | inr (s, found) ↦ rw found (
        ap (λ x. x.0)
          (All-get (λ x. (x.1.journal_id, key_of x.1) ≡ x.0) (j, k) read.balances stored found))
  ]

  module _ (now : DateTime) (posted : List (Posting A))
      (mappings : Map JournalId (Map AccountId (List AccountSetId))) where
    fold_journal-own :
        (j : JournalId)
        → AreStored read j
        → AreOwn posted
        → All (λ s. s.journal_id ≡ j) (fold_journal read now posted mappings j)
    unfolding fold_journal from_entries
    fold_journal-own j stored own = elim (Bool-cases (is_empty (journal_entries j posted))) [
      | inl nothing ↦ rw nothing tt
      | inr some_entries ↦
          let mine = list_or_empty (get j mappings) in
          rw (some_entries, load_balances-eq-load_all read j mine (journal_entries j posted) [])
            (fold_of_journal j (inline_targets mine) now
              (load_all read j (postings (inline_targets mine) (journal_entries j posted)) [])
              (journal_entries j posted)
              (load_all-All read j (IsLoadedOf j)
                (postings (inline_targets mine) (journal_entries j posted)) []
                (read-IsLoadedOf j stored) tt)
              (journal_entries-own j posted own))
    ]

    of_balance-fold_journals :
        (j : JournalId) (k : BalanceKey) (journals : List JournalId)
        → AreStored read j
        → AreOwn posted
        → IsAscending journals
        → of_balance j k (fold_journals read now posted mappings journals)
          ≡ (if is_in j journals then of_key k (fold_journal read now posted mappings j) else [])
    unfolding fold_journals
    of_balance-fold_journals j k [] stored own ascending = refl
    of_balance-fold_journals j k (i ∷ journals) stored own ascending =
        let later = of_balance-fold_journals j k journals stored own ascending.1 in
        of_balance-append j k (fold_journal read now posted mappings i)
          (fold_journals read now posted mappings journals)
        ∙ elim (Bool-cases (nat_beq j i)) [
          | inl same ↦
              let here : i ≡ j = ground (arith, same) in
              let first : of_balance j k (fold_journal read now posted mappings i)
                  ≡ of_key k (fold_journal read now posted mappings j) =
                ap (λ i. of_balance j k (fold_journal read now posted mappings i)) here
                ∙ of_balance_own j k (fold_journal read now posted mappings j)
                    (fold_journal-own j stored own) in
              let absent = not_in_above j i journals same ascending.0 in
              rw (same, first, later, absent)
                (append_nil (of_key k (fold_journal read now posted mappings j)))
          | inr other ↦
              rw
                (
                  other,
                  of_balance_other i j k (fold_journal read now posted mappings i) other
                      (fold_journal-own i stored own),
                  later,
                )
                refl
        ]

    -- The fold of a batch writes, for each journal, account and currency, the running balances of the
    -- entries of that journal's postings that fan into the account, in posting order, from the
    -- balance that was read (or none), as if the postings ran one after another, whatever other
    -- journals the batch spans; and nothing for an account that is rolled up or was not read. The
    -- balances read must be stored under their own keys, and every entry be of its transaction's
    -- journal.
    pub fold_balances-eq-running :
        (j : JournalId) (k : BalanceKey)
        → AreStored read j
        → AreOwn posted
        → of_balance j k (fold_balances read now posted mappings)
          ≡ running read j now k (
              postings (inline_targets (list_or_empty (get j mappings))) (journal_entries j posted))
    unfolding fold_balances dedup
    fold_balances-eq-running j k stored own =
        let (ascending, same) = sort_dedup_lem (map (λ p. p.0.journal_id) posted) in
        of_balance-fold_journals j k (sort_dedup (map (λ p. p.0.journal_id) posted)) stored own
          ascending
        ∙ elim (Bool-cases (is_in j (map (λ p. p.0.journal_id) posted))) [
          | inl present ↦
              rw (same j, present) (fold_journal-eq-running read j now posted mappings k stored)
          | inr absent ↦
              rw (same j, absent, journal_entries-absent j posted absent)
                (empty_either (is_inline (get k.0 read.accounts)))
        ]
