-- ===== src/Posting/FoldBalances/Journal.antt =====
-- The balances that one journal's postings write.
use mathlib.Core.Path.{subst}
use cala.Prelude.{
  list_or_empty, ◌≡◌, refl, sym, ap, ◌∙◌, Bool, true, false, Option, none, some, List, [], ◌∷◌,
  ◌++◌, if◌then◌else◌, is_empty, map, nat_eq, pair_eq, All, arith, Bool-cases, Option-cases,
  beq_refl, inl, inr,
}
use cala.Prelude.Map.{Map, get, contains_key, get-insert_ne, All-get, All-remove}
use cala.Types.{
  DecimalOps, BalanceSnapshot, EntryValues, AccountId, AccountSetId, JournalId, DateTime,
}
use cala.Balance.Fold.{BalanceKey, from_entries, inline_targets}
use cala.Balance.Fold.Spec.{key_of, of_key, postings, entries_for, chain, IsKeyed, expected}
use cala.Balance.Fold.Chain.{fold-eq-expected}
use cala.Velocity.Enforce.{Posting}
use cala.Posting.{PostingState}
use cala.Posting.FoldBalances.{
  is_inline, load_balance, load_each, load_balances, journal_entries, fold_journal,
}

if_same : {X : Type 0} (b : Bool) {x y : X} → y ≡ x → (if b then x else y) ≡ x
if_same true h = refl
if_same false h = h

module _ {A Expr : Type 0} ⦃d : DecimalOps A⦄ (read : PostingState A Expr) (j : JournalId) where
  -- `load_balances` on its calls in order.
  pub load_all :
      List (AccountId × EntryValues A)
      → Map BalanceKey (Option (BalanceSnapshot A))
      → Map BalanceKey (Option (BalanceSnapshot A))
  load_all [] current = current
  load_all ((a, e) ∷ calls) current = load_all calls (load_balance read j (a, e.currency) current)

  load_all-append :
      (xs ys : List (AccountId × EntryValues A))
      (current : Map BalanceKey (Option (BalanceSnapshot A)))
      → load_all (xs ++ ys) current ≡ load_all ys (load_all xs current)
  unfolding load_all
  load_all-append [] ys current = refl
  load_all-append (x ∷ xs) ys current =
      load_all-append xs ys (load_balance read j (x.0, x.1.currency) current)

  load_each-eq-load_all :
      (accounts : List AccountId) (e : EntryValues A)
      (current : Map BalanceKey (Option (BalanceSnapshot A)))
      → load_each read j accounts e.currency current ≡ load_all (map (λ a. (a, e)) accounts) current
  unfolding load_all load_each
  load_each-eq-load_all [] e current = refl
  load_each-eq-load_all (a ∷ accounts) e current =
      load_each-eq-load_all accounts e (load_balance read j (a, e.currency) current)

  pub load_balances-eq-load_all :
      (mappings : Map AccountId (List AccountSetId)) (entries : List (EntryValues A))
      (current : Map BalanceKey (Option (BalanceSnapshot A)))
      → load_balances read j mappings entries current
        ≡ load_all (postings (inline_targets mappings) entries) current
  unfolding load_all load_balances
  load_balances-eq-load_all mappings [] current = refl
  load_balances-eq-load_all mappings (e ∷ entries) current =
      load_balances-eq-load_all mappings entries
        (load_each read j (inline_targets mappings e) e.currency current)
      ∙ ap (load_all (postings (inline_targets mappings) entries))
          (load_each-eq-load_all (inline_targets mappings e) e current)
      ∙ sym (
          load_all-append (map (λ a. (a, e)) (inline_targets mappings e))
            (postings (inline_targets mappings) entries) current)

  -- What the balances loaded for a key become when a pair of that key is met.
  abbrev after_load :
      BalanceKey → Option (Option (BalanceSnapshot A)) → Option (Option (BalanceSnapshot A))
  after_load k (some base) = some base
  after_load k none =
      if is_inline (get k.0 read.accounts) then some (get (j, k) read.balances) else none

  get-load_balance_same :
      (k : BalanceKey) (current : Map BalanceKey (Option (BalanceSnapshot A)))
      → get k (load_balance read j k current) ≡ after_load k (get k current)
  unfolding load_balance
  get-load_balance_same k current = elim (Bool-cases (is_inline (get k.0 read.accounts))) [
    | inl inline ↦ elim (Option-cases (get k current)) [
      | inl absent ↦ rw (absent, inline, beq_refl k) refl
      | inr (base, found) ↦ rw (found, inline) found
    ]
    | inr rolled ↦ elim (Option-cases (get k current)) [
      | inl absent ↦ rw (absent, rolled) absent
      | inr (base, found) ↦ rw (found, rolled) found
    ]
  ]

  get-load_balance_ne :
      (k key : BalanceKey) (current : Map BalanceKey (Option (BalanceSnapshot A)))
      → pair_eq.beq k key ≡ false
      → get k (load_balance read j key current) ≡ get k current
  unfolding load_balance
  get-load_balance_ne k key current other =
      elim (Bool-cases (is_inline (get key.0 read.accounts))) [
        | inl inline ↦ elim (Bool-cases (contains_key key current)) [
          | inl known ↦ rw (inline, known) refl
          | inr fresh ↦
              rw (inline, fresh) (get-insert_ne key k (get (j, key) read.balances) current other)
        ]
        | inr rolled ↦ rw rolled refl
      ]

  after_load_again :
      (k : BalanceKey) (o : Option (Option (BalanceSnapshot A)))
      → after_load k (after_load k o) ≡ after_load k o
  after_load_again k o = ground arith

  get-load_all :
      (k : BalanceKey) (calls : List (AccountId × EntryValues A))
      (current : Map BalanceKey (Option (BalanceSnapshot A)))
      → get k (load_all calls current)
        ≡ (if is_empty (entries_for k calls) then get k current else after_load k (get k current))
  unfolding load_all
  get-load_all k [] current = refl
  get-load_all k ((a, e) ∷ calls) current = elim (Bool-cases (pair_eq.beq k (a, e.currency))) [
    | inl same ↦
        let next = load_balance read j (a, e.currency) current in
        let met : get k next ≡ after_load k (get k current) =
          subst (λ key. get k (load_balance read j key current) ≡ after_load k (get k current))
            ((pair_eq.beq_iff k (a, e.currency)).0 same) (get-load_balance_same k current) in
        rw (same, get-load_all k calls next, met)
          (if_same (is_empty (entries_for k calls)) (after_load_again k (get k current)))
    | inr other ↦
        rw
          (
            other,
            get-load_all k calls (load_balance read j (a, e.currency) current),
            get-load_balance_ne k (a, e.currency) current other,
          )
          refl
  ]

  -- What holds of every balance as it is read holds of all that are loaded.
  load_balance-All :
      (P : BalanceKey × Option (BalanceSnapshot A) → Type 0) (key : BalanceKey)
      (current : Map BalanceKey (Option (BalanceSnapshot A)))
      → ((k : BalanceKey) → P (k, get (j, k) read.balances))
      → All P current
      → All P (load_balance read j key current)
  unfolding load_balance
  load_balance-All P key current stored h =
      elim (Bool-cases (is_inline (get key.0 read.accounts))) [
        | inl inline ↦ elim (Bool-cases (contains_key key current)) [
          | inl known ↦ rw (inline, known) h
          | inr fresh ↦ rw (inline, fresh) (stored key, All-remove P key current h)
        ]
        | inr rolled ↦ rw rolled h
      ]

  pub load_all-All :
      (P : BalanceKey × Option (BalanceSnapshot A) → Type 0)
      (calls : List (AccountId × EntryValues A))
      (current : Map BalanceKey (Option (BalanceSnapshot A)))
      → ((k : BalanceKey) → P (k, get (j, k) read.balances))
      → All P current
      → All P (load_all calls current)
  unfolding load_all
  load_all-All P [] current stored h = h
  load_all-All P ((a, e) ∷ calls) current stored h =
      load_all-All P calls (load_balance read j (a, e.currency) current) stored
        (load_balance-All P (a, e.currency) current stored h)

  -- Every balance that was read is stored under its own journal, account and currency.
  abbrev pub AreStored : Type 0
  AreStored = All (λ x. (x.1.journal_id, key_of x.1) ≡ x.0) read.balances

  read-IsKeyed : AreStored → (k : BalanceKey) → IsKeyed (k, get (j, k) read.balances)
  read-IsKeyed stored k = elim (Option-cases (get (j, k) read.balances)) [
    | inl absent ↦ rw absent tt
    | inr (s, found) ↦ rw found (
        ap (λ x. x.1)
          (All-get (λ x. (x.1.journal_id, key_of x.1) ≡ x.0) (j, k) read.balances stored found))
  ]

  chain_if :
      (now : DateTime) (a : AccountId) (b : Bool) (base : Option (BalanceSnapshot A))
      (entries : List (EntryValues A))
      → elim (if is_empty entries then none else (if b then some base else none)) [
        | none ↦ []
        | some base ↦ chain now a base entries
      ]
        ≡ (if b then chain now a base entries else [])
  chain_if now a true base [] = refl
  chain_if now a false base [] = refl
  chain_if now a true base (e ∷ entries) = refl
  chain_if now a false base (e ∷ entries) = refl

  -- The snapshots that a key is to get from the journal's calls.
  abbrev pub running :
      DateTime → BalanceKey → List (AccountId × EntryValues A) → List (BalanceSnapshot A)
  running now k calls =
      if is_inline (get k.0 read.accounts)
      then chain now k.0 (get (j, k) read.balances) (entries_for k calls)
      else []

  expected-eq-running :
      (now : DateTime) (k : BalanceKey) (calls : List (AccountId × EntryValues A))
      → expected now (load_all calls []) k calls ≡ running now k calls
  expected-eq-running now k calls =
      rw (expected, get-load_all k calls [])
        (chain_if now k.0 (is_inline (get k.0 read.accounts)) (get (j, k) read.balances)
          (entries_for k calls))

  of_entries-eq-running :
      (now : DateTime) (k : BalanceKey) (own : Map AccountId (List AccountSetId))
      (entries : List (EntryValues A))
      → AreStored
      → of_key k (
          if is_empty entries
          then []
          else from_entries now (load_balances read j own entries []) entries own)
        ≡ running now k (postings (inline_targets own) entries)
  unfolding from_entries
  of_entries-eq-running now k own [] stored = sym (if_same (is_inline (get k.0 read.accounts)) refl)
  of_entries-eq-running now k own (e ∷ entries) stored =
      let calls = postings (inline_targets own) (e ∷ entries) in
      rw (load_balances-eq-load_all own (e ∷ entries) []) (
        fold-eq-expected (inline_targets own) now (load_all calls []) (e ∷ entries) k
          (load_all-All IsKeyed calls [] (read-IsKeyed stored) tt)
        ∙ expected-eq-running now k calls)

  -- One journal's round of the fold writes, for an account whose balances are kept inline, in each
  -- currency the running balances of the journal's entries that fan into it, in posting order, from
  -- the balance that was read for it in that journal (or none); and nothing for an account that is
  -- rolled up or was not read. The balances read must be stored under their own keys.
  pub fold_journal-eq-running :
      (now : DateTime) (posted : List (Posting A))
      (mappings : Map JournalId (Map AccountId (List AccountSetId))) (k : BalanceKey)
      → AreStored
      → of_key k (fold_journal read now posted mappings j)
        ≡ running now k
            (postings (inline_targets (list_or_empty (get j mappings))) (journal_entries j posted))
  unfolding fold_journal
  fold_journal-eq-running now posted mappings k stored =
      of_entries-eq-running now k (list_or_empty (get j mappings)) (journal_entries j posted) stored
