-- ===== src/Velocity/Enforce/Batch.antt =====
-- The enforcement of a whole batch of postings.
use mathlib.Core.Path.{subst}
use cala.Prelude.{
  list_or_empty, ◌≡◌, refl, sym, ap, ◌∙◌, inl, inr, true, not, Option, none, some, is_some, List,
  [], ◌∷◌, ok, >>=-eq-ok, ok-injective, All, All-mono, is_empty, Bool-cases, nat_eq,
}
use cala.Prelude.Map.{
  Map, get, keys, insert, contains_key, IsUnique, contains_key_same, IsUnique_same, All_of_get,
}
use cala.Types.{
  DecimalOps, BalanceSnapshot, EntryValues, EntryId, TransactionId, AccountId, AccountSetId,
  JournalId, DateTime, VelocityContextAccountValues,
}
use cala.Cel.{CelValue}
use cala.Cel.Eval.{CelOps}
use cala.Balance.Fold.Spec.{chain}
use cala.Velocity.{WindowOps, VelocityBalanceKey, key_eq}
use cala.Velocity.Context.{entry_value, transaction_value, account_values_of, new_context}
use cala.Velocity.Collect.{Checks, Controls, collect_balances_to_check}
use cala.Velocity.Collect.Unique.{collect_balances-IsUnique}
use cala.Velocity.Enforce.{
  Contexts, Posting, expect, contexts_of, control_accounts, collect_postings, enforce_batch,
  new_snapshots_with_limit_enforcement,
}
use cala.Velocity.Enforce.Valued.{AreTrue, insert-AreTrue}
use cala.Velocity.Enforce.Counts.{Counts, counted_under, grouped, IsGrouped, counts_of_postings}
use cala.Velocity.Enforce.Own.{of_postings, no_postings}
use cala.Velocity.Enforce.Collected.{AreValued, collect_postings-IsGrouped}
use cala.Velocity.Enforce.Chained.{entries_of, AreWithin, HaveValues, new_snapshots-IsEnforced}

module _ {A Expr Ctx W : Type 0} ⦃d : DecimalOps A⦄ ⦃ops : WindowOps W⦄
    (c : CelOps A Expr Ctx) where
  collect_postings-IsUnique :
      (controls : Controls A Expr) (mappings : Map JournalId (Map AccountId (List AccountSetId)))
      (postings : List (Posting A)) (s out : Contexts A × Checks W A Expr)
      → IsUnique s.1
      → collect_postings c controls mappings postings s ≡ ok out
      → IsUnique out.1
  unfolding collect_postings
  collect_postings-IsUnique controls mappings [] s out u h =
      subst (λ o. IsUnique o.1) (ok-injective h) u
  collect_postings-IsUnique controls mappings ((tx, entries) ∷ postings) s out u h =
      let (ec, _, p) = >>=-eq-ok (expect (get tx.id s.0) _) _ h in
      let (done, collected, rest) =
        >>=-eq-ok
          (collect_balances_to_check c controls (list_or_empty (get tx.journal_id mappings)) entries
            (ec, s.1))
          _ p in
      collect_postings-IsUnique controls mappings postings (insert tx.id done.0 s.0, done.1) out
        (collect_balances-IsUnique c controls _ entries (ec, s.1) done u collected) rest

grouped_nothing : {X : Type 0} (xs : List X) → none ≡ grouped xs → xs ≡ []
grouped_nothing [] h = refl
grouped_nothing (x ∷ xs) h = cc

grouped_something : {X : Type 0} (xs ys : List X) → some ys ≡ grouped xs → ys ≡ xs
grouped_something [] ys h = cc
grouped_something (x ∷ xs) ys h = cc

is_some-grouped : {X : Type 0} (xs : List X) → is_some (grouped xs) ≡ not (is_empty xs)
is_some-grouped [] = refl
is_some-grouped (x ∷ xs) = refl

nothing : {X : Type 0} (xs : List X) → is_empty xs ≡ true → xs ≡ []
nothing [] h = refl
nothing (x ∷ xs) h = cc

module _ {A Expr W : Type 0} ⦃ops : WindowOps W⦄ where
  -- What is counted under a key is of what is counted.
  counted_under-All :
      (P : EntryValues A → Type 0) (k : VelocityBalanceKey W) (counts : Counts W A Expr)
      → All (λ x. P x.1.1) counts
      → All (λ x. P x.1) (counted_under k counts)
  counted_under-All P k [] h = tt
  counted_under-All P k ((j, x) ∷ counts) h = elim (Bool-cases (key_eq.beq k j)) [
    | inl same ↦ rw same (h.0, counted_under-All P k counts h.1)
    | inr other ↦ rw other (counted_under-All P k counts h.1)
  ]

  counted_under_nothing :
      (k : VelocityBalanceKey W) (counts : Counts W A Expr)
      → counts ≡ []
      → counted_under k counts ≡ []
  counted_under_nothing k counts h = ap (counted_under k) h

module _ {A Expr Ctx W : Type 0} ⦃d : DecimalOps A⦄ ⦃ops : WindowOps W⦄ (c : CelOps A Expr Ctx)
    (tx_value : TransactionId → CelValue A) (value_of : EntryId → CelValue A)
    (accounts : Map AccountId (CelValue A))
    (find_for_update : List (VelocityBalanceKey W)
      → Map (VelocityBalanceKey W) (Option (BalanceSnapshot A)))
    (time : DateTime) where
  -- What a batch writes for one key, by what is counted in it: the running balances of the entries
  -- counted under the key, from the balance that was read, each within the limit that counts its
  -- entry.
  abbrev pub IsWritten :
      Counts W A Expr
      → List (VelocityBalanceKey W)
      → VelocityBalanceKey W × List (BalanceSnapshot A)
      → Type 0
  IsWritten counts read x =
      (base : Option (BalanceSnapshot A)) × (get x.0 (find_for_update read) ≡ some base)
      × (x.1 ≡ chain time x.0.account_id base (entries_of (counted_under x.0 counts)))
      × AreWithin c tx_value value_of accounts time x.0.account_id (counted_under x.0 counts) x.1

  -- Each key under which something is counted is written once, and no other.
  pub record IsEnforcedBatch (counts : Counts W A Expr)
      (out : Map (VelocityBalanceKey W) (List (BalanceSnapshot A))) : Type 0 where
    pub written :
        (k : VelocityBalanceKey W) → contains_key k out ≡ not (is_empty (counted_under k counts))
    pub once : IsUnique out
    pub enforced : All (IsWritten counts (keys out)) out

  nothing-IsEnforced :
      (counts : Counts W A Expr)
      → ((k : VelocityBalanceKey W) → counted_under k counts ≡ [])
      → IsEnforcedBatch counts []
  nothing-IsEnforced counts h = record {
    written = λ k. sym (ap (λ xs. not (is_empty xs)) (h k));
    once = tt;
    enforced = tt;
  }

  collected-IsEnforced :
      (counts : Counts W A Expr) (checks : Checks W A Expr) (contexts : Contexts A)
      (out : Map (VelocityBalanceKey W) (List (BalanceSnapshot A)))
      → IsUnique checks
      → AreTrue c tx_value value_of accounts contexts
      → IsGrouped checks counts
      → All (λ x. value_of x.1.1.id ≡ entry_value c x.1.1) counts
      → new_snapshots_with_limit_enforcement c time (find_for_update (keys checks)) checks contexts
        ≡ ok out
      → IsEnforcedBatch counts out
  collected-IsEnforced counts checks contexts out unique all grouped_in own h =
      let valued = All_of_get (HaveValues c tx_value value_of accounts) checks unique (λ k l found.
        subst (HaveValues c tx_value value_of accounts)
          (sym (grouped_something (counted_under k counts) l (sym found ∙ grouped_in k)))
          (counted_under-All (λ e. value_of e.id ≡ entry_value c e) k counts own)) in
      let (same, every) =
        new_snapshots-IsEnforced c tx_value value_of accounts time (find_for_update (keys checks))
          checks contexts out unique all valued h in
      record {
        written = λ k.
            contains_key_same k out checks same
            ∙ ap is_some (grouped_in k)
            ∙ is_some-grouped (counted_under k counts);
        once = IsUnique_same out checks same unique;
        enforced =
            subst (λ read. All (IsWritten counts read) out) (sym same)
              (All-mono out
                (λ x (base, counted, read, found, chained, within).
                  let e =
                    grouped_something (counted_under x.0 counts) counted
                      (sym found ∙ grouped_in x.0) in
                  (
                    base,
                    read,
                    chained ∙ ap (λ xs. chain time x.0.account_id base (entries_of xs)) e,
                    subst (λ xs. AreWithin c tx_value value_of accounts time x.0.account_id xs x.1)
                        e within,
                  ))
                every);
      }

module _ {A Expr Ctx : Type 0} (c : CelOps A Expr Ctx) (tx_value : TransactionId → CelValue A)
    (value_of : EntryId → CelValue A) (accounts : List VelocityContextAccountValues) where
  pub contexts_of-AreTrue :
      (postings : List (Posting A)) (contexts : Contexts A)
      → All (λ p. tx_value p.0.id ≡ transaction_value c p.0) postings
      → AreTrue c tx_value value_of (account_values_of c accounts []) contexts
      → AreTrue c tx_value value_of
          (account_values_of c accounts [])
          (contexts_of c accounts postings contexts)
  unfolding new_context
  contexts_of-AreTrue [] contexts own h = h
  contexts_of-AreTrue ((tx, entries) ∷ postings) contexts own h =
      contexts_of-AreTrue postings (insert tx.id (new_context c tx accounts) contexts) own.1 (
        insert-AreTrue c tx_value value_of (account_values_of c accounts []) contexts tx.id
          (new_context c tx accounts) h
          (record {
            transaction = sym own.0;
            account_values = refl;
            entry_values = λ id v found. cc;
          }))

module _ {A Expr Ctx W : Type 0} ⦃d : DecimalOps A⦄ ⦃ops : WindowOps W⦄
    (c : CelOps A Expr Ctx) where
  -- Where the ids of the transactions and entries of a batch determine their values, the clock that
  -- expressions may read stands still, and the batch passes enforcement, it writes once for each key
  -- under which a limit of a control of its accounts, or of the sets above them in the journal of the
  -- posting, counts an entry, and for no other key. It writes the running balances of the entries
  -- counted under the key, in order, from the balance that was read for it under lock, every one
  -- within the limit that counts its entry, in the context of that entry on the account of the key.
  pub enforce_batch-IsEnforced :
      (tx_value : TransactionId → CelValue A) (value_of : EntryId → CelValue A)
      (find_for_update : List (VelocityBalanceKey W)
        → Map (VelocityBalanceKey W) (Option (BalanceSnapshot A)))
      (time : DateTime) (postings : List (Posting A)) (controls : Controls A Expr)
      (mappings : Map JournalId (Map AccountId (List AccountSetId)))
      (out : Map (VelocityBalanceKey W) (List (BalanceSnapshot A)))
      → All (λ p. tx_value p.0.id ≡ transaction_value c p.0) postings
      → AreValued c value_of postings
      → enforce_batch c find_for_update time postings controls mappings ≡ ok out
      → IsEnforcedBatch c tx_value value_of
          (account_values_of c (control_accounts controls) [])
          find_for_update
          time
          (counts_of_postings c tx_value
            (account_values_of c (control_accounts controls) [])
            controls
            mappings
            postings)
          out
  unfolding enforce_batch
  enforce_batch-IsEnforced tx_value value_of find_for_update time postings controls mappings out
        known own h =
      let accounts = account_values_of c (control_accounts controls) [] in
      let counts = counts_of_postings c tx_value accounts controls mappings postings in
      elim (Bool-cases (is_empty controls)) [
        | inl nobody ↦
            let none_counted : counts ≡ [] =
              subst (λ cs. counts_of_postings {W = W} c tx_value accounts cs mappings postings ≡ [])
                (sym (nothing controls nobody))
                (no_postings W c tx_value accounts mappings postings) in
            subst (IsEnforcedBatch c tx_value value_of accounts find_for_update time counts)
              (ok-injective (rw nobody at h))
              (nothing-IsEnforced c tx_value value_of accounts find_for_update time counts
                (λ k. counted_under_nothing k counts none_counted))
        | inr somebody ↦
            let start = contexts_of c (control_accounts controls) postings [] in
            let (collected, made, p) =
              >>=-eq-ok (collect_postings c controls mappings postings (start, [])) _
                (rw somebody at h) in
            let (all, grouped_in) =
              collect_postings-IsGrouped c tx_value value_of accounts controls mappings postings
                (start, []) collected [] own
                (contexts_of-AreTrue c tx_value value_of (control_accounts controls) postings []
                  known (λ tx_id ec found. cc))
                (λ k. refl) made in
            elim (Bool-cases (is_empty collected.1)) [
              | inl unchecked ↦
                  subst (IsEnforcedBatch c tx_value value_of accounts find_for_update time counts)
                    (ok-injective (rw unchecked at p))
                    (nothing-IsEnforced c tx_value value_of accounts find_for_update time counts
                      (λ k.
                        grouped_nothing (counted_under k counts)
                          (sym (ap (get k) (nothing collected.1 unchecked)) ∙ grouped_in k)))
              | inr checked ↦
                  collected-IsEnforced c tx_value value_of accounts find_for_update time counts
                    collected.1 collected.0 out
                    (collect_postings-IsUnique c controls mappings postings _ collected tt made) all
                    grouped_in
                    (of_postings W c tx_value accounts controls
                      (λ e. value_of e.id ≡ entry_value c e) mappings postings own)
                    (rw checked at p)
            ]
      ]
