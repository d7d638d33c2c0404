-- ===== src/Balance/Fold/Chain.antt =====
-- The fold against its specification: for each account and currency the snapshots written are the
-- running balances of the entries that fan into it, in order, from the balance that was loaded.
use cala.Prelude.{
  ◌≡◌, refl, sym, ap, ◌∙◌, Option, none, some, List, [], ◌∷◌, ◌++◌, arith, map, pair_eq, nat_eq,
  filter-append, option_list, All,
}
use cala.Prelude.Map.{Map, get, values, filter-values}
use cala.Types.{DecimalOps, BalanceSnapshot, EntryValues, DateTime, AccountId}
use cala.Balance.Fold.{
  BalanceKey, SnapshotFold, apply, apply_each, apply_entries, into_snapshots, new_fold,
}
use cala.Balance.Fold.Spec.{key_of, of_key, postings, entries_for, IsKeyed, expected}
use cala.Balance.Fold.Keys.{IsWellKeyed, apply-IsWellKeyed}
use cala.Balance.Fold.Step.{remaining, written_for, apply-written_for}

module _ {A : Type 0} ⦃d : DecimalOps A⦄ where
  run : SnapshotFold A → List (AccountId × EntryValues A) → SnapshotFold A
  run f [] = f
  run f ((a, e) ∷ rest) = run (apply f a e) rest

  run-append :
      (f : SnapshotFold A) (xs ys : List (AccountId × EntryValues A))
      → run f (xs ++ ys) ≡ run (run f xs) ys
  unfolding run
  run-append f [] ys = refl
  run-append f (x ∷ xs) ys = run-append (apply f x.0 x.1) xs ys

  apply_each-eq-run :
      (f : SnapshotFold A) (accounts : List AccountId) (e : EntryValues A)
      → apply_each f accounts e ≡ run f (map (λ a. (a, e)) accounts)
  unfolding run apply_each
  apply_each-eq-run f [] e = refl
  apply_each-eq-run f (a ∷ accounts) e = apply_each-eq-run (apply f a e) accounts e

  apply_entries-eq-run :
      (targets : EntryValues A → List AccountId) (f : SnapshotFold A)
      (entries : List (EntryValues A))
      → apply_entries targets f entries ≡ run f (postings targets entries)
  unfolding run apply_entries
  apply_entries-eq-run targets f [] = refl
  apply_entries-eq-run targets f (e ∷ entries) =
      apply_entries-eq-run targets (apply_each f (targets e) e) entries
      ∙ ap (λ g. run g (postings targets entries)) (apply_each-eq-run f (targets e) e)
      ∙ sym (run-append f (map (λ a. (a, e)) (targets e)) (postings targets entries))

  run-written_for :
      (k : BalanceKey) (f : SnapshotFold A) (calls : List (AccountId × EntryValues A))
      → IsWellKeyed f
      → of_key k (into_snapshots (run f calls)) ≡ written_for k f (entries_for k calls)
  unfolding run
  run-written_for k f [] h =
      filter-append (λ s. pair_eq.beq k (key_of s)) f.completed (values f.latest)
      ∙ ap (◌++◌ (of_key k f.completed)) (
          filter-values key_of k f.latest h.unique h.written
          ∙ option_list-eq-remaining (get k f.latest) (get k f.current))
    where
      option_list-eq-remaining :
          (l : Option (BalanceSnapshot A)) (c : Option (Option (BalanceSnapshot A)))
          → option_list l ≡ remaining f.time k.0 l c []
      option_list-eq-remaining (some s) c = refl
      option_list-eq-remaining none none = refl
      option_list-eq-remaining none (some base) = refl
  run-written_for k f ((a, e) ∷ calls) h =
      run-written_for k (apply f a e) calls (apply-IsWellKeyed f a e h)
      ∙ apply-written_for k f a e (entries_for k calls) h

  -- Whatever accounts the entries fan into, the snapshots that the fold writes for one account and
  -- currency are, in order, the running balances of the entries that fan into it, from the balance
  -- that was loaded; for a key that was not loaded there is none.
  pub fold-eq-expected :
      (targets : EntryValues A → List AccountId) (time : DateTime)
      (current : Map BalanceKey (Option (BalanceSnapshot A))) (entries : List (EntryValues A))
      (k : BalanceKey)
      → All IsKeyed current
      → of_key k (into_snapshots (apply_entries targets (new_fold time current) entries))
        ≡ expected time current k (postings targets entries)
  fold-eq-expected targets time current entries k loaded =
      rw (apply_entries-eq-run targets (new_fold time current) entries) (
        run-written_for k (new_fold time current) (postings targets entries)
          (record { unique = tt; written = tt; loaded = loaded })
        ∙ ground arith)
