-- ===== src/Balance/Fold/OneJournal.antt =====
-- A fold over the balances and entries of one journal writes balances of that journal.
use cala.Prelude.{
  ◌≡◌, ◌∙◌, Option, none, some, List, [], ◌∷◌, pair_eq, nat_eq, All, All-append, Option-cases, inl,
  inr,
}
use cala.Prelude.Map.{Map, get, remove, values, All-remove, All-get}
use cala.Types.{DecimalOps, BalanceSnapshot, EntryValues, DateTime, AccountId, JournalId}
use cala.Balance.Snapshot.Effect.{update_snapshot-IsPosted, new_snapshot_lem}
use cala.Balance.Fold.{
  BalanceKey, SnapshotFold, next_snapshot, apply, apply_each, apply_entries, into_snapshots,
  new_fold,
}
use cala.Balance.Fold.Keys.{apply_touched, apply_first, apply_skipped}

module _ {A : Type 0} ⦃d : DecimalOps A⦄ (j : JournalId) where
  -- A balance that exists is of the journal.
  abbrev pub IsLoadedOf : BalanceKey × Option (BalanceSnapshot A) → Type 0
  IsLoadedOf (k, none) = Unit
  IsLoadedOf (k, some s) = s.journal_id ≡ j

  record IsOf (f : SnapshotFold A) : Type 0 where
    completed : All (λ s. s.journal_id ≡ j) f.completed
    latest : All (λ x. x.1.journal_id ≡ j) f.latest
    current : All IsLoadedOf f.current

  journal-next_snapshot :
      (time : DateTime) (a : AccountId) (k : BalanceKey) (base : Option (BalanceSnapshot A))
      (e : EntryValues A)
      → e.journal_id ≡ j
      → IsLoadedOf (k, base)
      → (next_snapshot time a base e).journal_id ≡ j
  unfolding next_snapshot
  journal-next_snapshot time a k none e own h = (new_snapshot_lem time a e).1 ∙ own
  journal-next_snapshot time a k (some s) e own h = (update_snapshot-IsPosted time s e).journal ∙ h

  apply-IsOf :
      (f : SnapshotFold A) (a : AccountId) (e : EntryValues A)
      → e.journal_id ≡ j
      → IsOf f
      → IsOf (apply f a e)
  apply-IsOf f a e own h =
      let key : BalanceKey = (a, e.currency) in
      elim (Option-cases (get key f.latest)) [
        | inl fresh ↦ elim (Option-cases (get key f.current)) [
          | inl unknown ↦ rw (apply_skipped f a e fresh unknown) h
          | inr (base, known) ↦ rw (apply_first f a e base fresh known) (record {
            completed = h.completed;
            latest = (
              journal-next_snapshot f.time a key base e own
                  (All-get IsLoadedOf key f.current h.current known),
              All-remove (λ x. x.1.journal_id ≡ j) key f.latest h.latest,
            );
            current = All-remove IsLoadedOf key f.current h.current;
          })
        ]
        | inr (prev, touched) ↦
            let of_prev : prev.journal_id ≡ j =
              All-get (λ x. x.1.journal_id ≡ j) key f.latest h.latest touched in
            rw (apply_touched f a e prev touched) (record {
              completed =
                  All-append (λ s. s.journal_id ≡ j) f.completed (prev ∷ []) h.completed
                    (of_prev, tt);
              latest = (
                journal-next_snapshot f.time a key (some prev) e own of_prev,
                All-remove (λ x. x.1.journal_id ≡ j) key (remove key f.latest)
                    (All-remove (λ x. x.1.journal_id ≡ j) key f.latest h.latest),
              );
              current = h.current;
            })
      ]

  apply_each-IsOf :
      (f : SnapshotFold A) (accounts : List AccountId) (e : EntryValues A)
      → e.journal_id ≡ j
      → IsOf f
      → IsOf (apply_each f accounts e)
  unfolding apply_each
  apply_each-IsOf f [] e own h = h
  apply_each-IsOf f (a ∷ accounts) e own h =
      apply_each-IsOf (apply f a e) accounts e own (apply-IsOf f a e own h)

  apply_entries-IsOf :
      (targets : EntryValues A → List AccountId) (f : SnapshotFold A)
      (entries : List (EntryValues A))
      → All (λ e. e.journal_id ≡ j) entries
      → IsOf f
      → IsOf (apply_entries targets f entries)
  unfolding apply_entries
  apply_entries-IsOf targets f [] own h = h
  apply_entries-IsOf targets f (e ∷ entries) own h =
      apply_entries-IsOf targets (apply_each f (targets e) e) entries own.1
        (apply_each-IsOf f (targets e) e own.0 h)

  All-values :
      (m : Map BalanceKey (BalanceSnapshot A))
      → All (λ x. x.1.journal_id ≡ j) m
      → All (λ s. s.journal_id ≡ j) (values m)
  All-values [] h = tt
  All-values ((k, s) ∷ m) h = (h.0, All-values m h.1)

  pub fold_of_journal :
      (targets : EntryValues A → List AccountId) (time : DateTime)
      (current : Map BalanceKey (Option (BalanceSnapshot A))) (entries : List (EntryValues A))
      → All IsLoadedOf current
      → All (λ e. e.journal_id ≡ j) entries
      → All
          (λ s. s.journal_id ≡ j)
          (into_snapshots (apply_entries targets (new_fold time current) entries))
  fold_of_journal targets time current entries loaded own =
      let f = apply_entries targets (new_fold time current) entries in
      let h =
        apply_entries-IsOf targets (new_fold time current) entries own
          (record { completed = tt; latest = tt; current = loaded }) in
      All-append (λ s. s.journal_id ≡ j) f.completed (values f.latest) h.completed
        (All-values f.latest h.latest)
