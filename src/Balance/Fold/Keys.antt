-- ===== src/Balance/Fold/Keys.antt =====
-- Every balance of a `SnapshotFold` stands under its own key, once; the three branches of `apply`.
use cala.Prelude.{
  ◌≡◌, Option, none, some, [], ◌∷◌, ◌++◌, pair_eq, nat_eq, All, Option-cases, inl, inr,
}
use cala.Prelude.Map.{
  Map, get, remove, insert, IsUnique, insert-IsUnique, remove-IsUnique, All-remove, All-get,
}
use cala.Types.{DecimalOps, BalanceSnapshot, EntryValues, DateTime, AccountId}
use cala.Balance.Snapshot.Effect.{update_snapshot-IsPosted, new_snapshot_lem}
use cala.Balance.Fold.{BalanceKey, SnapshotFold, next_snapshot, apply}
use cala.Balance.Fold.Spec.{key_of, IsKeyed}

module _ {A : Type 0} ⦃d : DecimalOps A⦄ where
  pub record IsWellKeyed (f : SnapshotFold A) : Type 0 where
    pub unique : IsUnique f.latest
    pub written : All (λ x. key_of x.1 ≡ x.0) f.latest
    pub loaded : All IsKeyed f.current

  key_of-next_snapshot :
      (time : DateTime) (a : AccountId) (base : Option (BalanceSnapshot A)) (e : EntryValues A)
      → IsKeyed ((a, e.currency), base)
      → key_of (next_snapshot time a base e) ≡ (a, e.currency)
  unfolding next_snapshot
  key_of-next_snapshot time a (some s) e h =
      let posted = update_snapshot-IsPosted time s e in cc (posted.account, posted.currency)
  key_of-next_snapshot time a none e h = let new = new_snapshot_lem time a e in cc (new.0)

  -- The three branches of `apply`.
  module _ (f : SnapshotFold A) (a : AccountId) (e : EntryValues A) where
    pub apply_touched :
        (prev : BalanceSnapshot A)
        → get (a, e.currency) f.latest ≡ some prev
        → apply f a e ≡ record f {
          latest =
              insert
                (a, e.currency)
                (next_snapshot f.time a (some prev) e)
                (remove (a, e.currency) f.latest);
          completed = f.completed ++ prev ∷ [];
        }
    unfolding apply
    apply_touched prev touched = rw (touched, apply)

    pub apply_first :
        (base : Option (BalanceSnapshot A))
        → get (a, e.currency) f.latest ≡ none
        → get (a, e.currency) f.current ≡ some base
        → apply f a e ≡ record f {
          current = remove (a, e.currency) f.current;
          latest = insert (a, e.currency) (next_snapshot f.time a base e) f.latest;
        }
    unfolding apply
    apply_first base fresh known = rw (fresh, known, apply)

    pub apply_skipped :
        get (a, e.currency) f.latest ≡ none → get (a, e.currency) f.current ≡ none → apply f a e ≡ f
    unfolding apply
    apply_skipped fresh unknown = rw (fresh, unknown, apply)

  insert-keyed :
      (k : BalanceKey) (s : BalanceSnapshot A) (m : Map BalanceKey (BalanceSnapshot A))
      → key_of s ≡ k
      → All (λ x. key_of x.1 ≡ x.0) m
      → All (λ x. key_of x.1 ≡ x.0) (insert k s m)
  insert-keyed k s m h hm = (h, All-remove (λ x. key_of x.1 ≡ x.0) k m hm)

  pub apply-IsWellKeyed :
      (f : SnapshotFold A) (a : AccountId) (e : EntryValues A)
      → IsWellKeyed f
      → IsWellKeyed (apply f a e)
  apply-IsWellKeyed f a e h =
      let key : BalanceKey = (a, e.currency) in
      elim (Option-cases (get key f.latest)) [
        | inl fresh ↦ elim (Option-cases (get key f.current)) [
          | inl unknown ↦ rw (apply_skipped f a e fresh unknown) h
          | inr (base, known) ↦ rw (apply_first f a e base fresh known) (record {
            unique = insert-IsUnique key (next_snapshot f.time a base e) f.latest h.unique;
            written =
                insert-keyed key (next_snapshot f.time a base e) f.latest
                  (key_of-next_snapshot f.time a base e
                    (All-get IsKeyed key f.current h.loaded known))
                  h.written;
            loaded = All-remove IsKeyed key f.current h.loaded;
          })
        ]
        | inr (prev, touched) ↦ rw (apply_touched f a e prev touched) (record {
          unique =
              insert-IsUnique key (next_snapshot f.time a (some prev) e) (remove key f.latest)
                (remove-IsUnique key f.latest h.unique);
          written =
              insert-keyed key (next_snapshot f.time a (some prev) e) (remove key f.latest)
                (key_of-next_snapshot f.time a (some prev) e
                  (All-get (λ x. key_of x.1 ≡ x.0) key f.latest h.written touched))
                (All-remove (λ x. key_of x.1 ≡ x.0) key f.latest h.written);
          loaded = h.loaded;
        })
      ]
