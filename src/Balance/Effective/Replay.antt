-- ===== src/Balance/Effective/Replay.antt =====
-- What a recalculation makes of the updates.
use mathlib.Core.Path.{subst}
use mathlib.Core.List.{Perm}
use cala.Prelude.{
  ◌≡◌, ◌≢◌, refl, sym, ap, ◌∙◌, false, Option, none, some, List, [], ◌∷◌, is_empty, Option-cases,
  inl, inr, arith,
}
use cala.Prelude.Int.{ℤ, pos, ◌+ℤ◌}
use cala.Types.{DecimalOps, BalanceSnapshot, DateTime, NaiveDate, AccountId, Layer, DebitOrCredit}
use cala.Balance.Snapshot.{update_snapshot}
use cala.Balance.Snapshot.Effect.{
  delta, balance_of, balance_of-update_snapshot, balance_of-blank_snapshot,
}
use cala.Balance.Fold.Totals.{balance_or_zero}
use cala.Balance.Effective.{
  SnapshotOrEntry, EffectiveBalanceData, snapshot, entry, on_date, next_diff, shift_snapshot,
  replay, replay_start, sort_updates, re_calculate_snapshots,
}
use cala.Balance.Effective.Sorted.{IsInOrder, sort_updates-IsInOrder}
use cala.Balance.Effective.Shift.{balance_of-next_diff, shift_snapshot_lem}

some-injective : {X : Type 0} {x y : X} → ◌≡◌ {A = Option X} (some x) (some y) → x ≡ y
some-injective h = cc

none≢some : {X : Type 0} {x : X} → Option.none ≢ some x
none≢some h = cc

through :
    {X Y : Type 0} (o : Option X) (f : X → Option Y) {y : Y}
    → elim o [ none ↦ none | some a ↦ f a ] ≡ some y
    → (a : X) × (o ≡ some a) × (f a ≡ some y)
through none f h = absurd (none≢some h)
through (some a) f h = (a, refl, h)

cons_some :
    {X : Type 0} (o : Option (List X)) {y : X} {out : List X}
    → elim o [ none ↦ none | some rest ↦ some (y ∷ rest) ] ≡ some out
    → (rest : List X) × (o ≡ some rest) × (out ≡ y ∷ rest)
cons_some none h = absurd (none≢some h)
cons_some (some rest) h = (rest, refl, sym (some-injective h))

module _ {A : Type 0} ⦃d : DecimalOps A⦄ where
  module _ (l : Layer) (x : DebitOrCredit) where
    -- On one side of one layer, from a balance and what was brought in so far: an entry becomes the
    -- snapshot of its date that holds the balance and what the entry brings, and a snapshot becomes
    -- itself with all that the entries before it brought.
    abbrev pub IsReplayed : ℤ → ℤ → List (SnapshotOrEntry A) → List (SnapshotOrEntry A) → Type 0
    IsReplayed base brought [] [] = Unit
    IsReplayed base brought (entry date e ∷ updates) (snapshot day s ∷ out) =
        (day ≡ date)
        × (balance_of s l x ≡ base +ℤ delta e l x)
        × IsReplayed (base +ℤ delta e l x) (brought +ℤ delta e l x) updates out
    IsReplayed base brought (snapshot date v ∷ updates) (snapshot day s ∷ out) =
        (day ≡ date)
        × (balance_of s l x ≡ balance_of v l x +ℤ brought)
        × IsReplayed base brought updates out
    IsReplayed base brought _ _ = ⊥

    on_date_lem :
        (last_effective date : NaiveDate) (last : BalanceSnapshot A)
        → balance_of (on_date last_effective date last) l x ≡ balance_of last l x
    on_date_lem last_effective date last = ground arith

    replay-IsReplayed :
        (time : DateTime) (a : AccountId) (last_effective : NaiveDate) (last : BalanceSnapshot A)
        (diff : Option (BalanceSnapshot A)) (updates out : List (SnapshotOrEntry A))
        (base brought : ℤ)
        → balance_of last l x ≡ base
        → balance_or_zero diff l x ≡ brought
        → replay time a last_effective last diff updates ≡ some out
        → IsReplayed base brought updates out
    unfolding replay
    replay-IsReplayed time a last_effective last diff [] out base brought h g made =
        subst (IsReplayed base brought []) (some-injective made) tt
    replay-IsReplayed time a last_effective last diff (entry date e ∷ updates) out base brought h g
          made =
        let balance = update_snapshot time (on_date last_effective date last) e in
        let (rest, again, out_is) =
          cons_some (replay time a date balance (some (next_diff time a balance diff e)) updates)
            made in
        let holds : balance_of balance l x ≡ base +ℤ delta e l x =
          balance_of-update_snapshot time (on_date last_effective date last) e l x
          ∙ ap (λ b. b +ℤ delta e l x) (on_date_lem last_effective date last ∙ h) in
        let brings : balance_of (next_diff time a balance diff e) l x ≡ brought +ℤ delta e l x =
          balance_of-next_diff time a balance diff e l x ∙ ap (λ b. b +ℤ delta e l x) g in
        subst (IsReplayed base brought (entry date e ∷ updates)) (sym out_is) (
          refl,
          holds,
          replay-IsReplayed time a date balance (some (next_diff time a balance diff e)) updates
              rest _ _ holds brings again,
        )
    replay-IsReplayed time a last_effective last none (snapshot date v ∷ updates) out base brought h
          g made =
        absurd (none≢some made)
    replay-IsReplayed time a last_effective last (some diff) (snapshot date v ∷ updates) out base
          brought h g made =
        let done = shift_snapshot time v diff in
        let (rest, again, out_is) =
          cons_some (replay time a date (on_date last_effective date last) (some done.1) updates)
            made in
        let (moved, kept) = shift_snapshot_lem time v diff l x in
        subst (IsReplayed base brought (snapshot date v ∷ updates)) (sym out_is) (
          refl,
          moved ∙ ap (λ b. balance_of v l x +ℤ b) g,
          replay-IsReplayed time a date (on_date last_effective date last) (some done.1) updates
              rest base brought (on_date_lem last_effective date last ∙ h) (kept ∙ g) again,
        )

  -- The balance of the last snapshot before the updates, where there is one.
  abbrev pub last_balance : Option (NaiveDate × BalanceSnapshot A) → Option (BalanceSnapshot A)
  last_balance none = none
  last_balance (some last) = some last.1

  replay_start-balance :
      (time : DateTime) (this : EffectiveBalanceData A) (sorted : List (SnapshotOrEntry A))
      (start : NaiveDate × BalanceSnapshot A)
      → replay_start time this sorted ≡ some start
      → (l : Layer) (x : DebitOrCredit)
      → balance_of start.1 l x ≡ balance_or_zero (last_balance this.last_snapshot) l x
  unfolding replay_start
  replay_start-balance time this sorted start h l x = elim (Option-cases this.last_snapshot) [
    | inr (last, given) ↦ rw given (of_last sorted last given h)
    | inl absent ↦ rw absent (of_first sorted absent h)
  ]
    where
      of_last :
          (sorted : List (SnapshotOrEntry A)) (last : NaiveDate × BalanceSnapshot A)
          → this.last_snapshot ≡ some last
          → replay_start time this sorted ≡ some start
          → balance_of start.1 l x ≡ balance_of last.1 l x
      of_last [] last given h =
          ap (λ s. balance_of s.1 l x) (sym (some-injective (rw (given, replay_start) at h)))
      of_last (entry date e ∷ us) last given h =
          ap (λ s. balance_of s.1 l x) (sym (some-injective (rw (given, replay_start) at h)))
      of_last (snapshot date v ∷ us) last given h =
          ap (λ s. balance_of s.1 l x) (sym (some-injective (rw (given, replay_start) at h)))

      of_first :
          (sorted : List (SnapshotOrEntry A))
          → this.last_snapshot ≡ none
          → replay_start time this sorted ≡ some start
          → balance_of start.1 l x ≡ pos 0
      of_first [] absent h = absurd (none≢some (rw (absent, replay_start) at h))
      of_first (snapshot date v ∷ us) absent h = absurd (none≢some (rw (absent, replay_start) at h))
      of_first (entry date e ∷ us) absent h =
          ap (λ s. balance_of s.1 l x) (sym (some-injective (rw (absent, replay_start) at h)))
          ∙ balance_of-blank_snapshot time this.account_id e l x

  -- A recalculation that does not panic replays a rearrangement of its updates in which they go by
  -- date, and within a date snapshots by version and entries by sequence. On every layer and side,
  -- each entry becomes the snapshot of its date that holds the balance so far and what the entry
  -- brings, from the balance of the last snapshot before the updates, or from zero where there is
  -- none; each snapshot is shifted by all that the entries before it brought; no date changes.
  pub re_calculate-IsReplayed :
      (time : DateTime) (this out : EffectiveBalanceData A)
      → is_empty this.updates ≡ false
      → re_calculate_snapshots time this ≡ some out
      → (sorted : List (SnapshotOrEntry A)) × IsInOrder sorted
        × Perm this.updates sorted
        × ((l : Layer) (x : DebitOrCredit)
            → IsReplayed l x
                (balance_or_zero (last_balance this.last_snapshot) l x)
                (pos 0)
                sorted
                out.updates)
  unfolding re_calculate_snapshots
  re_calculate-IsReplayed time this out busy made =
      let (sorted, in_order, p) = through (sort_updates this.updates) _ (rw busy at made) in
      let (start, from, q) = through (replay_start time this sorted) _ p in
      let (updates, replayed, last) =
        through (replay time this.account_id start.0 start.1 none sorted) _ q in
      let (order, perm) = sort_updates-IsInOrder this.updates sorted in_order in
      (
        sorted,
        order,
        perm,
        λ l x.
            subst
              (λ o.
                IsReplayed l x (balance_or_zero (last_balance this.last_snapshot) l x) (pos 0)
                  sorted o.updates)
              (some-injective last)
              (replay-IsReplayed l x time this.account_id start.0 start.1 none sorted updates
                (balance_or_zero (last_balance this.last_snapshot) l x) (pos 0)
                (replay_start-balance time this sorted start from l x) refl replayed),
      )
