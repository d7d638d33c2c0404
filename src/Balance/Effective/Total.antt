-- ===== src/Balance/Effective/Total.antt =====
-- A recalculation does not panic on what is read for it.
use cala.Prelude.{
  ◌<◌, ◌≡◌, refl, sym, ap, ◌∙◌, Bool, true, false, not, ◌||◌, ◌&&◌, any, none, some, List, [], ◌∷◌,
  is_empty, ltb, if◌then◌else◌, Bool-cases, Option-cases, inl, inr, All, arith,
}
use cala.Types.{DecimalOps, BalanceSnapshot, EntryValues, DateTime, NaiveDate, AccountId}
use cala.Balance.Snapshot.{update_snapshot, blank_snapshot}
use cala.Balance.Effective.{
  SnapshotOrEntry, EffectiveBalanceData, snapshot, entry, is_lesser, insert_sorted, sort_updates,
  replay, replay_start, on_date, next_diff, shift_snapshot, re_calculate_snapshots,
}

either : (b c : Bool) → (if b then c else c) ≡ c
either true c = refl
either false c = refl

or_false : (b : Bool) → (b || false) ≡ b
or_false true = refl
or_false false = refl

module _ {A : Type 0} (date : NaiveDate) where
  -- The entries are of the date, and the snapshots, which were read after it, of later ones.
  abbrev pub IsReadAt : SnapshotOrEntry A → Type 0
  IsReadAt (entry day e) = day ≡ date
  IsReadAt (snapshot day s) = date < day

  abbrev pub is_entry : SnapshotOrEntry A → Bool
  is_entry (entry day e) = true
  is_entry (snapshot day s) = false

  starts_with_entry : List (SnapshotOrEntry A) → Bool
  starts_with_entry [] = false
  starts_with_entry (u ∷ us) = is_entry u

  compared :
      (u v : SnapshotOrEntry A)
      → IsReadAt u
      → IsReadAt v
      → (lesser : Bool) × (is_lesser v u ≡ some lesser)
        × ((if lesser then is_entry v else is_entry u) ≡ (is_entry u || is_entry v))
  unfolding is_lesser
  compared (entry i e) (entry j f) h g =
      (ltb f.sequence e.sequence, ground (arith, h, g), either (ltb f.sequence e.sequence) true)
  compared (entry i e) (snapshot j t) h g = (false, ground arith, refl)
  compared (snapshot i s) (entry j f) h g = (true, ground arith, refl)
  compared (snapshot i s) (snapshot j t) h g = (
    ltb j i || (not (ltb i j) && ltb t.version s.version),
    ground (arith, h, g),
    either (ltb j i || (not (ltb i j) && ltb t.version s.version)) false,
  )

  pub busy_lem : (us : List (SnapshotOrEntry A)) → any is_entry us ≡ true → is_empty us ≡ false
  busy_lem [] h = cc
  busy_lem (u ∷ us) h = refl

  insert_sorted_total :
      (u : SnapshotOrEntry A) (vs : List (SnapshotOrEntry A))
      → IsReadAt u
      → All IsReadAt vs
      → (ws : List (SnapshotOrEntry A)) × (insert_sorted u vs ≡ some ws)
        × All IsReadAt ws
        × (starts_with_entry ws ≡ (is_entry u || starts_with_entry vs))
  unfolding insert_sorted starts_with_entry
  insert_sorted_total u [] h hs = (u ∷ [], refl, (h, tt), sym (or_false (is_entry u)))
  insert_sorted_total u (v ∷ vs) h hs =
      let (lesser, decided, heads) = compared u v h hs.0 in
      let (ws, made, all, _) = insert_sorted_total u vs h hs.1 in
      elim (Bool-cases lesser) [
        | inl first ↦
            (v ∷ ws, rw (insert_sorted, decided, first, made) refl, (hs.0, all), rw first at heads)
        | inr second ↦
            (u ∷ v ∷ vs, rw (insert_sorted, decided, second) refl, (h, hs), rw second at heads)
      ]

  sort_updates_total :
      (us : List (SnapshotOrEntry A))
      → All IsReadAt us
      → (ws : List (SnapshotOrEntry A)) × (sort_updates us ≡ some ws)
        × All IsReadAt ws
        × (starts_with_entry ws ≡ any is_entry us)
  unfolding sort_updates starts_with_entry
  sort_updates_total [] h = ([], refl, tt, refl)
  sort_updates_total (u ∷ us) h =
      let (vs, made, all, heads) = sort_updates_total us h.1 in
      let (ws, inserted, every, head) = insert_sorted_total u vs h.0 all in
      (ws, rw made inserted, every, head ∙ ap (λ b. is_entry u || b) heads)

module _ {A : Type 0} ⦃d : DecimalOps A⦄ where
  replay_with_diff :
      (time : DateTime) (a : AccountId) (last_effective : NaiveDate) (last diff : BalanceSnapshot A)
      (updates : List (SnapshotOrEntry A))
      → (out : List (SnapshotOrEntry A)) × (replay time a last_effective last (some diff) updates
          ≡ some out)
  unfolding replay
  replay_with_diff time a last_effective last diff [] = ([], refl)
  replay_with_diff time a last_effective last diff (entry date e ∷ updates) =
      let balance = update_snapshot time (on_date last_effective date last) e in
      let (out, made) =
        replay_with_diff time a date balance (next_diff time a balance (some diff) e) updates in
      (snapshot date balance ∷ out, rw made refl)
  replay_with_diff time a last_effective last diff (snapshot date v ∷ updates) =
      let done = shift_snapshot time v diff in
      let (out, made) =
        replay_with_diff time a date (on_date last_effective date last) done.1 updates in
      (snapshot date done.0 ∷ out, rw made refl)

  replay_of_entry :
      (time : DateTime) (a : AccountId) (last_effective day : NaiveDate) (last : BalanceSnapshot A)
      (e : EntryValues A) (updates : List (SnapshotOrEntry A))
      → (out : List (SnapshotOrEntry A)) × (replay time a last_effective last none
            (entry day e ∷ updates)
          ≡ some out)
  unfolding replay
  replay_of_entry time a last_effective day last e updates =
      let balance = update_snapshot time (on_date last_effective day last) e in
      let (out, made) =
        replay_with_diff time a day balance (next_diff time a balance none e) updates in
      (snapshot day balance ∷ out, rw made refl)

  replay_from_entry :
      (time : DateTime) (this : EffectiveBalanceData A) (sorted : List (SnapshotOrEntry A))
      (date : NaiveDate)
      → starts_with_entry date sorted ≡ true
      → (start : NaiveDate × BalanceSnapshot A) × (out : List (SnapshotOrEntry A)) × (replay_start
            time this sorted
          ≡ some start)
        × (replay time this.account_id start.0 start.1 none sorted ≡ some out)
  unfolding starts_with_entry replay_start
  replay_from_entry time this [] date h = cc
  replay_from_entry time this (snapshot day s ∷ updates) date h = cc
  replay_from_entry time this (entry day e ∷ updates) date h =
      elim (Option-cases this.last_snapshot) [
        | inl absent ↦
            let first = blank_snapshot time this.account_id e in
            let (out, made) = replay_of_entry time this.account_id day day first e updates in
            ((day, first), out, rw (replay_start, absent) refl, made)
        | inr (last, given) ↦
            let (out, made) = replay_of_entry time this.account_id last.0 day last.1 e updates in
            (last, out, rw (replay_start, given) refl, made)
      ]

  -- What is read for a date holds the entries of that date and snapshots of later dates. Where there
  -- is an entry among it, and whatever came last before, the recalculation meets none of its
  -- `unreachable!`, `expect` and index panics, and yields the balances. That the sums of the amounts
  -- fit a decimal is assumed throughout: rust_decimal panics on a sum that overflows.
  pub re_calculate_total :
      (time : DateTime) (this : EffectiveBalanceData A) (date : NaiveDate)
      → All (IsReadAt date) this.updates
      → any (is_entry date) this.updates ≡ true
      → (out : EffectiveBalanceData A) × (re_calculate_snapshots time this ≡ some out)
  unfolding re_calculate_snapshots
  re_calculate_total time this date shape busy =
      let (sorted, in_order, _, head) = sort_updates_total date this.updates shape in
      let (start, out, from, made) = replay_from_entry time this sorted date (head ∙ busy) in
      (
        record this { last_snapshot = none; updates = out },
        rw (busy_lem date this.updates busy, in_order, from, made) refl,
      )
