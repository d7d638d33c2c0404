-- ===== src/Balance/Effective.antt =====
-- Balances by effective date (cala-ledger/src/balance/effective/data.rs): a batch's entries are put
-- before the snapshots of later dates, which are shifted by what the entries bring.
pub mod Shift
pub mod Sorted
pub mod Replay
pub mod Total
use cala.Prelude.{
  ℕ, ◌+◌, ◌%◌, Bool, true, false, not, ◌||◌, ltb, nat_beq, Option, none, some, List, [], ◌∷◌, ◌++◌,
  is_empty, if◌then◌else◌,
}
use cala.Types.{
  DecimalOps, BalanceAmount, BalanceSnapshot, EffectiveBalanceSnapshot, EntryValues, DateTime,
  NaiveDate, AccountId, JournalId, Currency, EntryId,
}
use cala.Balance.Snapshot.{u32_mod, update_snapshot, blank_snapshot}

pub data SnapshotOrEntry (A : Type 0) : Type 0 where
  snapshot : NaiveDate → BalanceSnapshot A → SnapshotOrEntry A
  entry : NaiveDate → EntryValues A → SnapshotOrEntry A

pub record EffectiveBalanceData (A : Type 0) : Type 0 where
  pub account_id : AccountId
  pub currency : Currency
  pub last_snapshot : Option (NaiveDate × BalanceSnapshot A)
  pub latest_all_time_version : ℕ
  pub updates : List (SnapshotOrEntry A)

module _ {A : Type 0} where
  abbrev pub effective : SnapshotOrEntry A → NaiveDate
  effective (snapshot date s) = date
  effective (entry date e) = date

  -- The second `match` of `cmp`, on two of the same date: is the first the lesser? `none` is the
  -- `unreachable!()`.
  abbrev pub is_lesser_same_date : SnapshotOrEntry A → SnapshotOrEntry A → Option Bool
  is_lesser_same_date (snapshot _ s) (snapshot _ t) = some (ltb s.version t.version)
  is_lesser_same_date (entry _ e) (entry _ f) = some (ltb e.sequence f.sequence)
  is_lesser_same_date _ _ = none

  -- `Ord::cmp`, as the strict order that a stable sort asks for.
  unfoldable pub is_lesser : SnapshotOrEntry A → SnapshotOrEntry A → Option Bool
  is_lesser u v =
      if ltb (effective u) (effective v)
      then some true
      else if ltb (effective v) (effective u)
      then some false
      else is_lesser_same_date u v

  -- `updates.sort()`, stable, by insertion from the end; `none` where a comparison panics.
  unfoldable pub insert_sorted :
      SnapshotOrEntry A → List (SnapshotOrEntry A) → Option (List (SnapshotOrEntry A))
  insert_sorted u [] = some (u ∷ [])
  insert_sorted u (v ∷ vs) =
      let rest = insert_sorted u vs in
      elim (is_lesser v u) [
        | none ↦ none
        | some lesser ↦
            if lesser
            then elim rest [ none ↦ none | some ws ↦ some (v ∷ ws) ]
            else some (u ∷ v ∷ vs)
      ]

  unfoldable pub sort_updates : List (SnapshotOrEntry A) → Option (List (SnapshotOrEntry A))
  unfolding insert_sorted
  sort_updates [] = some []
  sort_updates (u ∷ us) = elim (sort_updates us) [ none ↦ none | some vs ↦ insert_sorted u vs ]

  -- `push`
  unfoldable pub push : EffectiveBalanceData A → NaiveDate → EntryValues A → EffectiveBalanceData A
  push this date e = record this { updates = this.updates ++ entry date e ∷ [] }

module _ {A : Type 0} ⦃d : DecimalOps A⦄ where
  -- One of the three `if` on the amounts of `diff`.
  abbrev pub shift_amount : DateTime → BalanceAmount A → BalanceAmount A → BalanceAmount A
  shift_amount time diff a =
      if not (d.is_zero diff.cr_balance) || not (d.is_zero diff.dr_balance)
      then record a {
        cr_balance = d.add a.cr_balance diff.cr_balance;
        dr_balance = d.add a.dr_balance diff.dr_balance;
        modified_at = time;
      }
      else a

  abbrev pub with_entry : BalanceAmount A → EntryId → BalanceAmount A
  with_entry a id = record a { entry_id = id }

  -- The three `if` on the entries of the layers, on the values and `diff`, in order.
  abbrev pub settle_encumbrance :
      BalanceSnapshot A × BalanceSnapshot A → BalanceSnapshot A × BalanceSnapshot A
  settle_encumbrance (v, diff) =
      if nat_beq v.entry_id v.encumbrance_amount.entry_id
      then (
        record v {
          pending_amount = with_entry v.pending_amount diff.pending_amount.entry_id;
          settled_amount = with_entry v.settled_amount diff.settled_amount.entry_id;
        },
        record diff { encumbrance_amount = with_entry diff.encumbrance_amount v.entry_id },
      )
      else (v, diff)

  abbrev pub settle_pending :
      BalanceSnapshot A × BalanceSnapshot A → BalanceSnapshot A × BalanceSnapshot A
  settle_pending (v, diff) =
      if nat_beq v.entry_id v.pending_amount.entry_id
      then (
        record v {
          encumbrance_amount = with_entry v.encumbrance_amount diff.encumbrance_amount.entry_id;
          settled_amount = with_entry v.settled_amount diff.settled_amount.entry_id;
        },
        record diff { pending_amount = with_entry diff.pending_amount v.entry_id },
      )
      else (v, diff)

  abbrev pub settle_settled :
      BalanceSnapshot A × BalanceSnapshot A → BalanceSnapshot A × BalanceSnapshot A
  settle_settled (v, diff) =
      if nat_beq v.entry_id v.settled_amount.entry_id
      then (
        record v {
          encumbrance_amount = with_entry v.encumbrance_amount diff.encumbrance_amount.entry_id;
          pending_amount = with_entry v.pending_amount diff.pending_amount.entry_id;
        },
        record diff { settled_amount = with_entry diff.settled_amount v.entry_id },
      )
      else (v, diff)

  -- The arm of a `Snapshot`: it and `diff` afterwards.
  unfoldable pub shift_snapshot :
      DateTime → BalanceSnapshot A → BalanceSnapshot A → BalanceSnapshot A × BalanceSnapshot A
  shift_snapshot time v diff =
      let shifted = record v {
        modified_at = time;
        encumbrance_amount = shift_amount time diff.encumbrance_amount v.encumbrance_amount;
        pending_amount = shift_amount time diff.pending_amount v.pending_amount;
        settled_amount = shift_amount time diff.settled_amount v.settled_amount;
      } in
      settle_settled (settle_pending (settle_encumbrance (shifted, diff)))

  -- The `initial` of a `diff`: an empty snapshot under the entries of the last balance.
  abbrev pub initial_diff :
      DateTime → AccountId → BalanceSnapshot A → EntryValues A → BalanceSnapshot A
  initial_diff time account_id last e =
      let initial = blank_snapshot time account_id e in
      record initial {
        entry_id = last.entry_id;
        encumbrance_amount = with_entry initial.encumbrance_amount last.encumbrance_amount.entry_id;
        pending_amount = with_entry initial.pending_amount last.pending_amount.entry_id;
        settled_amount = with_entry initial.settled_amount last.settled_amount.entry_id;
      }

  -- `diff_snapshot` after an entry.
  unfoldable pub next_diff :
      DateTime
      → AccountId
      → BalanceSnapshot A
      → Option (BalanceSnapshot A)
      → EntryValues A
      → BalanceSnapshot A
  next_diff time account_id last (some diff) e = update_snapshot time diff e
  next_diff time account_id last none e =
      update_snapshot time (initial_diff time account_id last e) e

  -- `if &last_effective != update.effective() { last_balance.version = 0 }`
  abbrev pub on_date : NaiveDate → NaiveDate → BalanceSnapshot A → BalanceSnapshot A
  on_date last_effective date last =
      if nat_beq last_effective date then last else record last { version = 0 }

  -- The loop over the updates; `none` is the `expect` on `diff_snapshot`.
  unfoldable pub replay :
      DateTime
      → AccountId
      → NaiveDate
      → BalanceSnapshot A
      → Option (BalanceSnapshot A)
      → List (SnapshotOrEntry A)
      → Option (List (SnapshotOrEntry A))
  replay time account_id last_effective last diff [] = some []
  replay time account_id last_effective last diff (entry date e ∷ updates) =
      let balance = update_snapshot time (on_date last_effective date last) e in
      elim (replay time account_id date balance (some (next_diff time account_id balance diff e))
        updates) [ none ↦ none | some rest ↦ some (snapshot date balance ∷ rest) ]
  replay time account_id last_effective last none (snapshot date v ∷ updates) = none
  replay time account_id last_effective last (some diff) (snapshot date v ∷ updates) =
      let (shifted, next) = shift_snapshot time v diff in
      elim (replay time account_id date (on_date last_effective date last) (some next) updates) [
        | none ↦ none
        | some rest ↦ some (snapshot date shifted ∷ rest)
      ]

  -- The balance and the date that the loop starts from. `self.updates[0].entry()` panics on a snapshot.
  unfoldable pub replay_start :
      DateTime
      → EffectiveBalanceData A
      → List (SnapshotOrEntry A)
      → Option (NaiveDate × BalanceSnapshot A)
  replay_start time this [] = this.last_snapshot
  replay_start time this (entry date e ∷ updates) = elim this.last_snapshot [
    | some last ↦ some last
    | none ↦ some (date, blank_snapshot time this.account_id e)
  ]
  replay_start time this (snapshot date s ∷ updates) = this.last_snapshot

  -- `re_calculate_snapshots`; `none` where it panics.
  unfoldable pub re_calculate_snapshots :
      DateTime → EffectiveBalanceData A → Option (EffectiveBalanceData A)
  unfolding sort_updates replay replay_start
  re_calculate_snapshots time this =
      if is_empty this.updates then some this else elim (sort_updates this.updates) [
        | none ↦ none
        | some sorted ↦ elim (replay_start time this sorted) [
          | none ↦ none
          | some start ↦ elim (replay time this.account_id start.0 start.1 none sorted) [
            | none ↦ none
            | some updates ↦ some (record this { last_snapshot = none; updates = updates })
          ]
        ]
      ]

module _ {A : Type 0} (journal_id : JournalId) (this : EffectiveBalanceData A) where
  -- `into_snapshots`, from an index; `none` is the `unimplemented!()` on an entry.
  unfoldable pub into_snapshots_from :
      ℕ → List (SnapshotOrEntry A) → Option (List (EffectiveBalanceSnapshot A))
  into_snapshots_from index [] = some []
  into_snapshots_from index (entry date e ∷ updates) = none
  into_snapshots_from index (snapshot date s ∷ updates) =
      elim (into_snapshots_from (index + 1) updates) [
        | none ↦ none
        | some rest ↦ some (
            record {
              journal_id = journal_id;
              account_id = this.account_id;
              currency = this.currency;
              effective = date;
              version = s.version;
              all_time_version = (index + 1 + this.latest_all_time_version) % u32_mod;
              created_at = s.created_at;
              modified_at = s.modified_at;
              entry_id = s.entry_id;
              settled_amount = s.settled_amount;
              pending_amount = s.pending_amount;
              encumbrance_amount = s.encumbrance_amount;
            }
            ∷ rest)
      ]

  unfoldable pub into_effective_snapshots : Option (List (EffectiveBalanceSnapshot A))
  unfolding into_snapshots_from
  into_effective_snapshots = into_snapshots_from 0 this.updates
