-- ===== src/Balance/Fold.antt =====
-- `SnapshotFold` and the two folds over a batch of entries (cala-ledger/src/balance/snapshot.rs).
pub mod Spec
pub mod Keys
pub mod Step
pub mod Chain
pub mod Totals
pub mod OneJournal
use cala.Prelude.{
  ℕ, Option, none, some, List, [], ◌∷◌, ◌++◌, Bool, if◌then◌else◌, map, Eq, ◌==◌, any, pair_eq,
  nat_eq,
}
use cala.Prelude.Map.{Map, get, remove, insert, values}
use cala.Types.{
  DecimalOps, BalanceSnapshot, EntryValues, DateTime, AccountId, AccountSetId, Currency,
  set_account,
}
use cala.Balance.Snapshot.{update_snapshot, new_snapshot}

abbrev pub BalanceKey : Type 0
BalanceKey = AccountId × Currency

pub record SnapshotFold (A : Type 0) : Type 0 where
  pub time : DateTime
  pub current : Map BalanceKey (Option (BalanceSnapshot A))
  pub latest : Map BalanceKey (BalanceSnapshot A)
  pub completed : List (BalanceSnapshot A)

-- `mappings.get(&id).into_iter().flatten().map(AccountId::from)`
abbrev pub ancestors : Map AccountId (List AccountSetId) → AccountId → List AccountId
ancestors mappings id = elim (get id mappings) [ none ↦ [] | some sets ↦ map set_account sets ]

module _ {A : Type 0} ⦃d : DecimalOps A⦄ where
  -- `SnapshotFold::new`
  abbrev pub new_fold : DateTime → Map BalanceKey (Option (BalanceSnapshot A)) → SnapshotFold A
  new_fold time current = record { time = time; current = current; latest = []; completed = [] }

  -- The `match base` of `apply`.
  unfoldable pub next_snapshot :
      DateTime → AccountId → Option (BalanceSnapshot A) → EntryValues A → BalanceSnapshot A
  next_snapshot time account_id (some balance) e = update_snapshot time balance e
  next_snapshot time account_id none e = new_snapshot time account_id e

  -- `SnapshotFold::apply`
  unfoldable pub apply : SnapshotFold A → AccountId → EntryValues A → SnapshotFold A
  apply f account_id e =
      let key : BalanceKey = (account_id, e.currency) in
      elim (get key f.latest) [
        | some prev ↦ record f {
          latest = insert key (next_snapshot f.time account_id (some prev) e) (remove key f.latest);
          completed = f.completed ++ prev ∷ [];
        }
        | none ↦ elim (get key f.current) [
          | some loaded ↦ record f {
            current = remove key f.current;
            latest = insert key (next_snapshot f.time account_id loaded e) f.latest;
          }
          | none ↦ f
        ]
      ]

  -- `SnapshotFold::into_snapshots`
  abbrev pub into_snapshots : SnapshotFold A → List (BalanceSnapshot A)
  into_snapshots f = f.completed ++ values f.latest

  -- The inner loop: one entry, on each account that it fans into.
  unfoldable pub apply_each : SnapshotFold A → List AccountId → EntryValues A → SnapshotFold A
  unfolding apply
  apply_each f [] e = f
  apply_each f (a ∷ accounts) e = apply_each (apply f a e) accounts e

  -- The outer loop; the two folds differ in the accounts that an entry fans into.
  unfoldable pub apply_entries :
      (EntryValues A → List AccountId) → SnapshotFold A → List (EntryValues A) → SnapshotFold A
  unfolding apply_each
  apply_entries targets f [] = f
  apply_entries targets f (e ∷ entries) = apply_entries targets (apply_each f (targets e) e) entries

  -- The ancestor sets, then the leaf.
  abbrev pub inline_targets : Map AccountId (List AccountSetId) → EntryValues A → List AccountId
  inline_targets mappings e = ancestors mappings e.account_id ++ e.account_id ∷ []

  -- The eventually consistent sets, then the leaf if it is one of `ec_leaves`.
  abbrev pub ec_targets :
      Map AccountId (List AccountSetId) → List AccountId → EntryValues A → List AccountId
  ec_targets mappings ec_leaves e =
      ancestors mappings e.account_id
      ++ (if any (λ a. a == e.account_id) ec_leaves then e.account_id ∷ [] else [])

  -- `Snapshots::from_entries`
  unfoldable pub from_entries :
      DateTime
      → Map BalanceKey (Option (BalanceSnapshot A))
      → List (EntryValues A)
      → Map AccountId (List AccountSetId)
      → List (BalanceSnapshot A)
  unfolding apply_entries
  from_entries time current entries mappings =
      into_snapshots (apply_entries (inline_targets mappings) (new_fold time current) entries)

  -- `Snapshots::from_ec_entries`
  unfoldable pub from_ec_entries :
      DateTime
      → Map BalanceKey (Option (BalanceSnapshot A))
      → List (EntryValues A)
      → Map AccountId (List AccountSetId)
      → List AccountId
      → List (BalanceSnapshot A)
  unfolding apply_entries
  from_ec_entries time current entries mappings ec_leaves =
      into_snapshots (apply_entries (ec_targets mappings ec_leaves) (new_fold time current) entries)
