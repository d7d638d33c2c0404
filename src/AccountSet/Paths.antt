-- ===== src/AccountSet/Paths.antt =====
-- `has_duplicate_account_membership_paths` (cala-ledger/src/account_set/graph_validation.rs).
pub mod Counted
pub mod Unique
use cala.Prelude.{
  ℕ, zero, suc, ◌+◌, Bool, true, false, Option, none, some, List, [], ◌∷◌, ◌++◌, if◌then◌else◌, ltb,
  nat_eq,
}
use cala.Prelude.Map.{Map, get, insert, values}
use cala.Types.{AccountId, AccountSetId}
use cala.Posting.{AccountMembership}
use cala.AccountSet.Expand.{group_seeds}

-- `Some(true)`, `Some(false)` and `None`; and out of fuel.
pub data PathCheck : Type 0 where
  duplicate_path unique_paths not_known never_counted : PathCheck

abbrev pub count_or_zero : Option ℕ → ℕ
count_or_zero none = 0
count_or_zero (some n) = n

module _ (parents_of : AccountSetId → Option (List AccountSetId)) where
  -- The `while` loop of one account. Each round before the last counts a new known set.
  unfoldable pub count_paths : ℕ → Map AccountSetId ℕ → List AccountSetId → PathCheck
  count_paths zero counts [] = unique_paths
  count_paths (suc fuel) counts [] = unique_paths
  count_paths zero counts (id ∷ queue) = never_counted
  count_paths (suc fuel) counts (id ∷ queue) = elim (parents_of id) [
    | none ↦ not_known
    | some parents ↦
        let count = count_or_zero (get id counts) + 1 in
        let rest = count_paths fuel (insert id count counts) (queue ++ parents) in
        if ltb 1 count then duplicate_path else rest
  ]

  -- The loop over the accounts.
  unfoldable pub count_each : ℕ → List (List AccountSetId) → PathCheck
  unfolding count_paths
  count_each fuel [] = unique_paths
  count_each fuel (seeds ∷ accounts) = elim (count_paths fuel [] seeds) [
    | unique_paths ↦ count_each fuel accounts
    | duplicate_path ↦ duplicate_path
    | not_known ↦ not_known
    | never_counted ↦ never_counted
  ]

  unfoldable pub has_duplicate_account_membership_paths :
      ℕ → List AccountMembership → List AccountMembership → PathCheck
  unfolding count_each group_seeds
  has_duplicate_account_membership_paths fuel proposed existing =
      count_each fuel (values (group_seeds [] (proposed ++ existing)))
