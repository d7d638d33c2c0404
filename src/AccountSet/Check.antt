-- ===== src/AccountSet/Check.antt =====
-- `assert_no_double_membership_in_op` (cala-ledger/src/account_set/graph_cache.rs).
pub mod Sound
use cala.Prelude.{
  ℕ, suc, ◌+◌, Bool, true, false, not, ◌||◌, Option, none, some, is_some, List, [], ◌∷◌, ◌++◌,
  length, if◌then◌else◌, Result, ok, err, nat_eq,
}
use cala.Prelude.Int.{ℤ}
use cala.Prelude.Map.{Map, get, contains_key, keys}
use cala.Types.{AccountId, AccountSetId}
use cala.Posting.{AccountMembership}
use cala.AccountSet.Graph.{GraphSnapshot, SetGraphNode, Overlay, meta_of, parents_of}
use cala.AccountSet.Expand.{known_sets}
use cala.AccountSet.Paths.{
  PathCheck, duplicate_path, unique_paths, not_known, never_counted,
  has_duplicate_account_membership_paths,
}
use cala.AccountSet.Cache.{epoch_beq, missing_sets, overlay_for}

-- account_set/error.rs: the errors of the checks of memberships.
pub data AccountSetError : Type 0 where
  could_not_find_by_id : AccountSetId → AccountSetError
  journal_id_mismatch : AccountSetError
  member_already_added : AccountSetError
  member_has_balance_history : AccountSetId → AccountId → AccountSetError
  membership_cycle_detected : AccountSetId → AccountSetId → AccountSetError
  membership_depth_exceeded : AccountSetId → AccountSetId → ℕ → ℕ → AccountSetError

-- The closure `parents_of`: nothing for a set that is not known.
unfoldable pub parents_if_known :
    GraphSnapshot → Option Overlay → AccountSetId → Option (List AccountSetId)
unfolding meta_of parents_of
parents_if_known snapshot overlay id =
    if is_some (meta_of snapshot overlay id) then some (parents_of snapshot overlay id) else none

-- `seeds` are the direct memberships that the probe read; `walk_sql` is the query of the repository
-- that the check falls back to.
unfoldable pub assert_no_double_membership :
    (List AccountSetId → List SetGraphNode)
    → (List AccountMembership → Result (Unit {0}) AccountSetError)
    → GraphSnapshot
    → ℤ
    → List AccountMembership
    → List AccountMembership
    → Result (Unit {0}) AccountSetError
unfolding parents_if_known missing_sets overlay_for has_duplicate_account_membership_paths
assert_no_double_membership fetch walk_sql snapshot epoch seeds members =
    let overlay = overlay_for fetch (missing_sets snapshot (members ++ seeds)) in
    if not (epoch_beq snapshot.epoch epoch)
    then walk_sql members
    else (elim (has_duplicate_account_membership_paths (parents_if_known snapshot overlay)
        (suc (length (known_sets snapshot overlay))) members seeds) [
          | unique_paths ↦ ok tt
          | duplicate_path ↦ err member_already_added
          | not_known ↦ walk_sql members
          | never_counted ↦ walk_sql members
        ])
