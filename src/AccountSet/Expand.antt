-- ===== src/AccountSet/Expand.antt =====
-- `SetGraphCache::expand` (cala-ledger/src/account_set/graph_cache.rs): the account sets above the
-- accounts of a posting, and the balances of them that are locked.
pub mod Total
pub mod Ancestors
pub mod Resolved
use cala.Prelude.{
  ℕ, suc, ◌+◌, Bool, true, false, not, Option, none, some, List, [], ◌∷◌, ◌++◌, map, length,
  is_empty, if◌then◌else◌, nat_beq, nat_eq, list_or_empty,
}
use cala.Prelude.Map.{Map, get, insert, keys}
use cala.Prelude.Order.{sort_dedup, nat_order, pair_order}
use cala.Types.{AccountId, AccountSetId, JournalId, Currency}
use cala.Posting.{AccountMembership}
use cala.AccountSet.Graph.{SetMeta, GraphSnapshot, Overlay, push_value, meta_of, parents_of}
use cala.AccountSet.Walk.{Walked, finished, unknown, out_of_fuel, walk}

-- `ancestors` and `non_ec_ancestors` of the loop.
pub record Found : Type 0 where
  pub ancestors : List AccountSetId
  pub non_ec : List AccountSetId

abbrev pub nothing_found : Found
nothing_found = record { ancestors = []; non_ec = [] }

abbrev pub Mappings : Type 0
Mappings = Map AccountId (List AccountSetId)

-- How `expand` ends: with the sets of each account and the pairs to lock, or at a set that neither
-- the snapshot nor the overlay knows.
pub data Expansion : Type 0 where
  expanded : Mappings → List (AccountSetId × Currency) → Expansion
  unknown_set : AccountSetId → Expansion
  never_ended : Expansion

-- `queue.extend`
abbrev pub queue_extend : List ℕ → List ℕ → List ℕ
queue_extend queue new = queue ++ new

-- `per_account`
unfoldable pub group_seeds : Mappings → List AccountMembership → Mappings
unfolding push_value
group_seeds m [] = m
group_seeds m (seed ∷ seeds) = group_seeds (push_value seed.account_id seed.account_set_id m) seeds

-- `if !sets.is_empty() { m.insert(..) }`
abbrev pub insert_found : AccountId → List AccountSetId → Mappings → Mappings
insert_found id [] m = m
insert_found id (s ∷ sets) m = insert id (s ∷ sets) m

-- The sets that are known.
abbrev pub known_sets : GraphSnapshot → Option Overlay → List AccountSetId
known_sets snapshot overlay =
    keys snapshot.meta ++ elim overlay [ none ↦ [] | some o ↦ keys o.meta ]

module _ (snapshot : GraphSnapshot) (overlay : Option Overlay) (journal_id : JournalId) where
  -- The test of the journal, and the two pushes.
  unfoldable pub collect : AccountSetId → SetMeta → Found → Found
  collect id meta found =
      if nat_beq meta.journal_id journal_id
      then record {
        ancestors = found.ancestors ++ id ∷ [];
        non_ec = if not meta.eventually_consistent then found.non_ec ++ id ∷ [] else found.non_ec;
      }
      else found

  -- What the loop does with a set that it has not visited.
  unfoldable pub visit_set : AccountSetId → Found → Option (Found × List AccountSetId)
  unfolding collect meta_of parents_of
  visit_set id found = elim (meta_of snapshot overlay id) [
    | none ↦ none
    | some meta ↦ some (collect id meta found, parents_of snapshot overlay id)
  ]

  -- The `while` loop, from the direct sets of an account.
  unfoldable pub expand_account : List AccountSetId → Walked Found
  unfolding walk visit_set
  expand_account seeds =
      walk visit_set queue_extend (suc (length (known_sets snapshot overlay))) [] nothing_found
        seeds

  -- The loop over `per_account`, with `mappings` and `non_ec`.
  unfoldable pub expand_each : Mappings → Mappings → Mappings → Walked (Mappings × Mappings)
  unfolding expand_account
  expand_each [] mappings non_ec = finished [] (mappings, non_ec)
  expand_each ((account_id, seeds) ∷ accounts) mappings non_ec = elim (expand_account seeds) [
    | unknown id ↦ unknown id
    | out_of_fuel ↦ out_of_fuel
    | finished visited found ↦
        expand_each accounts (insert_found account_id found.ancestors mappings)
          (insert_found account_id found.non_ec non_ec)
  ]

-- `flat_map` over the entry pairs.
unfoldable pub lock_pairs : Mappings → List (AccountId × Currency) → List (AccountSetId × Currency)
lock_pairs non_ec [] = []
lock_pairs non_ec ((account_id, currency) ∷ pairs) =
    map (λ id. (id, currency)) (list_or_empty (get account_id non_ec)) ++ lock_pairs non_ec pairs

-- The pairs are the two columns of the argument, zipped.
unfoldable pub expand :
    GraphSnapshot
    → Option Overlay
    → JournalId
    → List AccountMembership
    → List (AccountId × Currency)
    → Expansion
unfolding group_seeds expand_each lock_pairs sort_dedup
expand snapshot overlay journal_id seeds entry_pairs =
    elim (expand_each snapshot overlay journal_id (group_seeds [] seeds) [] []) [
      | unknown id ↦ unknown_set id
      | out_of_fuel ↦ never_ended
      | finished _ done ↦ expanded done.0 (sort_dedup (lock_pairs done.1 entry_pairs))
    ]
