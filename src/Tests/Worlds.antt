-- ===== src/Tests/Worlds.antt =====
-- The theorems on the cached graph after a refresh, at a chain of two sets.
use cala.Prelude.{
  ℕ, ◌≡◌, ◌⊎◌, refl, true, Option, none, some, is_some, List, [], ◌∷◌, ◌++◌, Result, ok, err, arith,
  nat_beq, if◌then◌else◌,
}
use cala.Prelude.Int.{pos}
use cala.Types.{AccountId, JournalId, Currency}
use cala.Posting.{AccountMembership}
use cala.AccountSet.Graph.{parents_of, cold}
use cala.AccountSet.Walk.{nat_in}
use cala.AccountSet.Expand.{Mappings}
use cala.AccountSet.Expand.Ancestors.{direct}
use cala.AccountSet.Expand.Resolved.{IsResolved}
use cala.AccountSet.Paths.{has_duplicate_account_membership_paths}
use cala.AccountSet.Paths.Unique.{SaysOfAll, has_duplicate-SaysOfAll}
use cala.AccountSet.Cache.{
  snapshot_of, install, in_memory, resolve_from_probe, Database, fetch_set_graph, fetch_nodes,
  World, begin_refresh, end_refresh, Run, launch, next,
}
use cala.AccountSet.Cache.Current.{committed, resolve-IsResolved}
use cala.AccountSet.Check.{AccountSetError, member_already_added, assert_no_double_membership}
use cala.AccountSet.Check.Sound.{ReachedOnce, assert_no_double_membership-ReachedOnce}
use cala.Tests.Sets.{nodes, seeds, pairs}

abbrev db : Database
db = record { epoch = 3; nodes = nodes }

abbrev world : World
world = record { db = db; cache = install (snapshot_of (fetch_set_graph db)) cold; reading = none }

run : Run world
run =
    next (next (launch db) (begin_refresh (record { db = db; cache = cold; reading = none }) refl))
      (end_refresh (record { db = db; cache = cold; reading = some (fetch_set_graph db) })
        (fetch_set_graph db) refl)

abbrev walk_sql : JournalId → List (AccountId × Currency) → Mappings
walk_sql j asked = []

resolves :
    resolve_from_probe (fetch_nodes db) walk_sql world.cache 7 (pos 3) seeds pairs
    ≡ in_memory ((10, 102 ∷ 100 ∷ []) ∷ []) ((100, 840) ∷ (102, 840) ∷ [])
unfolding resolve_from_probe
resolves = refl

resolve-IsResolved_example :
    IsResolved
      (committed db)
      none
      7
      seeds
      pairs
      ((10, 102 ∷ 100 ∷ []) ∷ [])
      ((100, 840) ∷ (102, 840) ∷ [])
resolve-IsResolved_example =
    resolve-IsResolved run walk_sql 7 seeds pairs ((10, 102 ∷ 100 ∷ []) ∷ [])
      ((100, 840) ∷ (102, 840) ∷ []) resolves

abbrev refuse : List AccountMembership → Result (Unit {0}) AccountSetError
refuse members = err member_already_added

abbrev members : List AccountMembership
members = record { account_set_id = 101; account_id = 11 } ∷ []

accepts :
    assert_no_double_membership (fetch_nodes db) refuse world.cache (pos 3) seeds members ≡ ok tt
unfolding assert_no_double_membership
accepts = refl

assert_no_double_membership-ReachedOnce_example :
    (refuse members ≡ ok tt)
    ⊎ ((a : AccountId) → ReachedOnce (parents_of (committed db) none) (direct a (members ++ seeds)))
assert_no_double_membership-ReachedOnce_example =
    assert_no_double_membership-ReachedOnce run refuse seeds members accepts

abbrev tops : ℕ → Option (List ℕ)
tops id = if nat_beq id 3 then some [] else none

tops_known : (x : ℕ) → is_some (tops x) ≡ true → nat_in x (3 ∷ []) ≡ true
tops_known x h = ground arith

abbrev joined : List AccountMembership
joined = record { account_set_id = 3; account_id = 10 } ∷ []

has_duplicate-SaysOfAll_example :
    SaysOfAll tops
      (λ a. direct a (joined ++ joined))
      (has_duplicate_account_membership_paths tops 2 joined joined)
has_duplicate-SaysOfAll_example =
    has_duplicate-SaysOfAll tops (3 ∷ []) tops_known 2 joined joined (omega arith)
