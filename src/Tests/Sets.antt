-- ===== src/Tests/Sets.antt =====
-- The theorems on the account set graph at a chain of two sets, and a set of another journal.
use cala.Prelude.{ℕ, ◌≡◌, refl, false, Option, none, some, List, [], ◌∷◌}
use cala.Prelude.Int.{pos}
use cala.Types.{AccountId, Currency}
use cala.Posting.{AccountMembership}
use cala.AccountSet.Graph.{GraphSnapshot, SetGraphNode, index_nodes}
use cala.AccountSet.Expand.{expanded, expand}
use cala.AccountSet.Expand.Resolved.{IsExpansion, expand-IsExpansion}

abbrev pub node : ℕ → ℕ → Option ℕ → SetGraphNode
node id journal parent = record {
  id = id;
  journal_id = journal;
  eventually_consistent = false;
  parent_id = parent;
}

abbrev pub nodes : List SetGraphNode
nodes = node 100 7 none ∷ node 101 8 (some 100) ∷ node 102 7 (some 101) ∷ []

abbrev snapshot : GraphSnapshot
snapshot =
    let i = index_nodes nodes in
    record { epoch = pos 3; parents = i.parents; children = i.children; meta = i.meta }

abbrev pub seeds : List AccountMembership
seeds = record { account_set_id = 102; account_id = 10 } ∷ []

abbrev pub pairs : List (AccountId × Currency)
pairs = (10, 840) ∷ (10, 840) ∷ (11, 840) ∷ []

expand_through :
    expand snapshot none 7 seeds pairs
    ≡ expanded ((10, 102 ∷ 100 ∷ []) ∷ []) ((100, 840) ∷ (102, 840) ∷ [])
unfolding expand index_nodes
expand_through = refl

expand-IsExpansion_example :
    IsExpansion snapshot none 7 seeds pairs (expand snapshot none 7 seeds pairs)
expand-IsExpansion_example = expand-IsExpansion snapshot none 7 seeds pairs
