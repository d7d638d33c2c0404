-- ===== src/AccountSet/Graph.antt =====
-- `GraphSnapshot`, `Overlay` and `index_nodes` (cala-ledger/src/account_set/graph_cache.rs), and the
-- edges of a graph (graph_validation.rs).
use cala.Prelude.{Bool, Option, none, some, List, [], ◌∷◌, ◌++◌, Eq, nat_eq, list_or_empty}
use cala.Prelude.Int.{ℤ, negsuc}
use cala.Prelude.Map.{Map, get, insert}
use cala.Types.{AccountSetId, JournalId}

pub record SetMembership : Type 0 where
  pub account_set_id : AccountSetId
  pub member_account_set_id : AccountSetId

pub record SetMeta : Type 0 where
  pub journal_id : JournalId
  pub eventually_consistent : Bool

pub record GraphSnapshot : Type 0 where
  pub epoch : ℤ
  pub parents : Map AccountSetId (List AccountSetId)
  pub children : Map AccountSetId (List AccountSetId)
  pub meta : Map AccountSetId SetMeta

pub record Overlay : Type 0 where
  pub parents : Map AccountSetId (List AccountSetId)
  pub meta : Map AccountSetId SetMeta

-- account_set/repo.rs: a row of the read of the graph.
pub record SetGraphNode : Type 0 where
  pub id : AccountSetId
  pub journal_id : JournalId
  pub eventually_consistent : Bool
  pub parent_id : Option AccountSetId

pub record IndexedNodes : Type 0 where
  pub parents : Map AccountSetId (List AccountSetId)
  pub children : Map AccountSetId (List AccountSetId)
  pub meta : Map AccountSetId SetMeta

abbrev pub cold_epoch : ℤ
cold_epoch = negsuc 0

abbrev pub cold : GraphSnapshot
cold = record { epoch = cold_epoch; parents = []; children = []; meta = [] }

-- `entry(key).or_default().push(value)`
unfoldable pub push_value {ℓ} :
    {K : Type ℓ} {V : Type 0} ⦃e : Eq K⦄ → K → V → Map K (List V) → Map K (List V)
push_value k v m = insert k (list_or_empty (get k m) ++ v ∷ []) m

-- One row of `index_nodes`.
unfoldable pub index_node : SetGraphNode → IndexedNodes → IndexedNodes
unfolding push_value
index_node node i =
    let meta =
      insert node.id
        (record {
          journal_id = node.journal_id;
          eventually_consistent = node.eventually_consistent;
        })
        i.meta in
    elim node.parent_id [
      | none ↦ record i { meta = meta }
      | some parent ↦ record {
        parents = push_value node.id parent i.parents;
        children = push_value parent node.id i.children;
        meta = meta;
      }
    ]

unfoldable pub index_from : IndexedNodes → List SetGraphNode → IndexedNodes
unfolding index_node
index_from i [] = i
index_from i (node ∷ nodes) = index_from (index_node node i) nodes

unfoldable pub index_nodes : List SetGraphNode → IndexedNodes
unfolding index_from
index_nodes nodes = index_from (record { parents = []; children = []; meta = [] }) nodes

-- `or_else`
abbrev pub or_else {ℓ} : {A : Type ℓ} → Option A → Option A → Option A
or_else none other = other
or_else (some a) other = some a

-- `meta_of`, over a snapshot and what the operation fetched itself.
unfoldable pub meta_of : GraphSnapshot → Option Overlay → AccountSetId → Option SetMeta
meta_of snapshot none id = get id snapshot.meta
meta_of snapshot (some overlay) id = or_else (get id snapshot.meta) (get id overlay.meta)

-- `parents_of`
unfoldable pub parents_of : GraphSnapshot → Option Overlay → AccountSetId → List AccountSetId
parents_of snapshot none id = list_or_empty (get id snapshot.parents)
parents_of snapshot (some overlay) id =
    list_or_empty (or_else (get id snapshot.parents) (get id overlay.parents))
