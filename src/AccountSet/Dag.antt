-- ===== src/AccountSet/Dag.antt =====
-- `SetDag` and its traversal (cala-ledger/src/account_set/graph_validation.rs).
pub mod Built
pub mod Degrees
pub mod Order
pub mod Traversed
use cala.Prelude.{
  ℕ, zero, suc, ◌+◌, ◌-◌, Bool, true, false, Option, none, some, is_some, List, [], ◌∷◌, ◌++◌,
  length, if◌then◌else◌, ltb, nat_beq, nat_eq, list_or_empty,
}
use cala.Prelude.Map.{Map, get, insert, keys, contains_key}
use cala.Types.{AccountSetId}
use cala.AccountSet.Graph.{SetMembership, push_value}
use cala.AccountSet.Paths.{count_or_zero}

pub record SetDag : Type 0 where
  pub adjacency : Map AccountSetId (List AccountSetId)
  pub indegree : Map AccountSetId ℕ

-- `entry(id).or_default()`
unfoldable pub or_default : AccountSetId → Map AccountSetId ℕ → Map AccountSetId ℕ
or_default id degrees = if contains_key id degrees then degrees else insert id 0 degrees

abbrev pub add_isolated : AccountSetId → SetDag → SetDag
add_isolated id dag = record dag { indegree = or_default id dag.indegree }

-- One edge of `new`.
unfoldable pub add_edge : SetMembership → SetDag → SetDag
unfolding push_value or_default
add_edge edge dag =
    let member = edge.member_account_set_id in
    record {
      adjacency = push_value edge.account_set_id member dag.adjacency;
      indegree =
          or_default edge.account_set_id
            (insert member (count_or_zero (get member dag.indegree) + 1) dag.indegree);
    }

unfoldable pub add_edges : List SetMembership → SetDag → SetDag
unfolding add_edge
add_edges [] dag = dag
add_edges (edge ∷ edges) dag = add_edges edges (add_edge edge dag)

unfoldable pub new_dag : List SetMembership → SetDag
unfolding add_edges
new_dag edges = add_edges edges (record { adjacency = []; indegree = [] })

abbrev pub node_count : SetDag → ℕ
node_count dag = length dag.indegree

abbrev pub children : SetDag → AccountSetId → List AccountSetId
children dag id = list_or_empty (get id dag.adjacency)

-- The state of the walk of `traverse`.
pub record Kahn : Type 0 where
  pub remaining : Map AccountSetId ℕ
  pub queue : List AccountSetId
  pub order : List AccountSetId
  pub depths : Map AccountSetId ℕ

pub record Traversal : Type 0 where
  pub order : List AccountSetId
  pub depths : Map AccountSetId ℕ

-- How the walk ends: `panicked` is the `expect` of the degree of a child.
pub data Traversing : Type 0 where
  traversed : Traversal → Traversing
  panicked : Traversing
  out_of_fuel : Traversing

abbrev pub max : ℕ → ℕ → ℕ
max a b = if ltb a b then b else a

-- `and_modify(..).or_insert(..)`
unfoldable pub deepen : ℕ → AccountSetId → Map AccountSetId ℕ → Map AccountSetId ℕ
deepen parent_depth child depths = elim (get child depths) [
  | none ↦ insert child (parent_depth + 1) depths
  | some depth ↦ insert child (max depth (parent_depth + 1)) depths
]

-- The body of the loop over the children. A degree is not 0 there.
unfoldable pub visit_child : ℕ → AccountSetId → Kahn → Option Kahn
unfolding deepen
visit_child parent_depth child k = elim (get child k.remaining) [
  | none ↦ none
  | some degree ↦ some (record {
    remaining = insert child (degree - 1) k.remaining;
    queue = if nat_beq (degree - 1) 0 then k.queue ++ child ∷ [] else k.queue;
    order = k.order;
    depths = deepen parent_depth child k.depths;
  })
]

unfoldable pub visit_children : ℕ → List AccountSetId → Kahn → Option Kahn
unfolding visit_child
visit_children parent_depth [] k = some k
visit_children parent_depth (child ∷ cs) k = elim (visit_child parent_depth child k) [
  | none ↦ none
  | some k' ↦ visit_children parent_depth cs k'
]

-- `filter_map` over the degrees.
abbrev pub zero_degrees : Map AccountSetId ℕ → List AccountSetId
zero_degrees [] = []
zero_degrees ((id, degree) ∷ m) = if nat_beq degree 0 then id ∷ zero_degrees m else zero_degrees m

-- After the head of the queue is taken.
abbrev pub popped : AccountSetId → List AccountSetId → Kahn → Kahn
popped id queue k = record k { queue = queue; order = k.order ++ id ∷ [] }

-- The `while` loop. Each round takes a set that was not taken before.
unfoldable pub traverse_from : ℕ → SetDag → List AccountSetId → Kahn → Traversing
unfolding visit_children
traverse_from zero dag [] k = traversed (record { order = k.order; depths = k.depths })
traverse_from (suc fuel) dag [] k = traversed (record { order = k.order; depths = k.depths })
traverse_from zero dag (id ∷ queue) k = out_of_fuel
traverse_from (suc fuel) dag (id ∷ queue) k =
    elim (visit_children (count_or_zero (get id k.depths)) (children dag id) (popped id queue k)) [
      | none ↦ panicked
      | some k' ↦ traverse_from fuel dag k'.queue k'
    ]

abbrev pub kahn_start : SetDag → Kahn
kahn_start dag = record {
  remaining = dag.indegree;
  queue = zero_degrees dag.indegree;
  order = [];
  depths = [];
}

unfoldable pub traverse : SetDag → Traversing
unfolding traverse_from
traverse dag = traverse_from (suc (node_count dag)) dag (kahn_start dag).queue (kahn_start dag)
