-- ===== src/AccountSet/Validate.antt =====
-- `validate_set_memberships` (cala-ledger/src/account_set/graph_validation.rs).
pub mod Search
pub mod Ancestors
pub mod HasPath
pub mod Blame
pub mod Longest
pub mod Complete
pub mod Valid
pub mod Contained
pub mod Unique
pub mod Acyclic
use mathlib.Core.List.{reverse}
use cala.Prelude.{
  ℕ, zero, suc, ◌+◌, ◌-◌, ◌/◌, Bool, true, false, not, ◌||◌, any, Option, none, some, List, [], ◌∷◌,
  ◌++◌, length, filter, if◌then◌else◌, ltb, nat_beq, nat_eq, pair_eq, Result, ok, err, ◌>>=◌, ◌>>◌,
  reject_if, list_or_empty, first?, String,
}
use cala.Prelude.Map.{Map, get, insert, values, contains_key}
use cala.Types.{AccountId, AccountSetId}
use cala.Posting.{AccountMembership}
use cala.Posting.Prepare.{contains}
use cala.AccountSet.Graph.{SetMembership}
use cala.AccountSet.Walk.{nat_in}
use cala.AccountSet.Dag.{
  SetDag, add_isolated, new_dag, node_count, children, max, Traversal, Traversing, traversed,
  panicked, out_of_fuel, traverse,
}
use cala.AccountSet.Check.{
  AccountSetError, member_already_added, membership_cycle_detected, membership_depth_exceeded,
}

abbrev pub max_membership_depth : ℕ
max_membership_depth = 16

-- An error, or a panic with its message.
pub data ValidationError : Type 0 where
  set_error : AccountSetError → ValidationError
  aborted : String → ValidationError

abbrev pub Checked : Type 0 → Type 0
Checked A = Result A ValidationError

abbrev pub max_of : List ℕ → ℕ
max_of [] = 0
max_of (n ∷ ns) = max n (max_of ns)

-- `Traversal::max_depth`
abbrev pub max_depth : Traversal → ℕ
max_depth t = max_of (values t.depths)

-- The loop of `has_path`, the top of the stack first. Each set is entered once, so the fuel counts
-- sets.
unfoldable pub has_path_from :
    ℕ → SetDag → AccountSetId → List AccountSetId → List AccountSetId → Bool
has_path_from zero dag to visited [] = false
has_path_from (suc fuel) dag to visited [] = false
has_path_from zero dag to visited (id ∷ pending) =
    let rest = has_path_from zero dag to visited pending in if nat_beq id to then true else rest
has_path_from (suc fuel) dag to visited (id ∷ pending) =
    let skip = has_path_from (suc fuel) dag to visited pending in
    let enter = has_path_from fuel dag to (id ∷ visited) (reverse (children dag id) ++ pending) in
    if nat_beq id to then true else if nat_in id visited then skip else enter

unfoldable pub has_path : SetDag → AccountSetId → AccountSetId → Bool
unfolding has_path_from
has_path dag from to = has_path_from (suc (node_count dag)) dag to [] (from ∷ [])

-- `find`
abbrev pub find_edge : (SetMembership → Bool) → List SetMembership → Option SetMembership
find_edge p [] = none
find_edge p (edge ∷ edges) = if p edge then some edge else find_edge p edges

abbrev pub add_all : List AccountMembership → SetDag → SetDag
add_all [] dag = dag
add_all (m ∷ members) dag = add_all members (add_isolated m.account_set_id dag)

-- The graph that is checked.
unfoldable pub combined : List SetMembership → List SetMembership → List AccountMembership → SetDag
unfolding new_dag
combined existing proposed account_members =
    add_all account_members (new_dag (existing ++ proposed))

-- The edge that a cycle is put down to.
unfoldable pub cycle_error : SetDag → List SetMembership → List SetMembership → ValidationError
unfolding has_path
cycle_error dag existing proposed =
    let on_cycle = λ (e : SetMembership).
      nat_beq e.account_set_id e.member_account_set_id
      || has_path dag e.member_account_set_id e.account_set_id in
    elim (find_edge on_cycle proposed) [
      | some e ↦ set_error (membership_cycle_detected e.account_set_id e.member_account_set_id)
      | none ↦ elim (first? existing) [
        | some e ↦ set_error (membership_cycle_detected e.account_set_id e.member_account_set_id)
        | none ↦ aborted "cycle detected in a graph with no edges"
      ]
    ]

-- `HashSet::insert` and `extend`
abbrev pub insert_id : AccountSetId → List AccountSetId → List AccountSetId
insert_id id ids = if nat_in id ids then ids else id ∷ ids

abbrev pub extend_ids : List AccountSetId → List AccountSetId → List AccountSetId
extend_ids ids [] = ids
extend_ids ids (id ∷ more) = extend_ids (insert_id id ids) more

-- The loop over the children: what a set contributes reaches each of them for the first time.
unfoldable pub contribute :
    List AccountSetId
    → List AccountSetId
    → Map AccountSetId (List AccountSetId)
    → Checked (Map AccountSetId (List AccountSetId))
contribute contribution [] ancestors = ok ancestors
contribute contribution (child ∷ cs) ancestors =
    let own = list_or_empty (get child ancestors) in
    if any (λ id. nat_in id own) contribution
    then err (set_error member_already_added)
    else contribute contribution cs (insert child (extend_ids own contribution) ancestors)

-- The loop over the order.
unfoldable pub collect_ancestors :
    SetDag
    → List AccountSetId
    → Map AccountSetId (List AccountSetId)
    → Checked (Map AccountSetId (List AccountSetId))
unfolding contribute
collect_ancestors dag [] ancestors = ok ancestors
collect_ancestors dag (id ∷ order) ancestors =
    contribute (insert_id id (list_or_empty (get id ancestors))) (children dag id) ancestors
    >>= λ next. collect_ancestors dag order next

-- One containment of an account, for the first time.
abbrev pub add_path :
    AccountSetId
    → AccountId
    → List (AccountSetId × AccountId)
    → Checked (List (AccountSetId × AccountId))
add_path id account_id paths =
    if contains (id, account_id) paths
    then err (set_error member_already_added)
    else ok ((id, account_id) ∷ paths)

unfoldable pub add_paths :
    AccountId
    → List AccountSetId
    → List (AccountSetId × AccountId)
    → Checked (List (AccountSetId × AccountId))
add_paths account_id [] paths = ok paths
add_paths account_id (id ∷ ids) paths =
    add_path id account_id paths >>= λ next. add_paths account_id ids next

-- The loop over the account members.
unfoldable pub check_paths :
    Map AccountSetId (List AccountSetId)
    → List AccountMembership
    → List (AccountSetId × AccountId)
    → Checked (List (AccountSetId × AccountId))
unfolding add_paths
check_paths ancestors [] paths = ok paths
check_paths ancestors (m ∷ members) paths = do
  direct ← add_path m.account_set_id m.account_id paths
  all ← add_paths m.account_id (list_or_empty (get m.account_set_id ancestors)) direct
  check_paths ancestors members all

-- `&proposed_edges[..take]`
abbrev pub take : List SetMembership → ℕ → List SetMembership
take edges zero = []
take [] (suc n) = []
take (e ∷ edges) (suc n) = e ∷ take edges n

-- The depth of the graph with the first proposed edges.
unfoldable pub prefix_depth : List SetMembership → List SetMembership → ℕ → ℕ
unfolding traverse new_dag
prefix_depth existing proposed n = elim (traverse (new_dag (existing ++ take proposed n))) [
  | traversed t ↦ max_depth t
  | panicked ↦ 0
  | out_of_fuel ↦ 0
]

-- The `while` loop of `first_depth_overflow`, on the depth of each prefix. It halves the range.
unfoldable pub search_overflow : ℕ → (ℕ → ℕ) → ℕ → ℕ → Option ℕ
search_overflow zero depth low high = none
search_overflow (suc fuel) depth low high =
    let middle = (low + high) / 2 in
    let left = search_overflow fuel depth low middle in
    let right = search_overflow fuel depth (middle + 1) high in
    if not (ltb low high)
    then some low
    else if ltb max_membership_depth (depth middle)
    then left
    else right

unfoldable pub first_depth_overflow : List SetMembership → List SetMembership → Option (ℕ × ℕ)
unfolding search_overflow prefix_depth
first_depth_overflow existing proposed =
    let depth = prefix_depth existing proposed in
    elim (search_overflow (suc (length proposed)) depth 1 (length proposed)) [
      | none ↦ none
      | some low ↦ some (low - 1, depth low)
    ]

abbrev pub get_edge : List SetMembership → ℕ → Option SetMembership
get_edge [] i = none
get_edge (e ∷ edges) zero = some e
get_edge (e ∷ edges) (suc i) = get_edge edges i

-- The error of a graph that is too deep. `none` of the search is not met.
unfoldable pub depth_error : List SetMembership → List SetMembership → ValidationError
unfolding first_depth_overflow
depth_error existing proposed = elim (first_depth_overflow existing proposed) [
  | none ↦ aborted "out of fuel"
  | some found ↦ elim (get_edge proposed found.0) [
    | none ↦ aborted "index out of bounds"
    | some e ↦ set_error (
        membership_depth_exceeded e.account_set_id e.member_account_set_id found.1
          max_membership_depth)
  ]
]

-- The checks after the traversal.
unfoldable pub check_traversal :
    SetDag
    → List SetMembership
    → List SetMembership
    → List AccountMembership
    → Traversal
    → Checked (Unit {0})
unfolding cycle_error collect_ancestors check_paths depth_error
check_traversal dag existing proposed account_members t =
    if not (nat_beq (length t.order) (node_count dag))
    then err (cycle_error dag existing proposed)
    else (do
      ancestors ← collect_ancestors dag t.order []
      paths ← check_paths ancestors account_members []
      reject_if (ltb max_membership_depth (max_depth t)) (depth_error existing proposed))

unfoldable pub validate_set_memberships :
    List SetMembership → List SetMembership → List AccountMembership → Checked (Unit {0})
unfolding combined traverse check_traversal
validate_set_memberships existing proposed account_members =
    let dag = combined existing proposed account_members in
    elim (traverse dag) [
      | traversed t ↦ check_traversal dag existing proposed account_members t
      | panicked ↦ err (aborted "every child must have an indegree")
      | out_of_fuel ↦ err (aborted "out of fuel")
    ]
