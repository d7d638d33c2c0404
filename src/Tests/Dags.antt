-- ===== src/Tests/Dags.antt =====
-- The theorems on the check of set memberships at a chain of sets.
use cala.Prelude.{
  ℕ, zero, suc, ◌+◌, ◌<◌, ◌≤◌, ◌≡◌, ◌⊎◌, ◌↔◌, refl, ok, err, some, List, [], ◌∷◌, ◌++◌, length,
  arith,
}
use cala.Prelude.Map.{keys}
use cala.Posting.{AccountMembership}
use cala.AccountSet.Graph.{SetMembership}
use cala.AccountSet.Check.{
  membership_cycle_detected, membership_depth_exceeded, member_already_added,
}
use cala.AccountSet.Dag.{new_dag, node_count, children, Traversal, traversed, traverse}
use cala.AccountSet.Dag.Built.{IsBuilt-new_dag}
use cala.AccountSet.Dag.Order.{IsTraversal}
use cala.AccountSet.Validate.{
  max_membership_depth, set_error, prefix_depth, first_depth_overflow, validate_set_memberships,
}
use cala.AccountSet.Validate.Search.{first_depth_overflow-IsBoundary}
use cala.AccountSet.Validate.Acyclic.{Chain, stay, down, IsAcyclic}
use cala.AccountSet.Validate.Blame.{Blamed, validate_set_memberships-Blamed}
use cala.AccountSet.Validate.Complete.{traverse-IsComplete}
use cala.AccountSet.Validate.Longest.{AreReal}
use cala.AccountSet.Validate.Valid.{IsValid, validate_set_memberships-IsValid}

abbrev edge : ℕ → ℕ → SetMembership
edge container member = record { account_set_id = container; member_account_set_id = member }

-- The edges of a chain down to set 0.
abbrev chain_from : ℕ → List SetMembership
chain_from zero = []
chain_from (suc n) = edge (suc n) n ∷ chain_from n

abbrev diamond : List SetMembership
diamond = edge 1 2 ∷ edge 1 3 ∷ edge 2 4 ∷ edge 3 4 ∷ []

abbrev members : List AccountMembership
members =
    record { account_set_id = 0; account_id = 50 }
    ∷ record { account_set_id = 9; account_id = 50 }
    ∷ []

abbrev more : List SetMembership
more = edge 100 101 ∷ edge 30 15 ∷ edge 31 30 ∷ edge 32 31 ∷ []

chain_is_accepted : validate_set_memberships (chain_from 3) (edge 4 3 ∷ []) members ≡ ok tt
unfolding validate_set_memberships
chain_is_accepted = refl

diamond_is_rejected : validate_set_memberships [] diamond [] ≡ err (set_error member_already_added)
unfolding validate_set_memberships
diamond_is_rejected = refl

cycle_is_rejected :
    validate_set_memberships (chain_from 3) (edge 5 6 ∷ edge 0 3 ∷ []) []
    ≡ err (set_error (membership_cycle_detected 0 3))
unfolding validate_set_memberships
cycle_is_rejected = refl

deep_is_rejected :
    validate_set_memberships (chain_from 15) more []
    ≡ err (set_error (membership_depth_exceeded 31 30 17 16))
unfolding validate_set_memberships
deep_is_rejected = refl

deep_lem : max_membership_depth < prefix_depth (chain_from 15) more 4
unfolding prefix_depth
deep_lem = omega arith

traverse-IsComplete_example :
    (t : Traversal) × (traverse (new_dag diamond) ≡ traversed t)
    × IsTraversal (children (new_dag diamond)) (keys (new_dag diamond).indegree) t.order t.depths
    × ((length t.order ≡ node_count (new_dag diamond)) ↔ IsAcyclic diamond)
    × AreReal diamond t.depths
traverse-IsComplete_example =
    traverse-IsComplete diamond [] (new_dag diamond) (IsBuilt-new_dag diamond)

first_depth_overflow-IsBoundary_example :
    (i : ℕ) × (first_depth_overflow (chain_from 15) more
      ≡ some (i, prefix_depth (chain_from 15) more (i + 1)))
    × (i < length more)
    × (max_membership_depth < prefix_depth (chain_from 15) more (i + 1))
    × ((i ≡ 0) ⊎ (prefix_depth (chain_from 15) more i ≤ max_membership_depth))
first_depth_overflow-IsBoundary_example =
    first_depth_overflow-IsBoundary (chain_from 15) more (omega arith) deep_lem

validate_set_memberships-IsValid_example : IsValid (chain_from 3 ++ edge 4 3 ∷ []) members
validate_set_memberships-IsValid_example =
    validate_set_memberships-IsValid (chain_from 3) (edge 4 3 ∷ []) members chain_is_accepted

no_edges-Chain : (u w n : ℕ) → Chain [] u w n → n ≡ 0
no_edges-Chain _ _ _ (stay u) = refl
no_edges-Chain _ _ _ (down u v w n inside rest) = cc inside

no_edges-IsAcyclic : IsAcyclic []
no_edges-IsAcyclic u n chain = no_edges-Chain u u n chain

abbrev cycle : List SetMembership
cycle = edge 5 6 ∷ edge 3 7 ∷ edge 7 3 ∷ []

validate_set_memberships-Blamed_example :
    (container : ℕ) × (member : ℕ) × Blamed [] cycle container member
    × (validate_set_memberships [] cycle members
        ≡ err (set_error (membership_cycle_detected container member)))
validate_set_memberships-Blamed_example =
    validate_set_memberships-Blamed [] cycle members no_edges-IsAcyclic 3 1
      (down 3 7 3 1 refl (down 7 3 3 0 refl (stay 3)))
