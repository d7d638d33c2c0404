-- ===== src/AccountSet/Validate/Complete.antt =====
-- The order of a traversal is short exactly where there is a cycle.
use mathlib.Core.Path.{subst}
use cala.Prelude.{
  ℕ, zero, suc, ◌+◌, ◌<◌, ◌≤◌, ◌≡◌, ◌↔◌, inl, inr, sym, ap, ◌∙◌, true, false, List, [], ◌∷◌, length,
  arith, Bool-cases,
}
use cala.Prelude.Map.{keys}
use cala.AccountSet.Graph.{SetMembership}
use cala.AccountSet.Walk.{nat_in}
use cala.AccountSet.Walk.Ends.{unseen, unseen-visit, unseen-le-length}
use cala.AccountSet.Walk.Reached.{in_cons}
use cala.AccountSet.Dag.{SetDag, children, node_count, Traversal, traversed, traverse}
use cala.AccountSet.Dag.Built.{members_of, IsBuilt, IsNodup-keys}
use cala.AccountSet.Dag.Order.{IsTraversal}
use cala.AccountSet.Dag.Traversed.{length-keys, traverse-IsTraversal}
use cala.AccountSet.Validate.Acyclic.{Chain, stay, down, IsAcyclic, unseen-IsNodup, Chain-depth}
use cala.AccountSet.Validate.Longest.{AreReal, traverse-AreReal}
use cala.AccountSet.Validate.Blame.{positive}

only_zero : (d n : ℕ) → d + n ≤ d → n ≡ 0
only_zero d n h = omega arith

module _ (edges : List SetMembership) (own : List ℕ) (dag : SetDag) (b : IsBuilt edges own dag)
    (t : Traversal) (done : IsTraversal (children dag) (keys dag.indegree) t.order t.depths)
    (acyclic : IsAcyclic edges) where
  -- Upward from a set that is left out there is always one more: so there is none.
  ascent :
      (fuel h : ℕ) (seen : List ℕ)
      → unseen seen (keys dag.indegree) < fuel
      → nat_in h (keys dag.indegree) ≡ true
      → nat_in h t.order ≡ false
      → ((x : ℕ) → nat_in x seen ≡ true → (n : ℕ) × Chain edges h x n)
      → ⊥
  ascent zero h seen enough node out above = omega arith
  ascent (suc fuel) h seen enough node out above =
      let (u, u_node, u_out, child) = done.stuck h node out in
      let edge : nat_in h (members_of u edges) ≡ true = ap (nat_in h) (sym (b.members u)) ∙ child in
      elim (Bool-cases (nat_in u seen)) [
        | inl again ↦
            let (n, chain) = above u again in
            positive n (acyclic u (suc n) (down u h u n edge chain))
        | inr new ↦
            ascent fuel u (u ∷ seen)
              (omega (arith, unseen-visit seen (keys dag.indegree) u u_node new)) u_node u_out
              (λ x i. elim (in_cons x u seen i) [
                | inl same ↦ (0, subst (λ w. Chain edges u w 0) (sym same) (stay u))
                | inr old ↦ let (n, chain) = above x old in (suc n, down u h x n edge chain)
              ])
      ]

  all_ordered : (x : ℕ) → nat_in x (keys dag.indegree) ≡ true → nat_in x t.order ≡ true
  all_ordered x node = elim (Bool-cases (nat_in x t.order)) [
    | inl here ↦ here
    | inr out ↦ absurd (
        ascent (suc (length (keys dag.indegree))) x []
          (omega (arith, unseen-le-length [] (keys dag.indegree))) node out (λ y i. cc i))
  ]

  is_complete : length t.order ≡ node_count dag
  is_complete = omega (
    arith,
    unseen-IsNodup t.order (keys dag.indegree) done.nodup done.own,
    unseen-IsNodup (keys dag.indegree) t.order (IsNodup-keys dag.indegree b.unique) all_ordered,
    length-keys dag.indegree,
  )

-- The traversal of a graph that is built of some edges and some sets of their own ends, without a
-- panic. Its order has sets of the graph only, each at most once, and each after all the sets that
-- contain it; a set that it leaves out is contained in one that it leaves out; the depth of a set in
-- the order is less than that of each set that it contains; the order is as long as the graph has
-- sets exactly where no set contains itself, directly or through others; and each depth is the
-- number of edges of a chain of containments down to the set.
pub traverse-IsComplete :
    (edges : List SetMembership) (own : List ℕ) (dag : SetDag)
    → IsBuilt edges own dag
    → (t : Traversal) × (traverse dag ≡ traversed t)
      × IsTraversal (children dag) (keys dag.indegree) t.order t.depths
      × ((length t.order ≡ node_count dag) ↔ IsAcyclic edges)
      × AreReal edges t.depths
traverse-IsComplete edges own dag b =
    let (t, ends, done) = traverse-IsTraversal edges own dag b in
    (
      t,
      ends,
      done,
      (
        (λ complete u n chain.
            only_zero _ n (Chain-depth edges own dag b t done complete u u n chain)),
        (λ acyclic. is_complete edges own dag b t done acyclic),
      ),
      traverse-AreReal edges own dag b t ends,
    )
