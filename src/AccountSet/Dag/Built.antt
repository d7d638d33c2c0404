-- ===== src/AccountSet/Dag/Built.antt =====
-- What `SetDag::new` builds: the children of each set, and how many containers each set has.
use mathlib.Core.Path.{subst}
use mathlib.Core.List.{append-nil, append_assoc}
use cala.Prelude.{
  ℕ, ◌+◌, ◌≡◌, refl, sym, ap, ◌∙◌, ◌||◌, Bool, true, Option, none, some, is_some, List, [], ◌∷◌,
  ◌++◌, any, if◌then◌else◌, nat_beq, nat_beq_iff, nat_eq, arith, Bool-cases, inl, inr,
}
use cala.Prelude.Map.{Map, get, insert, keys, contains_key, IsUnique, insert-IsUnique, get-insert}
use cala.AccountSet.Graph.{SetMembership}
use cala.AccountSet.Paths.{count_or_zero}
use cala.AccountSet.Walk.{nat_in}
use cala.AccountSet.Walk.Reached.{IsNodup}
use cala.AccountSet.Cache.Indexed.{list-push_value}
use cala.AccountSet.Dag.{SetDag, or_default, add_isolated, add_edge, add_edges, new_dag, children}

-- The members of a set among some edges.
abbrev pub members_of : ℕ → List SetMembership → List ℕ
members_of u [] = []
members_of u (e ∷ edges) =
    if nat_beq u e.account_set_id
    then e.member_account_set_id ∷ members_of u edges
    else members_of u edges

-- How many edges lead to a set.
abbrev pub containers_of : ℕ → List SetMembership → ℕ
containers_of v [] = 0
containers_of v (e ∷ edges) =
    (if nat_beq v e.member_account_set_id then 1 else 0) + containers_of v edges

-- Is it an end of an edge?
abbrev pub is_end : ℕ → List SetMembership → Bool
is_end v = any (λ e. nat_beq v e.account_set_id || nat_beq v e.member_account_set_id)

pub contains-keys : {V : Type 0} (v : ℕ) (m : Map ℕ V) → nat_in v (keys m) ≡ contains_key v m
contains-keys v [] = refl
contains-keys v ((k, x) ∷ m) = ground (arith, contains-keys v m)

pub IsNodup-keys : {V : Type 0} (m : Map ℕ V) → IsUnique m → IsNodup (keys m)
IsNodup-keys [] u = tt
IsNodup-keys ((k, x) ∷ m) u = (contains-keys k m ∙ ap is_some u.0, IsNodup-keys m u.1)

pub is_some-count : (o : Option ℕ) → is_some o ≡ true → o ≡ some (count_or_zero o)
is_some-count none h = cc
is_some-count (some n) h = refl

or_default-count :
    (v id : ℕ) (m : Map ℕ ℕ) → count_or_zero (get v (or_default id m)) ≡ count_or_zero (get v m)
unfolding or_default
or_default-count v id m = ground (arith, get-insert id v 0 m, nat_beq_iff id v)

or_default-contains :
    (v id : ℕ) (m : Map ℕ ℕ) → contains_key v (or_default id m) ≡ (nat_beq v id || contains_key v m)
unfolding or_default
or_default-contains v id m = ground (arith, get-insert id v 0 m, nat_beq_iff id v, nat_beq_iff v id)

or_default-IsUnique : (id : ℕ) (m : Map ℕ ℕ) → IsUnique m → IsUnique (or_default id m)
unfolding or_default
or_default-IsUnique id m u = elim (Bool-cases (contains_key id m)) [
  | inl old ↦ rw old u
  | inr new ↦ rw new (insert-IsUnique id 0 m u)
]

add_edge-count :
    (v : ℕ) (e : SetMembership) (dag : SetDag)
    → count_or_zero (get v (add_edge e dag).indegree)
      ≡ count_or_zero (get v dag.indegree) + (if nat_beq v e.member_account_set_id then 1 else 0)
unfolding add_edge
add_edge-count v e dag =
    let b = e.member_account_set_id in
    let n = count_or_zero (get b dag.indegree) + 1 in
    or_default-count v e.account_set_id (insert b n dag.indegree)
    ∙ ground (arith, get-insert b v n dag.indegree, nat_beq_iff b v, nat_beq_iff v b)

add_edge-contains :
    (v : ℕ) (e : SetMembership) (dag : SetDag)
    → contains_key v (add_edge e dag).indegree ≡ (
        (nat_beq v e.account_set_id || nat_beq v e.member_account_set_id)
        || contains_key v dag.indegree)
unfolding add_edge
add_edge-contains v e dag =
    let b = e.member_account_set_id in
    let n = count_or_zero (get b dag.indegree) + 1 in
    or_default-contains v e.account_set_id (insert b n dag.indegree)
    ∙ ground (arith, get-insert b v n dag.indegree, nat_beq_iff b v, nat_beq_iff v b)

add_edge-IsUnique :
    (e : SetMembership) (dag : SetDag) → IsUnique dag.indegree → IsUnique (add_edge e dag).indegree
unfolding add_edge
add_edge-IsUnique e dag u =
    let b = e.member_account_set_id in
    let n = count_or_zero (get b dag.indegree) + 1 in
    or_default-IsUnique e.account_set_id (insert b n dag.indegree)
      (insert-IsUnique b n dag.indegree u)

add_edge-children :
    (u : ℕ) (e : SetMembership) (dag : SetDag)
    → children (add_edge e dag) u ≡ children dag u ++ members_of u (e ∷ [])
unfolding add_edge
add_edge-children u e dag = list-push_value u e.account_set_id e.member_account_set_id dag.adjacency

-- What a graph is, that is built of some edges and some sets of its own.
pub record IsBuilt (edges : List SetMembership) (own : List ℕ) (dag : SetDag) : Type 0 where
  pub unique : IsUnique dag.indegree
  pub degree : (v : ℕ) → count_or_zero (get v dag.indegree) ≡ containers_of v edges
  pub known : (v : ℕ) → contains_key v dag.indegree ≡ (is_end v edges || nat_in v own)
  pub members : (u : ℕ) → children dag u ≡ members_of u edges

containers_of-snoc :
    (v : ℕ) (edges : List SetMembership) (e : SetMembership)
    → containers_of v (edges ++ e ∷ [])
      ≡ containers_of v edges + (if nat_beq v e.member_account_set_id then 1 else 0)
containers_of-snoc v [] e = omega arith
containers_of-snoc v (f ∷ edges) e = omega (arith, containers_of-snoc v edges e)

is_end-snoc :
    (v : ℕ) (edges : List SetMembership) (e : SetMembership)
    → is_end v (edges ++ e ∷ [])
      ≡ ((nat_beq v e.account_set_id || nat_beq v e.member_account_set_id) || is_end v edges)
is_end-snoc v [] e = refl
is_end-snoc v (f ∷ edges) e = ground (arith, is_end-snoc v edges e)

members_of-snoc :
    (u : ℕ) (edges : List SetMembership) (e : SetMembership)
    → members_of u (edges ++ e ∷ []) ≡ members_of u edges ++ members_of u (e ∷ [])
members_of-snoc u [] e = refl
members_of-snoc u (f ∷ edges) e = elim (Bool-cases (nat_beq u f.account_set_id)) [
  | inl own ↦ rw own (ap (λ ms. f.member_account_set_id ∷ ms) (members_of-snoc u edges e))
  | inr other ↦ rw other (members_of-snoc u edges e)
]

IsBuilt-add_edge :
    (e : SetMembership) (edges : List SetMembership) (dag : SetDag)
    → IsBuilt edges [] dag
    → IsBuilt (edges ++ e ∷ []) [] (add_edge e dag)
IsBuilt-add_edge e edges dag b = record {
  unique = add_edge-IsUnique e dag b.unique;
  degree = λ v.
      add_edge-count v e dag
      ∙ ap (λ n. n + (if nat_beq v e.member_account_set_id then 1 else 0)) (b.degree v)
      ∙ sym (containers_of-snoc v edges e);
  known = λ v. add_edge-contains v e dag ∙ ground (arith, b.known v, is_end-snoc v edges e);
  members = λ u.
      add_edge-children u e dag
      ∙ ap (λ ms. ms ++ members_of u (e ∷ [])) (b.members u)
      ∙ sym (members_of-snoc u edges e);
}

IsBuilt-add_edges :
    (more edges : List SetMembership) (dag : SetDag)
    → IsBuilt edges [] dag
    → IsBuilt (edges ++ more) [] (add_edges more dag)
unfolding add_edges
IsBuilt-add_edges [] edges dag b = subst (λ es. IsBuilt es [] dag) (sym (append-nil edges)) b
IsBuilt-add_edges (e ∷ more) edges dag b =
    subst (λ es. IsBuilt es [] (add_edges more (add_edge e dag))) (append_assoc edges (e ∷ []) more)
      (IsBuilt-add_edges more (edges ++ e ∷ []) (add_edge e dag) (IsBuilt-add_edge e edges dag b))

pub IsBuilt-new_dag : (edges : List SetMembership) → IsBuilt edges [] (new_dag edges)
unfolding new_dag
IsBuilt-new_dag edges =
    IsBuilt-add_edges edges [] _
      (record { unique = tt; degree = λ v. refl; known = λ v. refl; members = λ u. refl })

pub IsBuilt-add_isolated :
    (id : ℕ) (edges : List SetMembership) (own : List ℕ) (dag : SetDag)
    → IsBuilt edges own dag
    → IsBuilt edges (id ∷ own) (add_isolated id dag)
IsBuilt-add_isolated id edges own dag b = record {
  unique = or_default-IsUnique id dag.indegree b.unique;
  degree = λ v. or_default-count v id dag.indegree ∙ b.degree v;
  known = λ v. or_default-contains v id dag.indegree ∙ ground (arith, b.known v);
  members = b.members;
}
