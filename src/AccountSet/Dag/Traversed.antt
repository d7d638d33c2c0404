-- ===== src/AccountSet/Dag/Traversed.antt =====
-- The traversal of a graph that was built of edges.
use mathlib.Core.Path.{fun_ext}
use cala.Prelude.{
  ℕ, suc, ◌+◌, ◌≡◌, refl, sym, ap, ◌∙◌, ◌&&◌, true, false, none, some, List, [], ◌∷◌, length,
  if◌then◌else◌, nat_beq, nat_beq_iff, nat_eq, beq_refl, arith, Bool-cases, inl, inr,
}
use cala.Prelude.Map.{Map, get, keys, contains_key, IsUnique}
use cala.AccountSet.Graph.{SetMembership}
use cala.AccountSet.Paths.{count_or_zero}
use cala.AccountSet.Walk.{nat_in}
use cala.AccountSet.Walk.Ends.{unseen-le-length}
use cala.AccountSet.Walk.Reached.{IsNodup, or_left, or_right}
use cala.AccountSet.Dag.{
  SetDag, children, zero_degrees, kahn_start, Traversal, traversed, traverse, node_count,
}
use cala.AccountSet.Dag.Degrees.{left}
use cala.AccountSet.Dag.Built.{
  members_of, containers_of, is_end, contains-keys, IsNodup-keys, is_some-count, IsBuilt,
}
use cala.AccountSet.Dag.Order.{IsRound, IsTraversal, traverse_from-IsTraversal}

left_nothing : (v : ℕ) (us : List ℕ) → left (λ u. []) v [] us ≡ 0
left_nothing v [] = refl
left_nothing v (u ∷ us) = omega (arith, left_nothing v us)

left_one :
    (v : ℕ) (e : SetMembership) (edges : List SetMembership) (us : List ℕ)
    → IsNodup us
    → left (λ u. members_of u (e ∷ edges)) v [] us
      ≡ (if nat_in e.account_set_id us
          then (if nat_beq v e.member_account_set_id then 1 else 0)
          else 0)
        + left (λ u. members_of u edges) v [] us
left_one v e edges [] n = omega arith
left_one v e edges (u ∷ us) n = elim (Bool-cases (nat_beq u e.account_set_id)) [
  | inl same ↦
      let s = (nat_beq_iff u e.account_set_id).0 same in
      let gone : nat_in e.account_set_id us ≡ false = ap (λ y. nat_in y us) (sym s) ∙ n.0 in
      let back : nat_beq e.account_set_id u ≡ true = (nat_beq_iff e.account_set_id u).1 (sym s) in
      rw (same, back) (omega (arith, (rw gone at (left_one v e edges us n.1))))
  | inr other ↦
      let back : nat_beq e.account_set_id u ≡ false =
        ground (arith, nat_beq_iff u e.account_set_id, nat_beq_iff e.account_set_id u) in
      rw (other, back) (omega (arith, left_one v e edges us n.1))
]

-- The sets that contain one are counted once each.
left_total :
    (v : ℕ) (edges : List SetMembership) (us : List ℕ)
    → IsNodup us
    → ((u : ℕ) → is_end u edges ≡ true → nat_in u us ≡ true)
    → left (λ u. members_of u edges) v [] us ≡ containers_of v edges
left_total v [] us n h = left_nothing v us
left_total v (e ∷ edges) us n h =
    let container = h e.account_set_id (or_left _ _ (or_left _ _ (beq_refl e.account_set_id))) in
    omega (
      arith,
      (rw container at (left_one v e edges us n)),
      left_total v edges us n (λ u i. h u (or_right _ _ i)),
    )

zero_degrees-lem :
    (v : ℕ) (m : Map ℕ ℕ)
    → IsUnique m
    → nat_in v (zero_degrees m) ≡ (contains_key v m && nat_beq (count_or_zero (get v m)) 0)
zero_degrees-lem v [] u = refl
zero_degrees-lem v ((k, d) ∷ m) u = elim (Bool-cases (nat_beq v k)) [
  | inl same ↦
      let gone : get v m ≡ none = ap (λ y. get y m) ((nat_beq_iff v k).0 same) ∙ u.0 in
      let later : nat_in v (zero_degrees m) ≡ false = zero_degrees-lem v m u.1 ∙ rw gone refl in
      elim (Bool-cases (nat_beq d 0)) [
        | inl none_left ↦ rw (none_left, same) (sym none_left)
        | inr some_left ↦ rw (some_left, same) (later ∙ sym some_left)
      ]
  | inr other ↦ elim (Bool-cases (nat_beq d 0)) [
    | inl none_left ↦ rw (none_left, other) (zero_degrees-lem v m u.1)
    | inr some_left ↦ rw (some_left, other) (zero_degrees-lem v m u.1)
  ]
]

zero_degrees-IsNodup : (m : Map ℕ ℕ) → IsUnique m → IsNodup (zero_degrees m)
zero_degrees-IsNodup [] u = tt
zero_degrees-IsNodup ((k, d) ∷ m) u = elim (Bool-cases (nat_beq d 0)) [
  | inl none_left ↦
      rw none_left (zero_degrees-lem k m u.1 ∙ rw u.0 refl, zero_degrees-IsNodup m u.1)
  | inr some_left ↦ rw some_left (zero_degrees-IsNodup m u.1)
]

pub length-keys : (m : Map ℕ ℕ) → length (keys m) ≡ length m
length-keys [] = refl
length-keys ((k, d) ∷ m) = ap suc (length-keys m)

pub member-IsEnd :
    (u v : ℕ) (edges : List SetMembership)
    → nat_in v (members_of u edges) ≡ true
    → is_end v edges ≡ true
member-IsEnd u v [] h = cc
member-IsEnd u v (e ∷ edges) h = ground (arith, member-IsEnd u v edges)

module _ (edges : List SetMembership) (own : List ℕ) (dag : SetDag)
    (b : IsBuilt edges own dag) where
  abbrev nodes : List ℕ
  nodes = keys dag.indegree

  node_of_end : (u : ℕ) → is_end u edges ≡ true → nat_in u nodes ≡ true
  node_of_end u h = contains-keys u dag.indegree ∙ b.known u ∙ or_left _ _ h

  distinct : IsNodup nodes
  distinct = IsNodup-keys dag.indegree b.unique

  closed : (u v : ℕ) → nat_in v (children dag u) ≡ true → nat_in v nodes ≡ true
  closed u v h = node_of_end v (member-IsEnd u v edges (ap (nat_in v) (sym (b.members u)) ∙ h))

  same_children : children dag ≡ (λ u. members_of u edges)
  same_children = fun_ext b.members

  total : (v : ℕ) → left (children dag) v [] nodes ≡ count_or_zero (get v dag.indegree)
  total v =
      ap (λ c. left c v [] nodes) same_children
      ∙ left_total v edges nodes distinct node_of_end
      ∙ sym (b.degree v)

  start-IsRound : IsRound dag nodes distinct closed (kahn_start dag)
  start-IsRound = record {
    kahn = record {
      degrees = λ v here.
          is_some-count (get v dag.indegree) (sym (contains-keys v dag.indegree) ∙ here)
          ∙ ap some (omega (arith, total v));
      nodup = zero_degrees-IsNodup dag.indegree b.unique;
      ready = λ v.
          zero_degrees-lem v dag.indegree b.unique
          ∙ ap (λ c. c && nat_beq (count_or_zero (get v dag.indegree)) 0)
              (sym (contains-keys v dag.indegree))
          ∙ ap (λ n. nat_in v nodes && nat_beq n 0) (omega (arith, total v));
    };
    sorted = tt;
    deeper = λ u v h e. cc;
  }

  -- The traversal of a graph that is built of some edges and some sets of their own ends, without a
  -- panic. Its order has sets of the graph only, each at most once, and each after all the sets that
  -- contain it; a set that it leaves out is contained in one that it leaves out; and the depth of a
  -- set in the order is less than that of each set that it contains.
  pub traverse-IsTraversal :
      (t : Traversal) × (traverse dag ≡ traversed t)
      × IsTraversal (children dag) (keys dag.indegree) t.order t.depths
  unfolding traverse
  traverse-IsTraversal =
      traverse_from-IsTraversal dag nodes distinct closed (suc (node_count dag))
        (kahn_start dag).queue (kahn_start dag) refl start-IsRound
        (omega (arith, unseen-le-length [] nodes, length-keys dag.indegree))
