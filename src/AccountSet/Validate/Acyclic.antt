-- ===== src/AccountSet/Validate/Acyclic.antt =====
-- What an accepted change of the set memberships has: no cycle, and no chain beyond the bound.
use cala.Prelude.{
  ℕ, suc, ◌+◌, ◌<◌, ◌≤◌, ◌≡◌, inl, inr, refl, sym, ap, ◌∙◌, Bool, true, false, List, [], ◌∷◌, ◌++◌,
  length, ltb, nat_beq, nat_beq_iff, nat_eq, arith, Bool-cases, ok, err, >>=-eq-ok, reject_if,
}
use cala.Prelude.Map.{Map, get, keys, values}
use cala.Types.{AccountId, AccountSetId}
use cala.Posting.{AccountMembership}
use cala.AccountSet.Graph.{SetMembership}
use cala.AccountSet.Paths.{count_or_zero}
use cala.AccountSet.Walk.{nat_in}
use cala.AccountSet.Walk.Ends.{unseen, unseen-visit, unseen-le-length}
use cala.AccountSet.Walk.Reached.{IsNodup, or_left, or_right}
use cala.AccountSet.Dag.{SetDag, add_isolated, node_count, children, Traversal}
use cala.AccountSet.Dag.Built.{
  members_of, is_end, contains-keys, IsBuilt, IsBuilt-new_dag, IsBuilt-add_isolated,
}
use cala.AccountSet.Dag.Order.{IsTraversal}
use cala.AccountSet.Dag.Traversed.{length-keys, traverse-IsTraversal}
use cala.AccountSet.Validate.{
  max_membership_depth, ValidationError, Checked, max_of, max_depth, add_all, combined,
  collect_ancestors, check_paths, check_traversal, validate_set_memberships,
}

-- A chain of containments, by the number of its edges.
pub data Chain (edges : List SetMembership) : ℕ → ℕ → ℕ → Type 0 where
  stay : (u : ℕ) → Chain edges u u 0
  down :
      (u v w n : ℕ)
      → nat_in v (members_of u edges) ≡ true
      → Chain edges v w n
      → Chain edges u w (suc n)

-- No set contains itself.
abbrev pub IsAcyclic : List SetMembership → Type 0
IsAcyclic edges = (u n : ℕ) → Chain edges u u n → n ≡ 0

pub unseen-IsNodup :
    (xs us : List ℕ)
    → IsNodup xs
    → ((x : ℕ) → nat_in x xs ≡ true → nat_in x us ≡ true)
    → unseen xs us + length xs ≤ length us
unseen-IsNodup [] us n own = omega (arith, unseen-le-length [] us)
unseen-IsNodup (x ∷ xs) us n own = omega (
  arith,
  unseen-visit xs us x (own x (or_left (nat_beq x x) (nat_in x xs) ((nat_beq_iff x x).1 refl))) n.0,
  unseen-IsNodup xs us n.1 (λ y h. own y (or_right (nat_beq y x) (nat_in y xs) h)),
)

seen_all : (xs us : List ℕ) (x : ℕ) → unseen xs us ≡ 0 → nat_in x us ≡ true → nat_in x xs ≡ true
seen_all xs [] x z h = cc
seen_all xs (u ∷ us) x z h = ground (arith, seen_all xs us x, nat_beq_iff x u)

-- A list without repetition that is as long as the one it draws on has all of it.
pigeonhole :
    (xs us : List ℕ) (x : ℕ)
    → IsNodup xs
    → ((y : ℕ) → nat_in y xs ≡ true → nat_in y us ≡ true)
    → length xs ≡ length us
    → nat_in x us ≡ true
    → nat_in x xs ≡ true
pigeonhole xs us x n own same h =
    seen_all xs us x (omega (arith, unseen-IsNodup xs us n own, same)) h

le-max_of : (v : ℕ) (m : Map ℕ ℕ) → count_or_zero (get v m) ≤ max_of (values m)
le-max_of v [] = omega arith
le-max_of v ((k, d) ∷ m) = ground (arith, le-max_of v m)

add_all-IsBuilt :
    (members : List AccountMembership) (edges : List SetMembership) (own : List ℕ) (dag : SetDag)
    → IsBuilt edges own dag
    → (all : List ℕ) × IsBuilt edges all (add_all members dag)
add_all-IsBuilt [] edges own dag b = (own, b)
add_all-IsBuilt (m ∷ members) edges own dag b =
    add_all-IsBuilt members edges (m.account_set_id ∷ own) (add_isolated m.account_set_id dag)
      (IsBuilt-add_isolated m.account_set_id edges own dag b)

pub combined-IsBuilt :
    (existing proposed : List SetMembership) (members : List AccountMembership)
    → (own : List ℕ) × IsBuilt (existing ++ proposed) own (combined existing proposed members)
unfolding combined
combined-IsBuilt existing proposed members =
    add_all-IsBuilt members (existing ++ proposed) [] _ (IsBuilt-new_dag (existing ++ proposed))

reject_if-ok : (b : Bool) (e : ValidationError) → reject_if b e ≡ ok tt → b ≡ false
reject_if-ok true e h = cc
reject_if-ok false e h = refl

err-ne-done : (e : ValidationError) → ◌≡◌ {A = Checked (Unit {0})} (err e) (ok tt) → ⊥
err-ne-done e h = cc

-- What the checks after the traversal have found.
pub record IsAccepted (dag : SetDag) (members : List AccountMembership) (t : Traversal)
    : Type 0 where
  pub complete : length t.order ≡ node_count dag
  pub shallow : max_depth t ≤ max_membership_depth
  pub ancestors : Map AccountSetId (List AccountSetId)
  pub collected : collect_ancestors dag t.order [] ≡ ok ancestors
  pub paths : List (AccountSetId × AccountId)
  pub checked : check_paths ancestors members [] ≡ ok paths

pub check_traversal-IsAccepted :
    (dag : SetDag) (existing proposed : List SetMembership) (members : List AccountMembership)
    (t : Traversal)
    → check_traversal dag existing proposed members t ≡ ok tt
    → IsAccepted dag members t
unfolding check_traversal
check_traversal-IsAccepted dag existing proposed members t h =
    elim (Bool-cases (nat_beq (length t.order) (node_count dag))) [
      | inr short ↦ absurd (err-ne-done _ (rw short at h))
      | inl whole ↦
          let (ancestors, collected, later) =
            >>=-eq-ok (collect_ancestors dag t.order []) _ (rw whole at h) in
          let (paths, checked, last) = >>=-eq-ok (check_paths ancestors members []) _ later in
          let fits = reject_if-ok (ltb max_membership_depth (max_depth t)) _ last in
          record {
            complete = (nat_beq_iff _ _).0 whole;
            shallow = ground (arith, fits);
            ancestors = ancestors;
            collected = collected;
            paths = paths;
            checked = checked;
          }
    ]

pub container-IsEnd :
    (u v : ℕ) (es : List SetMembership) → nat_in v (members_of u es) ≡ true → is_end u es ≡ true
container-IsEnd u v [] h = cc
container-IsEnd u v (e ∷ es) h = ground (arith, container-IsEnd u v es)

-- A traversal that leaves nothing out.
module _ (edges : List SetMembership) (own : List ℕ) (dag : SetDag) (b : IsBuilt edges own dag)
    (t : Traversal) (done : IsTraversal (children dag) (keys dag.indegree) t.order t.depths)
    (complete : length t.order ≡ node_count dag) where
  abbrev depth : ℕ → ℕ
  depth u = count_or_zero (get u t.depths)

  pub is_taken : (u : ℕ) → is_end u edges ≡ true → nat_in u t.order ≡ true
  is_taken u h =
      pigeonhole t.order (keys dag.indegree) u done.nodup done.own
        (complete ∙ sym (length-keys dag.indegree))
        (contains-keys u dag.indegree ∙ b.known u ∙ or_left (is_end u edges) (nat_in u own) h)

  deeper : (u v : ℕ) → nat_in v (members_of u edges) ≡ true → depth u < depth v
  deeper u v h =
      done.deeper u v (is_taken u (container-IsEnd u v edges h)) (ap (nat_in v) (b.members u) ∙ h)

  pub Chain-depth : (u w n : ℕ) → Chain edges u w n → depth u + n ≤ depth w
  Chain-depth _ _ _ (stay u) = omega arith
  Chain-depth _ _ _ (down u v w m edge rest) =
      omega (arith, deeper u v edge, Chain-depth v w m rest)

-- Where the new set memberships are accepted, whatever the members, no set of the combined graph
-- contains itself, directly or through others, and no chain of containments has more edges than
-- the bound.
pub validate_set_memberships-IsShallow :
    (existing proposed : List SetMembership) (members : List AccountMembership)
    → validate_set_memberships existing proposed members ≡ ok tt
    → IsAcyclic (existing ++ proposed)
      × ((u w n : ℕ) → Chain (existing ++ proposed) u w n → n ≤ max_membership_depth)
unfolding validate_set_memberships
validate_set_memberships-IsShallow existing proposed members h =
    let edges = existing ++ proposed in
    let dag = combined existing proposed members in
    let (own, b) = combined-IsBuilt existing proposed members in
    let (t, ends, done) = traverse-IsTraversal edges own dag b in
    let a =
      check_traversal-IsAccepted dag existing proposed members t
        (rw (ends, validate_set_memberships) at h) in
    (
      (λ u n c. omega (arith, Chain-depth edges own dag b t done a.complete u u n c)),
      (λ u w n c. omega (
        arith,
        Chain-depth edges own dag b t done a.complete u w n c,
        le-max_of w t.depths,
        a.shallow,
      )),
    )
