-- ===== src/AccountSet/Validate/Unique.antt =====
-- What an accepted change of the set memberships has: one way from a set to each it contains, and
-- to each account.
use mathlib.Core.Path.{subst, fun_ext}
use cala.Prelude.{
  ℕ, ◌+◌, ◌<◌, ◌≤◌, ◌≡◌, inl, inr, refl, sym, ap, ◌∙◌, Bool, true, false, List, [], ◌∷◌, ◌++◌,
  if◌then◌else◌, nat_beq, nat_beq_iff, nat_eq, pair_eq, arith, Bool-cases, ok,
}
use cala.Prelude.Map.{keys}
use cala.Types.{AccountId, AccountSetId}
use cala.Posting.{AccountMembership}
use cala.Posting.Prepare.{contains}
use cala.AccountSet.Graph.{SetMembership}
use cala.AccountSet.Walk.{nat_in}
use cala.AccountSet.Walk.Reached.{IsNodup, in_cons, or_left, or_right}
use cala.AccountSet.Dag.{SetDag, children, Traversal}
use cala.AccountSet.Dag.Degrees.{count}
use cala.AccountSet.Dag.Built.{members_of, is_end, IsBuilt}
use cala.AccountSet.Dag.Order.{IsTraversal, count_pos}
use cala.AccountSet.Dag.Traversed.{traverse-IsTraversal}
use cala.AccountSet.Validate.{combined, validate_set_memberships}
use cala.AccountSet.Validate.Ancestors.{has, is_above, once, through, collect-IsCollected}
use cala.AccountSet.Validate.Contained.{below_of, check_paths-le, below_of-append}
use cala.AccountSet.Validate.Acyclic.{
  Chain, stay, down, IsAccepted, check_traversal-IsAccepted, combined-IsBuilt, is_taken,
  container-IsEnd,
}

abbrev Paths : Type 0
Paths = List (AccountSetId × AccountId)

-- How many edges lead to `v` from marked sets.
abbrev into : (ℕ → Bool) → ℕ → List SetMembership → ℕ
into mark v [] = 0
into mark v (e ∷ edges) =
    (if nat_beq v e.member_account_set_id then once (mark e.account_set_id) else 0)
    + into mark v edges

into-append :
    (mark : ℕ → Bool) (v : ℕ) (xs ys : List SetMembership)
    → into mark v (xs ++ ys) ≡ into mark v xs + into mark v ys
into-append mark v [] ys = omega arith
into-append mark v (e ∷ xs) ys = omega (arith, into-append mark v xs ys)

through_nothing : (mark : ℕ → Bool) (v : ℕ) (us : List ℕ) → through (λ u. []) mark v us ≡ 0
through_nothing mark v [] = refl
through_nothing mark v (u ∷ us) = ground (arith, through_nothing mark v us)

through_one :
    (mark : ℕ → Bool) (v : ℕ) (e : SetMembership) (edges : List SetMembership) (us : List ℕ)
    → IsNodup us
    → through (λ u. members_of u (e ∷ edges)) mark v us
      ≡ (if nat_in e.account_set_id us
          then (if nat_beq v e.member_account_set_id then once (mark e.account_set_id) else 0)
          else 0)
        + through (λ u. members_of u edges) mark v us
through_one mark v e edges [] n = omega arith
through_one mark v e edges (u ∷ us) n = elim (Bool-cases (nat_beq u e.account_set_id)) [
  | inl same ↦
      let s = (nat_beq_iff u e.account_set_id).0 same in
      let gone : nat_in e.account_set_id us ≡ false = ap (λ y. nat_in y us) (sym s) ∙ n.0 in
      let back : nat_beq e.account_set_id u ≡ true = (nat_beq_iff e.account_set_id u).1 (sym s) in
      let marked : mark e.account_set_id ≡ mark u = ap mark (sym s) in
      rw (same, back, marked) (ground (arith, (rw gone at (through_one mark v e edges us n.1))))
  | inr other ↦
      let back : nat_beq e.account_set_id u ≡ false =
        ground (arith, nat_beq_iff u e.account_set_id, nat_beq_iff e.account_set_id u) in
      rw (other, back) (omega (arith, through_one mark v e edges us n.1))
]

through-into :
    (mark : ℕ → Bool) (v : ℕ) (edges : List SetMembership) (us : List ℕ)
    → IsNodup us
    → ((u : ℕ) → is_end u edges ≡ true → nat_in u us ≡ true)
    → through (λ u. members_of u edges) mark v us ≡ into mark v edges
through-into mark v [] us n h = through_nothing mark v us
through-into mark v (e ∷ edges) us n h =
    let self = (nat_beq_iff e.account_set_id e.account_set_id).1 refl in
    let container = h e.account_set_id (
      or_left _ (is_end e.account_set_id edges)
        (or_left _ (nat_beq e.account_set_id e.member_account_set_id) self)) in
    omega (
      arith,
      (rw container at (through_one mark v e edges us n)),
      through-into mark v edges us n (λ u i. h u (or_right _ _ i)),
    )

through_pos :
    (below : ℕ → List ℕ) (mark : ℕ → Bool) (v u : ℕ) (us : List ℕ)
    → nat_in u us ≡ true
    → mark u ≡ true
    → nat_in v (below u) ≡ true
    → 0 < through below mark v us
through_pos below mark v u [] h m e = cc
through_pos below mark v u (w ∷ us) h m e = elim (in_cons u w us h) [
  | inl same ↦
      let marked : mark w ≡ true = ap mark (sym same) ∙ m in
      let edge : 0 < count v (below w) =
        subst (λ y. 0 < count v (below y)) same (count_pos v (below u) e) in
      rw marked (omega (arith, edge))
  | inr later ↦ omega (arith, through_pos below mark v u us later m e)
]

once_pos : (b : Bool) → 0 < once b → b ≡ true
once_pos true h = refl
once_pos false h = absurd (omega arith)

once-le : (b : Bool) → once b ≤ 1
once-le true = omega arith
once-le false = omega arith

-- No set is, or contains, the containers of two edges into one set.
abbrev pub HasOneWay : List SetMembership → Type 0
HasOneWay edges =
    (c m n : ℕ) (e f : SetMembership) (xs ys zs : List SetMembership)
    → edges ≡ xs ++ (e ∷ (ys ++ (f ∷ zs)))
    → e.member_account_set_id ≡ f.member_account_set_id
    → Chain edges c e.account_set_id m
    → Chain edges c f.account_set_id n
    → ⊥

-- Nor the sets of two memberships of one account.
abbrev pub HasOneMembership : List SetMembership → List AccountMembership → Type 0
HasOneMembership edges members =
    (c m n : ℕ) (e f : AccountMembership) (xs ys zs : List AccountMembership)
    → members ≡ xs ++ (e ∷ (ys ++ (f ∷ zs)))
    → e.account_id ≡ f.account_id
    → Chain edges c e.account_set_id m
    → Chain edges c f.account_set_id n
    → ⊥

module _ (edges : List SetMembership) (own : List ℕ) (dag : SetDag)
    (members : List AccountMembership) (b : IsBuilt edges own dag) (t : Traversal)
    (done : IsTraversal (children dag) (keys dag.indegree) t.order t.depths)
    (a : IsAccepted dag members t) where
  taken : (u : ℕ) → is_end u edges ≡ true → nat_in u t.order ≡ true
  taken = is_taken edges own dag b t done a.complete

  counted : (c v : ℕ) → once (has a.ancestors c v) ≡ into (is_above a.ancestors c) v edges
  counted c v =
      collect-IsCollected dag t.order [] (keys dag.indegree) [] a.ancestors done.nodup done.sorted
        done.own (λ u w i. cc) (λ d w. refl) a.collected c v
      ∙ ap (λ below. through below (is_above a.ancestors c) v t.order) (fun_ext b.members)
      ∙ through-into (is_above a.ancestors c) v edges t.order done.nodup taken

  below_edge :
      (c u v : ℕ)
      → nat_in v (members_of u edges) ≡ true
      → is_above a.ancestors c u ≡ true
      → has a.ancestors c v ≡ true
  below_edge c u v edge above = once_pos (has a.ancestors c v) (
      subst (λ n. 0 < n)
        (sym (
          counted c v
          ∙ sym (through-into (is_above a.ancestors c) v edges t.order done.nodup taken)))
        (through_pos (λ w. members_of w edges) (is_above a.ancestors c) v u t.order
          (taken u (container-IsEnd u v edges edge)) above edge))

  below-Chain :
      (c u w n : ℕ)
      → Chain edges u w n
      → is_above a.ancestors c u ≡ true
      → is_above a.ancestors c w ≡ true
  below-Chain c _ _ _ (stay u) above = above
  below-Chain c _ _ _ (down u v w n edge rest) above =
      below-Chain c v w n rest
        (or_right (nat_beq c v) (has a.ancestors c v) (below_edge c u v edge above))

  is_above_self : (c : ℕ) → is_above a.ancestors c c ≡ true
  is_above_self c = or_left (nat_beq c c) (has a.ancestors c c) ((nat_beq_iff c c).1 refl)

  pub one_way : HasOneWay edges
  one_way c m n e f xs ys zs split same to_e to_f =
      let mark = is_above a.ancestors c in
      let v = e.member_account_set_id in
      let marked_e = below-Chain c c e.account_set_id m to_e (is_above_self c) in
      let marked_f = below-Chain c c f.account_set_id n to_f (is_above_self c) in
      let total : into mark v edges
          ≡ into mark v xs + (into mark v (e ∷ []) + (into mark v ys + into mark v (f ∷ zs))) =
        ap (into mark v) split
        ∙ into-append mark v xs (e ∷ (ys ++ (f ∷ zs)))
        ∙ omega (arith, into-append mark v ys (f ∷ zs)) in
      let one_e : into mark v (e ∷ []) ≡ 1 =
        rw (marked_e, (nat_beq_iff v v).1 refl) (omega arith) in
      let one_f : 1 ≤ into mark v (f ∷ zs) =
        rw (marked_f, (nat_beq_iff v f.member_account_set_id).1 same) (omega arith) in
      absurd (omega (arith, counted c v, once-le (has a.ancestors c v), total, one_e, one_f))

  pub one_membership : HasOneMembership edges members
  one_membership c m n e f xs ys zs split same to_e to_f =
      let account = e.account_id in
      let below = below_of c account a.ancestors in
      let marked_e = below-Chain c c e.account_set_id m to_e (is_above_self c) in
      let marked_f = below-Chain c c f.account_set_id n to_f (is_above_self c) in
      let total : below members ≡ below xs + (below (e ∷ []) + (below ys + below (f ∷ zs))) =
        ap below split
        ∙ below_of-append c account a.ancestors xs (e ∷ (ys ++ (f ∷ zs)))
        ∙ omega (arith, below_of-append c account a.ancestors ys (f ∷ zs)) in
      let one_e : below (e ∷ []) ≡ 1 =
        rw (marked_e, (nat_beq_iff account account).1 refl) (omega arith) in
      let one_f : 1 ≤ below (f ∷ zs) =
        rw (marked_f, (nat_beq_iff account f.account_id).1 same) (omega arith) in
      absurd (
        omega (
          arith,
          check_paths-le c account a.ancestors members [] a.paths a.checked,
          once-le (contains (c, account) a.paths),
          total,
          one_e,
          one_f,
        ))

-- Where the new set memberships are accepted, in the combined graph no set is, or contains, the
-- containers of two edges into one set, be they the same containers or not; and no set is, or
-- contains, the sets of two of the account members that are of one account.
pub validate_set_memberships-HasOneWay :
    (existing proposed : List SetMembership) (members : List AccountMembership)
    → validate_set_memberships existing proposed members ≡ ok tt
    → HasOneWay (existing ++ proposed) × HasOneMembership (existing ++ proposed) members
unfolding validate_set_memberships
validate_set_memberships-HasOneWay existing proposed members h =
    let edges = existing ++ proposed in
    let dag = combined existing proposed members in
    let (own, b) = combined-IsBuilt existing proposed members in
    let (t, ends, done) = traverse-IsTraversal edges own dag b in
    let a =
      check_traversal-IsAccepted dag existing proposed members t
        (rw (ends, validate_set_memberships) at h) in
    (one_way edges own dag members b t done a, one_membership edges own dag members b t done a)
