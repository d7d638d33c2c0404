-- ===== src/AccountSet/Validate/Blame.antt =====
-- A cycle is put down to a proposed edge that is on one.
use mathlib.Core.Path.{subst}
use cala.Prelude.{
  ℕ, suc, ◌+◌, ◌≤◌, ◌≡◌, inl, inr, refl, sym, ap, ◌∙◌, Bool, true, false, ◌||◌, none, some, List,
  [], ◌∷◌, ◌++◌, length, nat_beq, nat_beq_iff, nat_eq, arith, Bool-cases, Option-cases, err,
}
use cala.Posting.{AccountMembership}
use cala.AccountSet.Graph.{SetMembership}
use cala.AccountSet.Walk.{nat_in}
use cala.AccountSet.Walk.Reached.{in_or, or_right}
use cala.AccountSet.Check.{membership_cycle_detected}
use cala.AccountSet.Dag.{SetDag, node_count}
use cala.AccountSet.Dag.Built.{members_of, IsBuilt}
use cala.AccountSet.Dag.Traversed.{traverse-IsTraversal, member-IsEnd}
use cala.AccountSet.Validate.{
  set_error, has_path, find_edge, combined, cycle_error, check_traversal, validate_set_memberships,
}
use cala.AccountSet.Validate.Acyclic.{Chain, stay, down, IsAcyclic, combined-IsBuilt, Chain-depth}
use cala.AccountSet.Validate.HasPath.{true-ne-false, in_single, has_path_sound, has_path_complete}

-- Is there an edge from `u` to `v`?
abbrev pub has_edge : List SetMembership → ℕ → ℕ → Bool
has_edge edges u v = nat_in v (members_of u edges)

has_edge-append :
    (xs ys : List SetMembership) (u v : ℕ)
    → has_edge (xs ++ ys) u v ≡ (has_edge xs u v || has_edge ys u v)
has_edge-append [] ys u v = refl
has_edge-append (e ∷ xs) ys u v = ground (arith, has_edge-append xs ys u v)

pub Chain-append :
    (edges : List SetMembership) (u v w m n : ℕ)
    → Chain edges u v m
    → Chain edges v w n
    → Chain edges u w (m + n)
Chain-append edges _ _ w _ n (stay u) next = subst (Chain edges u w) (omega arith) next
Chain-append edges _ _ w _ n (down u x v m edge rest) next =
    subst (Chain edges u w) (omega arith)
      (down u x w (m + n) edge (Chain-append edges x v w m n rest next))

head_edge :
    (f : SetMembership) (edges : List SetMembership)
    → has_edge (f ∷ edges) f.account_set_id f.member_account_set_id ≡ true
head_edge f edges =
    rw
      (
        (nat_beq_iff f.account_set_id f.account_set_id).1 refl,
        (nat_beq_iff f.member_account_set_id f.member_account_set_id).1 refl,
      )
      refl

only_edge :
    (f : SetMembership) (u v : ℕ)
    → has_edge (f ∷ []) u v ≡ true
    → (u ≡ f.account_set_id) × (v ≡ f.member_account_set_id)
only_edge f u v h = elim (Bool-cases (nat_beq u f.account_set_id)) [
  | inl same ↦
      ((nat_beq_iff u f.account_set_id).0 same, in_single v f.member_account_set_id (rw same at h))
  | inr other ↦ absurd (true-ne-false (sym (rw other at h)))
]

some-ne-none : {e : SetMembership} → some e ≡ none → ⊥
some-ne-none h = cc

found-injective : {e f : SetMembership} → some e ≡ some f → e ≡ f
found-injective h = cc

pub positive : (n : ℕ) → suc n ≡ 0 → ⊥
positive n h = omega arith

longer : (d n : ℕ) → d + suc n ≤ d → ⊥
longer d n h = omega arith

module _ (q : ℕ → ℕ → Bool) where
  abbrev test : SetMembership → Bool
  test e = q e.account_set_id e.member_account_set_id

  find_edge-some :
      (edges : List SetMembership) (e : SetMembership)
      → find_edge test edges ≡ some e
      → (has_edge edges e.account_set_id e.member_account_set_id ≡ true) × (test e ≡ true)
  find_edge-some [] e h = cc
  find_edge-some (f ∷ edges) e h = elim (Bool-cases (test f)) [
    | inl found ↦
        let same : f ≡ e = found-injective (rw found at h) in
        (
          subst (λ g. has_edge (f ∷ edges) g.account_set_id g.member_account_set_id ≡ true) same
              (head_edge f edges),
          subst (λ g. test g ≡ true) same found,
        )
    | inr other ↦
        let (later, passed) = find_edge-some edges e (rw other at h) in
        (has_edge-append (f ∷ []) edges _ _ ∙ or_right (has_edge (f ∷ []) _ _) _ later, passed)
  ]

  find_edge-none :
      (edges : List SetMembership) (u v : ℕ)
      → find_edge test edges ≡ none
      → has_edge edges u v ≡ true
      → q u v ≡ false
  find_edge-none [] u v h i = cc
  find_edge-none (f ∷ edges) u v h i = elim (Bool-cases (test f)) [
    | inl found ↦ absurd (some-ne-none (rw found at h))
    | inr other ↦
        elim (in_or (has_edge (f ∷ []) u v) (has_edge edges u v)
          (sym (has_edge-append (f ∷ []) edges u v) ∙ i)) [
            | inl here ↦
                let (same_u, same_v) = only_edge f u v here in
                ap (λ x. q x v) same_u ∙ ap (λ y. q f.account_set_id y) same_v ∙ other
            | inr later ↦ find_edge-none edges u v (rw other at h) later
          ]
  ]

module _ (existing proposed : List SetMembership) where
  abbrev all_edges : List SetMembership
  all_edges = existing ++ proposed

  -- Where no proposed edge is on a cycle, a cycle is one of existing edges.
  existing-Chain :
      ((u v n : ℕ) → has_edge proposed u v ≡ true → Chain all_edges v u n → ⊥)
      → (u w n m : ℕ) → Chain all_edges u w n
      → Chain all_edges w u m
      → Chain existing u w n
  existing-Chain free _ _ _ m (stay u) back = stay u
  existing-Chain free _ _ _ m (down u v w n edge rest) back =
      elim (in_or (has_edge existing u v) (has_edge proposed u v)
        (sym (has_edge-append existing proposed u v) ∙ edge)) [
          | inr new ↦ absurd (free u v (n + m) new (Chain-append all_edges v w u n m rest back))
          | inl old ↦
              let again = down u v v 0 edge (stay v) in
              down u v w n old (
                existing-Chain free v w n (m + 1) rest
                  (Chain-append all_edges w u v m 1 back again))
        ]

  -- The edge that is blamed, and how it closes a cycle.
  abbrev pub Blamed : ℕ → ℕ → Type 0
  Blamed u v = (has_edge proposed u v ≡ true) × ((n : ℕ) × Chain all_edges v u n)

  module _ (own : List ℕ) (dag : SetDag) (b : IsBuilt all_edges own dag) where
    abbrev on_cycle : ℕ → ℕ → Bool
    on_cycle u v = nat_beq u v || has_path dag v u

    on_cycle-Chain : (u v : ℕ) → on_cycle u v ≡ true → (n : ℕ) × Chain all_edges v u n
    on_cycle-Chain u v h = elim (in_or (nat_beq u v) (has_path dag v u) h) [
      | inl same ↦ (0, subst (λ w. Chain all_edges v w 0) (sym ((nat_beq_iff u v).0 same)) (stay v))
      | inr path ↦ has_path_sound all_edges own dag b u v path
    ]

    not_on_cycle :
        find_edge (test on_cycle) proposed ≡ none
        → (u v n : ℕ) → has_edge proposed u v ≡ true
        → Chain all_edges v u n
        → ⊥
    not_on_cycle missed u v n edge chain =
        let end = member-IsEnd u v all_edges (
          has_edge-append existing proposed u v
          ∙ or_right (has_edge existing u v) (has_edge proposed u v) edge) in
        true-ne-false (
          sym (
            or_right (nat_beq u v) (has_path dag v u)
              (has_path_complete all_edges own dag b u v n end chain))
          ∙ find_edge-none on_cycle proposed u v missed edge)

    cycle_error-Blamed :
        IsAcyclic existing
        → (u n : ℕ) → Chain all_edges u u (suc n)
        → (container : ℕ) × (member : ℕ) × Blamed container member
          × (cycle_error dag existing proposed
              ≡ set_error (membership_cycle_detected container member))
    unfolding cycle_error
    cycle_error-Blamed acyclic u n chain =
        elim (Option-cases (find_edge (test on_cycle) proposed)) [
          | inl missed ↦ absurd (
              positive n (
                acyclic u (suc n)
                  (existing-Chain (not_on_cycle missed) u u (suc n) (suc n) chain chain)))
          | inr (e, found) ↦
              let (edge, passed) = find_edge-some on_cycle proposed e found in
              (
                e.account_set_id,
                e.member_account_set_id,
                (edge, on_cycle-Chain e.account_set_id e.member_account_set_id passed),
                rw (found, cycle_error) refl,
              )
        ]

-- Where the existing graph has no cycle and the combined one has, the new set memberships are
-- rejected, and the error names a proposed edge that is on a cycle of the combined graph.
pub validate_set_memberships-Blamed :
    (existing proposed : List SetMembership) (members : List AccountMembership)
    → IsAcyclic existing
    → (u n : ℕ) → Chain (existing ++ proposed) u u (suc n)
    → (container : ℕ) × (member : ℕ) × Blamed existing proposed container member
      × (validate_set_memberships existing proposed members
          ≡ err (set_error (membership_cycle_detected container member)))
unfolding validate_set_memberships check_traversal
validate_set_memberships-Blamed existing proposed members acyclic u n chain =
    let edges = existing ++ proposed in
    let dag = combined existing proposed members in
    let (own, b) = combined-IsBuilt existing proposed members in
    let (t, ends, done) = traverse-IsTraversal edges own dag b in
    let (container, member, blamed, error) =
      cycle_error-Blamed existing proposed own dag b acyclic u n chain in
    (
      container,
      member,
      blamed,
      (elim (Bool-cases (nat_beq (length t.order) (node_count dag))) [
        | inl whole ↦
            let complete = (nat_beq_iff (length t.order) (node_count dag)).0 whole in
            absurd (longer _ n (Chain-depth edges own dag b t done complete u u (suc n) chain))
        | inr short ↦
            rw (ends, validate_set_memberships) (rw (short, check_traversal) (ap err error))
      ]),
    )
