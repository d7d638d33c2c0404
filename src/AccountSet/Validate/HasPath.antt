-- ===== src/AccountSet/Validate/HasPath.antt =====
-- `has_path` finds a chain of containments exactly where there is one.
use mathlib.Core.Path.{subst}
use mathlib.Core.List.{reverse, reverse-cons}
use cala.Prelude.{
  ℕ, zero, suc, ◌<◌, ◌≡◌, inl, inr, refl, sym, ap, ◌∙◌, Bool, true, false, ◌||◌, List, [], ◌∷◌,
  ◌++◌, nat_beq, nat_beq_iff, nat_eq, arith, Bool-cases,
}
use cala.Prelude.Map.{keys}
use cala.AccountSet.Graph.{SetMembership}
use cala.AccountSet.Walk.{nat_in}
use cala.AccountSet.Walk.Ends.{unseen, unseen-visit, unseen-le-length}
use cala.AccountSet.Walk.Reached.{in_cons, in_or, or_left, or_right}
use cala.AccountSet.Expand.Total.{in-append}
use cala.AccountSet.Dag.{SetDag, children, node_count}
use cala.AccountSet.Dag.Built.{is_end, contains-keys, IsBuilt}
use cala.AccountSet.Dag.Traversed.{length-keys, member-IsEnd}
use cala.AccountSet.Validate.{has_path_from, has_path}
use cala.AccountSet.Validate.Acyclic.{Chain, stay, down}

in-reverse : (x : ℕ) (xs : List ℕ) → nat_in x (reverse xs) ≡ nat_in x xs
in-reverse x [] = refl
in-reverse x (y ∷ xs) =
    ap (nat_in x) (reverse-cons y xs)
    ∙ ground (arith, in-append x (reverse xs) (y ∷ []), in-reverse x xs)

pub true-ne-false : true ≡ false → ⊥
true-ne-false h = cc

or_nothing : (a : Bool) → (a || false) ≡ true → a ≡ true
or_nothing a h = ground arith

not_cons :
    (x id : ℕ) (xs : List ℕ)
    → nat_beq id x ≡ false
    → nat_in x xs ≡ false
    → nat_in x (id ∷ xs) ≡ false
not_cons x id xs other missing = ground (arith, nat_beq_iff x id, nat_beq_iff id x)

pub in_single : (u x : ℕ) → nat_in u (x ∷ []) ≡ true → u ≡ x
in_single u x h = ground (arith, nat_beq_iff u x)

entered_lem :
    (x id : ℕ) (visited pending found : List ℕ)
    → (nat_in x visited || nat_in x (id ∷ pending)) ≡ true
    → (nat_in x (id ∷ visited) || nat_in x (found ++ pending)) ≡ true
entered_lem x id visited pending found h = ground (arith, in-append x found pending)

seen_lem :
    (x id : ℕ) (visited pending : List ℕ)
    → nat_in id visited ≡ true
    → (nat_in x visited || nat_in x (id ∷ pending)) ≡ true
    → (nat_in x visited || nat_in x pending) ≡ true
seen_lem x id visited pending seen h = elim (Bool-cases (nat_beq x id)) [
  | inl same ↦
      or_left (nat_in x visited) (nat_in x pending)
        (ap (λ y. nat_in y visited) ((nat_beq_iff x id).0 same) ∙ seen)
  | inr other ↦ rw other at h
]

module _ (edges : List SetMembership) (own : List ℕ) (dag : SetDag) (b : IsBuilt edges own dag)
    (to : ℕ) where
  abbrev Leads : List ℕ → Type 0
  Leads pending = (x : ℕ) × (n : ℕ) × (nat_in x pending ≡ true) × Chain edges x to n

  Leads-entered :
      (id : ℕ) (pending : List ℕ)
      → Leads (reverse (children dag id) ++ pending)
      → Leads (id ∷ pending)
  Leads-entered id pending (x, n, i, chain) =
      elim (in_or (nat_in x (reverse (children dag id))) (nat_in x pending)
        (sym (in-append x (reverse (children dag id)) pending) ∙ i)) [
          | inl child ↦ (
            id,
            suc n,
            or_left (nat_beq id id) (nat_in id pending) ((nat_beq_iff id id).1 refl),
            down id x to n
                (ap (nat_in x) (sym (b.members id)) ∙ sym (in-reverse x (children dag id)) ∙ child)
                chain,
          )
          | inr later ↦ (x, n, or_right (nat_beq x id) (nat_in x pending) later, chain)
        ]

  Leads-later : (id : ℕ) (pending : List ℕ) → Leads pending → Leads (id ∷ pending)
  Leads-later id pending (x, n, i, chain) =
      (x, n, or_right (nat_beq x id) (nat_in x pending) i, chain)

  Leads-now : (id : ℕ) (pending : List ℕ) → nat_beq id to ≡ true → Leads (id ∷ pending)
  Leads-now id pending same = (
    id,
    0,
    or_left (nat_beq id id) (nat_in id pending) ((nat_beq_iff id id).1 refl),
    subst (λ w. Chain edges id w 0) ((nat_beq_iff id to).0 same) (stay id),
  )

  has_path_from_sound :
      (fuel : ℕ) (visited pending : List ℕ)
      → has_path_from fuel dag to visited pending ≡ true
      → Leads pending
  unfolding has_path_from
  has_path_from_sound zero visited [] h = absurd (true-ne-false (sym h))
  has_path_from_sound (suc fuel) visited [] h = absurd (true-ne-false (sym h))
  has_path_from_sound zero visited (id ∷ pending) h = elim (Bool-cases (nat_beq id to)) [
    | inl same ↦ Leads-now id pending same
    | inr other ↦
        Leads-later id pending
          (has_path_from_sound zero visited pending (rw (other, has_path_from) at h))
  ]
  has_path_from_sound (suc fuel) visited (id ∷ pending) h = elim (Bool-cases (nat_beq id to)) [
    | inl same ↦ Leads-now id pending same
    | inr other ↦ elim (Bool-cases (nat_in id visited)) [
      | inl seen ↦
          Leads-later id pending
            (has_path_from_sound (suc fuel) visited pending (rw (other, seen, has_path_from) at h))
      | inr new ↦ Leads-entered id pending (
          has_path_from_sound fuel (id ∷ visited) (reverse (children dag id) ++ pending)
            (rw (other, new, has_path_from) at h))
    ]
  ]

  pub has_path_sound : (from : ℕ) → has_path dag from to ≡ true → (n : ℕ) × Chain edges from to n
  unfolding has_path
  has_path_sound from h =
      let (x, n, i, chain) = has_path_from_sound (suc (node_count dag)) [] (from ∷ []) h in
      (n, subst (λ u. Chain edges u to n) (in_single x from i) chain)

  -- Sets that were visited lead to visited or pending ones.
  abbrev Closed : List ℕ → List ℕ → Type 0
  Closed visited pending =
      (u v : ℕ)
      → nat_in u visited ≡ true
      → nat_in v (children dag u) ≡ true
      → (nat_in v visited || nat_in v pending) ≡ true

  -- A closed list of sets, with the visited and the pending ones, and without the one looked for.
  abbrev Missed : List ℕ → List ℕ → Type 0
  Missed visited pending =
      (all : List ℕ) × ((x : ℕ)
        → (nat_in x visited || nat_in x pending) ≡ true
        → nat_in x all ≡ true)
      × (nat_in to all ≡ false)
      × ((u v : ℕ) → nat_in u all ≡ true → nat_in v (children dag u) ≡ true → nat_in v all ≡ true)

  Missed-cons :
      (id : ℕ) (visited rest pending : List ℕ)
      → ((x : ℕ)
          → (nat_in x visited || nat_in x (id ∷ pending)) ≡ true
          → (nat_in x rest || nat_in x pending) ≡ true)
      → Missed rest pending
      → Missed visited (id ∷ pending)
  Missed-cons id visited rest pending h (all, more, missing, closed) =
      (all, (λ x i. more x (h x i)), missing, closed)

  Missed-entered :
      (id : ℕ) (visited pending : List ℕ)
      → Missed (id ∷ visited) (reverse (children dag id) ++ pending)
      → Missed visited (id ∷ pending)
  Missed-entered id visited pending (all, more, missing, closed) = (
    all,
    (λ x i. more x (entered_lem x id visited pending (reverse (children dag id)) i)),
    missing,
    closed,
  )

  nodes_lem : (id v : ℕ) → nat_in v (children dag id) ≡ true → nat_in v (keys dag.indegree) ≡ true
  nodes_lem id v i =
      contains-keys v dag.indegree
      ∙ b.known v
      ∙ or_left (is_end v edges) (nat_in v own)
          (member-IsEnd id v edges (ap (nat_in v) (sym (b.members id)) ∙ i))

  has_path_from_complete :
      (fuel : ℕ) (visited pending : List ℕ)
      → unseen visited (keys dag.indegree) < fuel
      → ((x : ℕ) → nat_in x pending ≡ true → nat_in x (keys dag.indegree) ≡ true)
      → nat_in to visited ≡ false
      → Closed visited pending
      → has_path_from fuel dag to visited pending ≡ false
      → Missed visited pending
  unfolding has_path_from
  has_path_from_complete zero visited pending enough nodes missing closed h = absurd (omega arith)
  has_path_from_complete (suc fuel) visited [] enough nodes missing closed h = (
    visited,
    (λ x i. or_nothing (nat_in x visited) i),
    missing,
    (λ u v i e. or_nothing (nat_in v visited) (closed u v i e)),
  )
  has_path_from_complete (suc fuel) visited (id ∷ pending) enough nodes missing closed h =
      elim (Bool-cases (nat_beq id to)) [
        | inl same ↦ absurd (true-ne-false (rw (same, has_path_from) at h))
        | inr other ↦ elim (Bool-cases (nat_in id visited)) [
          | inl seen ↦
              Missed-cons id visited visited pending (λ x i. seen_lem x id visited pending seen i)
                (has_path_from_complete (suc fuel) visited pending enough
                  (λ x i. nodes x (or_right (nat_beq x id) (nat_in x pending) i)) missing
                  (λ u v i e. seen_lem v id visited pending seen (closed u v i e))
                  (rw (other, seen, has_path_from) at h))
          | inr new ↦
              let node =
                nodes id
                  (or_left (nat_beq id id) (nat_in id pending) ((nat_beq_iff id id).1 refl)) in
              Missed-entered id visited pending (
                has_path_from_complete fuel (id ∷ visited) (reverse (children dag id) ++ pending)
                  (omega (arith, unseen-visit visited (keys dag.indegree) id node new))
                  (λ x i.
                    elim (in_or (nat_in x (reverse (children dag id))) (nat_in x pending)
                      (sym (in-append x (reverse (children dag id)) pending) ∙ i)) [
                        | inl child ↦ nodes_lem id x (sym (in-reverse x (children dag id)) ∙ child)
                        | inr later ↦ nodes x (or_right (nat_beq x id) (nat_in x pending) later)
                      ])
                  (not_cons to id visited other missing)
                  (λ u v i e. elim (in_cons u id visited i) [
                    | inl now ↦ or_right (nat_in v (id ∷ visited)) _ (
                        in-append v (reverse (children dag id)) pending
                        ∙ or_left (nat_in v (reverse (children dag id))) (nat_in v pending) (
                            in-reverse v (children dag id)
                            ∙ ap (λ w. nat_in v (children dag w)) (sym now)
                            ∙ e))
                    | inr before ↦
                        entered_lem v id visited pending (reverse (children dag id))
                          (closed u v before e)
                  ])
                  (rw (other, new, has_path_from) at h))
        ]
      ]

  stays :
      (all : List ℕ)
      → ((u v : ℕ) → nat_in u all ≡ true → nat_in v (children dag u) ≡ true → nat_in v all ≡ true)
      → (u w n : ℕ) → Chain edges u w n
      → nat_in u all ≡ true
      → nat_in w all ≡ true
  stays all closed _ _ _ (stay u) i = i
  stays all closed _ _ _ (down u v w n edge rest) i =
      stays all closed v w n rest (closed u v i (ap (nat_in v) (b.members u) ∙ edge))

  pub has_path_complete :
      (from n : ℕ) → is_end from edges ≡ true → Chain edges from to n → has_path dag from to ≡ true
  unfolding has_path
  has_path_complete from n end chain = elim (Bool-cases (has_path dag from to)) [
    | inl found ↦ found
    | inr lost ↦
        let (all, more, missing, closed) =
          has_path_from_complete (suc (node_count dag)) [] (from ∷ [])
            (omega (arith, unseen-le-length [] (keys dag.indegree), length-keys dag.indegree))
            (λ x i.
              ap (λ y. nat_in y (keys dag.indegree)) (in_single x from i)
              ∙ contains-keys from dag.indegree
              ∙ b.known from
              ∙ or_left (is_end from edges) (nat_in from own) end)
            refl (λ u v i e. absurd (true-ne-false (sym i))) lost in
        let here = more from (or_left (nat_beq from from) false ((nat_beq_iff from from).1 refl)) in
        absurd (true-ne-false (sym (stays all closed from to n chain here) ∙ missing))
  ]
