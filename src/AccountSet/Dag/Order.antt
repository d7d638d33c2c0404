-- ===== src/AccountSet/Dag/Order.antt =====
-- `traverse` ends, with a topological order; a set that is left out has a container left out.
use mathlib.Core.Path.{subst}
use mathlib.Core.List.{append-nil, append_assoc}
use cala.Prelude.{
  ℕ, zero, suc, ◌+◌, ◌<◌, ◌≤◌, ◌≡◌, ◌⊎◌, refl, sym, ap, ◌∙◌, ◌&&◌, Bool, true, false, some, List,
  [], ◌∷◌, ◌++◌, nat_beq, nat_beq_iff, nat_eq, beq_refl, arith, Bool-cases, inl, inr, and_parts,
}
use cala.Prelude.Map.{Map, get, get-insert_ne}
use cala.AccountSet.Paths.{count_or_zero}
use cala.AccountSet.Walk.{nat_in}
use cala.AccountSet.Walk.Ends.{unseen, unseen-visit}
use cala.AccountSet.Walk.Reached.{IsNodup, in_or, in_cons, or_left, or_right}
use cala.AccountSet.Expand.Total.{in-append}
use cala.AccountSet.Paths.Counted.{unseen_snoc}
use cala.AccountSet.Dag.{
  SetDag, Kahn, Traversal, traversed, children, visit_child, visit_children, popped, deepen,
  traverse_from, max,
}
use cala.AccountSet.Dag.Degrees.{count, left, left_pop, IsKahn, visited, IsKahn-visited, not_taken}

pub not_before : (x : ℕ) (xs ys : List ℕ) → IsNodup (xs ++ x ∷ ys) → nat_in x xs ≡ false
not_before x [] ys n = refl
not_before x (y ∷ xs) ys n =
    ground (arith, not_before x xs ys, in-append y xs (x ∷ ys), nat_beq_iff x y, beq_refl y)

pub count_pos : (v : ℕ) (xs : List ℕ) → nat_in v xs ≡ true → 0 < count v xs
count_pos v [] h = cc
count_pos v (x ∷ xs) h = ground (arith, count_pos v xs)

count_zero : (v : ℕ) (xs : List ℕ) → nat_in v xs ≡ false → count v xs ≡ 0
count_zero v [] h = refl
count_zero v (x ∷ xs) h = ground (arith, count_zero v xs)

positive : (a b : ℕ) → 0 < a → a + b ≡ 0 → ⊥
positive a b h e = omega arith

module _ (below : ℕ → List ℕ) where
  left_zero :
      (v u : ℕ) (order us : List ℕ)
      → left below v order us ≡ 0
      → nat_in u us ≡ true
      → nat_in v (below u) ≡ true
      → nat_in u order ≡ true
  left_zero v u order [] z h e = cc
  left_zero v u order (w ∷ us) z h e = elim (in_cons u w us h) [
    | inl same ↦ elim (Bool-cases (nat_in u order)) [
      | inl taken ↦ taken
      | inr fresh ↦
          let free : nat_in w order ≡ false = ap (λ y. nat_in y order) (sym same) ∙ fresh in
          let some_edge : 0 < count v (below w) =
            subst (λ y. 0 < count v (below y)) same (count_pos v (below u) e) in
          absurd (positive (count v (below w)) (left below v order us) some_edge (rw free at z))
    ]
    | inr later ↦ left_zero v u order us (omega (arith, z)) later e
  ]

  later_stuck :
      (v : ℕ) (order : List ℕ) (w : ℕ) (us : List ℕ)
      → (u : ℕ) × (nat_in u us ≡ true) × (nat_in u order ≡ false) × (nat_in v (below u) ≡ true)
      → (u : ℕ) × (nat_in u (w ∷ us) ≡ true)
        × (nat_in u order ≡ false)
        × (nat_in v (below u) ≡ true)
  later_stuck v order w us (u, here, fresh, edge) = (u, or_right _ _ here, fresh, edge)

  left_stuck :
      (v : ℕ) (order us : List ℕ)
      → 0 < left below v order us
      → (u : ℕ) × (nat_in u us ≡ true) × (nat_in u order ≡ false) × (nat_in v (below u) ≡ true)
  left_stuck v order [] h = absurd (omega arith)
  left_stuck v order (u ∷ us) h = elim (Bool-cases (nat_in u order)) [
    | inl taken ↦ later_stuck v order u us (left_stuck v order us (omega (arith, (rw taken at h))))
    | inr fresh ↦ elim (Bool-cases (nat_in v (below u))) [
      | inl edge ↦ (u, or_left _ _ (beq_refl u), fresh, edge)
      | inr apart ↦
          let none_here : count v (below u) ≡ 0 = count_zero v (below u) apart in
          later_stuck v order u us (left_stuck v order us (omega (arith, (rw fresh at h))))
    ]
  ]

  -- Each set of the list comes after the sets of `nodes` that it is below.
  abbrev pub IsTopological : List ℕ → List ℕ → List ℕ → Type 0
  IsTopological nodes past [] = Unit
  IsTopological nodes past (x ∷ xs) =
      ((u : ℕ) → nat_in u nodes ≡ true → nat_in x (below u) ≡ true → nat_in u past ≡ true)
      × IsTopological nodes (past ++ x ∷ []) xs

  IsTopological-snoc :
      (nodes past : List ℕ) (x : ℕ) (xs : List ℕ)
      → IsTopological nodes past xs
      → ((u : ℕ) → nat_in u nodes ≡ true → nat_in x (below u) ≡ true → nat_in u (past ++ xs) ≡ true)
      → IsTopological nodes past (xs ++ x ∷ [])
  IsTopological-snoc nodes past x [] t h =
      ((λ u n e. ap (nat_in u) (sym (append-nil past)) ∙ h u n e), tt)
  IsTopological-snoc nodes past x (y ∷ xs) t h = (
    t.0,
    IsTopological-snoc nodes (past ++ y ∷ []) x xs t.1
        (λ u n e. ap (nat_in u) (append_assoc past (y ∷ []) xs) ∙ h u n e),
  )

deepen_ne :
    (depth c u : ℕ) (m : Map ℕ ℕ)
    → nat_beq u c ≡ false
    → count_or_zero (get u (deepen depth c m)) ≡ count_or_zero (get u m)
unfolding deepen
deepen_ne depth c u m h = ground (
  arith,
  get-insert_ne c u (depth + 1) m h,
  get-insert_ne c u (max (count_or_zero (get c m)) (depth + 1)) m h,
)

deepen_same : (depth c : ℕ) (m : Map ℕ ℕ) → depth < count_or_zero (get c (deepen depth c m))
unfolding deepen
deepen_same depth c m = ground (arith, beq_refl c)

deepen_le_same :
    (depth c : ℕ) (m : Map ℕ ℕ) → count_or_zero (get c m) ≤ count_or_zero (get c (deepen depth c m))
unfolding deepen
deepen_le_same depth c m = ground (arith, beq_refl c)

deepen-le :
    (depth c v : ℕ) (m : Map ℕ ℕ)
    → count_or_zero (get v m) ≤ count_or_zero (get v (deepen depth c m))
unfolding deepen
deepen-le depth c v m = elim (Bool-cases (nat_beq v c)) [
  | inl same ↦ rw ((nat_beq_iff v c).0 same) (deepen_le_same depth c m)
  | inr other ↦ omega (arith, deepen_ne depth c v m other)
]

apart : (u c : ℕ) (xs : List ℕ) → nat_in u xs ≡ true → nat_in c xs ≡ false → nat_beq u c ≡ false
apart u c xs h k = elim (Bool-cases (nat_beq u c)) [
  | inl same ↦ absurd (cc (sym h ∙ ap (λ y. nat_in y xs) ((nat_beq_iff u c).0 same) ∙ k))
  | inr other ↦ other
]

some-injective : {X : Type 0} {x y : X} → some x ≡ some y → x ≡ y
some-injective h = cc

still_left : (n : ℕ) (b : Bool) → b ≡ true → (b && nat_beq (n + 0) 0) ≡ false → 0 < n
still_left n b h e = ground arith

-- What a traversal is to be: of the nodes, each at most once, each after the sets that it is below;
-- a node that is left out is below one that is left out; and each has a depth less than those below.
pub record IsTraversal (below : ℕ → List ℕ) (nodes order : List ℕ) (depths : Map ℕ ℕ) : Type 0 where
  pub nodup : IsNodup order
  pub own : (v : ℕ) → nat_in v order ≡ true → nat_in v nodes ≡ true
  pub sorted : IsTopological below nodes [] order
  pub stuck :
      (v : ℕ)
      → nat_in v nodes ≡ true
      → nat_in v order ≡ false
      → (u : ℕ) × (nat_in u nodes ≡ true) × (nat_in u order ≡ false) × (nat_in v (below u) ≡ true)
  pub deeper :
      (u v : ℕ)
      → nat_in u order ≡ true
      → nat_in v (below u) ≡ true
      → count_or_zero (get u depths) < count_or_zero (get v depths)

module _ (dag : SetDag) (nodes : List ℕ) (distinct : IsNodup nodes)
    (closed : (u v : ℕ) → nat_in v (children dag u) ≡ true → nat_in v nodes ≡ true) where
  abbrev pub below : ℕ → List ℕ
  below = children dag

  visit_child-eq :
      (c : ℕ) (cs : List ℕ) (k : Kahn) (depth : ℕ)
      → nat_in c nodes ≡ true
      → IsKahn below nodes (c ∷ cs) k
      → visit_child depth c k
        ≡ some (visited below nodes c k (left below c k.order nodes + count c (c ∷ cs)) depth)
  unfolding visit_child
  visit_child-eq c cs k depth node w = rw (w.degrees c node, visit_child) refl

  visit_children-eq :
      (cs : List ℕ) (k : Kahn) (depth : ℕ)
      → ((v : ℕ) → nat_in v cs ≡ true → nat_in v nodes ≡ true)
      → IsKahn below nodes cs k
      → (k' : Kahn) × (visit_children depth cs k ≡ some k')
        × IsKahn below nodes [] k'
        × (k'.order ≡ k.order)
  unfolding visit_children
  visit_children-eq [] k depth inside w = (k, refl, w, refl)
  visit_children-eq (c ∷ cs) k depth inside w =
      let node = inside c (or_left _ _ (beq_refl c)) in
      let next = visited below nodes c k (left below c k.order nodes + count c (c ∷ cs)) depth in
      let (k', made, w', same) =
        visit_children-eq cs next depth (λ v h. inside v (or_right _ _ h))
          (IsKahn-visited below nodes c cs k depth node w) in
      (k', rw (visit_child-eq c cs k depth node w, visit_children) made, w', same)

  abbrev depth_of : Kahn → ℕ → ℕ
  depth_of k u = count_or_zero (get u k.depths)

  -- Each set taken is less deep than those below it, but for some below the one taken last.
  record IsDeep (x : ℕ) (cs : List ℕ) (k : Kahn) : Type 0 where
    deep :
        (u v : ℕ)
        → nat_in u k.order ≡ true
        → nat_in v (below u) ≡ true
        → ((u ≡ x) × (nat_in v cs ≡ true)) ⊎ (depth_of k u < depth_of k v)

  IsDeep-visited :
      (x c : ℕ) (cs : List ℕ) (k : Kahn) (degree : ℕ)
      → nat_in x k.order ≡ true
      → nat_in c k.order ≡ false
      → IsDeep x (c ∷ cs) k
      → IsDeep x cs (visited below nodes c k degree (depth_of k x))
  IsDeep-visited x c cs k degree taken fresh d = record {
    deep = λ u v here edge.
        let kept : nat_beq u c ≡ false = apart u c k.order here fresh in
        let same_u = deepen_ne (depth_of k x) c u k.depths kept in
        elim (d.deep u v here edge) [
          | inr less ↦ inr (omega (arith, same_u, deepen-le (depth_of k x) c v k.depths))
          | inl (last, pending) ↦ elim (in_cons v c cs pending) [
            | inl now ↦ inr (
                rw now (
                  omega
                    (arith, same_u, deepen_same (depth_of k x) c k.depths, ap (depth_of k) last)))
            | inr later ↦ inl (last, later)
          ]
        ];
  }

  visit_children-IsDeep :
      (x : ℕ) (cs : List ℕ) (k k' : Kahn) (depth : ℕ)
      → nat_in x k.order ≡ true
      → depth_of k x ≡ depth
      → ((v : ℕ) → nat_in v cs ≡ true → nat_in v nodes ≡ true)
      → IsKahn below nodes cs k
      → IsDeep x cs k
      → visit_children depth cs k ≡ some k'
      → IsDeep x [] k'
  unfolding visit_children
  visit_children-IsDeep x [] k k' depth taken e inside w d made =
      subst (IsDeep x []) (some-injective made) d
  visit_children-IsDeep x (c ∷ cs) k k' depth taken e inside w d made =
      let node = inside c (or_left _ _ (beq_refl c)) in
      let degree = left below c k.order nodes + count c (c ∷ cs) in
      let next = visited below nodes c k degree depth in
      let fresh = not_taken below nodes c cs k depth node w in
      let kept : nat_beq x c ≡ false = apart x c k.order taken fresh in
      visit_children-IsDeep x cs next k' depth taken (deepen_ne depth c x k.depths kept ∙ e)
        (λ v h. inside v (or_right _ _ h)) (IsKahn-visited below nodes c cs k depth node w)
        (subst (λ n. IsDeep x cs (visited below nodes c k degree n)) e
          (IsDeep-visited x c cs k degree taken fresh d))
        (rw (visit_child-eq c cs k depth node w, visit_children) at made)

  -- What holds before each round.
  pub record IsRound (k : Kahn) : Type 0 where
    pub kahn : IsKahn below nodes [] k
    pub sorted : IsTopological below nodes [] k.order
    pub deeper :
        (u v : ℕ)
        → nat_in u k.order ≡ true
        → nat_in v (below u) ≡ true
        → depth_of k u < depth_of k v

  module _ (x : ℕ) (queue : List ℕ) (k : Kahn) (head : k.queue ≡ x ∷ queue) (r : IsRound k) where
    waits : nat_in x (k.order ++ k.queue) ≡ true
    waits = rw head (in-append x k.order (x ∷ queue) ∙ or_right _ _ (or_left _ _ (beq_refl x)))

    ready_now : (nat_in x nodes ≡ true) × (nat_beq (left below x k.order nodes + 0) 0 ≡ true)
    ready_now = and_parts _ _ (sym (r.kahn.ready x) ∙ waits)

    is_node : nat_in x nodes ≡ true
    is_node = ready_now.0

    fresh : nat_in x k.order ≡ false
    fresh = not_before x k.order queue (subst (λ q. IsNodup (k.order ++ q)) head r.kahn.nodup)

    pop_left :
        (v : ℕ)
        → left below v k.order nodes + 0
          ≡ left below v (k.order ++ x ∷ []) nodes + count v (below x)
    pop_left v = omega (arith, left_pop below v x k.order nodes distinct is_node fresh)

    same_list : k.order ++ k.queue ≡ (k.order ++ x ∷ []) ++ queue
    same_list = rw head (sym (append_assoc k.order (x ∷ []) queue))

    popped-IsKahn : IsKahn below nodes (below x) (popped x queue k)
    popped-IsKahn = record {
      degrees = λ v here. r.kahn.degrees v here ∙ ap some (pop_left v);
      nodup = subst IsNodup same_list r.kahn.nodup;
      ready = λ v.
          ap (nat_in v) (sym same_list)
          ∙ r.kahn.ready v
          ∙ ap (λ n. nat_in v nodes && nat_beq n 0) (pop_left v);
    }

    popped-IsDeep : IsDeep x (below x) (popped x queue k)
    popped-IsDeep = record {
      deep = λ u v here edge.
          elim (in_or (nat_in u k.order) _ (sym (in-append u k.order (x ∷ [])) ∙ here)) [
            | inl old ↦ inr (r.deeper u v old edge)
            | inr now ↦ elim (in_cons u x [] now) [
              | inl same ↦ inl (same, ap (λ y. nat_in v (below y)) (sym same) ∙ edge)
              | inr nothing ↦ absurd (cc nothing)
            ]
          ];
    }

    next-IsRound :
        (k' : Kahn) × (visit_children (depth_of k x) (below x) (popped x queue k) ≡ some k')
        × IsRound k'
        × (k'.order ≡ k.order ++ x ∷ [])
    next-IsRound =
        let (k', made, w, same) =
          visit_children-eq (below x) (popped x queue k) (depth_of k x) (closed x) popped-IsKahn in
        let zero_left : left below x k.order nodes ≡ 0 =
          omega (arith, (nat_beq_iff _ 0).0 ready_now.1) in
        (
          k',
          made,
          record {
            kahn = w;
            sorted = subst (IsTopological below nodes []) (sym same) (
                IsTopological-snoc below nodes [] x k.order r.sorted
                  (λ u n e. left_zero below x u k.order nodes zero_left n e));
            deeper = λ u v here edge.
                let d =
                  visit_children-IsDeep x (below x) (popped x queue k) k' (depth_of k x)
                    (in-append x k.order (x ∷ []) ∙ or_right _ _ (or_left _ _ (beq_refl x))) refl
                    (closed x) popped-IsKahn popped-IsDeep made in
                elim (d.deep u v here edge) [
                  | inl (_, nothing) ↦ absurd (cc nothing)
                  | inr less ↦ less
                ];
          },
          same,
        )

  finished : (k : Kahn) → k.queue ≡ [] → IsRound k → IsTraversal below nodes k.order k.depths
  finished k empty r =
      let all : k.order ++ k.queue ≡ k.order = rw empty (append-nil k.order) in
      let ready = λ (v : ℕ). ap (nat_in v) (sym all) ∙ r.kahn.ready v in
      record {
        nodup = subst IsNodup all r.kahn.nodup;
        own = λ v h. (and_parts _ _ (sym (ready v) ∙ h)).0;
        sorted = r.sorted;
        deeper = r.deeper;
        stuck = λ v n h.
            left_stuck below v k.order nodes
              (still_left (left below v k.order nodes) (nat_in v nodes) n (sym (ready v) ∙ h));
      }

  pub traverse_from-IsTraversal :
      (fuel : ℕ) (queue : List ℕ) (k : Kahn)
      → k.queue ≡ queue
      → IsRound k
      → unseen k.order nodes < fuel
      → (t : Traversal) × (traverse_from fuel dag queue k ≡ traversed t)
        × IsTraversal below nodes t.order t.depths
  unfolding traverse_from
  traverse_from-IsTraversal zero queue k head r enough = absurd (omega arith)
  traverse_from-IsTraversal (suc fuel) [] k head r enough =
      (record { order = k.order; depths = k.depths }, refl, finished k head r)
  traverse_from-IsTraversal (suc fuel) (x ∷ queue) k head r enough =
      let (k', made, r', same) = next-IsRound x queue k head r in
      let fewer : unseen k'.order nodes < fuel = rw same (
        omega (
          arith,
          unseen_snoc k.order nodes x,
          unseen-visit k.order nodes x (is_node x queue k head r) (fresh x queue k head r),
        )) in
      let (t, ends, done) = traverse_from-IsTraversal fuel k'.queue k' refl r' fewer in
      (t, rw (made, traverse_from) ends, done)
