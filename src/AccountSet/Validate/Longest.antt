-- ===== src/AccountSet/Validate/Longest.antt =====
-- The depth of a set is the length of a chain down to it.
use mathlib.Core.Path.{subst}
use cala.Prelude.{
  ℕ, zero, suc, ◌+◌, ◌≡◌, ◌⊎◌, inl, inr, refl, sym, ap, ◌∙◌, true, false, none, some, List, [], ◌∷◌,
  nat_beq, nat_beq_iff, nat_eq, ltb, arith, Bool-cases, Option-cases,
}
use cala.Prelude.Map.{Map, get, get-insert_same, get-insert_ne}
use cala.AccountSet.Graph.{SetMembership}
use cala.AccountSet.Paths.{count_or_zero}
use cala.AccountSet.Walk.{nat_in}
use cala.AccountSet.Walk.Reached.{or_left, or_right}
use cala.AccountSet.Dag.{
  SetDag, node_count, children, Kahn, Traversal, traversed, panicked, out_of_fuel, max, deepen,
  visit_children, popped, traverse_from, traverse, kahn_start,
}
use cala.AccountSet.Dag.Built.{IsBuilt}
use cala.AccountSet.Validate.Acyclic.{Chain, stay, down}
use cala.AccountSet.Validate.Blame.{Chain-append}

some-ne-nothing : {k : Kahn} → none ≡ some k → ⊥
some-ne-nothing h = cc

some-eq : {k k' : Kahn} → some k ≡ some k' → k ≡ k'
some-eq h = cc

traversed-injective : {s t : Traversal} → traversed s ≡ traversed t → s ≡ t
traversed-injective h = cc

out-ne-traversed : {t : Traversal} → out_of_fuel ≡ traversed t → ⊥
out-ne-traversed h = cc

panicked-ne-traversed : {t : Traversal} → panicked ≡ traversed t → ⊥
panicked-ne-traversed h = cc

deepen-cases :
    (d c : ℕ) (m : Map ℕ ℕ)
    → (count_or_zero (get c (deepen d c m)) ≡ count_or_zero (get c m))
      ⊎ (count_or_zero (get c (deepen d c m)) ≡ d + 1)
unfolding deepen
deepen-cases d c m = elim (Option-cases (get c m)) [
  | inl fresh ↦
      let self = (nat_beq_iff c c).1 refl in
      inr (rw (fresh, deepen) (ap count_or_zero (get-insert_same c c (d + 1) m self)))
  | inr (n, old) ↦
      let self = (nat_beq_iff c c).1 refl in
      elim (Bool-cases (ltb n (d + 1))) [
        | inl less ↦
            inr (rw (old, less, deepen) (ap count_or_zero (get-insert_same c c (d + 1) m self)))
        | inr more ↦ inl (rw (old, more, deepen) (ap count_or_zero (get-insert_same c c n m self)))
      ]
]

deepen-other :
    (d c v : ℕ) (m : Map ℕ ℕ)
    → nat_beq v c ≡ false
    → count_or_zero (get v (deepen d c m)) ≡ count_or_zero (get v m)
unfolding deepen
deepen-other d c v m h = ground (
  arith,
  get-insert_ne c v (d + 1) m h,
  get-insert_ne c v (max (count_or_zero (get c m)) (d + 1)) m h,
)

-- Each depth is the length of a chain down to the set.
abbrev pub AreReal : List SetMembership → Map ℕ ℕ → Type 0
AreReal edges depths = (v : ℕ) → (u : ℕ) × Chain edges u v (count_or_zero (get v depths))

module _ (edges : List SetMembership) (own : List ℕ) (dag : SetDag)
    (b : IsBuilt edges own dag) where
  deepen-AreReal :
      (d x c : ℕ) (m : Map ℕ ℕ)
      → ((u : ℕ) × Chain edges u x d)
      → nat_in c (children dag x) ≡ true
      → AreReal edges m
      → AreReal edges (deepen d c m)
  deepen-AreReal d x c m (u, chain) child real v = elim (Bool-cases (nat_beq v c)) [
    | inr other ↦
        let (w, old) = real v in (w, subst (Chain edges w v) (sym (deepen-other d c v m other)) old)
    | inl same ↦
        let e = (nat_beq_iff v c).0 same in
        subst (λ y. (w : ℕ) × Chain edges w y (count_or_zero (get y (deepen d c m)))) (sym e)
          (elim (deepen-cases d c m) [
            | inl kept ↦ let (w, old) = real c in (w, subst (Chain edges w c) (sym kept) old)
            | inr grown ↦
                let edge = ap (nat_in c) (sym (b.members x)) ∙ child in
                (
                  u,
                  subst (Chain edges u c) (sym grown)
                      (Chain-append edges u x c d 1 chain (down x c c 0 edge (stay c))),
                )
          ])
  ]

  visit_children-AreReal :
      (d x : ℕ) (cs : List ℕ) (k k' : Kahn)
      → ((u : ℕ) × Chain edges u x d)
      → ((c : ℕ) → nat_in c cs ≡ true → nat_in c (children dag x) ≡ true)
      → AreReal edges k.depths
      → visit_children d cs k ≡ some k'
      → AreReal edges k'.depths
  unfolding visit_children
  visit_children-AreReal d x [] k k' chain inside real h =
      subst (λ j. AreReal edges j.depths) (some-eq h) real
  visit_children-AreReal d x (c ∷ cs) k k' chain inside real h =
      elim (Option-cases (get c k.remaining)) [
        | inl absent ↦ absurd (some-ne-nothing (rw (absent, visit_children) at h))
        | inr (degree, found) ↦
            visit_children-AreReal d x cs _ k' chain
              (λ y i. inside y (or_right (nat_beq y c) (nat_in y cs) i))
              (deepen-AreReal d x c k.depths chain
                (inside c (or_left (nat_beq c c) (nat_in c cs) ((nat_beq_iff c c).1 refl))) real)
              (rw (found, visit_children) at h)
      ]

  traverse_from-AreReal :
      (fuel : ℕ) (queue : List ℕ) (k : Kahn) (t : Traversal)
      → AreReal edges k.depths
      → traverse_from fuel dag queue k ≡ traversed t
      → AreReal edges t.depths
  unfolding traverse_from
  traverse_from-AreReal zero [] k t real h =
      subst (λ s. AreReal edges s.depths) (traversed-injective h) real
  traverse_from-AreReal (suc fuel) [] k t real h =
      subst (λ s. AreReal edges s.depths) (traversed-injective h) real
  traverse_from-AreReal zero (x ∷ queue) k t real h = absurd (out-ne-traversed h)
  traverse_from-AreReal (suc fuel) (x ∷ queue) k t real h =
      elim (Option-cases
        (visit_children (count_or_zero (get x k.depths)) (children dag x) (popped x queue k))) [
          | inl absent ↦ absurd (panicked-ne-traversed (rw (absent, traverse_from) at h))
          | inr (k', made) ↦
              traverse_from-AreReal fuel k'.queue k' t
                (visit_children-AreReal (count_or_zero (get x k.depths)) x (children dag x)
                  (popped x queue k) k' (real x) (λ c i. i) real made)
                (rw (made, traverse_from) at h)
        ]

  pub traverse-AreReal : (t : Traversal) → traverse dag ≡ traversed t → AreReal edges t.depths
  unfolding traverse
  traverse-AreReal t h =
      traverse_from-AreReal (suc (node_count dag)) (kahn_start dag).queue (kahn_start dag) t
        (λ v. (v, stay v)) h
