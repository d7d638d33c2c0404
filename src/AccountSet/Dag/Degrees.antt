-- ===== src/AccountSet/Dag/Degrees.antt =====
-- The walk of `traverse` keeps the degrees true.
use mathlib.Core.Path.{subst}
use mathlib.Core.List.{append_assoc}
use cala.Prelude.{
  ℕ, ◌+◌, ◌-◌, ◌≡◌, refl, sym, ap, ◌∙◌, ◌||◌, ◌&&◌, Bool, true, false, some, List, [], ◌∷◌, ◌++◌,
  if◌then◌else◌, nat_beq, nat_beq_iff, nat_eq, beq_refl, arith, Bool-cases, inl, inr,
}
use cala.Prelude.Map.{get, insert, get-insert_same, get-insert_ne}
use cala.AccountSet.Walk.{nat_in}
use cala.AccountSet.Walk.Reached.{IsNodup, or_left, or_right}
use cala.AccountSet.Expand.Total.{in-append, IsNodup-snoc}
use cala.AccountSet.Dag.{Kahn, deepen}

-- How often a number is in a list.
abbrev pub count : ℕ → List ℕ → ℕ
count v [] = 0
count v (x ∷ xs) = (if nat_beq v x then 1 else 0) + count v xs

or_false_and : (a b : Bool) → (a && b || false) ≡ (a && b)
or_false_and a b = ground arith

module _ (below : ℕ → List ℕ) where
  -- How many edges lead to `v` from those of some sets that are not in the order.
  abbrev pub left : ℕ → List ℕ → List ℕ → ℕ
  left v order [] = 0
  left v order (u ∷ us) = (if nat_in u order then 0 else count v (below u)) + left v order us

  left_same :
      (v x : ℕ) (order us : List ℕ)
      → nat_in x us ≡ false
      → left v (order ++ x ∷ []) us ≡ left v order us
  left_same v x order [] h = refl
  left_same v x order (u ∷ us) h =
      ground (
        arith,
        left_same v x order us,
        in-append u order (x ∷ []),
        nat_beq_iff u x,
        nat_beq_iff x u,
      )

  pub left_pop :
      (v x : ℕ) (order us : List ℕ)
      → IsNodup us
      → nat_in x us ≡ true
      → nat_in x order ≡ false
      → left v (order ++ x ∷ []) us + count v (below x) ≡ left v order us
  left_pop v x order [] n h new = absurd (cc)
  left_pop v x order (u ∷ us) n h new = elim (Bool-cases (nat_beq x u)) [
    | inl same ↦
        let e = (nat_beq_iff x u).0 same in
        let gone : nat_in x us ≡ false = ap (λ y. nat_in y us) e ∙ n.0 in
        let taken : nat_in u (order ++ x ∷ []) ≡ true =
          in-append u order (x ∷ []) ∙ or_right _ _ (or_left _ _ ((nat_beq_iff u x).1 (sym e))) in
        let fresh : nat_in u order ≡ false = ap (λ y. nat_in y order) (sym e) ∙ new in
        let edges : count v (below x) ≡ count v (below u) = ap (λ y. count v (below y)) e in
        rw (taken, fresh) (omega (arith, left_same v x order us gone, edges))
    | inr other ↦
        let later = left_pop v x order us n.1 (rw other at h) new in
        let kept : nat_in u (order ++ x ∷ []) ≡ nat_in u order =
          in-append u order (x ∷ []) ∙ ground (arith, nat_beq_iff u x, nat_beq_iff x u) in
        rw kept (omega (arith, later))
  ]

  module _ (nodes : List ℕ) where
    -- With some edges of the set taken last still to follow.
    pub record IsKahn (cs : List ℕ) (k : Kahn) : Type 0 where
      pub degrees :
          (v : ℕ)
          → nat_in v nodes ≡ true
          → get v k.remaining ≡ some (left v k.order nodes + count v cs)
      pub nodup : IsNodup (k.order ++ k.queue)
      pub ready :
          (v : ℕ)
          → nat_in v (k.order ++ k.queue)
            ≡ (nat_in v nodes && nat_beq (left v k.order nodes + count v cs) 0)

    abbrev pub visited : (c : ℕ) (k : Kahn) (degree parent_depth : ℕ) → Kahn
    visited c k degree parent_depth = record {
      remaining = insert c (degree - 1) k.remaining;
      queue = if nat_beq (degree - 1) 0 then k.queue ++ c ∷ [] else k.queue;
      order = k.order;
      depths = deepen parent_depth c k.depths;
    }

    module _ (c : ℕ) (cs : List ℕ) (k : Kahn) (parent_depth : ℕ) (node : nat_in c nodes ≡ true)
        (w : IsKahn (c ∷ cs) k) where
      abbrev degree : ℕ
      degree = left c k.order nodes + count c (c ∷ cs)

      degree_lem : degree - 1 ≡ left c k.order nodes + count c cs
      degree_lem = omega (arith, count_head)
        where
          count_head : count c (c ∷ cs) ≡ 1 + count c cs
          count_head = ground (arith, beq_refl c)

      -- The set was not ready before.
      not_ready : nat_in c (k.order ++ k.queue) ≡ false
      not_ready = w.ready c ∙ ground (arith, beq_refl c)

      pub not_taken : nat_in c k.order ≡ false
      not_taken = ground (arith, in-append c k.order k.queue, not_ready)

      count_other : (v : ℕ) → nat_beq v c ≡ false → count v (c ∷ cs) ≡ count v cs
      count_other v other = rw other (omega arith)

      visited-degrees :
          (v : ℕ)
          → nat_in v nodes ≡ true
          → get v (insert c (degree - 1) k.remaining) ≡ some (left v k.order nodes + count v cs)
      visited-degrees v here = elim (Bool-cases (nat_beq v c)) [
        | inl same ↦
            get-insert_same c v (degree - 1) k.remaining same
            ∙ ap some (
                degree_lem
                ∙ ap (λ u. left u k.order nodes + count u cs) (sym ((nat_beq_iff v c).0 same)))
        | inr other ↦
            get-insert_ne c v (degree - 1) k.remaining other
            ∙ w.degrees v here
            ∙ ap (λ n. some (left v k.order nodes + n)) (count_other v other)
      ]

      abbrev next_queue : List ℕ
      next_queue = if nat_beq (degree - 1) 0 then k.queue ++ c ∷ [] else k.queue

      visited-nodup : IsNodup (k.order ++ next_queue)
      visited-nodup = elim (Bool-cases (nat_beq (degree - 1) 0)) [
        | inl zero_now ↦ rw zero_now (
            subst IsNodup (append_assoc k.order k.queue (c ∷ []))
              (IsNodup-snoc c (k.order ++ k.queue) w.nodup not_ready))
        | inr still ↦ rw still w.nodup
      ]

      in_next :
          (v : ℕ)
          → nat_in v (k.order ++ next_queue)
            ≡ (nat_in v (k.order ++ k.queue) || (nat_beq v c && nat_beq (degree - 1) 0))
      in_next v = elim (Bool-cases (nat_beq (degree - 1) 0)) [
        | inl zero_now ↦ rw zero_now (
            ap (nat_in v) (sym (append_assoc k.order k.queue (c ∷ [])))
            ∙ in-append v (k.order ++ k.queue) (c ∷ [])
            ∙ ground arith)
        | inr still ↦ rw still (ground arith)
      ]

      visited-ready :
          (v : ℕ)
          → nat_in v (k.order ++ next_queue)
            ≡ (nat_in v nodes && nat_beq (left v k.order nodes + count v cs) 0)
      visited-ready v = in_next v ∙ (elim (Bool-cases (nat_beq v c)) [
        | inl same ↦
            let e = (nat_beq_iff v c).0 same in rw (e, not_ready, node, degree_lem, beq_refl c) refl
        | inr other ↦
            rw (other, w.ready v, count_other v other)
              (or_false_and (nat_in v nodes) (nat_beq (left v k.order nodes + count v cs) 0))
      ])

      pub IsKahn-visited : IsKahn cs (visited c k degree parent_depth)
      IsKahn-visited = record {
        degrees = visited-degrees;
        nodup = visited-nodup;
        ready = visited-ready;
      }
