-- ===== src/AccountSet/Validate/Ancestors.antt =====
-- What the loops of `validate_set_memberships` collect: each container of a set, once.
use mathlib.Core.Path.{subst}
use mathlib.Core.List.{append-nil, append_assoc}
use cala.Prelude.{
  ℕ, ◌+◌, ◌≡◌, inl, inr, refl, sym, ap, ◌∙◌, Bool, true, false, ◌||◌, any, List, [], ◌∷◌, ◌++◌,
  if◌then◌else◌, nat_beq, nat_beq_iff, nat_eq, arith, Bool-cases, ok, err, >>=-eq-ok, ok-injective,
  list_or_empty,
}
use cala.Prelude.Map.{Map, get, insert, get-insert_same, get-insert_ne}
use cala.Types.{AccountSetId}
use cala.AccountSet.Walk.{nat_in}
use cala.AccountSet.Walk.Reached.{IsNodup, in_or, or_left, or_right}
use cala.AccountSet.Expand.Total.{in-append}
use cala.AccountSet.Dag.{SetDag, children}
use cala.AccountSet.Dag.Degrees.{count}
use cala.AccountSet.Dag.Order.{IsTopological, not_before}
use cala.AccountSet.Validate.{Checked, insert_id, extend_ids, contribute, collect_ancestors}

abbrev Ancestors : Type 0
Ancestors = Map AccountSetId (List AccountSetId)

-- Is `c` among the ancestors of `v`?
abbrev pub has : Map AccountSetId (List AccountSetId) → ℕ → ℕ → Bool
has ancestors c v = nat_in c (list_or_empty (get v ancestors))

-- Or the same set?
abbrev pub is_above : Map AccountSetId (List AccountSetId) → ℕ → ℕ → Bool
is_above ancestors c v = nat_beq c v || has ancestors c v

abbrev pub once : Bool → ℕ
once b = if b then 1 else 0

insert_id-in : (c x : ℕ) (ids : List ℕ) → nat_in c (insert_id x ids) ≡ (nat_beq c x || nat_in c ids)
insert_id-in c x ids = elim (Bool-cases (nat_in x ids)) [
  | inl old ↦ elim (Bool-cases (nat_beq c x)) [
    | inl same ↦ rw (old, same) (ap (λ y. nat_in y ids) ((nat_beq_iff c x).0 same) ∙ old)
    | inr other ↦ rw (old, other) refl
  ]
  | inr new ↦ rw new refl
]

extend_ids-in :
    (c : ℕ) (ids more : List ℕ) → nat_in c (extend_ids ids more) ≡ (nat_in c ids || nat_in c more)
extend_ids-in c ids [] = ground arith
extend_ids-in c ids (x ∷ more) =
    extend_ids-in c (insert_id x ids) more ∙ ground (arith, insert_id-in c x ids)

apart_lem :
    (own C : List ℕ) (c : ℕ)
    → any (λ id. nat_in id own) C ≡ false
    → nat_in c C ≡ true
    → nat_in c own ≡ false
apart_lem own [] c h i = cc
apart_lem own (x ∷ C) c h i = ground (arith, apart_lem own C c, nat_beq_iff c x)

pub err-ne-made : {A : Type 0} {a : A} → (e : _) → ◌≡◌ {A = Checked A} (err e) (ok a) → ⊥
err-ne-made e h = cc

join_lem : (a b : Bool) → (b ≡ true → a ≡ false) → once (a || b) ≡ once a + once b
join_lem true true h = absurd (cc (h refl))
join_lem true false h = refl
join_lem false b h = omega arith

module _ (C : List ℕ) (c v : ℕ) where
  abbrev gained : List ℕ → ℕ
  gained cs = if nat_in c C then count v cs else 0

  gained_cons :
      (child : ℕ) (cs : List ℕ)
      → gained (child ∷ cs) ≡ (if nat_beq v child then once (nat_in c C) else 0) + gained cs
  gained_cons child cs = ground arith

  extended :
      (child : ℕ) (ancestors : Ancestors)
      → any (λ id. nat_in id (list_or_empty (get child ancestors))) C ≡ false
      → once (has (insert child (extend_ids (list_or_empty (get child ancestors)) C) ancestors) c v)
        ≡ once (has ancestors c v) + (if nat_beq v child then once (nat_in c C) else 0)
  extended child ancestors apart = elim (Bool-cases (nat_beq v child)) [
    | inr other ↦
        let own = list_or_empty (get child ancestors) in
        ap (λ o. once (nat_in c (list_or_empty o)))
          (get-insert_ne child v (extend_ids own C) ancestors other)
        ∙ rw other (omega arith)
    | inl same ↦
        let own = list_or_empty (get child ancestors) in
        let e = (nat_beq_iff v child).0 same in
        ap (λ o. once (nat_in c (list_or_empty o)))
          (get-insert_same child v (extend_ids own C) ancestors same)
        ∙ ap once (extend_ids-in c own C)
        ∙ join_lem (nat_in c own) (nat_in c C) (apart_lem own C c apart)
        ∙ ap (λ y. once (has ancestors c y) + once (nat_in c C)) (sym e)
        ∙ ap (λ b. once (has ancestors c v) + (if b then once (nat_in c C) else 0)) (sym same)
  ]

  -- The contribution reaches each child once.
  contribute-once :
      (cs : List ℕ) (ancestors next : Ancestors)
      → contribute C cs ancestors ≡ ok next
      → once (has next c v) ≡ once (has ancestors c v) + gained cs
  unfolding contribute
  contribute-once [] ancestors next h =
      subst (λ a. once (has a c v) ≡ once (has ancestors c v) + gained []) (ok-injective h)
        (ground arith)
  contribute-once (child ∷ cs) ancestors next h =
      let own = list_or_empty (get child ancestors) in
      elim (Bool-cases (any (λ id. nat_in id own) C)) [
        | inl overlap ↦ absurd (err-ne-made _ (rw (overlap, contribute) at h))
        | inr apart ↦ omega (
          arith,
          contribute-once cs (insert child (extend_ids own C) ancestors) next
              (rw (apart, contribute) at h),
          extended child ancestors apart,
          gained_cons child cs,
        )
      ]

module _ (below : ℕ → List ℕ) where
  -- How many edges lead to `v` from those of some sets that are marked.
  abbrev pub through : (ℕ → Bool) → ℕ → List ℕ → ℕ
  through mark v [] = 0
  through mark v (u ∷ us) = (if mark u then count v (below u) else 0) + through mark v us

  through_snoc :
      (mark : ℕ → Bool) (v x : ℕ) (us : List ℕ)
      → through mark v (us ++ x ∷ [])
        ≡ through mark v us + (if mark x then count v (below x) else 0)
  through_snoc mark v x [] = omega arith
  through_snoc mark v x (u ∷ us) = omega (arith, through_snoc mark v x us)

  through_same :
      (mark mark' : ℕ → Bool) (v : ℕ) (us : List ℕ)
      → ((u : ℕ) → nat_in u us ≡ true → mark u ≡ mark' u)
      → through mark v us ≡ through mark' v us
  through_same mark mark' v [] h = refl
  through_same mark mark' v (u ∷ us) h =
      let here = h u (or_left (nat_beq u u) (nat_in u us) ((nat_beq_iff u u).1 refl)) in
      rw here (
        omega (
          arith,
          through_same mark mark' v us (λ w i. h w (or_right (nat_beq w u) (nat_in w us) i)),
        ))

  -- Each container of a set was collected from one edge.
  abbrev pub IsCollected : List ℕ → Ancestors → Type 0
  IsCollected past ancestors =
      (c v : ℕ) → once (has ancestors c v) ≡ through (is_above ancestors c) v past

count_absent : (v : ℕ) (xs : List ℕ) → nat_in v xs ≡ false → count v xs ≡ 0
count_absent v [] h = refl
count_absent v (x ∷ xs) h = ground (arith, count_absent v xs)

once-injective : (a b : Bool) → once a ≡ once b + 0 → a ≡ b
once-injective true true h = refl
once-injective false false h = refl
once-injective true false h = absurd (omega arith)
once-injective false true h = absurd (omega arith)

in_single : (u x : ℕ) → nat_in u (x ∷ []) ≡ true → u ≡ x
in_single u x h = ground (arith, nat_beq_iff u x)

not_child : (child past : Bool) → past ≡ false → (child ≡ true → past ≡ true) → child ≡ false
not_child true past fresh h = absurd (cc (h refl))
not_child false past fresh h = refl

closed_snoc :
    (past : List ℕ) (x u v : ℕ)
    → nat_in v (past ++ x ∷ []) ≡ true
    → (nat_in v past ≡ true → nat_in u past ≡ true)
    → (v ≡ x → nat_in u past ≡ true)
    → nat_in u (past ++ x ∷ []) ≡ true
closed_snoc past x u v i old now =
    in-append u past (x ∷ [])
    ∙ or_left (nat_in u past) (nat_in u (x ∷ []))
        (elim (in_or (nat_in v past) (nat_in v (x ∷ [])) (sym (in-append v past (x ∷ [])) ∙ i)) [
          | inl before ↦ old before
          | inr last ↦ now (in_single v x last)
        ])

module _ (dag : SetDag) where
  -- One round of the loop over the order.
  IsCollected-round :
      (x : ℕ) (past : List ℕ) (ancestors next : Ancestors)
      → ((u : ℕ) → nat_in u (past ++ x ∷ []) ≡ true → nat_in u (children dag x) ≡ false)
      → IsCollected (children dag) past ancestors
      → contribute (insert_id x (list_or_empty (get x ancestors))) (children dag x) ancestors
        ≡ ok next
      → IsCollected (children dag) (past ++ x ∷ []) next
  IsCollected-round x past ancestors next apart inv made c v =
      let C = insert_id x (list_or_empty (get x ancestors)) in
      let above : nat_in c C ≡ is_above ancestors c x =
        insert_id-in c x (list_or_empty (get x ancestors)) in
      let kept = λ (u : ℕ) (i : nat_in u (past ++ x ∷ []) ≡ true).
        ap (λ b. nat_beq c u || b)
          (sym (
            once-injective (has next c u) (has ancestors c u) (
              contribute-once C c u (children dag x) ancestors next made
              ∙ ap (λ n. once (has ancestors c u) + (if nat_in c C then n else 0))
                  (count_absent u (children dag x) (apart u i))
              ∙ ground arith))) in
      contribute-once C c v (children dag x) ancestors next made
      ∙ ap (λ b. once (has ancestors c v) + (if b then count v (children dag x) else 0)) above
      ∙ ap (λ n. n + (if is_above ancestors c x then count v (children dag x) else 0)) (inv c v)
      ∙ sym (through_snoc (children dag) (is_above ancestors c) v x past)
      ∙ through_same (children dag) (is_above ancestors c) (is_above next c) v (past ++ x ∷ []) kept

  -- The loop over the rest of a topological order.
  pub collect-IsCollected :
      (order past : List ℕ) (nodes : List ℕ) (ancestors next : Ancestors)
      → IsNodup (past ++ order)
      → IsTopological (children dag) nodes past order
      → ((u : ℕ) → nat_in u order ≡ true → nat_in u nodes ≡ true)
      → ((u v : ℕ)
          → nat_in v past ≡ true
          → nat_in u nodes ≡ true
          → nat_in v (children dag u) ≡ true
          → nat_in u past ≡ true)
      → IsCollected (children dag) past ancestors
      → collect_ancestors dag order ancestors ≡ ok next
      → IsCollected (children dag) (past ++ order) next
  unfolding collect_ancestors
  collect-IsCollected [] past nodes ancestors next n t own closed inv h =
      subst (λ p. IsCollected (children dag) p next) (sym (append-nil past))
        (subst (IsCollected (children dag) past) (ok-injective h) inv)
  collect-IsCollected (x ∷ order) past nodes ancestors next n t own closed inv h =
      let (made, contributed, rest) =
        >>=-eq-ok
          (contribute (insert_id x (list_or_empty (get x ancestors))) (children dag x) ancestors)
          (λ a. collect_ancestors dag order a) h in
      let node = own x (or_left (nat_beq x x) (nat_in x order) ((nat_beq_iff x x).1 refl)) in
      let fresh = not_before x past order n in
      let closed_now =
        λ (u v : ℕ) (i : nat_in v (past ++ x ∷ []) ≡ true) (m : nat_in u nodes ≡ true)
            (e : nat_in v (children dag u) ≡ true).
          closed_snoc past x u v i (λ old. closed u v old m e)
            (λ same. t.0 u m (ap (λ y. nat_in y (children dag u)) (sym same) ∙ e)) in
      let apart = λ (u : ℕ) (i : nat_in u (past ++ x ∷ []) ≡ true).
        not_child (nat_in u (children dag x)) (nat_in x past) fresh (λ e.
          elim (in_or (nat_in u past) (nat_in u (x ∷ [])) (sym (in-append u past (x ∷ [])) ∙ i)) [
            | inl old ↦ closed x u old node e
            | inr now ↦
                t.0 x node (ap (λ y. nat_in y (children dag x)) (sym (in_single u x now)) ∙ e)
          ]) in
      subst (λ p. IsCollected (children dag) p next) (append_assoc past (x ∷ []) order)
        (collect-IsCollected order (past ++ x ∷ []) nodes made next
          (subst IsNodup (sym (append_assoc past (x ∷ []) order)) n) t.1
          (λ u i. own u (or_right (nat_beq u x) (nat_in u order) i)) closed_now
          (IsCollected-round x past ancestors made apart inv contributed) rest)
