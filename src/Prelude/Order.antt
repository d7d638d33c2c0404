-- ===== src/Prelude/Order.antt =====
-- Orders as an interface, and `sort_unstable` followed by `dedup`.
use cala.Prelude.{
  ℕ, ◌≡◌, refl, sym, ap, ◌∙◌, ◌||◌, ◌&&◌, Bool, true, false, List, [], ◌∷◌, any, All, All-mono, Eq,
  nat_eq, pair_eq, ltb, nat_beq, arith, Bool-cases, inl, inr, if◌then◌else◌,
}

-- `Ord`
pub record Order {ℓ} (K : Type ℓ) : Type ℓ where
  pub eq : Eq K
  pub lt : K → K → Bool
  pub lt_irrefl : (a : K) → lt a a ≡ false
  pub lt_trans : (a b c : K) → lt a b ≡ true → lt b c ≡ true → lt a c ≡ true
  pub lt_total : (a b : K) → lt a b ≡ false → eq.beq a b ≡ false → lt b a ≡ true

pub nat_lt_irrefl : (a : ℕ) → ltb a a ≡ false
nat_lt_irrefl a = ground arith

pub nat_lt_trans : (a b c : ℕ) → ltb a b ≡ true → ltb b c ≡ true → ltb a c ≡ true
nat_lt_trans a b c h i = ground (arith, h, i)

pub nat_lt_total : (a b : ℕ) → ltb a b ≡ false → nat_beq a b ≡ false → ltb b a ≡ true
nat_lt_total a b h i = ground (arith, h, i)

instance abbrev pub nat_order : Order ℕ
nat_order = record {
  eq = nat_eq;
  lt = ltb;
  lt_irrefl = nat_lt_irrefl;
  lt_trans = nat_lt_trans;
  lt_total = nat_lt_total;
}

module _ {ℓ κ} {A : Type ℓ} {B : Type κ} ⦃o : Order A⦄ ⦃r : Order B⦄ where
  -- Pairs are compared by their first parts first.
  abbrev pub pair_lt : A × B → A × B → Bool
  pair_lt (a, b) (c, d) = o.lt a c || (o.eq.beq a c && r.lt b d)

  pub pair_lt_irrefl : (p : A × B) → pair_lt p p ≡ false
  pair_lt_irrefl (a, b) = ground (arith, o.lt_irrefl a, r.lt_irrefl b)

  pub pair_lt_trans : (p q s : A × B) → pair_lt p q ≡ true → pair_lt q s ≡ true → pair_lt p s ≡ true
  pair_lt_trans (a, b) (c, d) (e, f) h i = ground (
    arith,
    o.lt_trans a c e,
    r.lt_trans b d f,
    o.eq.beq_iff a c,
    o.eq.beq_iff c e,
    o.eq.beq_iff a e,
  )

  pub pair_lt_total :
      (p q : A × B)
      → pair_lt p q ≡ false
      → (o.eq.beq p.0 q.0 && r.eq.beq p.1 q.1) ≡ false
      → pair_lt q p ≡ true
  pair_lt_total (a, b) (c, d) h i =
      ground (
        arith,
        o.lt_total a c,
        r.lt_total b d,
        o.eq.beq_iff a c,
        o.eq.beq_iff c a,
        r.eq.beq_iff b d,
      )

  instance abbrev pub pair_order : Order (A × B)
  pair_order = record {
    eq = pair_eq ⦃e = o.eq⦄ ⦃f = r.eq⦄;
    lt = pair_lt;
    lt_irrefl = pair_lt_irrefl;
    lt_trans = pair_lt_trans;
    lt_total = pair_lt_total;
  }

or_again : (a b : Bool) → (a || b) ≡ (a || (a || b))
or_again a b = ground arith

or_swap : (a b c : Bool) → (a || (b || c)) ≡ (b || (a || c))
or_swap a b c = ground arith

true-ne-false : {b : Bool} → b ≡ true → b ≡ false → ⊥
true-ne-false h i = cc

module _ {ℓ} {K : Type ℓ} ⦃o : Order K⦄ where
  unfoldable pub insert_key : K → List K → List K
  insert_key k [] = k ∷ []
  insert_key k (j ∷ js) = let rest = insert_key k js in if o.lt j k then j ∷ rest else k ∷ j ∷ js

  -- `sort_unstable`, by insertion: keys that are equal are the same.
  unfoldable pub sort_unstable : List K → List K
  unfolding insert_key
  sort_unstable [] = []
  sort_unstable (k ∷ ks) = insert_key k (sort_unstable ks)

  -- `Vec::dedup`: of neighbours that are equal, one is kept.
  unfoldable pub drop_repeats : List K → List K
  drop_repeats [] = []
  drop_repeats (k ∷ []) = k ∷ []
  drop_repeats (k ∷ j ∷ js) =
      let rest = drop_repeats (j ∷ js) in if o.eq.beq k j then rest else k ∷ rest

  -- `sort_unstable()`, and then `dedup()`.
  unfoldable pub sort_dedup : List K → List K
  unfolding sort_unstable drop_repeats
  sort_dedup ks = drop_repeats (sort_unstable ks)

  -- Each key is below all that follow.
  abbrev pub IsAscending : List K → Type ℓ
  IsAscending [] = Unit
  IsAscending (k ∷ ks) = All (λ j. o.lt k j ≡ true) ks × IsAscending ks

  abbrev pub is_key : K → List K → Bool
  is_key k = any (o.eq.beq k)

  -- No key is above one that follows.
  abbrev IsSorted : List K → Type ℓ
  IsSorted [] = Unit
  IsSorted (k ∷ ks) = All (λ j. o.lt j k ≡ false) ks × IsSorted ks

  same_key : (a b : K) → o.eq.beq a b ≡ true → a ≡ b
  same_key a b h = (o.eq.beq_iff a b).0 h

  lt_asym : (a b : K) → o.lt a b ≡ true → o.lt b a ≡ false
  lt_asym a b h = elim (Bool-cases (o.lt b a)) [
    | inr below ↦ below
    | inl above ↦ absurd (true-ne-false (o.lt_trans a b a h above) (o.lt_irrefl a))
  ]

  -- Neither above nor below one of two keys is neither above nor below the other.
  not_below_trans : (i j k : K) → o.lt i j ≡ false → o.lt j k ≡ false → o.lt i k ≡ false
  not_below_trans i j k h g = elim (Bool-cases (o.lt i k)) [
    | inr below ↦ below
    | inl above ↦ elim (Bool-cases (o.eq.beq j k)) [
      | inl same ↦ ap (o.lt i) (sym (same_key j k same)) ∙ h
      | inr other ↦ absurd (true-ne-false (o.lt_trans i k j above (o.lt_total j k g other)) h)
    ]
  ]

  below_trans : (k j i : K) → o.lt k j ≡ true → o.lt i j ≡ false → o.lt k i ≡ true
  below_trans k j i h g = elim (Bool-cases (o.eq.beq i j)) [
    | inl same ↦ ap (o.lt k) (same_key i j same) ∙ h
    | inr other ↦ o.lt_trans k j i h (o.lt_total i j g other)
  ]

  not_same : (j k : K) → o.eq.beq k j ≡ false → o.eq.beq j k ≡ false
  not_same j k h = elim (Bool-cases (o.eq.beq j k)) [
    | inr other ↦ other
    | inl same ↦ absurd (true-ne-false ((o.eq.beq_iff k j).1 (sym (same_key j k same))) h)
  ]

  All-insert_key : (P : K → Type 0) (k : K) (ks : List K) → P k → All P ks → All P (insert_key k ks)
  unfolding insert_key
  All-insert_key P k [] h hs = (h, tt)
  All-insert_key P k (j ∷ js) h hs = elim (Bool-cases (o.lt j k)) [
    | inl below ↦ rw below (hs.0, All-insert_key P k js h hs.1)
    | inr not_below ↦ rw not_below (h, hs)
  ]

  insert_key-IsSorted : (k : K) (ks : List K) → IsSorted ks → IsSorted (insert_key k ks)
  unfolding insert_key
  insert_key-IsSorted k [] h = (tt, tt)
  insert_key-IsSorted k (j ∷ js) h = elim (Bool-cases (o.lt j k)) [
    | inl below ↦ rw below (
      All-insert_key (λ i. o.lt i j ≡ false) k js (lt_asym j k below) h.0,
      insert_key-IsSorted k js h.1,
    )
    | inr not_below ↦
        rw not_below ((not_below, All-mono js (λ i g. not_below_trans i j k g not_below) h.0), h)
  ]

  sort_unstable-IsSorted : (ks : List K) → IsSorted (sort_unstable ks)
  unfolding sort_unstable
  sort_unstable-IsSorted [] = tt
  sort_unstable-IsSorted (k ∷ ks) =
      insert_key-IsSorted k (sort_unstable ks) (sort_unstable-IsSorted ks)

  All-drop_repeats : (P : K → Type 0) (ks : List K) → All P ks → All P (drop_repeats ks)
  unfolding drop_repeats
  All-drop_repeats P [] h = tt
  All-drop_repeats P (k ∷ []) h = h
  All-drop_repeats P (k ∷ j ∷ js) h =
      let rest = All-drop_repeats P (j ∷ js) h.1 in
      elim (Bool-cases (o.eq.beq k j)) [
        | inl same ↦ rw same rest
        | inr other ↦ rw other (h.0, rest)
      ]

  drop_repeats-IsAscending : (ks : List K) → IsSorted ks → IsAscending (drop_repeats ks)
  unfolding drop_repeats
  drop_repeats-IsAscending [] h = tt
  drop_repeats-IsAscending (k ∷ []) h = (tt, tt)
  drop_repeats-IsAscending (k ∷ j ∷ js) h =
      let rest = drop_repeats-IsAscending (j ∷ js) h.1 in
      elim (Bool-cases (o.eq.beq k j)) [
        | inl same ↦ rw same rest
        | inr other ↦
            let below = o.lt_total j k h.0.0 (not_same j k other) in
            rw other (
              All-drop_repeats (λ i. o.lt k i ≡ true) (j ∷ js)
                  (below, All-mono js (λ i g. below_trans k j i below g) h.1.0),
              rest,
            )
      ]

  beq_same : (i k j : K) → o.eq.beq k j ≡ true → o.eq.beq i k ≡ o.eq.beq i j
  beq_same i k j h = rw (same_key k j h) refl

  is_key-insert_key :
      (i k : K) (ks : List K) → is_key i (insert_key k ks) ≡ (o.eq.beq i k || is_key i ks)
  unfolding insert_key
  is_key-insert_key i k [] = refl
  is_key-insert_key i k (j ∷ ks) = elim (Bool-cases (o.lt j k)) [
    | inl below ↦
        rw (below, is_key-insert_key i k ks) (or_swap (o.eq.beq i j) (o.eq.beq i k) (is_key i ks))
    | inr not_below ↦ rw not_below refl
  ]

  is_key-sort_unstable : (i : K) (ks : List K) → is_key i (sort_unstable ks) ≡ is_key i ks
  unfolding sort_unstable
  is_key-sort_unstable i [] = refl
  is_key-sort_unstable i (k ∷ ks) =
      is_key-insert_key i k (sort_unstable ks)
      ∙ ap (λ b. o.eq.beq i k || b) (is_key-sort_unstable i ks)

  is_key-drop_repeats : (i : K) (ks : List K) → is_key i (drop_repeats ks) ≡ is_key i ks
  unfolding drop_repeats
  is_key-drop_repeats i [] = refl
  is_key-drop_repeats i (k ∷ []) = refl
  is_key-drop_repeats i (k ∷ j ∷ js) =
      let rest = is_key-drop_repeats i (j ∷ js) in
      elim (Bool-cases (o.eq.beq k j)) [
        | inl same ↦ rw same (
            rest
            ∙ or_again (o.eq.beq i j) (is_key i js)
            ∙ ap (λ b. b || (o.eq.beq i j || is_key i js)) (sym (beq_same i k j same)))
        | inr other ↦ rw other (ap (λ b. o.eq.beq i k || b) rest)
      ]

  pub sort_dedup_lem :
      (ks : List K)
      → IsAscending (sort_dedup ks) × ((i : K) → is_key i (sort_dedup ks) ≡ is_key i ks)
  unfolding sort_dedup
  sort_dedup_lem ks = (
    drop_repeats-IsAscending (sort_unstable ks) (sort_unstable-IsSorted ks),
    λ i. is_key-drop_repeats i (sort_unstable ks) ∙ is_key-sort_unstable i ks,
  )
