-- ===== src/Balance/Effective/Sorted.antt =====
-- What the sort of the updates gives, when no comparison panics.
use mathlib.Core.Path.{subst}
use mathlib.Core.List.{Perm}
use mathlib.Core.List.Perm
use cala.Prelude.{
  ◌<◌, ◌≤◌, ◌≡◌, ◌⊎◌, inl, inr, true, false, Option, none, some, List, [], ◌∷◌, Bool-cases,
  Option-cases, All, All-mono, arith,
}
use cala.Balance.Effective.{
  SnapshotOrEntry, snapshot, entry, effective, is_lesser, insert_sorted, sort_updates,
}

some_eq : {X : Type 0} {x y : X} → ◌≡◌ {A = Option X} (some x) (some y) → x ≡ y
some_eq h = cc

none-ne-some : {X : Type 0} {x : X} → ◌≡◌ {A = Option X} none (some x) → ⊥
none-ne-some h = cc

module _ {A : Type 0} where
  -- Snapshots of one date go by their version, and entries by their sequence.
  abbrev pub IsRanked : SnapshotOrEntry A → SnapshotOrEntry A → Type 0
  IsRanked (snapshot _ s) (snapshot _ t) = s.version ≤ t.version
  IsRanked (entry _ e) (entry _ f) = e.sequence ≤ f.sequence
  IsRanked _ _ = ⊥

  -- One may stand before another.
  abbrev pub IsBefore : SnapshotOrEntry A → SnapshotOrEntry A → Type 0
  IsBefore u v = (effective u < effective v) ⊎ ((effective u ≡ effective v) × IsRanked u v)

  -- By date, and within a date by version or sequence.
  abbrev pub IsInOrder : List (SnapshotOrEntry A) → Type 0
  IsInOrder [] = Unit
  IsInOrder (u ∷ us) = All (IsBefore u) us × IsInOrder us

  IsBefore-trans : (u v w : SnapshotOrEntry A) → IsBefore u v → IsBefore v w → IsBefore u w
  IsBefore-trans u v w h g = ground arith

  lesser-IsBefore : (u v : SnapshotOrEntry A) → is_lesser u v ≡ some true → IsBefore u v
  unfolding is_lesser
  lesser-IsBefore u v h = ground arith

  other-IsBefore : (u v : SnapshotOrEntry A) → is_lesser u v ≡ some false → IsBefore v u
  unfolding is_lesser
  other-IsBefore u v h = ground arith

  insert_cases :
      (u v : SnapshotOrEntry A) (vs ws : List (SnapshotOrEntry A))
      → insert_sorted u (v ∷ vs) ≡ some ws
      → ((is_lesser v u ≡ some true)
          × ((rest : List (SnapshotOrEntry A)) × (insert_sorted u vs ≡ some rest)
              × (v ∷ rest ≡ ws)))
        ⊎ ((is_lesser v u ≡ some false) × (u ∷ v ∷ vs ≡ ws))
  unfolding insert_sorted
  insert_cases u v vs ws h = elim (Option-cases (is_lesser v u)) [
    | inl panics ↦ absurd (none-ne-some (rw (panics, insert_sorted) at h))
    | inr (lesser, decided) ↦ elim (Bool-cases lesser) [
      | inr other ↦ inr (rw other at decided, some_eq (rw (decided, other, insert_sorted) at h))
      | inl first ↦ elim (Option-cases (insert_sorted u vs)) [
        | inl panics ↦ absurd (none-ne-some (rw (decided, first, panics, insert_sorted) at h))
        | inr (rest, made) ↦ inl (
          rw first at decided,
          (rest, made, some_eq (rw (decided, first, made, insert_sorted) at h)),
        )
      ]
    ]
  ]

  insert_sorted-IsInOrder :
      (u : SnapshotOrEntry A) (vs ws : List (SnapshotOrEntry A))
      → insert_sorted u vs ≡ some ws
      → IsInOrder vs
      → IsInOrder ws
        × Perm (u ∷ vs) ws
        × ((w : SnapshotOrEntry A) → IsBefore w u → All (IsBefore w) vs → All (IsBefore w) ws)
  unfolding insert_sorted
  insert_sorted-IsInOrder u [] ws h order =
      subst
        (λ o.
          IsInOrder o
          × Perm (u ∷ []) o
          × ((w : SnapshotOrEntry A) → IsBefore w u → All (IsBefore w) [] → All (IsBefore w) o))
        (some_eq h) ((tt, tt), Perm.refl (u ∷ []), λ w b bs. (b, tt))
  insert_sorted-IsInOrder u (v ∷ vs) ws h order = elim (insert_cases u v vs ws h) [
    | inl (lesser, (rest, made, same)) ↦
        let (sorted, perm, kept) = insert_sorted-IsInOrder u vs rest made order.1 in
        subst
          (λ o.
            IsInOrder o
            × Perm (u ∷ v ∷ vs) o
            × ((w : SnapshotOrEntry A)
                → IsBefore w u
                → All (IsBefore w) (v ∷ vs)
                → All (IsBefore w) o))
          same
          (
            (kept v (lesser-IsBefore v u lesser) order.0, sorted),
            Perm.trans (Perm.swap v u vs) (Perm.cons v perm),
            λ w b bs. (bs.0, kept w b bs.1),
          )
    | inr (other, same) ↦
        let first = other-IsBefore v u other in
        subst
          (λ o.
            IsInOrder o
            × Perm (u ∷ v ∷ vs) o
            × ((w : SnapshotOrEntry A)
                → IsBefore w u
                → All (IsBefore w) (v ∷ vs)
                → All (IsBefore w) o))
          same
          (
            ((first, All-mono vs (λ w b. IsBefore-trans u v w first b) order.0), order),
            Perm.refl (u ∷ v ∷ vs),
            λ w b bs. (b, bs),
          )
  ]

  pub sort_updates-IsInOrder :
      (us ws : List (SnapshotOrEntry A)) → sort_updates us ≡ some ws → IsInOrder ws × Perm us ws
  unfolding sort_updates
  sort_updates-IsInOrder [] ws h =
      subst (λ o. IsInOrder o × Perm [] o) (some_eq h) (tt, Perm.refl [])
  sort_updates-IsInOrder (u ∷ us) ws h = elim (Option-cases (sort_updates us)) [
    | inl panics ↦ absurd (none-ne-some (rw (panics, sort_updates) at h))
    | inr (vs, made) ↦
        let (order, perm) = sort_updates-IsInOrder us vs made in
        let (sorted, whole, _) =
          insert_sorted-IsInOrder u vs ws (rw (made, sort_updates) at h) order in
        (sorted, Perm.trans (Perm.cons u perm) whole)
  ]
