-- ===== src/AccountSet/Walk/Ends.antt =====
-- A walk ends: it visits each known set once.
use cala.Prelude.{
  ℕ, zero, suc, ◌≤◌, ◌<◌, ◌≡◌, ◌≢◌, refl, true, false, Option, is_some, List, [], ◌∷◌, nat_beq_iff,
  arith, Bool-cases, Option-cases, inl, inr, length, if◌then◌else◌,
}
use cala.AccountSet.Walk.{nat_in, out_of_fuel, walk}

-- How many of the universe were not visited.
abbrev pub unseen : List ℕ → List ℕ → ℕ
unseen visited [] = 0
unseen visited (u ∷ us) = if nat_in u visited then unseen visited us else suc (unseen visited us)

pub unseen-le : (visited us : List ℕ) (x : ℕ) → unseen (x ∷ visited) us ≤ unseen visited us
unseen-le visited [] x = omega arith
unseen-le visited (u ∷ us) x = ground (arith, unseen-le visited us x)

pub unseen-visit :
    (visited us : List ℕ) (x : ℕ)
    → nat_in x us ≡ true
    → nat_in x visited ≡ false
    → unseen (x ∷ visited) us < unseen visited us
unseen-visit visited [] x h new = cc
unseen-visit visited (u ∷ us) x h new =
    ground (arith, unseen-visit visited us x, unseen-le visited us x, nat_beq_iff x u)

pub unseen-le-length : (visited us : List ℕ) → unseen visited us ≤ length us
unseen-le-length visited [] = omega arith
unseen-le-length visited (u ∷ us) = ground (arith, unseen-le-length visited us)

module _ {S : Type 0} (visit : ℕ → S → Option (S × List ℕ)) (extend : List ℕ → List ℕ → List ℕ)
    (universe : List ℕ) where
  -- More fuel than known sets is enough.
  pub walk_ends :
      ((x : ℕ) (s : S) → is_some (visit x s) ≡ true → nat_in x universe ≡ true)
      → (fuel : ℕ) (visited : List ℕ) (s : S) (pending : List ℕ) → unseen visited universe < fuel
      → walk visit extend fuel visited s pending ≢ out_of_fuel
  unfolding walk
  walk_ends known zero visited s pending h = absurd (omega arith)
  walk_ends known (suc fuel) visited s [] h = λ e. cc
  walk_ends known (suc fuel) visited s (x ∷ pending) h = elim (Bool-cases (nat_in x visited)) [
    | inl seen ↦ rw (seen, walk) (walk_ends known (suc fuel) visited s pending h)
    | inr new ↦ elim (Option-cases (visit x s)) [
      | inl absent ↦ rw (new, absent, walk) (λ e. cc)
      | inr (made, found) ↦
          rw (new, found, walk)
            (walk_ends known fuel (x ∷ visited) made.0 (extend pending made.1)
              (omega (arith, unseen-visit visited universe x (known x s (rw found refl)) new)))
    ]
  ]
