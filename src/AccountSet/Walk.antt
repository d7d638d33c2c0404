-- ===== src/AccountSet/Walk.antt =====
-- The loops of cala-ledger/src/account_set/graph_cache.rs that take a set from a worklist, skip it if
-- it was visited, and put its neighbours on the list.
pub mod Ends
pub mod Reached
use cala.Prelude.{
  ℕ, zero, suc, ◌≡◌, Bool, true, false, Option, none, some, List, [], ◌∷◌, nat_beq, any,
}

-- `HashSet::contains`
abbrev pub nat_in : ℕ → List ℕ → Bool
nat_in n = any (nat_beq n)

-- How a loop ends: with the sets visited, the last one first, and its state; at a set that is not
-- known; or out of fuel.
pub data Walked (S : Type 0) : Type 0 where
  finished : List ℕ → S → Walked S
  unknown : ℕ → Walked S
  out_of_fuel : Walked S

module _ {S : Type 0} (visit : ℕ → S → Option (S × List ℕ))
    (extend : List ℕ → List ℕ → List ℕ) where
  -- Each set is visited once, so the fuel counts visits and not rounds.
  unfoldable pub walk : ℕ → List ℕ → S → List ℕ → Walked S
  walk zero visited s [] = finished visited s
  walk (suc fuel) visited s [] = finished visited s
  walk zero visited s (x ∷ pending) = elim (nat_in x visited) [
    | true ↦ walk zero visited s pending
    | false ↦ out_of_fuel
  ]
  walk (suc fuel) visited s (x ∷ pending) = elim (nat_in x visited) [
    | true ↦ walk (suc fuel) visited s pending
    | false ↦ elim (visit x s) [
      | none ↦ unknown x
      | some (s', new) ↦ walk fuel (x ∷ visited) s' (extend pending new)
    ]
  ]

-- A set that is reached from the seeds along `next`.
pub data Reach (next : ℕ → List ℕ) (seeds : List ℕ) : ℕ → Type 0 where
  seed : {x : ℕ} → nat_in x seeds ≡ true → Reach next seeds x
  step : {x y : ℕ} → Reach next seeds x → nat_in y (next x) ≡ true → Reach next seeds y
