-- ===== src/AccountSet/Walk/Reached.antt =====
-- A walk that finishes has visited exactly the sets that are reached, each once.
use mathlib.Core.Path.{subst}
use mathlib.Core.Logic.{∥∥₁_elim}
use mathlib.Core.Bool.{So-prop}
use cala.Prelude.{
  ℕ, zero, suc, ◌≡◌, refl, sym, ◌∙◌, ◌⊎◌, ◌↔◌, Bool, true, false, ◌||◌, Option, none, some, List,
  [], ◌∷◌, nat_beq_iff, arith, Bool-cases, Option-cases, inl, inr,
}
use cala.AccountSet.Walk.{nat_in, Walked, finished, unknown, out_of_fuel, walk, Reach, seed, step}

-- No set twice.
abbrev pub IsNodup : List ℕ → Type 0
IsNodup [] = Unit
IsNodup (x ∷ xs) = (nat_in x xs ≡ false) × IsNodup xs

pub in_cons : (y x : ℕ) (xs : List ℕ) → nat_in y (x ∷ xs) ≡ true → (y ≡ x) ⊎ (nat_in y xs ≡ true)
in_cons y x xs h = ground (arith, nat_beq_iff y x)

pub in_or : (a b : Bool) → (a || b) ≡ true → (a ≡ true) ⊎ (b ≡ true)
in_or a b h = ground arith

pub or_left : (a b : Bool) → a ≡ true → (a || b) ≡ true
or_left a b h = ground arith

pub or_right : (a b : Bool) → b ≡ true → (a || b) ≡ true
or_right a b h = ground arith

finished-injective :
    {S : Type 0} {v v' : List ℕ} {s s' : S} → finished v s ≡ finished v' s' → (v ≡ v') × (s ≡ s')
finished-injective h = (cc, cc)

out-ne-finished :
    {S : Type 0} {v : List ℕ} {s : S} → ◌≡◌ {A = Walked S} out_of_fuel (finished v s) → ⊥
out-ne-finished h = cc

unknown-ne-finished : {S : Type 0} {x : ℕ} {v : List ℕ} {s : S} → unknown x ≡ finished v s → ⊥
unknown-ne-finished h = cc

out-ne-unknown : {S : Type 0} {x : ℕ} → ◌≡◌ {A = Walked S} out_of_fuel (unknown x) → ⊥
out-ne-unknown h = cc

unknown-injective : {S : Type 0} {x y : ℕ} → ◌≡◌ {A = Walked S} (unknown x) (unknown y) → x ≡ y
unknown-injective h = cc

subst2 :
    {S : Type 0} (P : List ℕ → S → Type 0) {v v' : List ℕ} {s s' : S}
    → v ≡ v'
    → s ≡ s'
    → P v s
    → P v' s'
subst2 P {v} {v'} {s} {s'} e f p = subst (λ t. P v' t) f (subst (λ u. P u s) e p)

-- What holds of a walk after each round.
pub record IsWalk {S : Type 0} (next : ℕ → List ℕ) (seeds : List ℕ) (P : List ℕ → S → Type 0)
    (visited : List ℕ) (s : S) (pending : List ℕ) : Type 0 where
  pub nodup : IsNodup visited
  pub kept : P visited s
  pub sound : (x : ℕ) → nat_in x visited ≡ true → Reach next seeds x
  pub waiting : (x : ℕ) → nat_in x pending ≡ true → Reach next seeds x
  pub started : (x : ℕ) → nat_in x seeds ≡ true → (nat_in x visited || nat_in x pending) ≡ true
  pub closed :
      (x y : ℕ)
      → nat_in x visited ≡ true
      → nat_in y (next x) ≡ true
      → (nat_in y visited || nat_in y pending) ≡ true

module _ {S : Type 0} (next : ℕ → List ℕ) (seeds : List ℕ) (P : List ℕ → S → Type 0) where
  pub IsWalk-start : (s : S) → P [] s → IsWalk next seeds P [] s seeds
  IsWalk-start s p = record {
    nodup = tt;
    kept = p;
    sound = λ x h. cc;
    waiting = λ x h. seed h;
    started = λ x h. h;
    closed = λ x y h. cc;
  }

  skipped :
      (x y : ℕ) (visited pending : List ℕ)
      → nat_in x visited ≡ true
      → (nat_in y visited || nat_in y (x ∷ pending)) ≡ true
      → (nat_in y visited || nat_in y pending) ≡ true
  skipped x y visited pending old h = elim (in_or (nat_in y visited) _ h) [
    | inl seen ↦ or_left _ _ seen
    | inr waits ↦ elim (in_cons y x pending waits) [
      | inl same ↦ rw same (or_left _ _ old)
      | inr later ↦ or_right _ _ later
    ]
  ]

  IsWalk-skip :
      (x : ℕ) (visited : List ℕ) (s : S) (pending : List ℕ)
      → nat_in x visited ≡ true
      → IsWalk next seeds P visited s (x ∷ pending)
      → IsWalk next seeds P visited s pending
  IsWalk-skip x visited s pending old w = record {
    nodup = w.nodup;
    kept = w.kept;
    sound = w.sound;
    waiting = λ y h. w.waiting y (or_right _ _ h);
    started = λ y h. skipped x y visited pending old (w.started y h);
    closed = λ y z h k. skipped x z visited pending old (w.closed y z h k);
  }

  module _ (extend : List ℕ → List ℕ → List ℕ)
      (law : (x : ℕ) (xs new : List ℕ)
        → nat_in x (extend xs new) ≡ (nat_in x xs || nat_in x new)) where
    moved :
        (x y : ℕ) (visited pending new : List ℕ)
        → (nat_in y visited || nat_in y (x ∷ pending)) ≡ true
        → (nat_in y (x ∷ visited) || nat_in y (extend pending new)) ≡ true
    moved x y visited pending new h = ground (arith, law y pending new)

    IsWalk-visit :
        (x : ℕ) (visited : List ℕ) (s s' : S) (pending : List ℕ)
        → nat_in x visited ≡ false
        → P (x ∷ visited) s'
        → IsWalk next seeds P visited s (x ∷ pending)
        → IsWalk next seeds P (x ∷ visited) s' (extend pending (next x))
    IsWalk-visit x visited s s' pending new p w =
        let here : Reach next seeds x = w.waiting x (or_left _ _ ((nat_beq_iff x x).1 refl)) in
        record {
          nodup = (new, w.nodup);
          kept = p;
          sound = λ y h. elim (in_cons y x visited h) [
            | inl same ↦ rw same here
            | inr old ↦ w.sound y old
          ];
          waiting = λ y h. elim (in_or (nat_in y pending) _ (sym (law y pending (next x)) ∙ h)) [
            | inl later ↦ w.waiting y (or_right _ _ later)
            | inr added ↦ step here added
          ];
          started = λ y h. moved x y visited pending (next x) (w.started y h);
          closed = λ y z h k. elim (in_cons y x visited h) [
            | inl same ↦ or_right _ _ (law z pending (next x) ∙ or_right _ _ (rw same at k))
            | inr old ↦ moved x z visited pending (next x) (w.closed y z old k)
          ];
        }

    module _ (visit : ℕ → S → Option (S × List ℕ)) where
      -- The rule of the loop: what each visit keeps holds at the end, with nothing pending.
      pub walk_rule :
          ((x : ℕ) (s s' : S) (new : List ℕ) → visit x s ≡ some (s', new) → new ≡ next x)
          → ((x : ℕ) (visited : List ℕ) (s s' : S) (new : List ℕ)
              → visit x s ≡ some (s', new)
              → Reach next seeds x
              → nat_in x visited ≡ false
              → P visited s
              → P (x ∷ visited) s')
          → (fuel : ℕ) (visited : List ℕ) (s : S) (pending : List ℕ) (all : List ℕ) (end : S)
          → IsWalk next seeds P visited s pending
          → walk visit extend fuel visited s pending ≡ finished all end
          → IsWalk next seeds P all end []
      unfolding walk
      walk_rule agrees keep zero visited s [] all end w h =
          subst2 (λ v t. IsWalk next seeds P v t []) (finished-injective h).0
            (finished-injective h).1 w
      walk_rule agrees keep (suc fuel) visited s [] all end w h =
          subst2 (λ v t. IsWalk next seeds P v t []) (finished-injective h).0
            (finished-injective h).1 w
      walk_rule agrees keep zero visited s (x ∷ pending) all end w h =
          elim (Bool-cases (nat_in x visited)) [
            | inl old ↦
                walk_rule agrees keep zero visited s pending all end
                  (IsWalk-skip x visited s pending old w) (rw (old, walk) at h)
            | inr new ↦ absurd (out-ne-finished (rw (new, walk) at h))
          ]
      walk_rule agrees keep (suc fuel) visited s (x ∷ pending) all end w h =
          elim (Bool-cases (nat_in x visited)) [
            | inl old ↦
                walk_rule agrees keep (suc fuel) visited s pending all end
                  (IsWalk-skip x visited s pending old w) (rw (old, walk) at h)
            | inr new ↦ elim (Option-cases (visit x s)) [
              | inl absent ↦ absurd (unknown-ne-finished (rw (new, absent, walk) at h))
              | inr (made, found) ↦
                  let same : made.1 ≡ next x = agrees x s made.0 made.1 found in
                  let here : Reach next seeds x =
                    w.waiting x (or_left _ _ ((nat_beq_iff x x).1 refl)) in
                  walk_rule agrees keep fuel (x ∷ visited) made.0 (extend pending made.1) all end
                    (subst (λ n. IsWalk next seeds P (x ∷ visited) made.0 (extend pending n))
                      (sym same)
                      (IsWalk-visit x visited s made.0 pending new
                        (keep x visited s made.0 made.1 found here new w.kept) w))
                    (rw (new, found, walk) at h)
            ]
          ]

      -- A walk that stops at a set reached it, and could not visit it.
      pub walk_stops :
          ((x : ℕ) (s s' : S) (new : List ℕ) → visit x s ≡ some (s', new) → new ≡ next x)
          → ((x : ℕ) (visited : List ℕ) (s s' : S) (new : List ℕ)
              → visit x s ≡ some (s', new)
              → Reach next seeds x
              → nat_in x visited ≡ false
              → P visited s
              → P (x ∷ visited) s')
          → (fuel : ℕ) (visited : List ℕ) (s : S) (pending : List ℕ) (id : ℕ)
          → IsWalk next seeds P visited s pending
          → walk visit extend fuel visited s pending ≡ unknown id
          → Reach next seeds id × ((t : S) × (visit id t ≡ none))
      unfolding walk
      walk_stops agrees keep zero visited s [] id w h = absurd (unknown-ne-finished (sym h))
      walk_stops agrees keep (suc fuel) visited s [] id w h = absurd (unknown-ne-finished (sym h))
      walk_stops agrees keep zero visited s (x ∷ pending) id w h =
          elim (Bool-cases (nat_in x visited)) [
            | inl old ↦
                walk_stops agrees keep zero visited s pending id
                  (IsWalk-skip x visited s pending old w) (rw (old, walk) at h)
            | inr new ↦ absurd (out-ne-unknown (rw (new, walk) at h))
          ]
      walk_stops agrees keep (suc fuel) visited s (x ∷ pending) id w h =
          elim (Bool-cases (nat_in x visited)) [
            | inl old ↦
                walk_stops agrees keep (suc fuel) visited s pending id
                  (IsWalk-skip x visited s pending old w) (rw (old, walk) at h)
            | inr new ↦ elim (Option-cases (visit x s)) [
              | inl absent ↦
                  let same : x ≡ id = unknown-injective (rw (new, absent, walk) at h) in
                  subst (λ i. Reach next seeds i × ((t : S) × (visit i t ≡ none))) same
                    (w.waiting x (or_left _ _ ((nat_beq_iff x x).1 refl)), (s, absent))
              | inr (made, found) ↦
                  let same : made.1 ≡ next x = agrees x s made.0 made.1 found in
                  let here : Reach next seeds x =
                    w.waiting x (or_left _ _ ((nat_beq_iff x x).1 refl)) in
                  walk_stops agrees keep fuel (x ∷ visited) made.0 (extend pending made.1) id
                    (subst (λ n. IsWalk next seeds P (x ∷ visited) made.0 (extend pending n))
                      (sym same)
                      (IsWalk-visit x visited s made.0 pending new
                        (keep x visited s made.0 made.1 found here new w.kept) w))
                    (rw (new, found, walk) at h)
            ]
          ]

  or_false : (a : Bool) → (a || false) ≡ true → a ≡ true
  or_false a h = ground arith

  reached_visited :
      (all : List ℕ) (end : S) {x : ℕ}
      → IsWalk next seeds P all end []
      → Reach next seeds x
      → nat_in x all ≡ true
  reached_visited all end {x} w (seed h) = or_false (nat_in x all) (w.started x h)
  reached_visited all end {x} w (step {x = y} r h) =
      or_false (nat_in x all) (w.closed y x (reached_visited all end w r) h)

  -- With nothing pending the sets visited are those that are reached.
  pub visited_iff :
      (all : List ℕ) (end : S) (x : ℕ)
      → IsWalk next seeds P all end []
      → (nat_in x all ≡ true) ↔ ∥ Reach next seeds x ∥₁
  visited_iff all end x w =
      (λ h. ∣ w.sound x h ∣₁, λ r. ∥∥₁_elim r (So-prop _) (λ p. reached_visited all end w p))
