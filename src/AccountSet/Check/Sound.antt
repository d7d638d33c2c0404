-- ===== src/AccountSet/Check/Sound.antt =====
-- Members that are accepted in memory are reached by one path each in the committed graph.
use mathlib.Core.Path.{subst}
use cala.Prelude.{
  ℕ, zero, suc, ◌≡◌, refl, sym, ap, ◌∙◌, ◌⊎◌, true, Option, none, is_some, List, [], ◌∷◌, ◌++◌,
  length, Result, ok, err, nat_eq, beq_refl, arith, Bool-cases, inl, inr,
}
use cala.Prelude.Int.{pos}
use cala.Types.{AccountId, AccountSetId}
use cala.Posting.{AccountMembership}
use cala.AccountSet.Graph.{GraphSnapshot, Overlay, meta_of, parents_of}
use cala.AccountSet.Walk.{nat_in}
use cala.AccountSet.Walk.Reached.{IsNodup, or_left, or_right}
use cala.AccountSet.Expand.Total.{in-append, known_of_meta}
use cala.AccountSet.Expand.Ancestors.{direct}
use cala.AccountSet.Expand.{known_sets}
use cala.AccountSet.Paths.{
  PathCheck, duplicate_path, unique_paths, not_known, never_counted,
  has_duplicate_account_membership_paths,
}
use cala.AccountSet.Paths.Counted.{Says, known_parents, all_parents, level, containers}
use cala.AccountSet.Paths.Unique.{SaysOfAll, has_duplicate-SaysOfAll}
use cala.AccountSet.Cache.{epoch_beq, missing_sets, overlay_for, fetch_nodes, World, Run}
use cala.AccountSet.Cache.Coherent.{Run-IsCoherent}
use cala.AccountSet.Cache.Current.{epoch_beq-eq, committed, parents-current}
use cala.AccountSet.Check.{
  AccountSetError, member_already_added, parents_if_known, assert_no_double_membership,
}

-- From a list of sets the paths end, and no two end at one set.
abbrev pub ReachedOnce : (ℕ → List ℕ) → List ℕ → Type 0
ReachedOnce parents sets =
    (k : ℕ) × (level parents sets k ≡ []) × IsNodup (containers parents sets k)

all_parents-same :
    (p q : ℕ → List ℕ) (xs : List ℕ)
    → ((x : ℕ) → nat_in x xs ≡ true → p x ≡ q x)
    → all_parents p xs ≡ all_parents q xs
all_parents-same p q [] h = refl
all_parents-same p q (x ∷ xs) h =
    ap (λ ps. ps ++ all_parents p xs) (h x (or_left _ _ (beq_refl x)))
    ∙ ap (λ ps. q x ++ ps) (all_parents-same p q xs (λ y m. h y (or_right _ _ m)))

levels_same :
    (p q : ℕ → List ℕ) (seeds : List ℕ) (k : ℕ)
    → ((x : ℕ) → nat_in x (containers p seeds k) ≡ true → p x ≡ q x)
    → (containers p seeds k ≡ containers q seeds k) × (level p seeds k ≡ level q seeds k)
levels_same p q seeds zero h = (refl, refl)
levels_same p q seeds (suc k) h =
    let (past, here) =
      levels_same p q seeds k
        (λ x m. h x (in-append x (containers p seeds k) (level p seeds k) ∙ or_left _ _ m)) in
    (
      ap (λ cs. cs ++ level p seeds k) past ∙ ap (λ xs. containers q seeds k ++ xs) here,
      all_parents-same p q (level p seeds k)
            (λ x m. h x (in-append x (containers p seeds k) (level p seeds k) ∙ or_right _ _ m))
          ∙ ap (all_parents q) here,
    )

module _ (snapshot : GraphSnapshot) (overlay : Option Overlay) where
  parents_known :
      (x : ℕ)
      → is_some (parents_if_known snapshot overlay x) ≡ true
      → is_some (meta_of snapshot overlay x) ≡ true
  unfolding parents_if_known
  parents_known x h = ground arith

  same_as_known :
      (x : ℕ)
      → is_some (parents_if_known snapshot overlay x) ≡ true
      → known_parents (parents_if_known snapshot overlay) x ≡ parents_of snapshot overlay x
  unfolding parents_if_known
  same_as_known x h =
      let found = parents_known x h in rw (known_parents, found, parents_if_known) refl

  known_of_parents :
      (x : ℕ)
      → is_some (parents_if_known snapshot overlay x) ≡ true
      → nat_in x (known_sets snapshot overlay) ≡ true
  known_of_parents x h = known_of_meta snapshot overlay x (parents_known x h)

  -- What is counted over the known sets is so of the whole graph, where its parents are the same.
  reached_once :
      (parents : ℕ → List ℕ) (seeds : List ℕ)
      → ((x : ℕ) → parents_of snapshot overlay x ≡ parents x)
      → Says (parents_if_known snapshot overlay) seeds unique_paths
      → ReachedOnce parents seeds
  reached_once parents seeds same (k, ends, once, known) =
      let p = known_parents (parents_if_known snapshot overlay) in
      let (c, l) = levels_same p parents seeds k (λ x m. same_as_known x (known x m) ∙ same x) in
      (k, sym l ∙ ends, subst IsNodup c once)

err-ne-ok : {E : Type 0} {e : E} → ◌≡◌ {A = Result (Unit {0}) E} (err e) (ok tt) → ⊥
err-ne-ok h = cc

accepted_cases :
    (r : PathCheck) (sql : Result (Unit {0}) AccountSetError) {P : Type 0}
    → (r ≡ unique_paths → P)
    → (elim r [
      | unique_paths ↦ ok tt
      | duplicate_path ↦ err member_already_added
      | not_known ↦ sql
      | never_counted ↦ sql
    ])
      ≡ ok tt
    → (sql ≡ ok tt) ⊎ P
accepted_cases unique_paths sql p h = inr (p refl)
accepted_cases duplicate_path sql p h = absurd (err-ne-ok h)
accepted_cases not_known sql p h = inl h
accepted_cases never_counted sql p h = inl h

-- Where new members are accepted at the epoch of the database, whatever happened before: either the
-- walk in SQL accepts them, or in the committed graph the membership paths of every account,
-- through the new and the existing direct memberships, end, and no two of one account at one set.
pub assert_no_double_membership-ReachedOnce :
    {w : World} (run : Run w)
    (walk_sql : List AccountMembership → Result (Unit {0}) AccountSetError)
    (seeds members : List AccountMembership)
    → assert_no_double_membership (fetch_nodes w.db) walk_sql w.cache (pos w.db.epoch) seeds members
      ≡ ok tt
    → (walk_sql members ≡ ok tt)
      ⊎ ((a : AccountId)
          → ReachedOnce (parents_of (committed w.db) none) (direct a (members ++ seeds)))
unfolding assert_no_double_membership
assert_no_double_membership-ReachedOnce {w} run walk_sql seeds members h =
    let c = Run-IsCoherent run in
    let missing = missing_sets w.cache (members ++ seeds) in
    let overlay = overlay_for (fetch_nodes w.db) missing in
    let parents_of' = parents_if_known w.cache overlay in
    let fuel = suc (length (known_sets w.cache overlay)) in
    let answer = has_duplicate_account_membership_paths parents_of' fuel members seeds in
    elim (Bool-cases (epoch_beq w.cache.epoch (pos w.db.epoch))) [
      | inr stale ↦ inl (rw stale at h)
      | inl fresh ↦
          let epoch : c.source.epoch ≡ pos w.db.epoch =
            sym (ap (λ k. k.epoch) c.cached) ∙ epoch_beq-eq w.cache.epoch (pos w.db.epoch) fresh in
          let parents = λ (x : AccountSetId).
            subst (λ k. parents_of k overlay x ≡ parents_of (committed w.db) none x) (sym c.cached)
              (parents-current c.source w.db missing x c.current epoch) in
          accepted_cases answer (walk_sql members)
            (λ unique a.
              reached_once w.cache overlay (parents_of (committed w.db) none)
                (direct a (members ++ seeds)) parents
                ((subst (SaysOfAll parents_of' (λ b. direct b (members ++ seeds))) unique (
                    has_duplicate-SaysOfAll parents_of' (known_sets w.cache overlay)
                      (known_of_parents w.cache overlay) fuel members seeds (omega arith)))
                  a))
            (rw fresh at h)
    ]
