-- ===== src/AccountSet/Paths/Counted.antt =====
-- The walk of one account against the levels of the graph above it.
use mathlib.Core.Path.{subst}
use mathlib.Core.List.{append-nil, append_assoc}
use cala.Prelude.{
  ℕ, zero, suc, ◌<◌, ◌≡◌, refl, sym, ap, ◌∙◌, true, false, Option, none, some, is_some, List, [],
  ◌∷◌, ◌++◌, if◌then◌else◌, nat_beq_iff, nat_eq, beq_refl, arith, Bool-cases, Option-cases, inl,
  inr, length,
}
use cala.Prelude.Map.{Map, get, insert, get-insert}
use cala.AccountSet.Walk.{nat_in}
use cala.AccountSet.Walk.Ends.{unseen, unseen-visit, unseen-le-length}
use cala.AccountSet.Walk.Reached.{IsNodup, in_or, in_cons}
use cala.AccountSet.Expand.Total.{in-append, IsNodup-snoc}
use cala.AccountSet.Paths.{
  PathCheck, duplicate_path, unique_paths, not_known, never_counted, count_paths,
}

-- The parents of a set, where they are known.
abbrev pub known_parents : (ℕ → Option (List ℕ)) → ℕ → List ℕ
known_parents parents_of x = elim (parents_of x) [ none ↦ [] | some ps ↦ ps ]

abbrev pub all_parents : (ℕ → List ℕ) → List ℕ → List ℕ
all_parents p [] = []
all_parents p (x ∷ xs) = p x ++ all_parents p xs

-- The ends of the paths of `k` edges from the seeds, as often as there are paths.
abbrev pub level : (ℕ → List ℕ) → List ℕ → ℕ → List ℕ
level p seeds zero = seeds
level p seeds (suc k) = all_parents p (level p seeds k)

-- The ends of the paths of fewer than `k` edges.
abbrev pub containers : (ℕ → List ℕ) → List ℕ → ℕ → List ℕ
containers p seeds zero = []
containers p seeds (suc k) = containers p seeds k ++ level p seeds k

-- What each answer says of the paths from the seeds: there is an end of two; or they end, no two at
-- one set, and all at known sets; or one ends at a set that is not known.
abbrev pub Says : (ℕ → Option (List ℕ)) → List ℕ → PathCheck → Type 0
Says parents_of seeds duplicate_path =
    (k : ℕ) × (¬ IsNodup (containers (known_parents parents_of) seeds k))
Says parents_of seeds unique_paths =
    (k : ℕ) × (level (known_parents parents_of) seeds k ≡ [])
    × IsNodup (containers (known_parents parents_of) seeds k)
    × ((id : ℕ)
        → nat_in id (containers (known_parents parents_of) seeds k) ≡ true
        → is_some (parents_of id) ≡ true)
Says parents_of seeds not_known =
    (k : ℕ) × (id : ℕ) × (nat_in id (level (known_parents parents_of) seeds k) ≡ true)
    × (parents_of id ≡ none)
Says parents_of seeds never_counted = ⊥

all_parents-append :
    (p : ℕ → List ℕ) (xs ys : List ℕ)
    → all_parents p (xs ++ ys) ≡ all_parents p xs ++ all_parents p ys
all_parents-append p [] ys = refl
all_parents-append p (x ∷ xs) ys =
    ap (λ zs. p x ++ zs) (all_parents-append p xs ys)
    ∙ sym (append_assoc (p x) (all_parents p xs) (all_parents p ys))

repeated : (x : ℕ) (xs ys : List ℕ) → nat_in x xs ≡ true → IsNodup (xs ++ x ∷ ys) → ⊥
repeated x [] ys h n = cc
repeated x (y ∷ xs) ys h n =
    ground (arith, repeated x xs ys, in-append y xs (x ∷ ys), nat_beq_iff x y, beq_refl y)

in_middle : (x : ℕ) (xs ys : List ℕ) → nat_in x (xs ++ x ∷ ys) ≡ true
in_middle x xs ys = in-append x xs (x ∷ ys) ∙ ground (arith, beq_refl x)

pub unseen_snoc : (xs us : List ℕ) (x : ℕ) → unseen (xs ++ x ∷ []) us ≡ unseen (x ∷ xs) us
unseen_snoc xs [] x = refl
unseen_snoc xs (u ∷ us) x = ground (arith, unseen_snoc xs us x, in-append u xs (x ∷ []))

-- The counts are one for what was seen.
abbrev IsCount : Map ℕ ℕ → List ℕ → Type 0
IsCount counts seen = (x : ℕ) → get x counts ≡ (if nat_in x seen then some 1 else none)

IsCount-snoc :
    (counts : Map ℕ ℕ) (seen : List ℕ) (x : ℕ)
    → IsCount counts seen
    → IsCount (insert x 1 counts) (seen ++ x ∷ [])
IsCount-snoc counts seen x h y = ground (
  arith,
  get-insert x y 1 counts,
  h y,
  in-append y seen (x ∷ []),
  nat_beq_iff x y,
  nat_beq_iff y x,
)

module _ (parents_of : ℕ → Option (List ℕ)) (seeds universe : List ℕ)
    (known : (x : ℕ) → is_some (parents_of x) ≡ true → nat_in x universe ≡ true) where
  abbrev p : ℕ → List ℕ
  p = known_parents parents_of

  -- The state of the walk: so many levels are past, and so much of the next one.
  record IsState (k : ℕ) (done rest seen : List ℕ) (counts : Map ℕ ℕ) : Type 0 where
    here : level p seeds k ≡ done ++ rest
    past : seen ≡ containers p seeds k ++ done
    nodup : IsNodup seen
    count : IsCount counts seen
    known_seen : (y : ℕ) → nat_in y seen ≡ true → is_some (parents_of y) ≡ true

  -- What the walk is to show with some fuel, where something waits.
  abbrev Walks : ℕ → Type 0
  Walks fuel =
      (k : ℕ) (done : List ℕ) (x : ℕ) (rest seen : List ℕ) (counts : Map ℕ ℕ)
      → IsState k done (x ∷ rest) seen counts
      → unseen seen universe < fuel
      → Says parents_of seeds
          (count_paths parents_of fuel counts (x ∷ (rest ++ all_parents p done)))

  no_queue : (fuel : ℕ) (counts : Map ℕ ℕ) → count_paths parents_of fuel counts [] ≡ unique_paths
  unfolding count_paths
  no_queue zero counts = refl
  no_queue (suc fuel) counts = refl

  -- A level that is done is followed by the next one.
  next_level :
      (k : ℕ) (done seen : List ℕ) (counts : Map ℕ ℕ)
      → IsState k done [] seen counts
      → IsState (suc k) [] (all_parents p done) seen counts
  next_level k done seen counts s =
      let level_done : level p seeds k ≡ done = s.here ∙ append-nil done in
      record {
        here = ap (all_parents p) level_done;
        past =
            s.past
            ∙ ap (λ xs. containers p seeds k ++ xs) (sym level_done)
            ∙ sym (append-nil (containers p seeds k ++ level p seeds k));
        nodup = s.nodup;
        count = s.count;
        known_seen = s.known_seen;
      }

  next-Walks :
      (fuel : ℕ) (k : ℕ) (queue seen : List ℕ) (counts : Map ℕ ℕ)
      → Walks fuel
      → IsState k [] queue seen counts
      → unseen seen universe < fuel
      → Says parents_of seeds (count_paths parents_of fuel counts queue)
  next-Walks fuel k [] seen counts walks s enough = rw (no_queue fuel counts) (
    k,
    s.here,
    subst IsNodup (s.past ∙ append-nil (containers p seeds k)) s.nodup,
    λ y h. s.known_seen y (ap (nat_in y) (s.past ∙ append-nil (containers p seeds k)) ∙ h),
  )
  next-Walks fuel k (x ∷ queue) seen counts walks s enough =
      subst (λ q. Says parents_of seeds (count_paths parents_of fuel counts (x ∷ q)))
        (append-nil queue) (walks k [] x queue seen counts s enough)

  later-Walks :
      (fuel : ℕ) (k : ℕ) (done rest seen : List ℕ) (counts : Map ℕ ℕ)
      → Walks fuel
      → IsState k done rest seen counts
      → unseen seen universe < fuel
      → Says parents_of seeds (count_paths parents_of fuel counts (rest ++ all_parents p done))
  later-Walks fuel k done [] seen counts walks s enough =
      next-Walks fuel (suc k) (all_parents p done) seen counts walks
        (next_level k done seen counts s) enough
  later-Walks fuel k done (x ∷ rest) seen counts walks s enough =
      walks k done x rest seen counts s enough

  -- After a set is counted.
  IsState-count :
      (k : ℕ) (done : List ℕ) (x : ℕ) (rest seen : List ℕ) (counts : Map ℕ ℕ)
      → IsState k done (x ∷ rest) seen counts
      → nat_in x seen ≡ false
      → is_some (parents_of x) ≡ true
      → IsState k (done ++ x ∷ []) rest (seen ++ x ∷ []) (insert x 1 counts)
  IsState-count k done x rest seen counts s new fine = record {
    here = s.here ∙ sym (append_assoc done (x ∷ []) rest);
    past = ap (λ xs. xs ++ x ∷ []) s.past ∙ append_assoc (containers p seeds k) done (x ∷ []);
    nodup = IsNodup-snoc x seen s.nodup new;
    count = IsCount-snoc counts seen x s.count;
    known_seen = λ y h. elim (in_or (nat_in y seen) _ (sym (in-append y seen (x ∷ [])) ∙ h)) [
      | inl old ↦ s.known_seen y old
      | inr last ↦ elim (in_cons y x [] last) [
        | inl same ↦ rw same fine
        | inr none_left ↦ absurd (cc none_left)
      ]
    ];
  }

  parents_found : (x : ℕ) (parents : List ℕ) → parents_of x ≡ some parents → p x ≡ parents
  parents_found x parents found = rw (known_parents, found) refl

  queue_then :
      (done rest parents : List ℕ) (x : ℕ)
      → parents_of x ≡ some parents
      → (rest ++ all_parents p done) ++ parents ≡ rest ++ all_parents p (done ++ x ∷ [])
  queue_then done rest parents x found =
      append_assoc rest (all_parents p done) parents
      ∙ ap (λ xs. rest ++ xs)
          (sym (
            all_parents-append p done (x ∷ [])
            ∙ ap (λ xs. all_parents p done ++ xs)
                (append-nil (p x) ∙ parents_found x parents found)))

  twice :
      (k : ℕ) (done : List ℕ) (x : ℕ) (rest seen : List ℕ) (counts : Map ℕ ℕ)
      → IsState k done (x ∷ rest) seen counts
      → nat_in x seen ≡ true
      → ¬ IsNodup (containers p seeds (suc k))
  twice k done x rest seen counts s again n = repeated x seen rest again (
      subst IsNodup
        (ap (λ xs. containers p seeds k ++ xs) s.here
          ∙ sym (append_assoc (containers p seeds k) done (x ∷ rest))
          ∙ ap (λ xs. xs ++ x ∷ rest) (sym s.past))
        n)

  walk_lem : (fuel : ℕ) → Walks fuel
  unfolding count_paths
  walk_lem zero k done x rest seen counts s enough = absurd (omega arith)
  walk_lem (suc fuel) k done x rest seen counts s enough = elim (Option-cases (parents_of x)) [
    | inl absent ↦ rw (absent, count_paths) (k, x, rw s.here (in_middle x done rest), absent)
    | inr (parents, found) ↦ elim (Bool-cases (nat_in x seen)) [
      | inl again ↦
          let counted : get x counts ≡ some 1 = s.count x ∙ rw again refl in
          rw (found, counted, count_paths) (suc k, twice k done x rest seen counts s again)
      | inr new ↦
          let counted : get x counts ≡ none = s.count x ∙ rw new refl in
          rw (found, counted, count_paths)
            (subst (λ q. Says parents_of seeds (count_paths parents_of fuel (insert x 1 counts) q))
              (sym (queue_then done rest parents x found))
              (later-Walks fuel k (done ++ x ∷ []) rest (seen ++ x ∷ []) (insert x 1 counts)
                (walk_lem fuel) (IsState-count k done x rest seen counts s new (rw found refl))
                (omega (
                  arith,
                  unseen_snoc seen universe x,
                  unseen-visit seen universe x (known x (rw found refl)) new,
                ))))
    ]
  ]

  pub count_paths-Says :
      (fuel : ℕ)
      → length universe < fuel
      → Says parents_of seeds (count_paths parents_of fuel [] seeds)
  count_paths-Says fuel enough =
      next-Walks fuel 0 seeds [] [] (walk_lem fuel)
        (record { here = refl; past = refl; nodup = tt; count = λ x. refl; known_seen = λ x h. cc })
        (omega (arith, unseen-le-length [] universe))
