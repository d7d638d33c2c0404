-- ===== src/AccountSet/Expand/Total.antt =====
-- The sets above an account: the loop ends, and finds exactly those of the journal.
use mathlib.Core.Path.{subst}
use cala.Prelude.{
  ℕ, suc, ◌≡◌, ◌≢◌, refl, sym, ◌∙◌, ◌↔◌, ◌||◌, ◌&&◌, Bool, true, false, not, Option, none, some,
  is_some, List, [], ◌∷◌, ◌++◌, length, if◌then◌else◌, nat_beq, nat_beq_iff, nat_eq, arith,
  Bool-cases, Option-cases, inl, inr,
}
use cala.Prelude.Map.{Map, get, keys}
use cala.Types.{AccountSetId, JournalId}
use cala.AccountSet.Graph.{SetMeta, GraphSnapshot, Overlay, meta_of, parents_of, or_else}
use cala.AccountSet.Walk.{nat_in, finished, unknown, out_of_fuel, Reach}
use cala.AccountSet.Walk.Ends.{walk_ends, unseen-le-length}
use cala.AccountSet.Walk.Reached.{
  IsNodup, in_cons, IsWalk, IsWalk-start, walk_rule, walk_stops, visited_iff, or_left, or_right,
  in_or,
}
use cala.AccountSet.Expand.{
  Found, nothing_found, queue_extend, collect, visit_set, known_sets, expand_account,
}

pub in-append : (x : ℕ) (xs ys : List ℕ) → nat_in x (xs ++ ys) ≡ (nat_in x xs || nat_in x ys)
in-append x [] ys = refl
in-append x (z ∷ xs) ys = ground (arith, in-append x xs ys)

key_of_get :
    {V : Type 0} (x : ℕ) (m : Map ℕ V) → is_some (get x m) ≡ true → nat_in x (keys m) ≡ true
key_of_get x [] h = cc
key_of_get x ((k, v) ∷ m) h = ground (arith, key_of_get x m)

some_of_or_else :
    {V : Type 0} (a b : Option V) → is_some (or_else a b) ≡ true → (is_some a || is_some b) ≡ true
some_of_or_else none b h = h
some_of_or_else (some v) b h = refl

pub IsNodup-snoc : (x : ℕ) (xs : List ℕ) → IsNodup xs → nat_in x xs ≡ false → IsNodup (xs ++ x ∷ [])
IsNodup-snoc x [] h new = (refl, tt)
IsNodup-snoc x (y ∷ xs) h new =
    ground (arith, in-append y xs (x ∷ []), IsNodup-snoc x xs h.1, nat_beq_iff x y, nat_beq_iff y x)

pub known_of_meta :
    (snapshot : GraphSnapshot) (overlay : Option Overlay) (x : ℕ)
    → is_some (meta_of snapshot overlay x) ≡ true
    → nat_in x (known_sets snapshot overlay) ≡ true
unfolding meta_of
known_of_meta snapshot none x h =
    in-append x (keys snapshot.meta) [] ∙ or_left _ _ (key_of_get x snapshot.meta h)
known_of_meta snapshot (some o) x h =
    in-append x (keys snapshot.meta) (keys o.meta)
    ∙ (elim (in_or _ _ (some_of_or_else (get x snapshot.meta) (get x o.meta) h)) [
      | inl before ↦ or_left _ _ (key_of_get x snapshot.meta before)
      | inr after ↦ or_right _ _ (key_of_get x o.meta after)
    ])

pair-injective :
    {A B : Type 0} {a a' : A} {b b' : B}
    → ◌≡◌ {A = Option (A × B)} (some (a, b)) (some (a', b'))
    → (a ≡ a') × (b ≡ b')
pair-injective h = (cc, cc)

or_nothing : (a : Bool) → (a || false) ≡ a
or_nothing a = ground arith

and_false : (a b : Bool) → (a && false) ≡ (b && false)
and_false a b = ground arith

-- A list of those visited that pass a test, after one more is visited.
keeps_in :
    (keep : ℕ → Bool) (x y : ℕ) (visited found : List ℕ) (b : Bool)
    → keep x ≡ b
    → nat_in y found ≡ (nat_in y visited && keep y)
    → nat_in y (if b then found ++ x ∷ [] else found) ≡ (nat_in y (x ∷ visited) && keep y)
keeps_in keep x y visited found true k h = elim (Bool-cases (nat_beq y x)) [
  | inl same ↦
      let here : keep y ≡ true = rw ((nat_beq_iff y x).0 same) k in
      in-append y found (x ∷ []) ∙ rw (same, here) (or_right _ _ refl)
  | inr other ↦ in-append y found (x ∷ []) ∙ rw (other, h) (or_nothing (nat_in y visited && keep y))
]
keeps_in keep x y visited found false k h = elim (Bool-cases (nat_beq y x)) [
  | inl same ↦
      let absent : keep y ≡ false = rw ((nat_beq_iff y x).0 same) k in
      h ∙ rw absent (and_false (nat_in y visited) (nat_in y (x ∷ visited)))
  | inr other ↦ rw (other, h) refl
]

none≢some : {A : Type 0} {a : A} → ◌≡◌ {A = Option A} none (some a) → ⊥
none≢some h = cc

both_iff :
    {P : Type 0} (a b c : Bool) → a ≡ (b && c) → ((b ≡ true) ↔ P) → (a ≡ true) ↔ (P × (c ≡ true))
both_iff a true c h i = (λ e. (i.0 refl, sym h ∙ e), λ p. h ∙ p.1)
both_iff a false c h i = (λ e. absurd (cc (sym h ∙ e)), λ p. absurd (cc (i.1 p.0)))

module _ (snapshot : GraphSnapshot) (overlay : Option Overlay) (journal_id : JournalId) where
  abbrev next : ℕ → List ℕ
  next = parents_of snapshot overlay

  -- Is it a set of the journal, and is its balance kept inline?
  abbrev pub is_of_journal : AccountSetId → Bool
  is_of_journal id = elim (meta_of snapshot overlay id) [
    | none ↦ false
    | some meta ↦ nat_beq meta.journal_id journal_id
  ]

  abbrev pub is_inline_set : AccountSetId → Bool
  is_inline_set id = elim (meta_of snapshot overlay id) [
    | none ↦ false
    | some meta ↦ nat_beq meta.journal_id journal_id && not meta.eventually_consistent
  ]

  -- What was found among the sets visited.
  pub record IsFound (visited : List ℕ) (found : Found) : Type 0 where
    pub own : (x : ℕ) → nat_in x found.ancestors ≡ (nat_in x visited && is_of_journal x)
    pub inline : (x : ℕ) → nat_in x found.non_ec ≡ (nat_in x visited && is_inline_set x)
    pub nodup : IsNodup found.ancestors
    pub known : (x : ℕ) → nat_in x visited ≡ true → is_some (meta_of snapshot overlay x) ≡ true

  collect_ancestors :
      (x : ℕ) (s : Found) (meta : SetMeta) (y : ℕ)
      → nat_in y (collect snapshot overlay journal_id x meta s).ancestors
        ≡ nat_in y
            (if nat_beq meta.journal_id journal_id then s.ancestors ++ x ∷ [] else s.ancestors)
  unfolding collect
  collect_ancestors x s meta y = ground arith

  collect_non_ec :
      (x : ℕ) (s : Found) (meta : SetMeta) (y : ℕ)
      → nat_in y (collect snapshot overlay journal_id x meta s).non_ec
        ≡ nat_in y (
            if nat_beq meta.journal_id journal_id && not meta.eventually_consistent
            then s.non_ec ++ x ∷ []
            else s.non_ec)
  unfolding collect
  collect_non_ec x s meta y = ground arith

  IsFound-collect :
      (x : ℕ) (visited : List ℕ) (s : Found) (meta : SetMeta)
      → meta_of snapshot overlay x ≡ some meta
      → nat_in x visited ≡ false
      → IsFound visited s
      → IsFound (x ∷ visited) (collect snapshot overlay journal_id x meta s)
  unfolding collect
  IsFound-collect x visited s meta found fresh f = record {
    own = λ y.
        collect_ancestors x s meta y
        ∙ keeps_in is_of_journal x y visited s.ancestors (nat_beq meta.journal_id journal_id)
            (rw (is_of_journal, found) refl) (f.own y);
    inline = λ y.
        collect_non_ec x s meta y
        ∙ keeps_in is_inline_set x y visited s.non_ec
            (nat_beq meta.journal_id journal_id && not meta.eventually_consistent)
            (rw (is_inline_set, found) refl) (f.inline y);
    nodup = elim (Bool-cases (nat_beq meta.journal_id journal_id)) [
      | inl own ↦ rw own (IsNodup-snoc x s.ancestors f.nodup (f.own x ∙ rw fresh refl))
      | inr other ↦ rw other f.nodup
    ];
    known = λ y h. elim (in_cons y x visited h) [
      | inl same ↦ rw (same, found) refl
      | inr old ↦ f.known y old
    ];
  }

  IsFound-visit :
      (x : ℕ) (visited : List ℕ) (s s' : Found) (new : List ℕ)
      → visit_set snapshot overlay journal_id x s ≡ some (s', new)
      → nat_in x visited ≡ false
      → IsFound visited s
      → IsFound (x ∷ visited) s'
  unfolding visit_set
  IsFound-visit x visited s s' new h fresh f = elim (Option-cases (meta_of snapshot overlay x)) [
    | inl absent ↦ absurd (none≢some (rw (absent, visit_set) at h))
    | inr (meta, found) ↦
        let (same, _) = pair-injective (rw (found, visit_set) at h) in
        subst (IsFound (x ∷ visited)) same (IsFound-collect x visited s meta found fresh f)
  ]

  agrees :
      (x : ℕ) (s s' : Found) (new : List ℕ)
      → visit_set snapshot overlay journal_id x s ≡ some (s', new)
      → new ≡ next x
  unfolding visit_set
  agrees x s s' new h = elim (Option-cases (meta_of snapshot overlay x)) [
    | inl absent ↦ absurd (none≢some (rw (absent, visit_set) at h))
    | inr (meta, found) ↦ sym (pair-injective (rw (found, visit_set) at h)).1
  ]

  known_of_visit :
      (x : ℕ) (s : Found)
      → is_some (visit_set snapshot overlay journal_id x s) ≡ true
      → nat_in x (known_sets snapshot overlay) ≡ true
  unfolding visit_set
  known_of_visit x s h = known_of_meta snapshot overlay x (ground arith)

  unknown_of_visit :
      (x : ℕ) (s : Found)
      → visit_set snapshot overlay journal_id x s ≡ none
      → meta_of snapshot overlay x ≡ none
  unfolding visit_set
  unknown_of_visit x s h = elim (Option-cases (meta_of snapshot overlay x)) [
    | inl absent ↦ absent
    | inr (meta, found) ↦ absurd (none≢some (sym (rw (found, visit_set) at h)))
  ]

  pub expand_account_ends :
      (seeds : List ℕ) → expand_account snapshot overlay journal_id seeds ≢ out_of_fuel
  unfolding expand_account
  expand_account_ends seeds =
      let known = known_sets snapshot overlay in
      walk_ends (visit_set snapshot overlay journal_id) queue_extend known known_of_visit
        (suc (length known)) [] nothing_found seeds (omega (arith, unseen-le-length [] known))

  start : (seeds : List ℕ) → IsWalk next seeds IsFound [] nothing_found seeds
  start seeds =
      IsWalk-start next seeds IsFound nothing_found
        (record { own = λ x. refl; inline = λ x. refl; nodup = tt; known = λ x h. cc })

  pub expand_account_stops :
      (seeds : List ℕ) (id : ℕ)
      → expand_account snapshot overlay journal_id seeds ≡ unknown id
      → Reach next seeds id × (meta_of snapshot overlay id ≡ none)
  unfolding expand_account
  expand_account_stops seeds id h =
      let (reached, (s, absent)) =
        walk_stops next seeds IsFound queue_extend in-append (visit_set snapshot overlay journal_id)
          agrees (λ x visited s s' new e _ fresh f. IsFound-visit x visited s s' new e fresh f)
          (suc (length (known_sets snapshot overlay))) [] nothing_found seeds id (start seeds) h in
      (reached, unknown_of_visit id s absent)

  -- The sets above direct sets are those of the journal that are reached.
  pub record IsExpanded (seeds : List ℕ) (found : Found) : Type 0 where
    pub own :
        (x : ℕ)
        → (nat_in x found.ancestors ≡ true) ↔ (∥ Reach next seeds x ∥₁ × (is_of_journal x ≡ true))
    pub inline :
        (x : ℕ)
        → (nat_in x found.non_ec ≡ true) ↔ (∥ Reach next seeds x ∥₁ × (is_inline_set x ≡ true))
    pub nodup : IsNodup found.ancestors
    pub known : (x : ℕ) → Reach next seeds x → is_some (meta_of snapshot overlay x) ≡ true

  pub expand_account-IsExpanded :
      (seeds visited : List ℕ) (found : Found)
      → expand_account snapshot overlay journal_id seeds ≡ finished visited found
      → IsExpanded seeds found
  unfolding expand_account
  expand_account-IsExpanded seeds visited found h =
      let w =
        walk_rule next seeds IsFound queue_extend in-append (visit_set snapshot overlay journal_id)
          agrees (λ x visited s s' new e _ fresh f. IsFound-visit x visited s s' new e fresh f)
          (suc (length (known_sets snapshot overlay))) [] nothing_found seeds visited found
          (start seeds) h in
      let f : IsFound visited found = w.kept in
      record {
        own = λ x.
            both_iff (nat_in x found.ancestors) (nat_in x visited) (is_of_journal x) (f.own x)
              (visited_iff next seeds IsFound visited found x w);
        inline = λ x.
            both_iff (nat_in x found.non_ec) (nat_in x visited) (is_inline_set x) (f.inline x)
              (visited_iff next seeds IsFound visited found x w);
        nodup = f.nodup;
        known = λ x r. f.known x ((visited_iff next seeds IsFound visited found x w).1 ∣ r ∣₁);
      }
