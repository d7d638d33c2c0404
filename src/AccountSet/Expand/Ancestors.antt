-- ===== src/AccountSet/Expand/Ancestors.antt =====
-- The mappings and the locks of a posting, over all its accounts.
use mathlib.Core.Path.{subst}
use mathlib.Core.Logic.{∥∥₁_elim}
use mathlib.Core.List.{append-nil, append_assoc}
use cala.Prelude.{
  ℕ, ◌≡◌, ◌≢◌, refl, sym, ap, ◌∙◌, false, Option, none, some, List, [], ◌∷◌, ◌++◌, if◌then◌else◌,
  nat_beq, nat_beq_iff, nat_eq, beq_refl, arith, Bool-cases, Option-cases, inl, inr, list_or_empty,
}
use cala.Prelude.Map.{
  get, insert, IsUnique, insert-IsUnique, get-insert_same, get-insert_ne, beq_of_get,
}
use cala.Prelude.Order.{nat_order, pair_order}
use cala.Types.{AccountId, AccountSetId, JournalId}
use cala.Posting.{AccountMembership}
use cala.AccountSet.Graph.{GraphSnapshot, Overlay, push_value, meta_of, parents_of}
use cala.AccountSet.Walk.{Walked, finished, unknown, out_of_fuel, Reach, seed, step}
use cala.AccountSet.Expand.{Found, Mappings, group_seeds, insert_found, expand_account, expand_each}
use cala.AccountSet.Expand.Total.{
  IsExpanded, expand_account-IsExpanded, expand_account_ends, expand_account_stops,
}

-- The sets that an account is a direct member of.
abbrev pub direct : AccountId → List AccountMembership → List AccountSetId
direct a [] = []
direct a (s ∷ seeds) =
    if nat_beq a s.account_id then s.account_set_id ∷ direct a seeds else direct a seeds

pub group_seeds-IsUnique :
    (m : Mappings) (seeds : List AccountMembership) → IsUnique m → IsUnique (group_seeds m seeds)
unfolding group_seeds push_value
group_seeds-IsUnique m [] h = h
group_seeds-IsUnique m (s ∷ seeds) h =
    group_seeds-IsUnique (push_value s.account_id s.account_set_id m) seeds (
      insert-IsUnique s.account_id (list_or_empty (get s.account_id m) ++ s.account_set_id ∷ []) m
        h)

pub get-group_seeds :
    (a : AccountId) (m : Mappings) (seeds : List AccountMembership)
    → list_or_empty (get a (group_seeds m seeds)) ≡ list_or_empty (get a m) ++ direct a seeds
unfolding group_seeds push_value
get-group_seeds a m [] = sym (append-nil (list_or_empty (get a m)))
get-group_seeds a m (s ∷ seeds) =
    let k = s.account_id in
    let x = s.account_set_id in
    let vs = list_or_empty (get k m) ++ x ∷ [] in
    get-group_seeds a (insert k vs m) seeds ∙ (elim (Bool-cases (nat_beq a k)) [
      | inl same ↦
          rw (get-insert_same k a vs m same, same)
            (rw (← (nat_beq_iff a k).0 same)
              (append_assoc (list_or_empty (get a m)) (x ∷ []) (direct a seeds)))
      | inr other ↦ rw (get-insert_ne k a vs m other, other) refl
    ])

-- What an account has after its sets are inserted.
get-insert_found_same :
    (a : AccountId) (sets : List AccountSetId) (m : Mappings)
    → get a m ≡ none
    → list_or_empty (get a (insert_found a sets m)) ≡ sets
get-insert_found_same a [] m h = rw h refl
get-insert_found_same a (s ∷ sets) m h = rw (get-insert_same a a (s ∷ sets) m (beq_refl a)) refl

get-insert_found_ne :
    (k a : AccountId) (sets : List AccountSetId) (m : Mappings)
    → nat_beq a k ≡ false
    → get a (insert_found k sets m) ≡ get a m
get-insert_found_ne k a [] m h = refl
get-insert_found_ne k a (s ∷ sets) m h = get-insert_ne k a (s ∷ sets) m h

absent_later :
    (a k : AccountId) (seeds : List AccountSetId) (accounts : Mappings)
    → get a ((k, seeds) ∷ accounts) ≡ none
    → (nat_beq a k ≡ false) × (get a accounts ≡ none)
absent_later a k seeds accounts h = ground arith

finished-injective :
    {S : Type 0} {v v' : List ℕ} {s s' : S} → finished v s ≡ finished v' s' → s ≡ s'
finished-injective h = cc

out-ne-finished :
    {S : Type 0} {v : List ℕ} {s : S} → ◌≡◌ {A = Walked S} out_of_fuel (finished v s) → ⊥
out-ne-finished h = cc

out-ne-unknown : {S : Type 0} {x : ℕ} → ◌≡◌ {A = Walked S} out_of_fuel (unknown x) → ⊥
out-ne-unknown h = cc

unknown-injective : {S : Type 0} {x y : ℕ} → ◌≡◌ {A = Walked S} (unknown x) (unknown y) → x ≡ y
unknown-injective h = cc

get_first :
    (k : AccountId) (sets : List AccountSetId) (m : Mappings) → get k ((k, sets) ∷ m) ≡ some sets
get_first k sets m = rw (beq_refl k) refl

unknown-ne-finished : {S : Type 0} {x : ℕ} {v : List ℕ} {s : S} → unknown x ≡ finished v s → ⊥
unknown-ne-finished h = cc

module _ (snapshot : GraphSnapshot) (overlay : Option Overlay) (journal_id : JournalId) where
  -- What both maps hold for an account.
  abbrev pub found_of : Mappings × Mappings → AccountId → Found
  found_of done a = record {
    ancestors = list_or_empty (get a done.0);
    non_ec = list_or_empty (get a done.1);
  }

  data Ending (seeds : List AccountSetId) : Type 0 where
    stops : (id : ℕ) → expand_account snapshot overlay journal_id seeds ≡ unknown id → Ending seeds
    ends :
        (visited : List ℕ) (found : Found)
        → expand_account snapshot overlay journal_id seeds ≡ finished visited found
        → Ending seeds

  expand_account-Ending :
      (seeds : List AccountSetId) (w : Walked Found)
      → expand_account snapshot overlay journal_id seeds ≡ w
      → Ending seeds
  expand_account-Ending seeds (unknown id) h = stops id h
  expand_account-Ending seeds (finished visited found) h = ends visited found h
  expand_account-Ending seeds out_of_fuel h =
      absurd (expand_account_ends snapshot overlay journal_id seeds h)

  expand_each_cons :
      (k : AccountId) (seeds : List AccountSetId) (accounts m n : Mappings) (visited : List ℕ)
      (done : Mappings × Mappings)
      → expand_each snapshot overlay journal_id ((k, seeds) ∷ accounts) m n ≡ finished visited done
      → (found : Found) × IsExpanded snapshot overlay journal_id seeds found
        × (expand_each snapshot overlay journal_id accounts
              (insert_found k found.ancestors m)
              (insert_found k found.non_ec n)
            ≡ finished visited done)
  unfolding expand_each
  expand_each_cons k seeds accounts m n visited done h = elim (expand_account-Ending seeds _ refl) [
    | stops id e ↦ absurd (unknown-ne-finished (rw (e, expand_each) at h))
    | ends seen found e ↦ (
      found,
      expand_account-IsExpanded snapshot overlay journal_id seeds seen found e,
      rw (e, expand_each) at h,
    )
  ]

  expand_each_others :
      (accounts m n : Mappings) (visited : List ℕ) (done : Mappings × Mappings) (a : AccountId)
      → expand_each snapshot overlay journal_id accounts m n ≡ finished visited done
      → get a accounts ≡ none
      → (get a done.0 ≡ get a m) × (get a done.1 ≡ get a n)
  unfolding expand_each
  expand_each_others [] m n visited done a h absent =
      let e = finished-injective h in (ap (λ d. get a d.0) (sym e), ap (λ d. get a d.1) (sym e))
  expand_each_others ((k, seeds) ∷ accounts) m n visited done a h absent =
      let (found, _, rest) = expand_each_cons k seeds accounts m n visited done h in
      let (other, later) = absent_later a k seeds accounts absent in
      let (l, r) =
        expand_each_others accounts (insert_found k found.ancestors m)
          (insert_found k found.non_ec n) visited done a rest later in
      (
        l ∙ get-insert_found_ne k a found.ancestors m other,
        r ∙ get-insert_found_ne k a found.non_ec n other,
      )

  expand_each-IsExpanded :
      (accounts m n : Mappings) (visited : List ℕ) (done : Mappings × Mappings) (a : AccountId)
      {sets : List AccountSetId}
      → expand_each snapshot overlay journal_id accounts m n ≡ finished visited done
      → IsUnique accounts
      → get a m ≡ none
      → get a n ≡ none
      → get a accounts ≡ some sets
      → IsExpanded snapshot overlay journal_id sets (found_of done a)
  unfolding expand_each
  expand_each-IsExpanded [] m n visited done a h u em en known = absurd (cc)
  expand_each-IsExpanded ((k, seeds) ∷ accounts) m n visited done a {sets} h u em en known =
      let (found, made, rest) = expand_each_cons k seeds accounts m n visited done h in
      elim (Bool-cases (nat_beq a k)) [
        | inl same ↦
            let mine : seeds ≡ sets = cc (rw same at known) in
            let e = (nat_beq_iff a k).0 same in
            let (l, r) =
              expand_each_others accounts (insert_found k found.ancestors m)
                (insert_found k found.non_ec n) visited done a rest (rw (← e) at u.0) in
            let first : list_or_empty (get a done.0) ≡ found.ancestors =
              ap list_or_empty l ∙ rw (← e) (get-insert_found_same a found.ancestors m em) in
            let second : list_or_empty (get a done.1) ≡ found.non_ec =
              ap list_or_empty r ∙ rw (← e) (get-insert_found_same a found.non_ec n en) in
            rw (first, second)
              (subst (λ s. IsExpanded snapshot overlay journal_id s found) mine made)
        | inr other ↦
            expand_each-IsExpanded accounts (insert_found k found.ancestors m)
              (insert_found k found.non_ec n) visited done a rest u.1
              (get-insert_found_ne k a found.ancestors m other ∙ em)
              (get-insert_found_ne k a found.non_ec n other ∙ en) (rw other at known)
      ]

  nothing_reached : {x : ℕ} → Reach (parents_of snapshot overlay) [] x → ⊥
  nothing_reached (seed h) = cc
  nothing_reached (step r h) = nothing_reached r

  IsExpanded-nothing :
      IsExpanded snapshot overlay journal_id [] (record { ancestors = []; non_ec = [] })
  IsExpanded-nothing = record {
    own = λ x. (λ h. absurd (cc), λ p. absurd (∥∥₁_elim p.0 (hlevel) nothing_reached));
    inline = λ x. (λ h. absurd (cc), λ p. absurd (∥∥₁_elim p.0 (hlevel) nothing_reached));
    nodup = tt;
    known = λ x r. absurd (nothing_reached r);
  }

  pub group_seeds-IsExpanded :
      (seeds : List AccountMembership) (visited : List ℕ) (done : Mappings × Mappings)
      (a : AccountId)
      → expand_each snapshot overlay journal_id (group_seeds [] seeds) [] [] ≡ finished visited done
      → IsExpanded snapshot overlay journal_id (direct a seeds) (found_of done a)
  group_seeds-IsExpanded seeds visited done a h =
      elim (Option-cases (get a (group_seeds [] seeds))) [
        | inl absent ↦
            let (l, r) = expand_each_others (group_seeds [] seeds) [] [] visited done a h absent in
            let empty : direct a seeds ≡ [] =
              sym (get-group_seeds a [] seeds) ∙ ap list_or_empty absent in
            rw (empty, l, r) IsExpanded-nothing
        | inr (sets, found) ↦
            let same : sets ≡ direct a seeds =
              sym (ap list_or_empty found) ∙ get-group_seeds a [] seeds in
            subst (λ s. IsExpanded snapshot overlay journal_id s (found_of done a)) same
              (expand_each-IsExpanded (group_seeds [] seeds) [] [] visited done a h
                (group_seeds-IsUnique [] seeds tt) refl refl found)
      ]

  pub expand_each_stops :
      (accounts m n : Mappings) (id : ℕ)
      → expand_each snapshot overlay journal_id accounts m n ≡ unknown id
      → IsUnique accounts
      → (a : AccountId) × (sets : List AccountSetId) × (get a accounts ≡ some sets)
        × Reach (parents_of snapshot overlay) sets id
        × (meta_of snapshot overlay id ≡ none)
  unfolding expand_each
  expand_each_stops [] m n id h u = absurd (unknown-ne-finished (sym h))
  expand_each_stops ((k, seeds) ∷ accounts) m n id h u = elim (expand_account-Ending seeds _ refl) [
    | stops j e ↦
        let same : j ≡ id = unknown-injective (rw (e, expand_each) at h) in
        let (reached, absent) =
          expand_account_stops snapshot overlay journal_id seeds id (e ∙ ap unknown same) in
        (k, seeds, get_first k seeds accounts, reached, absent)
    | ends seen found e ↦
        let (a, sets, known, reached, absent) =
          expand_each_stops accounts (insert_found k found.ancestors m)
            (insert_found k found.non_ec n) id (rw (e, expand_each) at h) u.1 in
        (a, sets, rw (beq_of_get a k accounts known u.0) known, reached, absent)
  ]

  pub expand_each_ends :
      (accounts m n : Mappings) → expand_each snapshot overlay journal_id accounts m n ≢ out_of_fuel
  unfolding expand_each
  expand_each_ends [] m n h = out-ne-finished (sym h)
  expand_each_ends ((k, seeds) ∷ accounts) m n h = elim (expand_account-Ending seeds _ refl) [
    | stops j e ↦ out-ne-unknown (sym (rw (e, expand_each) at h))
    | ends seen found e ↦
        expand_each_ends accounts (insert_found k found.ancestors m) (insert_found k found.non_ec n)
          (rw (e, expand_each) at h)
  ]
