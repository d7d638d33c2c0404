-- ===== src/AccountSet/Expand/Resolved.antt =====
-- What `expand` promises, and that it keeps it.
use mathlib.Core.Path.{subst}
use mathlib.Core.Logic.{∥∥₁_elim}
use mathlib.Core.Bool.{So-prop}
use cala.Prelude.{
  is_some, ℕ, ◌≡◌, refl, sym, ap, ◌∙◌, ◌↔◌, ◌||◌, ◌&&◌, Bool, true, Option, none, List, [], ◌∷◌,
  ◌++◌, map, nat_beq, nat_beq_iff, nat_eq, beq_refl, arith, inl, inr, list_or_empty, and_parts,
}
use cala.Prelude.Map.{get}
use cala.Prelude.Order.{nat_order, pair_order, sort_dedup, sort_dedup_lem, IsAscending, is_key}
use cala.Types.{AccountId, AccountSetId, JournalId, Currency}
use cala.Posting.{AccountMembership}
use cala.AccountSet.Graph.{GraphSnapshot, Overlay, meta_of, parents_of}
use cala.AccountSet.Walk.{nat_in, Walked, finished, unknown, out_of_fuel, Reach}
use cala.AccountSet.Walk.Reached.{IsNodup, in_or, or_left, or_right}
use cala.AccountSet.Expand.{
  Mappings, Expansion, expanded, unknown_set, never_ended, group_seeds, expand_each, lock_pairs,
  expand,
}
use cala.AccountSet.Expand.Total.{is_of_journal, is_inline_set}
use cala.AccountSet.Expand.Ancestors.{
  direct, group_seeds-IsExpanded, group_seeds-IsUnique, get-group_seeds, expand_each_stops,
  expand_each_ends,
}

and_both : (a b : Bool) → a ≡ true → b ≡ true → (a && b) ≡ true
and_both a b h i = ground arith

-- A pair is locked for a set above an account with an entry in the currency.
is_key-map :
    (x c k : ℕ) (ids : List ℕ) (rest : List (ℕ × ℕ))
    → is_key (x, c) (map (λ id. (id, k)) ids ++ rest)
      ≡ ((nat_in x ids && nat_beq c k) || is_key (x, c) rest)
is_key-map x c k [] rest = refl
is_key-map x c k (i ∷ ids) rest = ground (arith, is_key-map x c k ids rest)

abbrev LockedFor : Mappings → List (AccountId × Currency) → AccountSetId → Currency → Type 0
LockedFor non_ec pairs x c =
    (a : AccountId) × (is_key (a, c) pairs ≡ true)
    × (nat_in x (list_or_empty (get a non_ec)) ≡ true)

lock_pairs_iff :
    (non_ec : Mappings) (pairs : List (AccountId × Currency)) (x : AccountSetId) (c : Currency)
    → (is_key (x, c) (lock_pairs non_ec pairs) ≡ true) ↔ LockedFor non_ec pairs x c
unfolding lock_pairs
lock_pairs_iff non_ec [] x c = (λ h. absurd (cc), λ p. absurd (cc p.1))
lock_pairs_iff non_ec ((b, k) ∷ pairs) x c =
    let ids = list_or_empty (get b non_ec) in
    let split = is_key-map x c k ids (lock_pairs non_ec pairs) in
    let later = lock_pairs_iff non_ec pairs x c in
    (
      λ h. elim (in_or _ _ (sym split ∙ h)) [
        | inl here ↦
            let (mine, same) = and_parts (nat_in x ids) (nat_beq c k) here in
            (b, or_left _ _ (and_both (nat_beq b b) (nat_beq c k) (beq_refl b) same), mine)
        | inr l ↦ let (a, asked, mine) = later.0 l in (a, or_right _ _ asked, mine)
      ],
      λ p. elim (in_or _ _ p.1) [
        | inl here ↦
            let (own, same) = and_parts (nat_beq p.0 b) (nat_beq c k) here in
            let mine : nat_in x ids ≡ true = rw ((nat_beq_iff p.0 b).0 own) at p.2 in
            split ∙ or_left _ _ (and_both (nat_in x ids) (nat_beq c k) mine same)
        | inr l ↦ split ∙ or_right _ _ (later.1 (p.0, l, p.2))
      ],
    )

-- What `expand` promises: for each account the sets of the journal that are reached from its direct
-- sets, each once; and in ascending order the pairs of a set whose balance is kept inline and a
-- currency, for which an account below the set has an entry.
pub record IsResolved (snapshot : GraphSnapshot) (overlay : Option Overlay) (journal_id : JournalId)
    (seeds : List AccountMembership) (pairs : List (AccountId × Currency)) (mappings : Mappings)
    (locks : List (AccountSetId × Currency)) : Type 0 where
  pub sets :
      (a : AccountId) (x : AccountSetId)
      → (nat_in x (list_or_empty (get a mappings)) ≡ true) ↔ (
          ∥ Reach (parents_of snapshot overlay) (direct a seeds) x ∥₁
          × (is_of_journal snapshot overlay journal_id x ≡ true))
  pub nodup : (a : AccountId) → IsNodup (list_or_empty (get a mappings))
  pub known :
      (a : AccountId) (x : AccountSetId)
      → Reach (parents_of snapshot overlay) (direct a seeds) x
      → is_some (meta_of snapshot overlay x) ≡ true
  pub ascending : IsAscending locks
  pub locked :
      (x : AccountSetId) (c : Currency)
      → (is_key (x, c) locks ≡ true)
        ↔ ∥ (
            (a : AccountId) × (is_key (a, c) pairs ≡ true)
            × ∥ Reach (parents_of snapshot overlay) (direct a seeds) x ∥₁
            × (is_inline_set snapshot overlay journal_id x ≡ true)) ∥₁

-- How `expand` ends, in each case.
abbrev pub IsExpansion :
    GraphSnapshot
    → Option Overlay
    → JournalId
    → List AccountMembership
    → List (AccountId × Currency)
    → Expansion
    → Type 0
IsExpansion snapshot overlay journal_id seeds pairs (expanded mappings locks) =
    IsResolved snapshot overlay journal_id seeds pairs mappings locks
IsExpansion snapshot overlay journal_id seeds pairs (unknown_set id) =
    ((a : AccountId) × Reach (parents_of snapshot overlay) (direct a seeds) id)
    × (meta_of snapshot overlay id ≡ none)
IsExpansion snapshot overlay journal_id seeds pairs never_ended = ⊥

module _ (snapshot : GraphSnapshot) (overlay : Option Overlay) (journal_id : JournalId) where
  IsResolved-made :
      (seeds : List AccountMembership) (pairs : List (AccountId × Currency)) (visited : List ℕ)
      (done : Mappings × Mappings)
      → expand_each snapshot overlay journal_id (group_seeds [] seeds) [] [] ≡ finished visited done
      → IsResolved snapshot overlay journal_id seeds pairs done.0
          (sort_dedup (lock_pairs done.1 pairs))
  IsResolved-made seeds pairs visited done h =
      let found = λ (a : AccountId).
        group_seeds-IsExpanded snapshot overlay journal_id seeds visited done a h in
      let (ascending, same) = sort_dedup_lem (lock_pairs done.1 pairs) in
      record {
        sets = λ a x. (found a).own x;
        nodup = λ a. (found a).nodup;
        known = λ a x r. (found a).known x r;
        ascending = ascending;
        locked = λ x c.
            let i = lock_pairs_iff done.1 pairs x c in
            (
              λ k.
                  let (a, asked, mine) = i.0 (sym (same (x, c)) ∙ k) in
                  let (reached, inline) = ((found a).inline x).0 mine in
                  ∣ (a, asked, reached, inline) ∣₁,
              λ p.
                  ∥∥₁_elim p (So-prop _)
                    (λ q. same (x, c) ∙ i.1 (q.0, q.1, ((found q.0).inline x).1 (q.2, q.3))),
            );
      }

  expand_cases :
      (seeds : List AccountMembership) (pairs : List (AccountId × Currency))
      (w : Walked (Mappings × Mappings))
      → expand_each snapshot overlay journal_id (group_seeds [] seeds) [] [] ≡ w
      → IsExpansion snapshot overlay journal_id seeds pairs
          (expand snapshot overlay journal_id seeds pairs)
  unfolding expand
  expand_cases seeds pairs (unknown id) h =
      let (a, sets, known, reached, absent) =
        expand_each_stops snapshot overlay journal_id (group_seeds [] seeds) [] [] id h
          (group_seeds-IsUnique [] seeds tt) in
      let same : sets ≡ direct a seeds =
        sym (ap list_or_empty known) ∙ get-group_seeds a [] seeds in
      rw (h, expand)
        ((a, subst (λ s. Reach (parents_of snapshot overlay) s id) same reached), absent)
  expand_cases seeds pairs (finished visited done) h =
      rw (h, expand) (IsResolved-made seeds pairs visited done h)
  expand_cases seeds pairs out_of_fuel h =
      absurd (expand_each_ends snapshot overlay journal_id (group_seeds [] seeds) [] [] h)

  -- The expansion ends. Either every set that an account reaches is known, and it gives each account
  -- the sets of the journal that are reached upward from
  -- its direct sets, each once, and in ascending order exactly the pairs of a set that is kept
  -- inline and a currency, for which an account below the set has an entry; or it stops at a set
  -- that an account reaches and neither the snapshot nor the overlay knows.
  pub expand-IsExpansion :
      (seeds : List AccountMembership) (pairs : List (AccountId × Currency))
      → IsExpansion snapshot overlay journal_id seeds pairs
          (expand snapshot overlay journal_id seeds pairs)
  expand-IsExpansion seeds pairs = expand_cases seeds pairs _ refl
