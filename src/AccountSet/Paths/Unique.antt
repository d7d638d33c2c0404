-- ===== src/AccountSet/Paths/Unique.antt =====
-- What the answer of the path count says of every account of a batch.
use mathlib.Core.Path.{subst}
use cala.Prelude.{
  ℕ, ◌<◌, ◌≡◌, refl, sym, ap, ◌∙◌, true, Option, none, some, is_some, List, [], ◌∷◌, ◌++◌, nat_eq,
  beq_refl, Option-cases, inl, inr, length, All, list_or_empty,
}
use cala.Prelude.Map.{get, values, IsUnique, beq_of_get, All-get}
use cala.Types.{AccountId, AccountSetId}
use cala.Posting.{AccountMembership}
use cala.AccountSet.Walk.{nat_in}
use cala.AccountSet.Expand.{Mappings, group_seeds}
use cala.AccountSet.Expand.Ancestors.{direct, group_seeds-IsUnique, get-group_seeds}
use cala.AccountSet.Paths.{
  PathCheck, duplicate_path, unique_paths, not_known, never_counted, count_paths, count_each,
  has_duplicate_account_membership_paths,
}
use cala.AccountSet.Paths.Counted.{Says, count_paths-Says}

-- What each answer says of the accounts: two paths from one of them end at one set; or the paths
-- from each of them end, and no two of these end at one set; or a path from one of them ends at a
-- set that is not known.
abbrev pub SaysOfAll : (ℕ → Option (List ℕ)) → (AccountId → List AccountSetId) → PathCheck → Type 0
SaysOfAll parents_of sets unique_paths = (a : AccountId) → Says parents_of (sets a) unique_paths
SaysOfAll parents_of sets duplicate_path = (a : AccountId) × Says parents_of (sets a) duplicate_path
SaysOfAll parents_of sets not_known = (a : AccountId) × Says parents_of (sets a) not_known
SaysOfAll parents_of sets never_counted = ⊥

get_first :
    (a : AccountId) (sets : List AccountSetId) (m : Mappings) → get a ((a, sets) ∷ m) ≡ some sets
get_first a sets m = rw (beq_refl a) refl

module _ (parents_of : ℕ → Option (List ℕ)) where
  abbrev EachSays : Mappings → PathCheck → Type 0
  EachSays accounts unique_paths = All (λ x. Says parents_of x.1 unique_paths) accounts
  EachSays accounts r =
      (a : AccountId) × (sets : List AccountSetId) × (get a accounts ≡ some sets)
      × Says parents_of sets r

  later :
      (a : AccountId) (sets : List AccountSetId) (accounts : Mappings) (r : PathCheck)
      → get a accounts ≡ none
      → Says parents_of sets unique_paths
      → EachSays accounts r
      → EachSays ((a, sets) ∷ accounts) r
  later a sets accounts unique_paths fresh first h = (first, h)
  later a sets accounts duplicate_path fresh first (b, other, found, said) =
      (b, other, rw (beq_of_get b a accounts found fresh) found, said)
  later a sets accounts not_known fresh first (b, other, found, said) =
      (b, other, rw (beq_of_get b a accounts found fresh) found, said)
  later a sets accounts never_counted fresh first (b, other, found, said) =
      (b, other, rw (beq_of_get b a accounts found fresh) found, said)

  module _ (fuel : ℕ) (a : AccountId) (sets : List AccountSetId) (accounts : Mappings)
      (fresh : get a accounts ≡ none)
      (rest : EachSays accounts (count_each parents_of fuel (values accounts))) where
    first :
        (r : PathCheck)
        → count_paths parents_of fuel [] sets ≡ r
        → Says parents_of sets r
        → EachSays ((a, sets) ∷ accounts) (count_each parents_of fuel (sets ∷ values accounts))
    unfolding count_each
    first unique_paths e said =
        rw (e, count_each)
          (later a sets accounts (count_each parents_of fuel (values accounts)) fresh said rest)
    first duplicate_path e said = rw (e, count_each) (a, sets, get_first a sets accounts, said)
    first not_known e said = rw (e, count_each) (a, sets, get_first a sets accounts, said)
    first never_counted e said = absurd said

  count_each-EachSays :
      (fuel : ℕ)
      (says : (seeds : List ℕ) → Says parents_of seeds (count_paths parents_of fuel [] seeds))
      (accounts : Mappings)
      → IsUnique accounts
      → EachSays accounts (count_each parents_of fuel (values accounts))
  unfolding count_each
  count_each-EachSays fuel says [] u = tt
  count_each-EachSays fuel says ((a, sets) ∷ accounts) u =
      first fuel a sets accounts u.0 (count_each-EachSays fuel says accounts u.1)
        (count_paths parents_of fuel [] sets) refl (says sets)

  same_sets :
      (members : List AccountMembership) (a : AccountId) {sets : List AccountSetId}
      → get a (group_seeds [] members) ≡ some sets
      → sets ≡ direct a members
  same_sets members a found = sym (ap list_or_empty found) ∙ get-group_seeds a [] members

  of_group :
      (members : List AccountMembership) (r : PathCheck)
      → EachSays (group_seeds [] members) r
      → SaysOfAll parents_of (λ a. direct a members) r
  of_group members unique_paths h = λ a. elim (Option-cases (get a (group_seeds [] members))) [
    | inl absent ↦
        let nothing : direct a members ≡ [] =
          sym (get-group_seeds a [] members) ∙ ap list_or_empty absent in
        (0, nothing, tt, λ id k. cc)
    | inr (sets, found) ↦
        subst (λ s. Says parents_of s unique_paths) (same_sets members a found)
          (All-get (λ x. Says parents_of x.1 unique_paths) a (group_seeds [] members) h found)
  ]
  of_group members duplicate_path (a, sets, found, said) =
      (a, subst (λ s. Says parents_of s duplicate_path) (same_sets members a found) said)
  of_group members not_known (a, sets, found, said) =
      (a, subst (λ s. Says parents_of s not_known) (same_sets members a found) said)
  of_group members never_counted (a, sets, found, said) = said

  -- With more fuel than there are known sets the count ends, and its answer is right: of some
  -- account two membership paths, through the proposed and the existing direct memberships, end at
  -- one set; or from every account the paths end, no two of them at one set, and all at known sets; or a path from some
  -- account ends at a set that is not known.
  pub has_duplicate-SaysOfAll :
      (universe : List ℕ)
      (known : (x : ℕ) → is_some (parents_of x) ≡ true → nat_in x universe ≡ true) (fuel : ℕ)
      (proposed existing : List AccountMembership)
      → length universe < fuel
      → SaysOfAll parents_of
          (λ a. direct a (proposed ++ existing))
          (has_duplicate_account_membership_paths parents_of fuel proposed existing)
  unfolding has_duplicate_account_membership_paths
  has_duplicate-SaysOfAll universe known fuel proposed existing enough =
      let members = proposed ++ existing in
      of_group members (count_each parents_of fuel (values (group_seeds [] members))) (
        count_each-EachSays fuel
          (λ seeds. count_paths-Says parents_of seeds universe known fuel enough)
          (group_seeds [] members) (group_seeds-IsUnique [] members tt))
