-- ===== src/AccountSet/Validate/Contained.antt =====
-- What the loop over the account members keeps: each containment of an account, once.
use mathlib.Core.Path.{subst}
use cala.Prelude.{
  ℕ, ◌+◌, ◌≤◌, ◌≡◌, inl, inr, ap, ◌∙◌, false, ◌&&◌, List, [], ◌∷◌, ◌++◌, if◌then◌else◌, nat_beq,
  nat_beq_iff, nat_eq, pair_eq, arith, and_parts, Bool-cases, ok, >>=-eq-ok, ok-injective,
  list_or_empty,
}
use cala.Prelude.Map.{Map, get}
use cala.Types.{AccountId, AccountSetId}
use cala.Posting.{AccountMembership}
use cala.Posting.Prepare.{contains}
use cala.AccountSet.Walk.{nat_in}
use cala.AccountSet.Dag.Degrees.{count}
use cala.AccountSet.Validate.{add_path, add_paths, check_paths}
use cala.AccountSet.Validate.Ancestors.{is_above, once, err-ne-made}

module _ (c : AccountSetId) (a : AccountId) where
  abbrev pub kept : List (AccountSetId × AccountId) → ℕ
  kept paths = once (contains (c, a) paths)

  add_path-once :
      (id : AccountSetId) (account_id : AccountId) (paths next : List (AccountSetId × AccountId))
      → add_path id account_id paths ≡ ok next
      → kept next ≡ kept paths + once (nat_beq c id && nat_beq a account_id)
  add_path-once id account_id paths next h = elim (Bool-cases (contains (id, account_id) paths)) [
    | inl old ↦ absurd (err-ne-made _ (rw old at h))
    | inr new ↦
        let e : (id, account_id) ∷ paths ≡ next = ok-injective (rw new at h) in
        subst (λ p. kept p ≡ kept paths + once (nat_beq c id && nat_beq a account_id)) e (added new)
  ]
    where
      added :
          contains (id, account_id) paths ≡ false
          → kept ((id, account_id) ∷ paths)
            ≡ kept paths + once (nat_beq c id && nat_beq a account_id)
      added new = elim (Bool-cases (nat_beq c id && nat_beq a account_id)) [
        | inl same ↦
            let s = and_parts (nat_beq c id) (nat_beq a account_id) same in
            let absent : contains (c, a) paths ≡ false =
              ap (λ p. contains p paths)
                (ap (λ y. (y, a)) ((nat_beq_iff c id).0 s.0)
                  ∙ ap (λ y. (id, y)) ((nat_beq_iff a account_id).0 s.1))
              ∙ new in
            rw (same, absent) (omega arith)
        | inr other ↦ rw other (omega arith)
      ]

  -- The inherited containments of an account.
  add_paths-once :
      (account_id : AccountId) (ids : List AccountSetId)
      (paths next : List (AccountSetId × AccountId))
      → add_paths account_id ids paths ≡ ok next
      → kept next ≡ kept paths + (if nat_beq a account_id then count c ids else 0)
  unfolding add_paths
  add_paths-once account_id [] paths next h =
      subst (λ p. kept p ≡ kept paths + (if nat_beq a account_id then 0 else 0)) (ok-injective h)
        (ground arith)
  add_paths-once account_id (id ∷ ids) paths next h =
      let (made, first, rest) =
        >>=-eq-ok (add_path id account_id paths) (λ p. add_paths account_id ids p) h in
      ground (
        arith,
        add_path-once id account_id paths made first,
        add_paths-once account_id ids made next rest,
      )

  count_once : (ids : List AccountSetId) → once (nat_in c ids) ≤ count c ids
  count_once [] = omega arith
  count_once (x ∷ ids) = ground (arith, count_once ids)

  -- How many of the members of an account stand below a set.
  abbrev pub below_of : Map AccountSetId (List AccountSetId) → List AccountMembership → ℕ
  below_of ancestors [] = 0
  below_of ancestors (m ∷ members) =
      (if nat_beq a m.account_id then once (is_above ancestors c m.account_set_id) else 0)
      + below_of ancestors members

  pub check_paths-le :
      (ancestors : Map AccountSetId (List AccountSetId)) (members : List AccountMembership)
      (paths next : List (AccountSetId × AccountId))
      → check_paths ancestors members paths ≡ ok next
      → kept paths + below_of ancestors members ≤ kept next
  unfolding check_paths
  check_paths-le ancestors [] paths next h =
      subst (λ p. kept paths + 0 ≤ kept p) (ok-injective h) (omega arith)
  check_paths-le ancestors (m ∷ members) paths next h =
      let ids = list_or_empty (get m.account_set_id ancestors) in
      let (direct, first, later) = >>=-eq-ok (add_path m.account_set_id m.account_id paths) _ h in
      let (all, inherited, rest) = >>=-eq-ok (add_paths m.account_id ids direct) _ later in
      ground (
        arith,
        add_path-once m.account_set_id m.account_id paths direct first,
        add_paths-once m.account_id ids direct all inherited,
        count_once ids,
        check_paths-le ancestors members all next rest,
      )

  pub below_of-append :
      (ancestors : Map AccountSetId (List AccountSetId)) (xs ys : List AccountMembership)
      → below_of ancestors (xs ++ ys) ≡ below_of ancestors xs + below_of ancestors ys
  below_of-append ancestors [] ys = omega arith
  below_of-append ancestors (m ∷ xs) ys = omega (arith, below_of-append ancestors xs ys)
