-- ===== src/Balance/Fold/Spec.antt =====
-- The specification of the fold: the running balances of the entries that fan into a key.
use cala.Prelude.{
  ◌≡◌, Option, none, some, List, [], ◌∷◌, ◌++◌, if◌then◌else◌, map, pair_eq, nat_eq, filter,
}
use cala.Prelude.Map.{Map, get}
use cala.Types.{DecimalOps, BalanceSnapshot, EntryValues, DateTime, AccountId}
use cala.Balance.Fold.{BalanceKey, next_snapshot}

module _ {A : Type 0} ⦃d : DecimalOps A⦄ where
  abbrev pub key_of : BalanceSnapshot A → BalanceKey
  key_of s = (s.account_id, s.currency)

  abbrev pub of_key : BalanceKey → List (BalanceSnapshot A) → List (BalanceSnapshot A)
  of_key k = filter (λ s. pair_eq.beq k (key_of s))

  -- The account and entry of each call of `apply`, in order.
  abbrev pub postings :
      (EntryValues A → List AccountId) → List (EntryValues A) → List (AccountId × EntryValues A)
  postings targets [] = []
  postings targets (e ∷ entries) = map (λ a. (a, e)) (targets e) ++ postings targets entries

  -- The entries that fan into one key.
  abbrev pub entries_for : BalanceKey → List (AccountId × EntryValues A) → List (EntryValues A)
  entries_for k [] = []
  entries_for k ((a, e) ∷ rest) =
      if pair_eq.beq k (a, e.currency) then e ∷ entries_for k rest else entries_for k rest

  -- The running balances of a list of entries.
  abbrev pub chain :
      DateTime
      → AccountId
      → Option (BalanceSnapshot A)
      → List (EntryValues A)
      → List (BalanceSnapshot A)
  chain time a base [] = []
  chain time a base (e ∷ entries) =
      next_snapshot time a base e ∷ chain time a (some (next_snapshot time a base e)) entries

  -- A loaded balance is that of its key.
  abbrev pub IsKeyed : BalanceKey × Option (BalanceSnapshot A) → Type 0
  IsKeyed (k, none) = Unit
  IsKeyed (k, some s) = key_of s ≡ k

  -- The snapshots that a key's entries are to produce from the loaded balances.
  abbrev pub expected :
      DateTime
      → Map BalanceKey (Option (BalanceSnapshot A))
      → BalanceKey
      → List (AccountId × EntryValues A)
      → List (BalanceSnapshot A)
  expected time current k calls = elim (get k current) [
    | none ↦ []
    | some base ↦ chain time k.0 base (entries_for k calls)
  ]
