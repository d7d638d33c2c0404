-- ===== src/Balance/Fold/Totals.antt =====
-- What the fold writes, in numbers: the last snapshot of a key holds the loaded balance and the sum
-- of its entries, and the versions of a key's snapshots are consecutive.
use cala.Prelude.{
  ℕ, ◌+◌, ◌%◌, ◌≡◌, sym, ap, ◌∙◌, Option, none, some, List, [], ◌∷◌, All, pair_eq, nat_eq,
}
use cala.Prelude.Int.{ℤ, pos, ◌+ℤ◌, +ℤ_assoc, +ℤ_zero, zero_+ℤ}
use cala.Prelude.Map.{Map, get}
use cala.Types.{
  DecimalOps, BalanceSnapshot, EntryValues, DateTime, AccountId, AccountSetId, Layer, DebitOrCredit,
}
use cala.Balance.Snapshot.{u32_mod}
use cala.Balance.Snapshot.Effect.{delta, balance_of, update_snapshot-IsPosted, new_snapshot_lem}
use cala.Balance.Fold.{BalanceKey, next_snapshot, from_entries, inline_targets}
use cala.Balance.Fold.Spec.{of_key, postings, entries_for, chain, IsKeyed, expected}
use cala.Balance.Fold.Chain.{fold-eq-expected}

module _ {A : Type 0} ⦃d : DecimalOps A⦄ where
  -- A balance that does not exist yet holds nothing, at version 0.
  abbrev pub balance_or_zero : Option (BalanceSnapshot A) → Layer → DebitOrCredit → ℤ
  balance_or_zero none l x = pos 0
  balance_or_zero (some s) l x = balance_of s l x

  abbrev pub version_or_zero : Option (BalanceSnapshot A) → ℕ
  version_or_zero none = 0
  version_or_zero (some s) = s.version

  -- The sum of what the entries bring to one side of one layer.
  abbrev pub total_delta : List (EntryValues A) → Layer → DebitOrCredit → ℤ
  total_delta [] l x = pos 0
  total_delta (e ∷ entries) l x = delta e l x +ℤ total_delta entries l x

  -- The last snapshot written, or the loaded one if none is.
  abbrev pub last_or :
      Option (BalanceSnapshot A) → List (BalanceSnapshot A) → Option (BalanceSnapshot A)
  last_or base [] = base
  last_or base (s ∷ snapshots) = last_or (some s) snapshots

  -- Each version is one more than that before it, modulo 2^32.
  abbrev pub AreConsecutive : ℕ → List (BalanceSnapshot A) → Type 0
  AreConsecutive v [] = Unit
  AreConsecutive v (s ∷ snapshots) =
      (s.version ≡ (v + 1) % u32_mod) × AreConsecutive s.version snapshots

  balance_of-next_snapshot :
      (time : DateTime) (a : AccountId) (base : Option (BalanceSnapshot A)) (e : EntryValues A)
      (l : Layer) (x : DebitOrCredit)
      → balance_of (next_snapshot time a base e) l x ≡ balance_or_zero base l x +ℤ delta e l x
  unfolding next_snapshot
  balance_of-next_snapshot time a none e l x =
      (new_snapshot_lem time a e).4 l x ∙ sym (zero_+ℤ (delta e l x))
  balance_of-next_snapshot time a (some s) e l x = (update_snapshot-IsPosted time s e).balances l x

  version-next_snapshot :
      (time : DateTime) (a : AccountId) (base : Option (BalanceSnapshot A)) (e : EntryValues A)
      → (next_snapshot time a base e).version ≡ (version_or_zero base + 1) % u32_mod
  unfolding next_snapshot
  version-next_snapshot time a none e = (new_snapshot_lem time a e).3
  version-next_snapshot time a (some s) e = (update_snapshot-IsPosted time s e).version

  balance-chain :
      (time : DateTime) (a : AccountId) (base : Option (BalanceSnapshot A))
      (entries : List (EntryValues A)) (l : Layer) (x : DebitOrCredit)
      → balance_or_zero (last_or base (chain time a base entries)) l x
        ≡ balance_or_zero base l x +ℤ total_delta entries l x
  balance-chain time a base [] l x = sym (+ℤ_zero (balance_or_zero base l x))
  balance-chain time a base (e ∷ entries) l x =
      balance-chain time a (some (next_snapshot time a base e)) entries l x
      ∙ ap (λ b. b +ℤ total_delta entries l x) (balance_of-next_snapshot time a base e l x)
      ∙ +ℤ_assoc (balance_or_zero base l x) (delta e l x) (total_delta entries l x)

  versions-chain :
      (time : DateTime) (a : AccountId) (base : Option (BalanceSnapshot A))
      (entries : List (EntryValues A))
      → AreConsecutive (version_or_zero base) (chain time a base entries)
  versions-chain time a base [] = tt
  versions-chain time a base (e ∷ entries) = (
    version-next_snapshot time a base e,
    versions-chain time a (some (next_snapshot time a base e)) entries,
  )

  -- What a fold over the given calls has to have written for a loaded key.
  pub record IsFolded (time : DateTime) (k : BalanceKey) (base : Option (BalanceSnapshot A))
      (entries : List (EntryValues A)) (written : List (BalanceSnapshot A)) : Type 0 where
    pub snapshots : of_key k written ≡ chain time k.0 base entries
    pub balances :
        (l : Layer) (x : DebitOrCredit)
        → balance_or_zero (last_or base (of_key k written)) l x
          ≡ balance_or_zero base l x +ℤ total_delta entries l x
    pub versions : AreConsecutive (version_or_zero base) (of_key k written)

  IsFolded-chain :
      (time : DateTime) (k : BalanceKey) (base : Option (BalanceSnapshot A))
      (entries : List (EntryValues A)) (written : List (BalanceSnapshot A))
      → of_key k written ≡ chain time k.0 base entries
      → IsFolded time k base entries written
  IsFolded-chain time k base entries written h = record {
    snapshots = h;
    balances = λ l x. rw h (balance-chain time k.0 base entries l x);
    versions = rw h (versions-chain time k.0 base entries);
  }

  -- In a posted batch, the snapshots written for a loaded account and currency are, in order, the
  -- running balances of the entries that fan into it (as the leaf, or through its ancestor sets);
  -- the last holds the loaded balance and the sum of those entries on every layer and side, and the
  -- versions are consecutive modulo 2^32. The loaded balances must be stored under their own keys.
  pub from_entries-IsFolded :
      (time : DateTime) (current : Map BalanceKey (Option (BalanceSnapshot A)))
      (entries : List (EntryValues A)) (mappings : Map AccountId (List AccountSetId))
      (k : BalanceKey) (base : Option (BalanceSnapshot A))
      → All IsKeyed current
      → get k current ≡ some base
      → IsFolded time k base
          (entries_for k (postings (inline_targets mappings) entries))
          (from_entries time current entries mappings)
  unfolding from_entries
  from_entries-IsFolded time current entries mappings k base loaded found =
      IsFolded-chain time k base (entries_for k (postings (inline_targets mappings) entries)) _ (
        fold-eq-expected (inline_targets mappings) time current entries k loaded
        ∙ rw (found, expected))

  -- Where each balance that was loaded is of the account and currency of its key, a key that was
  -- not loaded gets no snapshot, whatever the entries.
  pub from_entries_not_loaded :
      (time : DateTime) (current : Map BalanceKey (Option (BalanceSnapshot A)))
      (entries : List (EntryValues A)) (mappings : Map AccountId (List AccountSetId))
      (k : BalanceKey)
      → All IsKeyed current
      → get k current ≡ none
      → of_key k (from_entries time current entries mappings) ≡ []
  unfolding from_entries
  from_entries_not_loaded time current entries mappings k loaded absent =
      fold-eq-expected (inline_targets mappings) time current entries k loaded
      ∙ rw (absent, expected)
