-- ===== src/Posting/Keys.antt =====
-- `BalanceKeys` (cala-ledger/src/posting/repo.rs) and `Postings::entry_balance_keys`
-- (cala-ledger/src/posting/mod.rs): the balances that a batch locks, in the order of locking.
pub mod Canonical
use cala.Prelude.{ℕ, Bool, ◌&&◌, ◌||◌, ltb, nat_beq, List, [], ◌∷◌, ◌++◌, if◌then◌else◌}
use cala.Prelude.Order.{sort_dedup, nat_order, pair_order}
use cala.Types.{AccountId, JournalId, Currency}
use cala.Template.{NewEntry, PreparedTransaction}

-- The three columns.
pub record BalanceKeys : Type 0 where
  pub journal_ids : List JournalId
  pub account_ids : List AccountId
  pub currencies : List Currency

-- An account, a currency and a journal.
abbrev pub Triple : Type 0
Triple = AccountId × (Currency × JournalId)

abbrev pub default_keys : BalanceKeys
default_keys = record { journal_ids = []; account_ids = []; currencies = [] }

abbrev pub push : JournalId → AccountId → Currency → BalanceKeys → BalanceKeys
push journal_id account_id currency keys = record {
  journal_ids = keys.journal_ids ++ journal_id ∷ [];
  account_ids = keys.account_ids ++ account_id ∷ [];
  currencies = keys.currencies ++ currency ∷ [];
}

-- `zip`, twice, and the `map`.
unfoldable pub zip_triples : List AccountId → List Currency → List JournalId → List Triple
zip_triples (a ∷ accounts) (c ∷ currencies) (j ∷ journals) =
    (a, (c, j)) ∷ zip_triples accounts currencies journals
zip_triples [] currencies journals = []
zip_triples (a ∷ accounts) [] journals = []
zip_triples (a ∷ accounts) (c ∷ currencies) [] = []

-- The loop that fills the columns again.
unfoldable pub push_triples : BalanceKeys → List Triple → BalanceKeys
push_triples keys [] = keys
push_triples keys ((a, (c, j)) ∷ ts) = push_triples (push j a c keys) ts

unfoldable pub sorted_deduped : BalanceKeys → BalanceKeys
unfolding zip_triples sort_dedup push_triples
sorted_deduped keys =
    push_triples default_keys
      (sort_dedup (zip_triples keys.account_ids keys.currencies keys.journal_ids))

module _ {A : Type 0} where
  unfoldable pub push_entries : JournalId → BalanceKeys → List (NewEntry A) → BalanceKeys
  push_entries journal_id keys [] = keys
  push_entries journal_id keys (e ∷ entries) =
      push_entries journal_id (push journal_id e.account_id e.currency keys) entries

  unfoldable pub push_postings : BalanceKeys → List (PreparedTransaction A) → BalanceKeys
  unfolding push_entries
  push_postings keys [] = keys
  push_postings keys (p ∷ prepared) =
      push_postings (push_entries p.journal_id keys p.entries) prepared

  unfoldable pub entry_balance_keys : List (PreparedTransaction A) → BalanceKeys
  unfolding push_postings sorted_deduped
  entry_balance_keys prepared = sorted_deduped (push_postings default_keys prepared)
