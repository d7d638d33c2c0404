-- ===== src/Posting/FoldBalances.antt =====
-- `Postings::dedup` and `Postings::fold_balances` (cala-ledger/src/posting/mod.rs).
pub mod Journal
pub mod Batch
use cala.Prelude.{
  list_or_empty, ℕ, Bool, true, false, not, ◌&&◌, ltb, nat_beq, Option, none, some, List, [], ◌∷◌,
  ◌++◌, if◌then◌else◌, is_empty, map, filter, nat_eq, pair_eq, is_some,
}
use cala.Prelude.Order.{nat_order, sort_dedup}
use cala.Prelude.Map.{Map, get, insert, contains_key}
use cala.Types.{
  DecimalOps, BalanceSnapshot, EntryValues, AccountId, AccountSetId, JournalId, DateTime,
  TransactionValues, Currency,
}
use cala.Balance.Fold.{BalanceKey, ancestors, from_entries, inline_targets}
use cala.Velocity.Enforce.{Posting}
use cala.Posting.{PostingState, AccountMeta}

-- `Postings::dedup` on identifiers.
unfoldable pub dedup : List ℕ → List ℕ
unfolding sort_dedup
dedup items = sort_dedup items

-- `read.accounts.get(&account_id).is_some_and(|meta| !meta.eventually_consistent)`
abbrev pub is_inline : Option AccountMeta → Bool
is_inline none = false
is_inline (some meta) = not meta.eventually_consistent

module _ {A : Type 0} where
  -- `filter(|(tx, _)| tx.values().journal_id == journal_id)`, and the entries of those left.
  unfoldable pub journal_entries : JournalId → List (Posting A) → List (EntryValues A)
  journal_entries journal_id [] = []
  journal_entries journal_id ((tx, entries) ∷ postings) =
      let rest = journal_entries journal_id postings in
      if nat_beq tx.journal_id journal_id then entries ++ rest else rest

module _ {A Expr : Type 0} ⦃d : DecimalOps A⦄ (read : PostingState A Expr) where
  -- One pair of the loop that fills `current`.
  unfoldable pub load_balance :
      JournalId
      → BalanceKey
      → Map BalanceKey (Option (BalanceSnapshot A))
      → Map BalanceKey (Option (BalanceSnapshot A))
  load_balance journal_id key current =
      if not (is_inline (get key.0 read.accounts))
      then current
      else if contains_key key current
      then current
      else insert key (get (journal_id, key) read.balances) current

  -- The loops that fill `current`, over the accounts of an entry and over the entries.
  unfoldable pub load_each :
      JournalId
      → List AccountId
      → Currency
      → Map BalanceKey (Option (BalanceSnapshot A))
      → Map BalanceKey (Option (BalanceSnapshot A))
  unfolding load_balance
  load_each journal_id [] currency current = current
  load_each journal_id (a ∷ accounts) currency current =
      load_each journal_id accounts currency (load_balance journal_id (a, currency) current)

  unfoldable pub load_balances :
      JournalId
      → Map AccountId (List AccountSetId)
      → List (EntryValues A)
      → Map BalanceKey (Option (BalanceSnapshot A))
      → Map BalanceKey (Option (BalanceSnapshot A))
  unfolding load_each
  load_balances journal_id mappings [] current = current
  load_balances journal_id mappings (e ∷ entries) current =
      load_balances journal_id mappings entries
        (load_each journal_id (inline_targets mappings e) e.currency current)

  -- One round of the loop over the journals.
  unfoldable pub fold_journal :
      DateTime
      → List (Posting A)
      → Map JournalId (Map AccountId (List AccountSetId))
      → JournalId
      → List (BalanceSnapshot A)
  unfolding from_entries load_balances journal_entries
  fold_journal now postings mappings journal_id =
      let entries = journal_entries journal_id postings in
      let own = list_or_empty (get journal_id mappings) in
      if is_empty entries
      then []
      else from_entries now (load_balances journal_id own entries []) entries own

  unfoldable pub fold_journals :
      DateTime
      → List (Posting A)
      → Map JournalId (Map AccountId (List AccountSetId))
      → List JournalId
      → List (BalanceSnapshot A)
  unfolding fold_journal
  fold_journals now postings mappings [] = []
  fold_journals now postings mappings (j ∷ journals) =
      fold_journal now postings mappings j ++ fold_journals now postings mappings journals

  -- `fold_balances`
  unfoldable pub fold_balances :
      DateTime
      → List (Posting A)
      → Map JournalId (Map AccountId (List AccountSetId))
      → List (BalanceSnapshot A)
  unfolding fold_journals dedup
  fold_balances now postings mappings =
      fold_journals now postings mappings (dedup (map (λ p. p.0.journal_id) postings))
