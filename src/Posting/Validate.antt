-- ===== src/Posting/Validate.antt =====
-- `Postings::validate` (cala-ledger/src/posting/mod.rs): what rejects a posting before any write.
pub mod Accepted
pub mod Rejected
use cala.Prelude.{
  ℕ, ◌+◌, Bool, Option, none, some, List, [], ◌∷◌, if◌then◌else◌, Result, ok, err, ◌>>=◌, ◌>>◌,
  reject_if, nat_eq,
}
use cala.Prelude.Map.{get}
use cala.Types.{TransactionId, Status, active, locked}
use cala.Template.{NewEntry, PreparedTransaction}
use cala.Posting.{
  PostingInput, PostingState, PostingError, rejected, panicked, account_not_found,
  entry_targets_account_set, account_locked, journal_locked, journal_not_found,
}

abbrev pub is_locked : Status → Bool
is_locked active = Bool.false
is_locked locked = Bool.true

module _ {A Expr : Type 0} (read : PostingState A Expr) where
  -- The `match` on the journal.
  unfoldable pub check_journal :
      ℕ → TransactionId → PreparedTransaction A → Result (Unit {0}) (PostingError A)
  check_journal index tx_id posting = elim (get posting.journal_id read.journals) [
    | none ↦ err (rejected index tx_id (journal_not_found posting.journal_id))
    | some journal ↦
        if is_locked journal.status
        then err (rejected index tx_id (journal_locked posting.journal_id))
        else ok tt
  ]

  -- One round of the loop over the entries.
  unfoldable pub check_entry : ℕ → TransactionId → NewEntry A → Result (Unit {0}) (PostingError A)
  check_entry index tx_id e = elim (get e.account_id read.accounts) [
    | none ↦ err (rejected index tx_id (account_not_found e.account_id))
    | some meta ↦
        if meta.is_account_set
        then err (rejected index tx_id (entry_targets_account_set e.account_id))
        else if meta.locked
        then err (rejected index tx_id (account_locked e.account_id))
        else ok tt
  ]

  unfoldable pub check_entries :
      ℕ → TransactionId → List (NewEntry A) → Result (Unit {0}) (PostingError A)
  check_entries index tx_id [] = ok tt
  check_entries index tx_id (e ∷ entries) =
      check_entry index tx_id e >> check_entries index tx_id entries

  -- The loop over the postings; `batch[index]` is the input that stands as far on.
  unfoldable pub validate_from :
      ℕ → List (PostingInput A) → List (PreparedTransaction A) → Result (Unit {0}) (PostingError A)
  validate_from index batch [] = ok tt
  validate_from index [] (p ∷ prepared) = err (panicked "index out of bounds")
  validate_from index (input ∷ batch) (p ∷ prepared) = do
    check_journal index input.tx_id p
    check_entries index input.tx_id p.entries
    validate_from (index + 1) batch prepared

  unfoldable pub validate :
      List (PostingInput A) → List (PreparedTransaction A) → Result (Unit {0}) (PostingError A)
  unfolding validate_from
  validate batch prepared = validate_from 0 batch prepared
