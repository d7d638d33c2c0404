-- ===== src/Posting/Validate/Accepted.antt =====
-- Which batches are accepted.
use cala.Prelude.{
  ℕ, ◌+◌, ◌≡◌, refl, ◌↔◌, false, some, List, [], ◌∷◌, length, Result, ok, err, ◌>>◌, All, nat_eq,
  arith,
}
use cala.Prelude.Map.{get}
use cala.Types.{TransactionId, active}
use cala.Template.{NewEntry, PreparedTransaction}
use cala.Posting.{PostingInput, PostingState, JournalValues, AccountMeta}
use cala.Posting.Validate.{check_journal, check_entry, check_entries, validate_from, validate}

sequence_iff :
    {E P Q : Type 0} (m n : Result (Unit {0}) E)
    → ((m ≡ ok tt) ↔ P)
    → ((n ≡ ok tt) ↔ Q)
    → ((m >> n) ≡ ok tt) ↔ (P × Q)
sequence_iff (ok u) n i j = (λ h. (i.0 refl, j.0 h), λ h. j.1 h.1)
sequence_iff (err e) n i j = (λ h. cc, λ h. absurd (failed (i.1 h.0)))
  where
    failed : err e ≡ ok tt → ⊥
    failed h = cc

module _ {A Expr : Type 0} (read : PostingState A Expr) where
  -- An entry may be posted to an account that exists, is no account set and is not locked.
  abbrev pub IsPostable : NewEntry A → Type 0
  IsPostable e =
      (meta : AccountMeta) × (get e.account_id read.accounts ≡ some meta)
      × (meta.is_account_set ≡ false)
      × (meta.locked ≡ false)

  -- A posting is acceptable in a journal that exists and is active, with entries that may be posted.
  abbrev pub IsAcceptable : PreparedTransaction A → Type 0
  IsAcceptable p =
      ((journal : JournalValues) × (get p.journal_id read.journals ≡ some journal)
        × (journal.status ≡ active))
      × All IsPostable p.entries

  check_entry_iff :
      (index : ℕ) (tx_id : TransactionId) (e : NewEntry A)
      → (check_entry read index tx_id e ≡ ok tt) ↔ IsPostable e
  unfolding check_entry
  check_entry_iff index tx_id e = ground arith

  pub check_journal_iff :
      (index : ℕ) (tx_id : TransactionId) (p : PreparedTransaction A)
      → (check_journal read index tx_id p ≡ ok tt) ↔ (
          (journal : JournalValues) × (get p.journal_id read.journals ≡ some journal)
          × (journal.status ≡ active))
  unfolding check_journal
  check_journal_iff index tx_id p = ground arith

  pub check_entries_iff :
      (index : ℕ) (tx_id : TransactionId) (entries : List (NewEntry A))
      → (check_entries read index tx_id entries ≡ ok tt) ↔ All IsPostable entries
  unfolding check_entries
  check_entries_iff index tx_id [] = (λ h. tt, λ h. refl)
  check_entries_iff index tx_id (e ∷ entries) =
      sequence_iff (check_entry read index tx_id e) (check_entries read index tx_id entries)
        (check_entry_iff index tx_id e) (check_entries_iff index tx_id entries)

  validate_from_iff :
      (index : ℕ) (batch : List (PostingInput A)) (prepared : List (PreparedTransaction A))
      → length batch ≡ length prepared
      → (validate_from read index batch prepared ≡ ok tt) ↔ All IsAcceptable prepared
  unfolding validate_from
  validate_from_iff index [] [] same = (λ h. tt, λ h. refl)
  validate_from_iff index (input ∷ batch) [] same = absurd (omega (arith, same))
  validate_from_iff index [] (p ∷ prepared) same = absurd (omega (arith, same))
  validate_from_iff index (input ∷ batch) (p ∷ prepared) same =
      let i = validate_from_iff (index + 1) batch prepared (omega (arith, same)) in
      let both =
        sequence_iff (check_entries read index input.tx_id p.entries)
          (validate_from read (index + 1) batch prepared)
          (check_entries_iff index input.tx_id p.entries) i in
      let all =
        sequence_iff (check_journal read index input.tx_id p) _
          (check_journal_iff index input.tx_id p) both in
      (
        λ h. let (journal, (entries, rest)) = all.0 h in ((journal, entries), rest),
        λ h. all.1 (h.0.0, (h.0.1, h.1)),
      )

  -- A batch, one prepared transaction to an input, is validated exactly when every posting is in a
  -- journal that exists and is active, and every entry is to an account that exists, is no account
  -- set and is not locked.
  pub validate-ok_iff :
      (batch : List (PostingInput A)) (prepared : List (PreparedTransaction A))
      → length batch ≡ length prepared
      → (validate read batch prepared ≡ ok tt) ↔ All IsAcceptable prepared
  unfolding validate
  validate-ok_iff batch prepared same = validate_from_iff 0 batch prepared same
