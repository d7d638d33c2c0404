-- ===== src/Posting/Validate/Rejected.antt =====
-- What a rejection says.
use mathlib.Core.Logic.{⊎_elim}
use cala.Prelude.{
  ℕ, ◌+◌, ◌≡◌, ◌≢◌, refl, ◌⊎◌, inl, inr, true, none, some, List, [], ◌∷◌, length, Result, ok, err,
  >>=-eq-err, Any, Option-cases, Bool-cases, nat_eq, arith,
}
use cala.Prelude.Map.{get}
use cala.Types.{TransactionId, Status, active, locked}
use cala.Template.{NewEntry, PreparedTransaction}
use cala.Posting.{
  PostingInput, PostingState, PostingError, RejectionReason, JournalValues, AccountMeta, rejected,
  account_not_found, entry_targets_account_set, account_locked, journal_locked, journal_not_found,
}
use cala.Posting.Validate.{
  is_locked, check_journal, check_entry, check_entries, validate_from, validate,
}
use cala.Posting.Validate.Accepted.{IsAcceptable, check_journal_iff, check_entries_iff}

err-injective : {A E : Type 0} {a b : E} → ◌≡◌ {A = Result A E} (err a) (err b) → b ≡ a
err-injective h = cc

ok≢err : {A E : Type 0} {a : A} {e : E} → ok a ≢ err e
ok≢err h = cc

status_of : (s : Status) → is_locked s ≡ true → s ≡ locked
status_of active h = cc
status_of locked h = refl

module _ {A Expr : Type 0} (read : PostingState A Expr) where
  -- An entry is at fault for the reason.
  abbrev pub IsEntryFault : RejectionReason A → NewEntry A → Type 0
  IsEntryFault (account_not_found a) e = (e.account_id ≡ a) × (get a read.accounts ≡ none)
  IsEntryFault (entry_targets_account_set a) e =
      (e.account_id ≡ a)
      × ((meta : AccountMeta) × (get a read.accounts ≡ some meta) × (meta.is_account_set ≡ true))
  IsEntryFault (account_locked a) e =
      (e.account_id ≡ a)
      × ((meta : AccountMeta) × (get a read.accounts ≡ some meta) × (meta.locked ≡ true))
  IsEntryFault _ e = ⊥

  -- A posting's journal is at fault for the reason.
  abbrev pub IsJournalFault : RejectionReason A → PreparedTransaction A → Type 0
  IsJournalFault (journal_not_found j) p = (p.journal_id ≡ j) × (get j read.journals ≡ none)
  IsJournalFault (journal_locked j) p =
      (p.journal_id ≡ j)
      × ((journal : JournalValues) × (get j read.journals ≡ some journal)
          × (journal.status ≡ locked))
  IsJournalFault _ p = ⊥

  -- The error names the first posting that is not acceptable, by its index and its input's
  -- transaction id, with a reason that its journal or one of its entries is at fault for.
  abbrev pub IsBlamed :
      ℕ → List (PostingInput A) → List (PreparedTransaction A) → PostingError A → Type 0
  IsBlamed index (input ∷ batch) (p ∷ prepared) x =
      ((r : RejectionReason A) × (x ≡ rejected index input.tx_id r)
        × (IsJournalFault r p ⊎ Any (IsEntryFault r) p.entries))
      ⊎ (IsAcceptable read p × IsBlamed (index + 1) batch prepared x)
  IsBlamed index _ _ x = ⊥

  check_journal-err :
      (index : ℕ) (tx_id : TransactionId) (p : PreparedTransaction A) {x : PostingError A}
      → check_journal read index tx_id p ≡ err x
      → (r : RejectionReason A) × (x ≡ rejected index tx_id r) × IsJournalFault r p
  unfolding check_journal
  check_journal-err index tx_id p h = elim (Option-cases (get p.journal_id read.journals)) [
    | inl absent ↦ (
      journal_not_found p.journal_id,
      err-injective (rw (check_journal, absent) at h),
      (refl, absent),
    )
    | inr (journal, found) ↦ elim (Bool-cases (is_locked journal.status)) [
      | inl shut ↦ (
        journal_locked p.journal_id,
        err-injective (rw (check_journal, found, shut) at h),
        (refl, (journal, found, status_of journal.status shut)),
      )
      | inr open_one ↦ absurd (ok≢err (rw (check_journal, found, open_one) at h))
    ]
  ]

  check_entry-err :
      (index : ℕ) (tx_id : TransactionId) (e : NewEntry A) {x : PostingError A}
      → check_entry read index tx_id e ≡ err x
      → (r : RejectionReason A) × (x ≡ rejected index tx_id r) × IsEntryFault r e
  unfolding check_entry
  check_entry-err index tx_id e h = elim (Option-cases (get e.account_id read.accounts)) [
    | inl absent ↦ (
      account_not_found e.account_id,
      err-injective (rw (check_entry, absent) at h),
      (refl, absent),
    )
    | inr (meta, found) ↦ elim (Bool-cases meta.is_account_set) [
      | inl set ↦ (
        entry_targets_account_set e.account_id,
        err-injective (rw (check_entry, found, set) at h),
        (refl, (meta, found, set)),
      )
      | inr leaf ↦ elim (Bool-cases meta.locked) [
        | inl shut ↦ (
          account_locked e.account_id,
          err-injective (rw (check_entry, found, leaf, shut) at h),
          (refl, (meta, found, shut)),
        )
        | inr open_one ↦ absurd (ok≢err (rw (check_entry, found, leaf, open_one) at h))
      ]
    ]
  ]

  check_entries-err :
      (index : ℕ) (tx_id : TransactionId) (entries : List (NewEntry A)) {x : PostingError A}
      → check_entries read index tx_id entries ≡ err x
      → (r : RejectionReason A) × (x ≡ rejected index tx_id r) × Any (IsEntryFault r) entries
  unfolding check_entries
  check_entries-err index tx_id [] h = cc
  check_entries-err index tx_id (e ∷ entries) h =
      ⊎_elim
        (λ failed.
          let (r, blamed, fault) = check_entry-err index tx_id e failed in (r, blamed, inl fault))
        (λ (_, passed, failed).
          let (r, blamed, fault) = check_entries-err index tx_id entries failed in
          (r, blamed, inr fault))
        (>>=-eq-err (check_entry read index tx_id e) _ h)

  validate_from-err :
      (index : ℕ) (batch : List (PostingInput A)) (prepared : List (PreparedTransaction A))
      {x : PostingError A}
      → length batch ≡ length prepared
      → validate_from read index batch prepared ≡ err x
      → IsBlamed index batch prepared x
  unfolding validate_from
  validate_from-err index [] [] same h = cc
  validate_from-err index (input ∷ batch) [] same h = absurd (omega (arith, same))
  validate_from-err index [] (p ∷ prepared) same h = absurd (omega (arith, same))
  validate_from-err index (input ∷ batch) (p ∷ prepared) same h =
      ⊎_elim
        (λ failed.
          let (r, blamed, fault) = check_journal-err index input.tx_id p failed in
          inl (r, blamed, inl fault))
        (λ (_, journal, q).
          ⊎_elim
            (λ failed.
              let (r, blamed, fault) = check_entries-err index input.tx_id p.entries failed in
              inl (r, blamed, inr fault))
            (λ (_, entries, rest). inr (
              (
                (check_journal_iff read index input.tx_id p).0 journal,
                (check_entries_iff read index input.tx_id p.entries).0 entries,
              ),
              validate_from-err (index + 1) batch prepared (omega (arith, same)) rest,
            ))
            (>>=-eq-err (check_entries read index input.tx_id p.entries) _ q))
        (>>=-eq-err (check_journal read index input.tx_id p) _ h)

  -- A batch, one prepared transaction to an input, that validation fails has a first posting that is
  -- not acceptable: the postings before it are acceptable, and the error names its index, its
  -- input's transaction id and what its journal or one of its entries is at fault for.
  pub validate-IsBlamed :
      (batch : List (PostingInput A)) (prepared : List (PreparedTransaction A)) {x : PostingError A}
      → length batch ≡ length prepared
      → validate read batch prepared ≡ err x
      → IsBlamed 0 batch prepared x
  unfolding validate
  validate-IsBlamed batch prepared same h = validate_from-err 0 batch prepared same h
