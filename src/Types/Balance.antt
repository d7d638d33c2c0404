-- ===== src/Types/Balance.antt =====
-- cala-ledger-core-types/src/balance.rs.
use cala.Prelude.{ℕ, leb, if◌then◌else◌}
use cala.Types.Decimal.{DecimalOps}
use cala.Types.Primitives.{
  JournalId, AccountId, Currency, EntryId, DateTime, NaiveDate, Layer, settled, pending,
  encumbrance, DebitOrCredit, debit, credit,
}

pub record BalanceAmount (A : Type 0) : Type 0 where
  pub dr_balance : A
  pub cr_balance : A
  pub entry_id : EntryId
  pub modified_at : DateTime

pub record BalanceSnapshot (A : Type 0) : Type 0 where
  pub journal_id : JournalId
  pub account_id : AccountId
  pub currency : Currency
  pub version : ℕ
  pub created_at : DateTime
  pub modified_at : DateTime
  pub entry_id : EntryId
  pub settled_amount : BalanceAmount A
  pub pending_amount : BalanceAmount A
  pub encumbrance_amount : BalanceAmount A

pub record EffectiveBalanceSnapshot (A : Type 0) : Type 0 where
  pub journal_id : JournalId
  pub account_id : AccountId
  pub currency : Currency
  pub effective : NaiveDate
  pub version : ℕ
  pub all_time_version : ℕ
  pub created_at : DateTime
  pub modified_at : DateTime
  pub entry_id : EntryId
  pub settled_amount : BalanceAmount A
  pub pending_amount : BalanceAmount A
  pub encumbrance_amount : BalanceAmount A

module _ {A : Type 0} where
  -- The amount of one layer, and the sum of one side of it: how statements read a snapshot.
  abbrev pub amount : BalanceSnapshot A → Layer → BalanceAmount A
  amount s settled = s.settled_amount
  amount s pending = s.pending_amount
  amount s encumbrance = s.encumbrance_amount

  abbrev pub side : BalanceAmount A → DebitOrCredit → A
  side a debit = a.dr_balance
  side a credit = a.cr_balance

module _ {A : Type 0} ⦃d : DecimalOps A⦄ where
  -- `BalanceAmount::rollup`
  unfoldable pub rollup : BalanceAmount A → BalanceAmount A → BalanceAmount A
  rollup a b =
      let newer = leb b.modified_at a.modified_at in
      record {
        dr_balance = d.add a.dr_balance b.dr_balance;
        cr_balance = d.add a.cr_balance b.cr_balance;
        entry_id = if newer then a.entry_id else b.entry_id;
        modified_at = if newer then a.modified_at else b.modified_at;
      }

  -- `BalanceSnapshot::available`
  unfoldable pub snapshot_available : BalanceSnapshot A → Layer → BalanceAmount A
  snapshot_available s settled = s.settled_amount
  snapshot_available s pending = rollup s.settled_amount s.pending_amount
  snapshot_available s encumbrance =
      rollup (rollup s.settled_amount s.pending_amount) s.encumbrance_amount
