-- ===== src/Balance/Snapshot.antt =====
-- `Snapshots` (cala-ledger/src/balance/snapshot.rs): one entry's effect on one balance.
pub mod Effect
use cala.Prelude.{ℕ, ◌+◌, ◌%◌, ◌^◌}
use cala.Types.{
  DecimalOps, BalanceAmount, BalanceSnapshot, EntryValues, DateTime, AccountId, EntryId, Layer,
  settled, pending, encumbrance, DebitOrCredit, debit, credit,
}

-- `uuid::Uuid::nil()`
abbrev pub unassigned_entry_id : EntryId
unassigned_entry_id = 0

abbrev pub u32_mod : ℕ
u32_mod = 2 ^ 32

module _ {A : Type 0} ⦃d : DecimalOps A⦄ where
  -- The body of one layer's branch, by the entry's direction.
  abbrev add_units : DateTime → EntryId → A → DebitOrCredit → BalanceAmount A → BalanceAmount A
  add_units time id units debit a = record {
    dr_balance = d.add a.dr_balance units;
    cr_balance = a.cr_balance;
    entry_id = id;
    modified_at = time;
  }
  add_units time id units credit a = record {
    dr_balance = a.dr_balance;
    cr_balance = d.add a.cr_balance units;
    entry_id = id;
    modified_at = time;
  }

  -- The `match entry.layer`.
  abbrev update_layer :
      Layer → (BalanceAmount A → BalanceAmount A) → BalanceSnapshot A → BalanceSnapshot A
  update_layer settled f s = record s { settled_amount = f s.settled_amount }
  update_layer pending f s = record s { pending_amount = f s.pending_amount }
  update_layer encumbrance f s = record s { encumbrance_amount = f s.encumbrance_amount }

  unfoldable pub update_snapshot : DateTime → BalanceSnapshot A → EntryValues A → BalanceSnapshot A
  update_snapshot time s e =
      update_layer e.layer (add_units time e.id e.units e.direction)
        (record s { version = (s.version + 1) % u32_mod; modified_at = time; entry_id = e.id })

  abbrev pub zero_amount : DateTime → EntryId → BalanceAmount A
  zero_amount time id = record {
    dr_balance = d.zero_value;
    cr_balance = d.zero_value;
    entry_id = id;
    modified_at = time;
  }

  -- The literal that `new_snapshot` starts from; `EffectiveBalanceData::first_snapshot` has its own.
  abbrev pub blank_snapshot : DateTime → AccountId → EntryValues A → BalanceSnapshot A
  blank_snapshot time account_id e = record {
    journal_id = e.journal_id;
    account_id = account_id;
    currency = e.currency;
    version = 0;
    created_at = time;
    modified_at = time;
    entry_id = unassigned_entry_id;
    settled_amount = zero_amount time unassigned_entry_id;
    pending_amount = zero_amount time unassigned_entry_id;
    encumbrance_amount = zero_amount time unassigned_entry_id;
  }

  unfoldable pub new_snapshot : DateTime → AccountId → EntryValues A → BalanceSnapshot A
  unfolding update_snapshot
  new_snapshot time account_id e = update_snapshot time (blank_snapshot time account_id e) e
