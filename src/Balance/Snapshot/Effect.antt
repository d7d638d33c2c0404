-- ===== src/Balance/Snapshot/Effect.antt =====
-- What one entry does to a snapshot, field by field, on every layer and side.
use cala.Prelude.{◌∙◌, ◌+◌, ◌%◌, ◌≡◌, ◌&&◌, if◌then◌else◌, arith}
use cala.Prelude.Int.{ℤ, pos, ◌+ℤ◌, +ℤ_zero, zero_+ℤ}
use cala.Types.{
  DecimalOps, BalanceAmount, BalanceSnapshot, EntryValues, DateTime, AccountId, EntryId, Layer,
  settled, pending, encumbrance, DebitOrCredit, debit, credit, amount, side, layer_beq,
  direction_beq,
}
use cala.Balance.Snapshot.{
  update_snapshot, new_snapshot, u32_mod, add_units, blank_snapshot, zero_amount,
  unassigned_entry_id,
}

pub scaled-zero_amount :
    {A : Type 0} (d : DecimalOps A) (time : DateTime) (id : EntryId) (x : DebitOrCredit)
    → d.scaled (side (zero_amount ⦃d = d⦄ time id) x) ≡ pos 0
scaled-zero_amount d time id debit = d.scaled_zero
scaled-zero_amount d time id credit = d.scaled_zero

module _ {A : Type 0} ⦃d : DecimalOps A⦄ where
  -- The units that an entry brings to one side of one layer.
  abbrev pub delta : EntryValues A → Layer → DebitOrCredit → ℤ
  delta e l s =
      if layer_beq l e.layer && direction_beq s e.direction then d.scaled e.units else pos 0

  -- One side of one layer of a snapshot.
  abbrev pub balance_of : BalanceSnapshot A → Layer → DebitOrCredit → ℤ
  balance_of s l x = d.scaled (side (amount s l) x)

  add_units_balance :
      (time : DateTime) (id : EntryId) (units : A) (dir x : DebitOrCredit) (a : BalanceAmount A)
      → d.scaled (side (add_units time id units dir a) x)
        ≡ d.scaled (side a x) +ℤ (if direction_beq x dir then d.scaled units else pos 0)
  add_units_balance time id units debit debit a = d.scaled_add _ _
  add_units_balance time id units credit credit a = d.scaled_add _ _
  add_units_balance time id units debit credit a = rw +ℤ_zero
  add_units_balance time id units credit debit a = rw +ℤ_zero

  pub balance_of-update_snapshot :
      (time : DateTime) (s : BalanceSnapshot A) (e : EntryValues A) (l : Layer) (x : DebitOrCredit)
      → balance_of (update_snapshot time s e) l x ≡ balance_of s l x +ℤ delta e l x
  unfolding update_snapshot
  balance_of-update_snapshot time s e l x = ground (
    arith,
    add_units_balance time e.id e.units e.direction x (amount s e.layer),
    +ℤ_zero (balance_of s l x),
  )

  -- What posting an entry at a time makes of a snapshot.
  pub record IsPosted (time : DateTime) (s : BalanceSnapshot A) (e : EntryValues A)
      (s' : BalanceSnapshot A) : Type 0 where
    pub balances :
        (l : Layer) (x : DebitOrCredit) → balance_of s' l x ≡ balance_of s l x +ℤ delta e l x
    pub version : s'.version ≡ (s.version + 1) % u32_mod
    pub account : s'.account_id ≡ s.account_id
    pub journal : s'.journal_id ≡ s.journal_id
    pub currency : s'.currency ≡ s.currency
    pub created : s'.created_at ≡ s.created_at
    pub modified : s'.modified_at ≡ time
    pub entry : s'.entry_id ≡ e.id
    pub layer_modified : (amount s' e.layer).modified_at ≡ time
    pub layer_entry : (amount s' e.layer).entry_id ≡ e.id
    pub amounts :
        (l : Layer)
        → amount s' l ≡ (
            if layer_beq l e.layer
            then add_units time e.id e.units e.direction (amount s l)
            else amount s l)

  -- Posting an entry adds its units to its side of its layer and to no other, raises the version by
  -- one (modulo 2^32), stamps the snapshot and that layer with the entry and the time, and leaves
  -- the account, journal, currency, creation time and the other layers as they were.
  pub update_snapshot-IsPosted :
      (time : DateTime) (s : BalanceSnapshot A) (e : EntryValues A)
      → IsPosted time s e (update_snapshot time s e)
  unfolding update_snapshot
  update_snapshot-IsPosted time s e = record {
    balances = balance_of-update_snapshot time s e;
    version = ground arith;
    account = ground arith;
    journal = ground arith;
    currency = ground arith;
    created = ground arith;
    modified = ground arith;
    entry = ground arith;
    layer_modified = ground arith;
    layer_entry = ground arith;
    amounts = λ l. ground arith;
  }

  pub balance_of-blank_snapshot :
      (time : DateTime) (account_id : AccountId) (e : EntryValues A) (l : Layer) (x : DebitOrCredit)
      → balance_of (blank_snapshot time account_id e) l x ≡ pos 0
  balance_of-blank_snapshot time account_id e settled x =
      scaled-zero_amount d time unassigned_entry_id x
  balance_of-blank_snapshot time account_id e pending x =
      scaled-zero_amount d time unassigned_entry_id x
  balance_of-blank_snapshot time account_id e encumbrance x =
      scaled-zero_amount d time unassigned_entry_id x

  -- The first snapshot of a balance is that of the given account, in the entry's journal and
  -- currency, at version 1, and holds the entry's units on the entry's side of its layer and zero
  -- everywhere else.
  pub new_snapshot_lem :
      (time : DateTime) (account_id : AccountId) (e : EntryValues A)
      → let s = new_snapshot time account_id e in
        (s.account_id ≡ account_id)
        × (s.journal_id ≡ e.journal_id)
        × (s.currency ≡ e.currency)
        × (s.version ≡ 1)
        × ((l : Layer) (x : DebitOrCredit) → balance_of s l x ≡ delta e l x)
  unfolding new_snapshot
  new_snapshot_lem time account_id e = (
    ground arith,
    ground arith,
    ground arith,
    ground arith,
    λ l x.
        balance_of-update_snapshot time (blank_snapshot time account_id e) e l x
        ∙ rw (balance_of-blank_snapshot time account_id e l x) (zero_+ℤ (delta e l x)),
  )
