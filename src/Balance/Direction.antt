-- ===== src/Balance/Direction.antt =====
-- `BalanceWithDirection`, `AccountBalance` and `BalanceRange`
-- (cala-ledger/src/balance/account_balance.rs).
pub mod Available
pub mod Range
use cala.Prelude.{ℕ, ◌+◌, ◌-◌, ◌%◌, Option, none, some, Bool, if◌then◌else◌}
use cala.Types.{
  DecimalOps, BalanceAmount, BalanceSnapshot, DateTime, Layer, settled, pending, encumbrance,
  DebitOrCredit, debit, credit, direction_beq,
}
use cala.Balance.Snapshot.{unassigned_entry_id, u32_mod, zero_amount}

pub record AccountBalance (A : Type 0) : Type 0 where
  pub balance_type : DebitOrCredit
  pub details : BalanceSnapshot A

pub record BalanceRange (A : Type 0) : Type 0 where
  pub opening : AccountBalance A
  pub period : AccountBalance A
  pub closing : AccountBalance A

-- `Utc.timestamp_opt(0, 0)`
abbrev pub zero_time : DateTime
zero_time = 0

module _ {A : Type 0} ⦃d : DecimalOps A⦄ where
  -- `BalanceWithDirection::{pending, settled, encumbrance}` on the amount of their layer.
  unfoldable pub directed : DebitOrCredit → BalanceAmount A → A
  directed direction a =
      if direction_beq direction credit
      then d.sub a.cr_balance a.dr_balance
      else d.sub a.dr_balance a.cr_balance

  -- `BalanceWithDirection::available`
  unfoldable pub directed_available : DebitOrCredit → BalanceSnapshot A → Layer → A
  directed_available dir s settled = directed dir s.settled_amount
  directed_available dir s pending =
      d.add (directed dir s.pending_amount) (directed dir s.settled_amount)
  directed_available dir s encumbrance =
      d.add (d.add (directed dir s.encumbrance_amount) (directed dir s.pending_amount))
        (directed dir s.settled_amount)

  -- `AccountBalance::available`
  unfoldable pub available : AccountBalance A → Layer → A
  unfolding directed_available
  available b = directed_available b.balance_type b.details

  -- One of the three literals in `derive_diff`; the entry and the time stay those of the balance.
  abbrev pub amount_diff : BalanceAmount A → BalanceAmount A → BalanceAmount A
  amount_diff a since = record a {
    dr_balance = d.sub a.dr_balance since.dr_balance;
    cr_balance = d.sub a.cr_balance since.cr_balance;
  }

  -- `AccountBalance::derive_diff`
  unfoldable pub derive_diff : AccountBalance A → AccountBalance A → AccountBalance A
  derive_diff b since = record b {
    details = record (b.details) {
      settled_amount = amount_diff b.details.settled_amount since.details.settled_amount;
      pending_amount = amount_diff b.details.pending_amount since.details.pending_amount;
      encumbrance_amount =
          amount_diff b.details.encumbrance_amount since.details.encumbrance_amount;
    };
  }

  abbrev pub with_version : AccountBalance A → ℕ → AccountBalance A
  with_version b v = record b { details = record (b.details) { version = v } }

  -- `BalanceRange::new`
  unfoldable pub new_range : Option (AccountBalance A) → AccountBalance A → ℕ → BalanceRange A
  new_range (some start) end version_diff = record {
    closing = end;
    period = with_version (derive_diff end start) version_diff;
    opening = start;
  }
  new_range none end version_diff = record {
    period = with_version end version_diff;
    closing = end;
    opening = record {
      balance_type = end.balance_type;
      details = record (end.details) {
        version = 0;
        created_at = zero_time;
        modified_at = zero_time;
        entry_id = unassigned_entry_id;
        settled_amount = zero_amount zero_time unassigned_entry_id;
        pending_amount = zero_amount zero_time unassigned_entry_id;
        encumbrance_amount = zero_amount zero_time unassigned_entry_id;
      };
    };
  }

  -- `BalanceRange::from_bounds`; the subtraction is that of `u32`.
  unfoldable pub from_bounds :
      Option (AccountBalance A) → ℕ → Option (AccountBalance A) → ℕ → Option (BalanceRange A)
  unfolding new_range
  from_bounds start start_version none end_version = none
  from_bounds start start_version (some end) end_version =
      some (new_range start end ((end_version + u32_mod - start_version) % u32_mod))
