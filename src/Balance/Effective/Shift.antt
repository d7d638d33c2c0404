-- ===== src/Balance/Effective/Shift.antt =====
-- What a shift does to the amounts of a snapshot, and what `diff` holds.
use cala.Prelude.{◌≡◌, sym, ap, ◌∙◌, Option, none, some, Bool-cases, inl, inr, arith}
use cala.Prelude.Int.{pos, ◌+ℤ◌, +ℤ_zero}
use cala.Types.{
  DecimalOps, BalanceAmount, BalanceSnapshot, EntryValues, DateTime, AccountId, Layer, settled,
  pending, encumbrance, DebitOrCredit, debit, credit, side,
}
use cala.Balance.Snapshot.Effect.{delta, balance_of, balance_of-update_snapshot}
use cala.Balance.Fold.Totals.{balance_or_zero}
use cala.Balance.Effective.{
  shift_amount, settle_encumbrance, settle_pending, settle_settled, shift_snapshot, initial_diff,
  next_diff,
}

module _ {A : Type 0} ⦃d : DecimalOps A⦄ where
  shift_amount_lem :
      (time : DateTime) (diff a : BalanceAmount A) (x : DebitOrCredit)
      → d.scaled (side (shift_amount time diff a) x) ≡ d.scaled (side a x) +ℤ d.scaled (side diff x)
  shift_amount_lem time diff a x = elim (Bool-cases (d.is_zero diff.cr_balance)) [
    | inl no_credit ↦ elim (Bool-cases (d.is_zero diff.dr_balance)) [
      | inl no_debit ↦
          rw (no_credit, no_debit)
            (unchanged x ((d.is_zero_iff diff.dr_balance).0 no_debit)
              ((d.is_zero_iff diff.cr_balance).0 no_credit))
      | inr some_debit ↦ rw (no_credit, some_debit) (changed x)
    ]
    | inr some_credit ↦ rw some_credit (changed x)
  ]
    where
      unchanged :
          (x : DebitOrCredit)
          → d.scaled diff.dr_balance ≡ pos 0
          → d.scaled diff.cr_balance ≡ pos 0
          → d.scaled (side a x) ≡ d.scaled (side a x) +ℤ d.scaled (side diff x)
      unchanged debit dr cr = rw dr (sym (+ℤ_zero (d.scaled a.dr_balance)))
      unchanged credit dr cr = rw cr (sym (+ℤ_zero (d.scaled a.cr_balance)))

      changed :
          (x : DebitOrCredit)
          → d.scaled (
              side
                (record a {
                  cr_balance = d.add a.cr_balance diff.cr_balance;
                  dr_balance = d.add a.dr_balance diff.dr_balance;
                  modified_at = time;
                })
                x)
            ≡ d.scaled (side a x) +ℤ d.scaled (side diff x)
      changed debit = d.scaled_add a.dr_balance diff.dr_balance
      changed credit = d.scaled_add a.cr_balance diff.cr_balance

  -- The entries of the layers change, and no amount does.
  module _ (v diff : BalanceSnapshot A) (l : Layer) (x : DebitOrCredit) where
    settle_encumbrance_lem :
        (balance_of (settle_encumbrance (v, diff)).0 l x ≡ balance_of v l x)
        × (balance_of (settle_encumbrance (v, diff)).1 l x ≡ balance_of diff l x)
    settle_encumbrance_lem = ground arith

    settle_pending_lem :
        (balance_of (settle_pending (v, diff)).0 l x ≡ balance_of v l x)
        × (balance_of (settle_pending (v, diff)).1 l x ≡ balance_of diff l x)
    settle_pending_lem = ground arith

    settle_settled_lem :
        (balance_of (settle_settled (v, diff)).0 l x ≡ balance_of v l x)
        × (balance_of (settle_settled (v, diff)).1 l x ≡ balance_of diff l x)
    settle_settled_lem = ground arith

  initial_diff_lem :
      (time : DateTime) (a : AccountId) (last : BalanceSnapshot A) (e : EntryValues A) (l : Layer)
      (x : DebitOrCredit)
      → balance_of (initial_diff time a last e) l x ≡ pos 0
  initial_diff_lem time a last e settled debit = d.scaled_zero
  initial_diff_lem time a last e settled credit = d.scaled_zero
  initial_diff_lem time a last e pending debit = d.scaled_zero
  initial_diff_lem time a last e pending credit = d.scaled_zero
  initial_diff_lem time a last e encumbrance debit = d.scaled_zero
  initial_diff_lem time a last e encumbrance credit = d.scaled_zero

  pub balance_of-next_diff :
      (time : DateTime) (a : AccountId) (last : BalanceSnapshot A)
      (diff : Option (BalanceSnapshot A)) (e : EntryValues A) (l : Layer) (x : DebitOrCredit)
      → balance_of (next_diff time a last diff e) l x ≡ balance_or_zero diff l x +ℤ delta e l x
  unfolding next_diff
  balance_of-next_diff time a last (some diff) e l x = balance_of-update_snapshot time diff e l x
  balance_of-next_diff time a last none e l x =
      balance_of-update_snapshot time (initial_diff time a last e) e l x
      ∙ ap (λ b. b +ℤ delta e l x) (initial_diff_lem time a last e l x)

  abbrev shifted : DateTime → BalanceSnapshot A → BalanceSnapshot A → BalanceSnapshot A
  shifted time v diff = record v {
    modified_at = time;
    encumbrance_amount = shift_amount time diff.encumbrance_amount v.encumbrance_amount;
    pending_amount = shift_amount time diff.pending_amount v.pending_amount;
    settled_amount = shift_amount time diff.settled_amount v.settled_amount;
  }

  shifted_lem :
      (time : DateTime) (v diff : BalanceSnapshot A) (l : Layer) (x : DebitOrCredit)
      → balance_of (shifted time v diff) l x ≡ balance_of v l x +ℤ balance_of diff l x
  shifted_lem time v diff settled x = shift_amount_lem time diff.settled_amount v.settled_amount x
  shifted_lem time v diff pending x = shift_amount_lem time diff.pending_amount v.pending_amount x
  shifted_lem time v diff encumbrance x =
      shift_amount_lem time diff.encumbrance_amount v.encumbrance_amount x

  pub shift_snapshot_lem :
      (time : DateTime) (v diff : BalanceSnapshot A) (l : Layer) (x : DebitOrCredit)
      → (balance_of (shift_snapshot time v diff).0 l x ≡ balance_of v l x +ℤ balance_of diff l x)
        × (balance_of (shift_snapshot time v diff).1 l x ≡ balance_of diff l x)
  unfolding shift_snapshot
  shift_snapshot_lem time v diff l x =
      let p = settle_encumbrance (shifted time v diff, diff) in
      let q = settle_pending p in
      let first = settle_encumbrance_lem (shifted time v diff) diff l x in
      let second = settle_pending_lem p.0 p.1 l x in
      let third = settle_settled_lem q.0 q.1 l x in
      (third.0 ∙ second.0 ∙ first.0 ∙ shifted_lem time v diff l x, third.1 ∙ second.1 ∙ first.1)
