-- ===== src/Balance/Direction/Range.antt =====
-- A range reports an opening balance, a movement and a closing balance that add up.
use cala.Prelude.{ℕ, ◌+◌, ◌-◌, ◌≤◌, ◌<◌, ◌%◌, ◌≡◌, refl, Option, none, some, arith}
use cala.Prelude.Int.{ℤ, pos, ◌+ℤ◌, ◌-ℤ◌, int_laws, zero_+ℤ}
use cala.Types.{DecimalOps, Layer, settled, pending, encumbrance, DebitOrCredit, debit, credit}
use cala.Balance.Snapshot.{u32_mod, unassigned_entry_id}
use cala.Balance.Snapshot.Effect.{balance_of, scaled-zero_amount}
use cala.Balance.Direction.{
  AccountBalance, BalanceRange, derive_diff, with_version, zero_time, new_range, from_bounds,
}

add_diff : (a b : ℤ) → a +ℤ (b -ℤ a) ≡ b
add_diff a b = omega int_laws

module _ {A : Type 0} ⦃d : DecimalOps A⦄ where
  balance_of-derive_diff :
      (b since : AccountBalance A) (l : Layer) (x : DebitOrCredit)
      → balance_of (derive_diff b since).details l x
        ≡ balance_of b.details l x -ℤ balance_of since.details l x
  unfolding derive_diff
  balance_of-derive_diff b since settled debit = d.scaled_sub _ _
  balance_of-derive_diff b since settled credit = d.scaled_sub _ _
  balance_of-derive_diff b since pending debit = d.scaled_sub _ _
  balance_of-derive_diff b since pending credit = d.scaled_sub _ _
  balance_of-derive_diff b since encumbrance debit = d.scaled_sub _ _
  balance_of-derive_diff b since encumbrance credit = d.scaled_sub _ _

  -- The opening balance that a range is to report.
  abbrev pub opening_balance : Option (AccountBalance A) → Layer → DebitOrCredit → ℤ
  opening_balance none l x = pos 0
  opening_balance (some start) l x = balance_of start.details l x

  pub record IsRange (start : Option (AccountBalance A)) (end : AccountBalance A) (version_diff : ℕ)
      (r : BalanceRange A) : Type 0 where
    pub closes : r.closing ≡ end
    pub opens :
        (l : Layer) (x : DebitOrCredit)
        → balance_of r.opening.details l x ≡ opening_balance start l x
    pub adds :
        (l : Layer) (x : DebitOrCredit)
        → balance_of r.opening.details l x +ℤ balance_of r.period.details l x
          ≡ balance_of r.closing.details l x
    pub version : r.period.details.version ≡ version_diff

  balance_of-with_version :
      (b : AccountBalance A) (v : ℕ) (l : Layer) (x : DebitOrCredit)
      → balance_of (with_version b v).details l x ≡ balance_of b.details l x
  balance_of-with_version b v settled x = refl
  balance_of-with_version b v pending x = refl
  balance_of-with_version b v encumbrance x = refl

  opening-zero :
      (end : AccountBalance A) (v : ℕ) (l : Layer) (x : DebitOrCredit)
      → balance_of (new_range none end v).opening.details l x ≡ pos 0
  unfolding new_range
  opening-zero end v settled x = scaled-zero_amount d zero_time unassigned_entry_id x
  opening-zero end v pending x = scaled-zero_amount d zero_time unassigned_entry_id x
  opening-zero end v encumbrance x = scaled-zero_amount d zero_time unassigned_entry_id x

  -- A range ends in the given closing balance, opens with the given start (or with zero where there
  -- is none), reports the given version difference, and on every layer and side its opening
  -- balance and its movement add up to its closing balance.
  pub new_range-IsRange :
      (start : Option (AccountBalance A)) (end : AccountBalance A) (version_diff : ℕ)
      → IsRange start end version_diff (new_range start end version_diff)
  unfolding new_range
  new_range-IsRange (some start) end v = record {
    closes = refl;
    opens = λ l x. refl;
    adds = λ l x.
        rw
          (
            balance_of-with_version (derive_diff end start) v l x,
            balance_of-derive_diff end start l x,
          )
          (add_diff (balance_of start.details l x) (balance_of end.details l x));
    version = refl;
  }
  new_range-IsRange none end v = record {
    closes = refl;
    opens = opening-zero end v;
    adds = λ l x.
        rw (opening-zero end v l x, balance_of-with_version end v l x)
          (zero_+ℤ (balance_of end.details l x));
    version = refl;
  }

  -- From bounds there is a range exactly where there is a closing balance; its version is the number
  -- of versions between the bounds, where they are in order and fit 32 bits.
  pub from_bounds-IsRange :
      (start : Option (AccountBalance A)) (start_version : ℕ) (end : AccountBalance A)
      (end_version : ℕ)
      → start_version ≤ end_version
      → end_version < u32_mod
      → (from_bounds start start_version none end_version ≡ none)
        × ((r : BalanceRange A) × (from_bounds start start_version (some end) end_version ≡ some r)
            × IsRange start end (end_version - start_version) r)
  unfolding from_bounds
  from_bounds-IsRange start start_version end end_version ordered fits =
      let diff : (end_version + u32_mod - start_version) % u32_mod ≡ end_version - start_version =
        omega arith in
      (
        refl,
        (
          new_range start end (end_version - start_version),
          rw diff refl,
          new_range-IsRange start end (end_version - start_version),
        ),
      )
