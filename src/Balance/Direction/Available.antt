-- ===== src/Balance/Direction/Available.antt =====
-- The two ways in which the code adds layers up agree, where the sums fit a decimal.
use cala.Prelude.{◌≡◌}
use cala.Prelude.Int.{ℤ, ◌-ℤ◌, ◌+ℤ◌, int_laws}
use cala.Types.{
  DecimalOps, BalanceAmount, BalanceSnapshot, Layer, settled, pending, encumbrance, DebitOrCredit,
  debit, credit, rollup, snapshot_available,
}
use cala.Balance.Direction.{directed, directed_available}

module _ {A : Type 0} ⦃d : DecimalOps A⦄ where
  -- The excess of the account's own side over the other.
  abbrev pub excess : DebitOrCredit → BalanceAmount A → ℤ
  excess debit a = d.scaled a.dr_balance -ℤ d.scaled a.cr_balance
  excess credit a = d.scaled a.cr_balance -ℤ d.scaled a.dr_balance

  pub directed_lem :
      (dir : DebitOrCredit) (a : BalanceAmount A) → d.scaled (directed dir a) ≡ excess dir a
  unfolding directed
  directed_lem debit a = d.scaled_sub a.dr_balance a.cr_balance
  directed_lem credit a = d.scaled_sub a.cr_balance a.dr_balance

  excess-rollup :
      (dir : DebitOrCredit) (a b : BalanceAmount A)
      → excess dir (rollup a b) ≡ excess dir a +ℤ excess dir b
  unfolding rollup
  excess-rollup debit a b = rw (d.scaled_add, d.scaled_add) (omega int_laws)
  excess-rollup credit a b = rw (d.scaled_add, d.scaled_add) (omega int_laws)

  -- What an account has available on a layer, by its direction, is the excess of its side in the
  -- rolled up amount that `BalanceSnapshot::available` gives for that layer.
  pub directed_available-eq-excess :
      (dir : DebitOrCredit) (s : BalanceSnapshot A) (l : Layer)
      → d.scaled (directed_available dir s l) ≡ excess dir (snapshot_available s l)
  unfolding directed_available snapshot_available
  directed_available-eq-excess dir s settled = directed_lem dir s.settled_amount
  directed_available-eq-excess dir s pending =
      rw (d.scaled_add, directed_lem, directed_lem, excess-rollup) (omega int_laws)
  directed_available-eq-excess dir s encumbrance =
      rw
        (
          d.scaled_add, d.scaled_add, directed_lem, directed_lem, directed_lem, excess-rollup,
          excess-rollup,
        )
        (omega int_laws)
