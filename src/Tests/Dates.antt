-- ===== src/Tests/Dates.antt =====
-- The theorems on balances by effective date, at an entry before a later snapshot.
use mathlib.Core.List.{Perm}
use cala.Prelude.{◌≡◌, refl, none, some, List, [], ◌∷◌, arith}
use cala.Prelude.Int.{ℤ, pos}
use cala.Types.{Layer, DebitOrCredit, ℤ_decimal}
use cala.Balance.Effective.{
  SnapshotOrEntry, EffectiveBalanceData, snapshot, entry, re_calculate_snapshots,
}
use cala.Balance.Effective.Replay.{IsReplayed, last_balance, re_calculate-IsReplayed}
use cala.Balance.Effective.Sorted.{IsInOrder}
use cala.Balance.Fold.Totals.{balance_or_zero}
use cala.Balance.Effective.Total.{re_calculate_total}
use cala.Tests.Data.{usd, stored, settled_debit}

-- The entry is of date 3, and the balance was written for date 5.
abbrev updates : List (SnapshotOrEntry ℤ)
updates = snapshot 5 (stored 10) ∷ entry 3 settled_debit ∷ []

abbrev account : EffectiveBalanceData ℤ
account = record {
  account_id = 10;
  currency = usd;
  last_snapshot = none;
  latest_all_time_version = 4;
  updates = updates;
}

re_calculate_total_example :
    (out : EffectiveBalanceData ℤ) × (re_calculate_snapshots 9 account ≡ some out)
re_calculate_total_example = re_calculate_total 9 account 3 (omega arith, (refl, tt)) refl

abbrev done : EffectiveBalanceData ℤ
done = (re_calculate_total 9 account 3 (omega arith, (refl, tt)) refl).0

re_calculate-IsReplayed_example :
    (sorted : List (SnapshotOrEntry ℤ)) × IsInOrder sorted
    × Perm updates sorted
    × ((l : Layer) (x : DebitOrCredit)
        → IsReplayed l x
            (balance_or_zero (last_balance account.last_snapshot) l x)
            (pos 0)
            sorted
            done.updates)
re_calculate-IsReplayed_example =
    re_calculate-IsReplayed 9 account done refl
      (re_calculate_total 9 account 3 (omega arith, (refl, tt)) refl).1
