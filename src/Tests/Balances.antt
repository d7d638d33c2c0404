-- ===== src/Tests/Balances.antt =====
-- The theorems on balances at concrete entries.
use cala.Prelude.{◌≡◌, refl, Option, none, some, List, [], ◌∷◌, nat_eq, pair_eq, arith}
use cala.Prelude.Int.{ℤ}
use cala.Prelude.Map.{Map}
use cala.Types.{BalanceSnapshot, AccountId, AccountSetId, EntryValues, debit, ℤ_decimal}
use cala.Balance.Snapshot.{update_snapshot, new_snapshot}
use cala.Balance.Snapshot.Effect.{IsPosted, update_snapshot-IsPosted, new_snapshot_lem}
use cala.Balance.Fold.{BalanceKey, from_entries}
use cala.Balance.Fold.Spec.{of_key}
use cala.Balance.Fold.Totals.{IsFolded, from_entries-IsFolded, from_entries_not_loaded}
use cala.Balance.Direction.{AccountBalance, BalanceRange, new_range, from_bounds}
use cala.Balance.Direction.Range.{IsRange, new_range-IsRange, from_bounds-IsRange}
use cala.Tests.Data.{usd, settled_debit, pending_credit, settled_credit, stored}

update_snapshot-IsPosted_example :
    IsPosted 9 (stored 10) pending_credit (update_snapshot 9 (stored 10) pending_credit)
update_snapshot-IsPosted_example = update_snapshot-IsPosted 9 (stored 10) pending_credit

new_snapshot_lem_example : (new_snapshot 9 20 settled_debit).version ≡ 1
new_snapshot_lem_example = (new_snapshot_lem 9 20 settled_debit).3

-- Account 10 has a balance, the set 20 has none yet, and account 11 is not loaded.
abbrev loaded : Map BalanceKey (Option (BalanceSnapshot ℤ))
loaded = ((10, usd), some (stored 10)) ∷ ((20, usd), none) ∷ []

abbrev batch : List (EntryValues ℤ)
batch = settled_debit ∷ pending_credit ∷ settled_credit ∷ []

abbrev sets : Map AccountId (List AccountSetId)
sets = (10, 20 ∷ []) ∷ (11, 20 ∷ []) ∷ []

from_entries-IsFolded_example :
    IsFolded 9
      (10, usd)
      (some (stored 10))
      (settled_debit ∷ pending_credit ∷ [])
      (from_entries 9 loaded batch sets)
from_entries-IsFolded_example =
    from_entries-IsFolded 9 loaded batch sets (10, usd) (some (stored 10)) (refl, (tt, tt)) refl

from_entries_not_loaded_example : of_key (11, usd) (from_entries 9 loaded batch sets) ≡ []
from_entries_not_loaded_example =
    from_entries_not_loaded 9 loaded batch sets (11, usd) (refl, (tt, tt)) refl

abbrev opened : AccountBalance ℤ
opened = record { balance_type = debit; details = stored 10 }

abbrev closed : AccountBalance ℤ
closed = record { balance_type = debit; details = update_snapshot 9 (stored 10) settled_debit }

new_range-IsRange_example : IsRange (some opened) closed 1 (new_range (some opened) closed 1)
new_range-IsRange_example = new_range-IsRange (some opened) closed 1

from_bounds-IsRange_example :
    (from_bounds (some opened) 4 none 6 ≡ none)
    × ((r : BalanceRange ℤ) × (from_bounds (some opened) 4 (some closed) 6 ≡ some r)
        × IsRange (some opened) closed 2 r)
from_bounds-IsRange_example =
    from_bounds-IsRange (some opened) 4 closed 6 (omega arith) (omega arith)
