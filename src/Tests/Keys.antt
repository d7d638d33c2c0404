-- ===== src/Tests/Keys.antt =====
-- The theorem on the keys of a batch at two transfers, the second between the same accounts.
use cala.Prelude.{◌≡◌, List, [], ◌∷◌}
use cala.Prelude.Int.{ℤ}
use cala.Prelude.Order.{nat_order, pair_order, IsAscending, is_key}
use cala.Template.{PreparedTransaction}
use cala.Posting.Keys.{Triple, entry_balance_keys}
use cala.Posting.Keys.Canonical.{rows, batch_keys, entry_balance_keys-IsAscending}
use cala.Tests.Postings.{evaluated}

abbrev twice : List (PreparedTransaction ℤ)
twice = evaluated ∷ record evaluated { tx_id = 6 } ∷ []

entry_balance_keys-IsAscending_example :
    IsAscending (rows (entry_balance_keys twice))
    × ((k : Triple) → is_key k (rows (entry_balance_keys twice)) ≡ is_key k (batch_keys twice))
entry_balance_keys-IsAscending_example = entry_balance_keys-IsAscending twice
