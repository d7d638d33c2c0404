-- ===== src/Tests/Limits.antt =====
-- The theorems on velocity limits at a control on one account.
use cala.Prelude.{
  ℕ, ◌+◌, String, ◌≡◌, ◌↔◌, refl, true, false, Option, none, some, List, [], ◌∷◌, ok, map, nat_eq,
  All, Any,
}
use cala.Prelude.Int.{ℤ, pos, ◌+ℤ◌, ◌-ℤ◌}
use cala.Prelude.Map.{Map, keys}
use cala.Types.{
  EntryId, TransactionId, AccountId, BalanceSnapshot, TransactionValues,
  VelocityContextAccountValues, settled, debit, ℤ_decimal,
}
use cala.Types.Json.{Json, str, pos_int, object, member, end}
use cala.Cel.{CelValue}
use cala.Cel.FromJson.{json_value, IsFloatFree}
use cala.Cel.Coerce.{try_json, try_bool}
use cala.Cel.RoundTrip.{try_json-json_value}
use cala.Balance.Snapshot.{new_snapshot}
use cala.Balance.Fold.{next_snapshot}
use cala.Balance.Direction.{directed_available, directed}
use cala.Velocity.Context.{
  context_for_entry, new_context, entry_value, transaction_value, account_values_of,
}
use cala.Velocity.{
  reject, AccountBalanceLimit, AccountVelocityLimit, AccountVelocityControl, WindowOps,
  VelocityBalanceKey, key_eq,
}
use cala.Velocity.Limit.{
  enforce, limit_time, check_limits, needs_enforcement, condition_holds, window_for_enforcement,
  window_of,
}
use cala.Velocity.Limit.Respected.{is_exceeded, report, enforce-ok_iff, enforce-exceeded}
use cala.Velocity.Collect.{
  Checks, Controls, collect_balances_to_check, collect_accounts, collect_controls, collect_limits,
  push_check,
}
use cala.Velocity.Enforce.{
  Contexts, Posting, enforce_batch, enforce_entries, collect_postings, contexts_of,
  control_accounts, new_snapshots_with_limit_enforcement,
}
use cala.Velocity.Enforce.Chained.{IsEnforced, new_snapshots-IsEnforced}
use cala.Velocity.Enforce.Counts.{counts_of_postings}
use cala.Velocity.Enforce.Batch.{IsEnforcedBatch, contexts_of-AreTrue, enforce_batch-IsEnforced}
use cala.Tests.Data.{usd, settled_debit, stored, Expr, lit, cel_ops}

instance abbrev window_ops : WindowOps ℕ
window_ops = record { new = 0; insert = λ w alias v. w + 1; window_eq = nat_eq }

abbrev at_most : ℤ → AccountBalanceLimit ℤ
at_most amount = record {
  layer = settled;
  amount = amount;
  enforcement_direction = debit;
  start = 1;
  end = some 20;
}

abbrev limit : ℤ → AccountVelocityLimit ℤ Expr
limit amount = record {
  limit_id = 61;
  window = [];
  condition = none;
  currency = some usd;
  limit = record { timestamp_source = none; balance = at_most amount ∷ [] };
}

abbrev control : AccountVelocityControl ℤ Expr
control = record {
  account_id = 10;
  control_id = 60;
  enforcement = record { action = reject };
  condition = some (lit (CelValue.bool true));
  velocity_limits = limit (pos 50) ∷ [];
}

abbrev holder : VelocityContextAccountValues
holder = record {
  id = 10;
  name = "holder";
  normal_balance_type = debit;
  external_id = none;
  metadata = none;
}

abbrev pub tx : TransactionValues
tx = record {
  id = 5;
  version = 1;
  created_at = 9;
  modified_at = 9;
  journal_id = 7;
  tx_template_id = 1;
  entry_ids = 1 ∷ [];
  effective = 3;
  correlation_id = "5";
  external_id = none;
  description = none;
  metadata = none;
}

abbrev controls : Controls ℤ Expr
controls = (10, (holder, control ∷ [])) ∷ []

abbrev ctx : Map String (CelValue ℤ)
ctx = []

enforce-ok_iff_example :
    (enforce cel_ops (limit (pos 60)) ctx 9 (stored 10) ≡ ok tt)
    ↔ All (λ b. is_exceeded 9 (stored 10) b ≡ false) (at_most (pos 60) ∷ [])
unfolding limit_time
enforce-ok_iff_example = enforce-ok_iff cel_ops (limit (pos 60)) ctx 9 9 (stored 10) refl refl

enforce-exceeded_example :
    (t : ℕ) × (limit_time cel_ops (limit (pos 59)) ctx 9 ≡ ok t)
    × Any
        (λ b.
          (is_exceeded t (stored 10) b ≡ true)
          × (report 61 (stored 10) (at_most (pos 59)) ≡ report 61 (stored 10) b))
        (at_most (pos 59) ∷ [])
unfolding enforce check_limits directed_available directed ◌-ℤ◌
enforce-exceeded_example =
    enforce-exceeded cel_ops (limit (pos 59)) ctx 9 (stored 10)
      {r = report 61 (stored 10) (at_most (pos 59))} refl

abbrev key : VelocityBalanceKey ℕ
key = record {
  window = 0;
  currency = usd;
  journal_id = 7;
  account_id = 10;
  control_id = 60;
  limit_id = 61;
}

abbrev postings : List (Posting ℤ)
postings = (tx, settled_debit ∷ []) ∷ []

abbrev find_for_update :
    List (VelocityBalanceKey ℕ) → Map (VelocityBalanceKey ℕ) (Option (BalanceSnapshot ℤ))
find_for_update = map (λ k. (k, none))

abbrev written : Map (VelocityBalanceKey ℕ) (List (BalanceSnapshot ℤ))
written = (key, new_snapshot 9 10 settled_debit ∷ []) ∷ []

abbrev start : Contexts ℤ
start = contexts_of cel_ops (control_accounts controls) postings []

abbrev checks : Checks ℕ ℤ Expr
checks = (key, (limit (pos 50), settled_debit) ∷ []) ∷ []

abbrev tx_value : TransactionId → CelValue ℤ
tx_value id = transaction_value cel_ops tx

abbrev value_of : EntryId → CelValue ℤ
value_of id = entry_value cel_ops settled_debit

abbrev accounts : Map AccountId (CelValue ℤ)
accounts = account_values_of cel_ops (control_accounts controls) []

new_snapshots-IsEnforced_example :
    (keys written ≡ key ∷ [])
    × All
        (IsEnforced cel_ops tx_value value_of accounts 9 (find_for_update (key ∷ [])) checks)
        written
unfolding new_snapshots_with_limit_enforcement enforce_entries context_for_entry new_context enforce
    next_snapshot new_snapshot check_limits directed_available directed ◌-ℤ◌ ◌+ℤ◌
new_snapshots-IsEnforced_example =
    new_snapshots-IsEnforced cel_ops tx_value value_of accounts 9 (find_for_update (key ∷ []))
      checks start written (refl, tt)
      (contexts_of-AreTrue cel_ops tx_value value_of (control_accounts controls) postings []
        (refl, tt) (λ tx_id ec found. cc))
      ((refl, tt), tt) refl

enforce_batch-IsEnforced_example :
    IsEnforcedBatch cel_ops tx_value value_of accounts find_for_update 9
      (counts_of_postings cel_ops tx_value accounts controls [] postings)
      written
unfolding enforce_batch collect_postings collect_balances_to_check collect_accounts collect_controls
    collect_limits push_check context_for_entry new_context needs_enforcement try_bool
    condition_holds window_for_enforcement window_of new_snapshots_with_limit_enforcement
    enforce_entries enforce limit_time next_snapshot new_snapshot check_limits directed_available
    directed ◌-ℤ◌ ◌+ℤ◌
enforce_batch-IsEnforced_example =
    enforce_batch-IsEnforced cel_ops tx_value value_of find_for_update 9 postings controls []
      written (refl, tt) ((refl, tt), tt) refl

abbrev document : Json
document = object (member "a" (pos_int 3) (member "b" (str "c") end))

try_json-json_value_example : try_json cel_ops "e" (json_value document) ≡ ok document
unfolding IsFloatFree
try_json-json_value_example = try_json-json_value cel_ops "e" document (tt, (tt, tt))
