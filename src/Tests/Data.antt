-- ===== src/Tests/Data.antt =====
-- Concrete entries, snapshots and an evaluator.
use text.Mathlib.Text.{◌==◌ as str_eq}
use cala.Prelude.{String, Option, none, some, [], ◌∷◌, if◌then◌else◌, Result, ok, err, string_eq}
use cala.Prelude.Int.{ℤ, pos}
use cala.Prelude.Map.{Map, get}
use cala.Types.{
  BalanceAmount, BalanceSnapshot, EntryValues, AccountId, EntryId, Layer, settled, pending,
  DebitOrCredit, debit, credit, Currency,
}
use cala.Cel.{CelValue, CelError, evaluation}
use cala.Cel.Eval.{CelOps}

abbrev pub usd : Currency
usd = 840

-- An entry of journal 7, transaction 5.
abbrev pub entry : EntryId → AccountId → Layer → DebitOrCredit → ℤ → EntryValues ℤ
entry id account_id layer direction units = record {
  id = id;
  version = 1;
  transaction_id = 5;
  journal_id = 7;
  account_id = account_id;
  entry_type = "TEST";
  sequence = id;
  layer = layer;
  units = units;
  currency = usd;
  direction = direction;
  description = none;
  metadata = none;
}

abbrev pub settled_debit : EntryValues ℤ
settled_debit = entry 1 10 settled debit (pos 30)

abbrev pub pending_credit : EntryValues ℤ
pending_credit = entry 2 10 pending credit (pos 12)

abbrev pub settled_credit : EntryValues ℤ
settled_credit = entry 3 11 settled credit (pos 30)

abbrev pub held : EntryId → ℤ → ℤ → BalanceAmount ℤ
held id dr cr = record { dr_balance = dr; cr_balance = cr; entry_id = id; modified_at = 1 }

-- The balance of an account, version 4.
abbrev pub stored : AccountId → BalanceSnapshot ℤ
stored account_id = record {
  journal_id = 7;
  account_id = account_id;
  currency = usd;
  version = 4;
  created_at = 1;
  modified_at = 1;
  entry_id = 99;
  settled_amount = held 99 (pos 100) (pos 40);
  pending_amount = held 98 (pos 5) (pos 0);
  encumbrance_amount = held 97 (pos 0) (pos 0);
}

-- Expressions that are a value or the name of a variable.
pub data Expr : Type 0 where
  lit : CelValue ℤ → Expr
  var : String → Expr

abbrev pub found : String → Option (CelValue ℤ) → Result (CelValue ℤ) CelError
found name none = err (evaluation name "unknown variable")
found name (some v) = ok v

abbrev pub cel_ops : CelOps ℤ Expr (Map String (CelValue ℤ))
cel_ops = record {
  evaluate = λ e ctx. elim e [ lit v ↦ ok v | var name ↦ found name (get name ctx) ];
  source = λ e. elim e [ lit v ↦ "" | var name ↦ name ];
  parse_uuid = λ s. if str_eq s "ten" then some 10 else none;
  parse_decimal = λ s. if str_eq s "30" then some (pos 30) else none;
  parse_date = λ s. none;
  find_iso = λ s. if str_eq s "USD" then some usd else none;
  find_crypto = λ s. if str_eq s "BTC" then some 1 else none;
  date_naive = λ t. t;
  show_double = λ n. "double";
  show_decimal = λ a. "decimal";
  show_date = λ t. "date";
  show_timestamp = λ t. "timestamp";
  show_uuid = λ i. "uuid";
  currency_code = λ x. "USD";
  debug_key = λ k. "key";
  initial = [];
  add_variable = λ ctx name v. (name, v) ∷ ctx;
}
