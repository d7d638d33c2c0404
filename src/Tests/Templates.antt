-- ===== src/Tests/Templates.antt =====
-- The theorems on templates and parameters at concrete ones.
use cala.Prelude.{ℕ, ◌-◌, String, ◌≡◌, ◌≢◌, refl, none, List, [], ◌∷◌, ok, err, length}
use cala.Prelude.Int.{ℤ, pos, negsuc, ◌+ℤ◌, ◌-ℤ◌}
use cala.Prelude.Map.{Map}
use cala.Types.{settled, DebitOrCredit, debit, credit, ℤ_decimal, Currency, Layer}
use cala.Cel.{CelValue}
use cala.Param.{ParamDataType, coerce_value, type_mismatch}
use cala.Param.Coercion.{HasType, coerce_value-HasType, coerce_value-timestamp}
use cala.Template.{TxTemplateEntry, TxTemplateValues, NewEntry}
use cala.Template.Prepare.{Totals, prep_entries, prep_loop, prep_entry, add_total, check_totals}
use cala.Cel.Coerce.{
  try_uuid, try_string, try_layer, try_decimal, try_currency, parse_currency, try_direction,
}
use cala.Template.Balanced.{net}
use cala.Template.DoubleEntry.{IsNumbered, prep_entries_double_entry, prep_entries_unbalanced}
use cala.Tests.Data.{usd, Expr, lit, cel_ops}

abbrev uuid_ten : CelValue ℤ
uuid_ten = CelValue.uuid 10

coerce_value-HasType_example :
    HasType ParamDataType.uuid uuid_ten
    × (coerce_value cel_ops ParamDataType.uuid (CelValue.uuid 10) ≡ ok (CelValue.uuid 10))
unfolding coerce_value
coerce_value-HasType_example =
    coerce_value-HasType cel_ops ParamDataType.uuid (CelValue.string "ten") {w = CelValue.uuid 10}
      refl

coerce_value-timestamp_example :
    coerce_value cel_ops ParamDataType.timestamp (CelValue.timestamp 3) ≡ err type_mismatch
coerce_value-timestamp_example = coerce_value-timestamp cel_ops (CelValue.timestamp 3)

abbrev pub text_of : String → Expr
text_of s = lit (CelValue.string s)

abbrev pub leg : ℕ → String → Expr → TxTemplateEntry Expr
leg account_id direction units = record {
  entry_type = text_of "LEG";
  account_id = lit (CelValue.uuid account_id);
  layer = text_of "SETTLED";
  direction = text_of direction;
  units = units;
  currency = text_of "USD";
  description = none;
  metadata = none;
}

abbrev pub thirty : Expr
thirty = lit (CelValue.decimal (pos 30))

abbrev pub transfer : Expr → TxTemplateValues Expr
transfer units = record {
  id = 1;
  version = 1;
  code = "TRANSFER";
  params = none;
  transaction = record {
    effective = lit (CelValue.date 3);
    journal_id = lit (CelValue.uuid 7);
    correlation_id = none;
    external_id = none;
    description = none;
    metadata = none;
  };
  entries = leg 10 "DEBIT" units ∷ leg 11 "CREDIT" thirty ∷ [];
  description = none;
  metadata = none;
}

abbrev pub ids : ℕ → ℕ
ids n = n

abbrev pub ctx : Map String (CelValue ℤ)
ctx = []

abbrev pub prepared_leg : ℕ → DebitOrCredit → NewEntry ℤ
prepared_leg account_id direction = record {
  id = account_id - 10;
  transaction_id = 5;
  journal_id = 7;
  account_id = account_id;
  entry_type = "LEG";
  sequence = account_id - 9;
  layer = settled;
  units = pos 30;
  currency = usd;
  direction = direction;
  description = none;
  metadata = none;
}

abbrev pub prepared : List (NewEntry ℤ)
prepared = prepared_leg 10 debit ∷ prepared_leg 11 credit ∷ []

prep_entries_double_entry_example :
    ((k : Currency × Layer) → net k prepared ≡ pos 0)
    × IsNumbered 5 7 ids 0 prepared
    × (length prepared ≡ 2)
unfolding prep_entries prep_loop prep_entry add_total check_totals try_uuid try_string try_layer
    try_decimal try_currency parse_currency try_direction ◌+ℤ◌ ◌-ℤ◌
prep_entries_double_entry_example =
    prep_entries_double_entry cel_ops ctx 5 7 ids (transfer thirty) {es = prepared} refl

abbrev pub forty : Expr
forty = lit (CelValue.decimal (pos 40))

prep_entries_unbalanced_example :
    (es : List (NewEntry ℤ)) × (totals : Totals ℤ) × (prep_loop cel_ops ctx 5 7 ids 0 []
        (transfer forty).entries
      ≡ ok (es, totals))
    × (negsuc 9 ≡ net (usd, settled) es)
    × (net (usd, settled) es ≢ pos 0)
unfolding prep_entries prep_loop prep_entry add_total check_totals try_uuid try_string try_layer
    try_decimal try_currency parse_currency try_direction ◌+ℤ◌ ◌-ℤ◌
prep_entries_unbalanced_example =
    prep_entries_unbalanced cel_ops ctx 5 7 ids (transfer forty) {currency = usd} {layer = settled}
      {v = negsuc 9} refl
