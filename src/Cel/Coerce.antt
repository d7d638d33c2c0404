-- ===== src/Cel/Coerce.antt =====
-- `TryFrom<CelResult>` for the types that expressions are evaluated into (value.rs, and
-- cala-ledger-core-types/src/primitives.rs for the enums and the currency).
use text.Mathlib.Text.{◌==◌ as str_eq}
use cala.Prelude.{ℕ, String, Bool, Option, none, some, if◌then◌else◌, Result, ok, err, ◌>>=◌}
use cala.Prelude.Int.{ℤ, pos, negsuc}
use cala.Types.{
  Currency, NaiveDate, DateTime, Layer, settled, pending, encumbrance, DebitOrCredit, debit, credit,
}
use cala.Types.Json.{
  Json, JsonItems, JsonMembers, null, boolean, pos_int, neg_int, str, array, object, nil, cons, end,
  member,
}
use cala.Cel.Value.{
  CelType, CelKey, CelValue, CelItems, CelFields, CelError, bad_core_type, bad_external_type,
  external_type, key_type, cel_type,
}
use cala.Cel.Eval.{CelOps}

module _ {A Expr Ctx : Type 0} (c : CelOps A Expr Ctx) where
  -- `TryFrom<&CelKey> for String`
  unfoldable pub try_key : CelKey → Result String CelError
  try_key (CelKey.string s) = ok s
  try_key k = err (bad_core_type (c.debug_key k) (key_type k) CelType.string)

  unfoldable pub try_bool : String → CelValue A → Result Bool CelError
  try_bool expr (CelValue.bool b) = ok b
  try_bool expr v = err (bad_core_type expr (cel_type v) CelType.bool)

  unfoldable pub try_date : String → CelValue A → Result NaiveDate CelError
  try_date expr (CelValue.date t) = ok t
  try_date expr (CelValue.timestamp t) = ok (c.date_naive t)
  try_date expr v = err (bad_core_type expr (cel_type v) CelType.date)

  unfoldable pub try_timestamp : String → CelValue A → Result DateTime CelError
  try_timestamp expr (CelValue.timestamp t) = ok t
  try_timestamp expr v = err (bad_core_type expr (cel_type v) CelType.timestamp)

  unfoldable pub try_uuid : String → CelValue A → Result ℕ CelError
  try_uuid expr (CelValue.uuid id) = ok id
  try_uuid expr v = err (bad_core_type expr (cel_type v) CelType.uuid)

  unfoldable pub try_string : String → CelValue A → Result String CelError
  try_string expr (CelValue.string s) = ok s
  try_string expr v = err (bad_core_type expr (cel_type v) CelType.string)

  unfoldable pub try_decimal : String → CelValue A → Result A CelError
  try_decimal expr (CelValue.decimal a) = ok a
  try_decimal expr v = err (bad_core_type expr (cel_type v) CelType.decimal)

  unfoldable pub try_direction : String → CelValue A → Result DebitOrCredit CelError
  try_direction expr (CelValue.string s) =
      if str_eq s "DEBIT"
      then ok debit
      else if str_eq s "CREDIT"
      then ok credit
      else err (bad_external_type expr CelType.string "DebitOrCredit")
  try_direction expr v = err (bad_external_type expr (cel_type v) "DebitOrCredit")

  unfoldable pub try_layer : String → CelValue A → Result Layer CelError
  try_layer expr (CelValue.string s) =
      if str_eq s "SETTLED"
      then ok settled
      else if str_eq s "PENDING"
      then ok pending
      else if str_eq s "ENCUMBRANCE"
      then ok encumbrance
      else err (bad_external_type expr CelType.string "Layer")
  try_layer expr v = err (bad_external_type expr (cel_type v) "Layer")

  -- `Currency::from_str`
  unfoldable pub parse_currency : String → Option Currency
  parse_currency s = elim (c.find_iso s) [ some x ↦ some x | none ↦ c.find_crypto s ]

  abbrev found_currency : String → String → Option Currency → Result Currency CelError
  found_currency expr s (some x) = ok x
  found_currency expr s none = err (external_type expr s "Currency")

  unfoldable pub try_currency : String → CelValue A → Result Currency CelError
  unfolding parse_currency
  try_currency expr (CelValue.string s) = found_currency expr s (parse_currency s)
  try_currency expr v = err (bad_external_type expr (cel_type v) "Currency")

  -- `From<DebitOrCredit>`, `From<Layer>` for `CelValue`
  unfoldable pub direction_value : DebitOrCredit → CelValue A
  direction_value debit = CelValue.string "DEBIT"
  direction_value credit = CelValue.string "CREDIT"

  unfoldable pub layer_value : Layer → CelValue A
  layer_value settled = CelValue.string "SETTLED"
  layer_value pending = CelValue.string "PENDING"
  layer_value encumbrance = CelValue.string "ENCUMBRANCE"

-- `serde_json::Value::from(i64)`
abbrev json_int : ℤ → Json
json_int (pos n) = pos_int n
json_int (negsuc n) = neg_int n

-- `TryFrom<CelResult> for serde_json::Value`
unfoldable mutual
  pub try_json :
      {A Expr Ctx : Type 0} → CelOps A Expr Ctx → String → CelValue A → Result Json CelError
  try_json c expr (CelValue.int n) = ok (json_int n)
  try_json c expr (CelValue.uint n) = ok (pos_int n)
  try_json c expr (CelValue.double n) = ok (str (c.show_double n))
  try_json c expr (CelValue.bool b) = ok (boolean b)
  try_json c expr (CelValue.string s) = ok (str s)
  try_json c expr CelValue.null = ok null
  try_json c expr (CelValue.date t) = ok (str (c.show_date t))
  try_json c expr (CelValue.timestamp t) = ok (str (c.show_timestamp t))
  try_json c expr (CelValue.uuid id) = ok (str (c.show_uuid id))
  try_json c expr (CelValue.map m) = try_members c expr m >>= λ ms. ok (object ms)
  try_json c expr (CelValue.list l) = try_items c expr l >>= λ xs. ok (array xs)
  try_json c expr (CelValue.decimal a) = ok (str (c.show_decimal a))
  try_json c expr (CelValue.bytes b) =
      err (bad_external_type expr CelType.bytes "serde_json::Value")

  pub try_items :
      {A Expr Ctx : Type 0} → CelOps A Expr Ctx → String → CelItems A → Result JsonItems CelError
  try_items c expr CelItems.nil = ok nil
  try_items c expr (CelItems.cons v l) = do
    x ← try_json c expr v
    xs ← try_items c expr l
    ok (cons x xs)

  pub try_members :
      {A Expr Ctx : Type 0} → CelOps A Expr Ctx → String → CelFields A → Result JsonMembers CelError
  try_members c expr CelFields.end = ok end
  try_members c expr (CelFields.field k v m) = do
    key ← try_key c k
    x ← try_json c expr v
    ms ← try_members c expr m
    ok (member key x ms)
