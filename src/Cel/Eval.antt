-- ===== src/Cel/Eval.antt =====
-- The parts of evaluation that the crates `cel`, `uuid`, `rust_decimal`, `chrono` and `rusty_money`
-- provide, as an interface: running a compiled program on a context (with `CelValue::from_cel_value`
-- on its result), parsing and printing.
use cala.Prelude.{ℕ, String, Option, Result, ◌>>=◌}
use cala.Types.{Currency, NaiveDate, DateTime}
use cala.Cel.Value.{CelKey, CelValue, CelError}

pub record CelOps (A Expr Ctx : Type 0) : Type 0 where
  -- `CelExpression::evaluate`, and the expression's source
  pub evaluate : Expr → Ctx → Result (CelValue A) CelError
  pub source : Expr → String
  -- `str::parse` for the types that are parsed; `none` is a parse error
  pub parse_uuid : String → Option ℕ
  pub parse_decimal : String → Option A
  pub parse_date : String → Option NaiveDate
  -- `iso::find`, and `crypto::find` after it, by the code
  pub find_iso : String → Option Currency
  pub find_crypto : String → Option Currency
  -- `DateTime::date_naive`
  pub date_naive : DateTime → NaiveDate
  -- `to_string` of the types that JSON has no form for
  pub show_double : ℕ → String
  pub show_decimal : A → String
  pub show_date : NaiveDate → String
  pub show_timestamp : DateTime → String
  pub show_uuid : ℕ → String
  -- the code of a currency
  pub currency_code : Currency → String
  -- `{:?}` of a key
  pub debug_key : CelKey → String
  -- `cel_context::initialize`, under a clock that stands still, and `CelContext::add_variable`
  pub initial : Ctx
  pub add_variable : Ctx → String → CelValue A → Ctx

module _ {A Expr Ctx : Type 0} (c : CelOps A Expr Ctx) where
  -- `CelExpression::try_evaluate`, by the coercion of the type that is wanted.
  abbrev pub try_evaluate :
      {B : Type 0} → (String → CelValue A → Result B CelError) → Ctx → Expr → Result B CelError
  try_evaluate coerce ctx e = c.evaluate e ctx >>= coerce (c.source e)
