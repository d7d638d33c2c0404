-- ===== src/Param.antt =====
-- Parameters of a transaction template (cala-ledger-core-types/src/param.rs and
-- cala-ledger/src/param/mod.rs).
pub mod Coercion
use cala.Prelude.{
  String, Option, none, some, List, [], ◌∷◌, Result, ok, err, ◌>>=◌, map_err, ok_or, string_eq,
}
use cala.Prelude.Map.{Map, get, remove, insert}
use cala.Cel.{CelKey, CelValue, CelFields, CelError, cel_type}
use cala.Cel.Eval.{CelOps}

pub data ParamDataType : Type 0 where
  string integer decimal boolean uuid date timestamp json : ParamDataType

pub record ParamDefinition (Expr : Type 0) : Type 0 where
  pub name : String
  pub data_type : ParamDataType
  pub default : Option Expr
  pub description : Option String

-- What `coerce_value` reports: a text that does not parse, or a value of another type.
pub data CoercionError : Type 0 where
  could_not_parse : String → CoercionError
  type_mismatch : CoercionError

pub data ParamError : Type 0 where
  param_type_mismatch : CoercionError → ParamError
  cel : CelError → ParamError

-- `TryFrom<&CelValue> for ParamDataType`; `none` is its error.
unfoldable pub value_param_type : {A : Type 0} → CelValue A → Option ParamDataType
value_param_type (CelValue.int i) = some ParamDataType.integer
value_param_type (CelValue.string s) = some ParamDataType.string
value_param_type (CelValue.map m) = some ParamDataType.json
value_param_type (CelValue.date t) = some ParamDataType.date
value_param_type (CelValue.uuid id) = some ParamDataType.uuid
value_param_type (CelValue.decimal a) = some ParamDataType.decimal
value_param_type (CelValue.bool b) = some ParamDataType.boolean
value_param_type v = none

module _ {A Expr Ctx : Type 0} (c : CelOps A Expr Ctx) where
  -- `ParamDataType::coerce_value`
  unfoldable pub coerce_value : ParamDataType → CelValue A → Result (CelValue A) CoercionError
  coerce_value ParamDataType.integer (CelValue.uint u) = ok (CelValue.uint u)
  coerce_value ParamDataType.integer (CelValue.int i) = ok (CelValue.int i)
  coerce_value ParamDataType.string (CelValue.string s) = ok (CelValue.string s)
  coerce_value ParamDataType.json (CelValue.map m) = ok (CelValue.map m)
  coerce_value ParamDataType.date (CelValue.date t) = ok (CelValue.date t)
  coerce_value ParamDataType.date (CelValue.timestamp t) = ok (CelValue.date (c.date_naive t))
  coerce_value ParamDataType.uuid (CelValue.uuid id) = ok (CelValue.uuid id)
  coerce_value ParamDataType.decimal (CelValue.decimal a) = ok (CelValue.decimal a)
  coerce_value ParamDataType.boolean (CelValue.bool b) = ok (CelValue.bool b)
  coerce_value ParamDataType.uuid (CelValue.string s) =
      ok_or (c.parse_uuid s) (could_not_parse s) >>= λ id. ok (CelValue.uuid id)
  coerce_value ParamDataType.decimal (CelValue.string s) =
      ok_or (c.parse_decimal s) (could_not_parse s) >>= λ a. ok (CelValue.decimal a)
  coerce_value ParamDataType.date (CelValue.string s) =
      ok_or (c.parse_date s) (could_not_parse s) >>= λ t. ok (CelValue.date t)
  coerce_value t v = err type_mismatch

  -- The loop of `into_context`, over the definitions, on the values left and the map so far.
  unfoldable pub bind_params :
      Ctx
      → List (ParamDefinition Expr)
      → Map String (CelValue A)
      → Map String (CelValue A)
      → Result (Map String (CelValue A)) ParamError
  unfolding coerce_value
  bind_params ctx [] given bound = ok bound
  bind_params ctx (p ∷ defs) given bound = elim (get p.name given) [
    | some v ↦ map_err param_type_mismatch (coerce_value p.data_type v) >>= λ w.
        bind_params ctx defs (remove p.name given) (insert p.name w bound)
    | none ↦ elim p.default [
      | some expr ↦ map_err cel (c.evaluate expr ctx) >>= λ w.
          bind_params ctx defs given (insert p.name w bound)
      | none ↦ bind_params ctx defs given bound
    ]
  ]

  -- A `CelMap` with text keys, as a value.
  abbrev pub map_fields : Map String (CelValue A) → CelFields A
  map_fields [] = CelFields.end
  map_fields ((k, v) ∷ m) = CelFields.field (CelKey.string k) v (map_fields m)

  -- `Params::into_context`
  unfoldable pub into_context :
      Map String (CelValue A) → Option (List (ParamDefinition Expr)) → Result Ctx ParamError
  unfolding bind_params
  into_context given none = ok c.initial
  into_context given (some defs) = bind_params c.initial defs given [] >>= λ bound.
      ok (c.add_variable c.initial "params" (CelValue.map (map_fields bound)))
