-- ===== src/Param/Coercion.antt =====
-- What a coerced parameter is.
use cala.Prelude.{◌≡◌, ◌⊎◌, ℕ, some, ok, err, arith}
use cala.Cel.{CelValue}
use cala.Cel.Eval.{CelOps}
use cala.Param.{ParamDataType, type_mismatch, coerce_value, value_param_type}

-- A value that has a parameter type, unsigned integers included. A timestamp has none, as
-- `TryFrom<&CelValue> for ParamDataType` has no case for it.
abbrev pub HasType : {A : Type 0} → ParamDataType → CelValue A → Type 0
HasType t v =
    (value_param_type v ≡ some t)
    ⊎ ((t ≡ ParamDataType.integer) × ((u : ℕ) × (v ≡ CelValue.uint u)))

module _ {A Expr Ctx : Type 0} (c : CelOps A Expr Ctx) where
  -- A parameter that was coerced has the declared type, and coercing it again changes nothing.
  pub coerce_value-HasType :
      (t : ParamDataType) (v : CelValue A) {w : CelValue A}
      → coerce_value c t v ≡ ok w
      → HasType t w × (coerce_value c t w ≡ ok w)
  unfolding coerce_value value_param_type
  coerce_value-HasType t v h = ground arith

  -- A parameter declared as a `Timestamp` refuses every value, a timestamp included, as a mismatch.
  pub coerce_value-timestamp :
      (v : CelValue A) → coerce_value c ParamDataType.timestamp v ≡ err type_mismatch
  unfolding coerce_value
  coerce_value-timestamp v = ground arith
