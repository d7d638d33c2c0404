-- ===== src/Cel.antt =====
-- The expression language's values (cala-cel-interpreter/src): types, coercions, and the interface
-- of the evaluator.
pub mod Value
pub mod Coerce
pub mod Eval
pub mod FromJson
pub mod RoundTrip
pub use Value.{
  CelType, CelKey, CelValue, CelItems, CelFields, CelError, bad_core_type, bad_external_type,
  external_type, evaluation, key_type, cel_type,
}
