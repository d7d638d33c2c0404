-- ===== src/Cel/FromJson.antt =====
-- `From<serde_json::Value> for CelValue` (cala-cel-interpreter/src/value.rs). The keys of a JSON
-- object are distinct, and a `CelMap` made from it lists its members in one order or another.
use cala.Prelude.Int.{negsuc}
use cala.Types.Json.{
  Json, JsonItems, JsonMembers, null, boolean, pos_int, neg_int, float, str, array, object, nil,
  cons, end, member,
}
use cala.Cel.Value.{CelKey, CelValue, CelItems, CelFields}

unfoldable mutual
  pub json_value : {A : Type 0} → Json → CelValue A
  json_value null = CelValue.null
  json_value (boolean b) = CelValue.bool b
  json_value (pos_int n) = CelValue.uint n
  json_value (neg_int n) = CelValue.int (negsuc n)
  json_value (float f) = CelValue.double f
  json_value (str s) = CelValue.string s
  json_value (object o) = CelValue.map (members_value o)
  json_value (array a) = CelValue.list (items_value a)

  pub items_value : {A : Type 0} → JsonItems → CelItems A
  items_value nil = CelItems.nil
  items_value (cons v a) = CelItems.cons (json_value v) (items_value a)

  pub members_value : {A : Type 0} → JsonMembers → CelFields A
  members_value end = CelFields.end
  members_value (member k v o) = CelFields.field (CelKey.string k) (json_value v) (members_value o)

-- A JSON value with no fractional number in it.
unfoldable mutual
  pub IsFloatFree : Json → Type 0
  IsFloatFree (float f) = ⊥
  IsFloatFree (object o) = AreMembersFloatFree o
  IsFloatFree (array a) = AreItemsFloatFree a
  IsFloatFree _ = Unit

  pub AreItemsFloatFree : JsonItems → Type 0
  AreItemsFloatFree nil = Unit
  AreItemsFloatFree (cons v a) = IsFloatFree v × AreItemsFloatFree a

  pub AreMembersFloatFree : JsonMembers → Type 0
  AreMembersFloatFree end = Unit
  AreMembersFloatFree (member k v o) = IsFloatFree v × AreMembersFloatFree o
