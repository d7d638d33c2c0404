-- ===== src/Cel/RoundTrip.antt =====
-- JSON through the expression language and back.
use cala.Prelude.{◌≡◌, refl, ap, String, ok, ◌>>=◌}
use cala.Types.Json.{
  Json, JsonItems, JsonMembers, null, boolean, pos_int, neg_int, float, str, array, object, nil,
  cons, end, member,
}
use cala.Cel.Eval.{CelOps}
use cala.Cel.Coerce.{try_json, try_items, try_members, try_key}
use cala.Cel.FromJson.{
  json_value, items_value, members_value, IsFloatFree, AreItemsFloatFree, AreMembersFloatFree,
}

mutual
  unfolding json_value try_json try_key IsFloatFree

  value_round :
      {A Expr Ctx : Type 0} (c : CelOps A Expr Ctx) (expr : String) (j : Json)
      → IsFloatFree j
      → try_json c expr (json_value j) ≡ ok j
  value_round c expr null h = refl
  value_round c expr (boolean b) h = refl
  value_round c expr (pos_int n) h = refl
  value_round c expr (neg_int n) h = refl
  value_round c expr (float f) h = absurd h
  value_round c expr (str s) h = refl
  value_round c expr (object o) h = ap (λ r. r >>= λ ms. ok (object ms)) (members_round c expr o h)
  value_round c expr (array a) h = ap (λ r. r >>= λ xs. ok (array xs)) (items_round c expr a h)

  items_round :
      {A Expr Ctx : Type 0} (c : CelOps A Expr Ctx) (expr : String) (a : JsonItems)
      → AreItemsFloatFree a
      → try_items c expr (items_value a) ≡ ok a
  items_round c expr nil h = refl
  items_round c expr (cons v a) h = rw (value_round c expr v h.0, items_round c expr a h.1) refl

  members_round :
      {A Expr Ctx : Type 0} (c : CelOps A Expr Ctx) (expr : String) (o : JsonMembers)
      → AreMembersFloatFree o
      → try_members c expr (members_value o) ≡ ok o
  members_round c expr end h = refl
  members_round c expr (member k v o) h =
      rw (value_round c expr v h.0, members_round c expr o h.1) refl

-- A JSON value without fractional numbers that becomes a CEL value comes back the same, whatever
-- arrays and objects it nests.
pub try_json-json_value :
    {A Expr Ctx : Type 0} (c : CelOps A Expr Ctx) (expr : String) (j : Json)
    → IsFloatFree j
    → try_json c expr (json_value j) ≡ ok j
try_json-json_value c expr j h = value_round c expr j h
