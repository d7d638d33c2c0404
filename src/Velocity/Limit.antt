-- ===== src/Velocity/Limit.antt =====
-- `AccountVelocityControl::needs_enforcement`, `AccountVelocityLimit::window_for_enforcement` and
-- `enforce` (cala-ledger/src/velocity/account_control/value.rs).
pub mod Respected
use cala.Prelude.{
  String, Bool, true, false, not, ◌&&◌, ltb, leb, nat_beq, Option, none, some, List, [], ◌∷◌,
  if◌then◌else◌, Result, ok, err, ◌>>=◌, map_err,
}
use cala.Types.{DecimalOps, BalanceSnapshot, EntryValues, Currency, DateTime, VelocityLimitId}
use cala.Cel.Eval.{CelOps, try_evaluate}
use cala.Cel.Coerce.{try_bool, try_json, try_timestamp}
use cala.Balance.Direction.{directed_available}
use cala.Velocity.{
  PartitionKey, AccountBalanceLimit, AccountVelocityLimit, AccountVelocityControl, WindowOps,
  VelocityError, cel, exceeded,
}

-- `if let Some(currency) = &self.currency { if currency != ... }`: is the currency another one?
abbrev pub is_other_currency : Option Currency → Currency → Bool
is_other_currency none currency = false
is_other_currency (some x) currency = not (nat_beq x currency)

-- `limit.start > time`, or the end is not after it.
abbrev pub is_inactive : {A : Type 0} → DateTime → AccountBalanceLimit A → Bool
is_inactive time l =
    if ltb time l.start then true else elim l.end [ none ↦ false | some end ↦ leb end time ]

module _ {A Expr Ctx : Type 0} (c : CelOps A Expr Ctx) where
  -- A condition that is not given holds.
  unfoldable pub condition_holds : Option Expr → Ctx → Result Bool (VelocityError A)
  condition_holds none ctx = ok true
  condition_holds (some e) ctx = map_err cel (try_evaluate c (try_bool c) ctx e)

  unfoldable pub needs_enforcement :
      AccountVelocityControl A Expr → Ctx → Result Bool (VelocityError A)
  unfolding condition_holds
  needs_enforcement control ctx = condition_holds control.condition ctx

  -- The time that the bounds of the limits are compared with.
  unfoldable pub limit_time :
      AccountVelocityLimit A Expr → Ctx → DateTime → Result DateTime (VelocityError A)
  limit_time l ctx time = elim l.limit.timestamp_source [
    | none ↦ ok time
    | some source ↦ map_err cel (try_evaluate c (try_timestamp c) ctx source)
  ]

  module _ {W : Type 0} ⦃ops : WindowOps W⦄ where
    -- The loop over the keys of the window.
    unfoldable pub window_of : List (PartitionKey Expr) → Ctx → W → Result W (VelocityError A)
    window_of [] ctx window = ok window
    window_of (k ∷ keys) ctx window = map_err cel (try_evaluate c (try_json c) ctx k.value) >>= λ v.
        window_of keys ctx (ops.insert window k.alias v)

    unfoldable pub window_for_enforcement :
        AccountVelocityLimit A Expr → Ctx → EntryValues A → Result (Option W) (VelocityError A)
    unfolding window_of condition_holds
    window_for_enforcement l ctx e =
        if is_other_currency l.currency e.currency
        then ok none
        else (condition_holds l.condition ctx >>= λ holds.
            (if holds then (window_of l.window ctx ops.new >>= λ w. ok (some w)) else ok none))

module _ {A : Type 0} ⦃d : DecimalOps A⦄ where
  -- The loop of `enforce` over the balance limits.
  unfoldable pub check_limits :
      VelocityLimitId
      → DateTime
      → BalanceSnapshot A
      → List (AccountBalanceLimit A)
      → Result (Unit {0}) (VelocityError A)
  check_limits limit_id time s [] = ok tt
  check_limits limit_id time s (l ∷ limits) =
      let rest = check_limits limit_id time s limits in
      let requested = directed_available l.enforcement_direction s l.layer in
      if is_inactive time l
      then rest
      else if d.gt requested l.amount
      then err (
          exceeded (record {
            account_id = s.account_id;
            currency = s.currency;
            direction = l.enforcement_direction;
            limit_id = limit_id;
            layer = l.layer;
            limit = l.amount;
            requested = requested;
          }))
      else rest

module _ {A Expr Ctx : Type 0} ⦃d : DecimalOps A⦄ (c : CelOps A Expr Ctx) where
  unfoldable pub enforce :
      AccountVelocityLimit A Expr
      → Ctx
      → DateTime
      → BalanceSnapshot A
      → Result (Unit {0}) (VelocityError A)
  unfolding limit_time
  enforce l ctx time s =
      if is_other_currency l.currency s.currency
      then ok tt
      else (limit_time c l ctx time >>= λ t. check_limits l.limit_id t s l.limit.balance)
