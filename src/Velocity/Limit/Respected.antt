-- ===== src/Velocity/Limit/Respected.antt =====
-- What `enforce` lets pass, in integers.
use cala.Prelude.{
  ◌≡◌, refl, ap, sym, ◌∙◌, ◌↔◌, ◌≢◌, ◌⊎◌, inl, inr, Bool, true, false, not, ◌&&◌, ltb, leb, none,
  some, List, [], ◌∷◌, if◌then◌else◌, Result, ok, err, >>=-eq-ok, >>=-eq-err, All, Any, Bool-cases,
  Option-cases, map_err, arith,
}
use cala.Prelude.Int.{ltb_ℤ}
use cala.Types.{DecimalOps, BalanceSnapshot, DateTime, VelocityLimitId, snapshot_available}
use cala.Cel.{CelError}
use mathlib.Core.Logic.{⊎_elim}
use cala.Cel.Eval.{CelOps, try_evaluate}
use cala.Cel.Coerce.{try_timestamp}
use cala.Balance.Direction.{directed_available}
use cala.Balance.Direction.Available.{excess, directed_available-eq-excess}
use cala.Velocity.{
  AccountBalanceLimit, AccountVelocityLimit, LimitExceededError, VelocityError, exceeded, cel,
}
use cala.Velocity.Limit.{is_other_currency, is_inactive, limit_time, check_limits, enforce}

-- A limit counts from its start on, up to its end and without it.
abbrev pub is_active : {A : Type 0} → DateTime → AccountBalanceLimit A → Bool
is_active time l = leb l.start time && elim l.end [ none ↦ true | some end ↦ ltb time end ]

is_inactive-eq-not :
    {A : Type 0} (time : DateTime) (l : AccountBalanceLimit A)
    → is_inactive time l ≡ not (is_active time l)
is_inactive-eq-not time l = ground arith

reject_iff :
    {E P : Type 0} (b : Bool) (e : E) {m : Result (Unit {0}) E}
    → ((m ≡ ok tt) ↔ P)
    → ((if b then err e else m) ≡ ok tt) ↔ ((b ≡ false) × P)
reject_iff true e i = (λ h. cc, λ h. cc)
reject_iff false e i = (λ h. (refl, i.0 h), λ h. i.1 h.1)

reject_err :
    {A P : Type 0} (b : Bool) {r x : LimitExceededError A} {m : Result (Unit {0}) (VelocityError A)}
    → (m ≡ err (exceeded r) → P)
    → (if b then err (exceeded x) else m) ≡ err (exceeded r)
    → ((b ≡ true) × (r ≡ x)) ⊎ P
reject_err true rest h = inl (refl, cc)
reject_err false rest h = inr (rest h)

map_err-cel≢exceeded :
    {A B : Type 0} (m : Result B CelError) {r : LimitExceededError A}
    → map_err cel m ≢ err (exceeded r)
map_err-cel≢exceeded (ok b) h = cc
map_err-cel≢exceeded (err e) h = cc

ok≢err : {A E : Type 0} {a : A} {e : E} → ok a ≢ err e
ok≢err h = cc

module _ {A : Type 0} ⦃d : DecimalOps A⦄ where
  -- More is available on the limit's side of its layer, with the layers below it, than it allows.
  abbrev pub is_over : BalanceSnapshot A → AccountBalanceLimit A → Bool
  is_over s l =
      ltb_ℤ (d.scaled l.amount) (excess l.enforcement_direction (snapshot_available s l.layer))

  abbrev pub is_exceeded : DateTime → BalanceSnapshot A → AccountBalanceLimit A → Bool
  is_exceeded time s l = is_active time l && is_over s l

  is_over_lem :
      (s : BalanceSnapshot A) (l : AccountBalanceLimit A)
      → d.gt (directed_available l.enforcement_direction s l.layer) l.amount ≡ is_over s l
  is_over_lem s l =
      d.gt_lem _ _
      ∙ ap (ltb_ℤ (d.scaled l.amount))
          (directed_available-eq-excess l.enforcement_direction s l.layer)

  -- The error that reports a limit.
  abbrev pub report :
      VelocityLimitId → BalanceSnapshot A → AccountBalanceLimit A → LimitExceededError A
  report limit_id s l = record {
    account_id = s.account_id;
    currency = s.currency;
    direction = l.enforcement_direction;
    limit_id = limit_id;
    layer = l.layer;
    limit = l.amount;
    requested = directed_available l.enforcement_direction s l.layer;
  }

  check_limits-cons :
      (limit_id : VelocityLimitId) (time : DateTime) (s : BalanceSnapshot A)
      (l : AccountBalanceLimit A) (limits : List (AccountBalanceLimit A))
      → check_limits limit_id time s (l ∷ limits) ≡ (
          if is_exceeded time s l
          then err (exceeded (report limit_id s l))
          else check_limits limit_id time s limits)
  unfolding check_limits
  check_limits-cons limit_id time s l limits =
      rw (is_inactive-eq-not time l, is_over_lem s l) (ground arith)

  check_limits-nil :
      (limit_id : VelocityLimitId) (time : DateTime) (s : BalanceSnapshot A)
      → check_limits limit_id time s [] ≡ ok tt
  unfolding check_limits
  check_limits-nil limit_id time s = refl

  check_limits-ok :
      (limit_id : VelocityLimitId) (time : DateTime) (s : BalanceSnapshot A)
      (limits : List (AccountBalanceLimit A))
      → (check_limits limit_id time s limits ≡ ok tt)
        ↔ All (λ l. is_exceeded time s l ≡ false) limits
  check_limits-ok limit_id time s [] = (λ h. tt, λ h. check_limits-nil limit_id time s)
  check_limits-ok limit_id time s (l ∷ limits) =
      rw (check_limits-cons limit_id time s l limits)
        (reject_iff (is_exceeded time s l) _ (check_limits-ok limit_id time s limits))

  check_limits-err :
      (limit_id : VelocityLimitId) (time : DateTime) (s : BalanceSnapshot A)
      (limits : List (AccountBalanceLimit A)) {r : LimitExceededError A}
      → check_limits limit_id time s limits ≡ err (exceeded r)
      → Any (λ l. (is_exceeded time s l ≡ true) × (r ≡ report limit_id s l)) limits
  check_limits-err limit_id time s [] h =
      absurd (ok≢err (sym (check_limits-nil limit_id time s) ∙ h))
  check_limits-err limit_id time s (l ∷ limits) h =
      reject_err (is_exceeded time s l) (check_limits-err limit_id time s limits)
        (sym (check_limits-cons limit_id time s l limits) ∙ h)

module _ {A Expr Ctx : Type 0} ⦃d : DecimalOps A⦄ (c : CelOps A Expr Ctx) where
  limit_time-exceeded :
      (l : AccountVelocityLimit A Expr) (ctx : Ctx) (time : DateTime) {r : LimitExceededError A}
      → limit_time c l ctx time ≢ err (exceeded r)
  unfolding limit_time
  limit_time-exceeded l ctx time h = elim (Option-cases l.limit.timestamp_source) [
    | inl absent ↦ absurd (ok≢err (rw absent at h))
    | inr (source, given) ↦
        map_err-cel≢exceeded (try_evaluate c (try_timestamp c) ctx source) (rw given at h)
  ]

  -- On a balance in the limit's currency, with the time that the limit's bounds are compared with,
  -- enforcement passes exactly where no balance limit that is active at that time is exceeded: the
  -- excess of its side in the amount rolled up to its layer is at most what it allows.
  pub enforce-ok_iff :
      (l : AccountVelocityLimit A Expr) (ctx : Ctx) (time t : DateTime) (s : BalanceSnapshot A)
      → is_other_currency l.currency s.currency ≡ false
      → limit_time c l ctx time ≡ ok t
      → (enforce c l ctx time s ≡ ok tt) ↔ All (λ b. is_exceeded t s b ≡ false) l.limit.balance
  unfolding enforce
  enforce-ok_iff l ctx time t s same at_time =
      rw (same, at_time) (check_limits-ok l.limit_id t s l.limit.balance)

  -- A rejection names a balance limit of the enforced limit that is active and exceeded, with its
  -- layer, side and amount, the balance's account and currency, and the amount that it would have.
  pub enforce-exceeded :
      (l : AccountVelocityLimit A Expr) (ctx : Ctx) (time : DateTime) (s : BalanceSnapshot A)
      {r : LimitExceededError A}
      → enforce c l ctx time s ≡ err (exceeded r)
      → (t : DateTime) × (limit_time c l ctx time ≡ ok t)
        × Any (λ b. (is_exceeded t s b ≡ true) × (r ≡ report l.limit_id s b)) l.limit.balance
  unfolding enforce
  enforce-exceeded l ctx time s h = elim (Bool-cases (is_other_currency l.currency s.currency)) [
    | inl other ↦ absurd (ok≢err (rw other at h))
    | inr same ↦
        ⊎_elim (λ failed. absurd (limit_time-exceeded l ctx time failed))
          (λ (t, at_time, failed).
            (t, at_time, check_limits-err l.limit_id t s l.limit.balance failed))
          (>>=-eq-err (limit_time c l ctx time) _ (rw same at h))
  ]

  pub enforce-respects :
      (l : AccountVelocityLimit A Expr) (ctx : Ctx) (time : DateTime) (s : BalanceSnapshot A)
      {u : Unit {0}}
      → is_other_currency l.currency s.currency ≡ false
      → enforce c l ctx time s ≡ ok u
      → (t : DateTime) × (limit_time c l ctx time ≡ ok t)
        × All (λ b. is_exceeded t s b ≡ false) l.limit.balance
  unfolding enforce
  enforce-respects l ctx time s same h =
      let (t, at_time, passed) = >>=-eq-ok (limit_time c l ctx time) _ (rw same at h) in
      (t, at_time, (check_limits-ok l.limit_id t s l.limit.balance).0 passed)
