-- ===== src/Types/Decimal.antt =====
-- `rust_decimal::Decimal` as the code uses it. The type and its operations are the crate's, so they
-- are an interface. A decimal has at most 28 fractional digits: `scaled` is its value in units of
-- 10^-28, an integer. The laws hold where a result fits the 96 bits of the mantissa; beyond that
-- the crate panics or rounds, and the interface says nothing of it.
use cala.Prelude.{◌≡◌, Bool, ◌↔◌, true, refl, nat_beq, ◌&&◌, arith}
use cala.Prelude.Int.{ℤ, pos, ◌+ℤ◌, ◌-ℤ◌, ltb_ℤ, pos_part, neg_part}

pub record DecimalOps (A : Type 0) : Type 0 where
  pub zero_value : A
  pub add : A → A → A
  pub sub : A → A → A
  -- `a > b`
  pub gt : A → A → Bool
  -- `a == Decimal::ZERO`
  pub is_zero : A → Bool
  pub scaled : A → ℤ
  pub scaled_zero : scaled zero_value ≡ pos 0
  pub scaled_add : (a b : A) → scaled (add a b) ≡ scaled a +ℤ scaled b
  pub scaled_sub : (a b : A) → scaled (sub a b) ≡ scaled a -ℤ scaled b
  pub gt_lem : (a b : A) → gt a b ≡ ltb_ℤ (scaled b) (scaled a)
  pub is_zero_iff : (a : A) → (is_zero a ≡ true) ↔ (scaled a ≡ pos 0)

abbrev pub is_zero_ℤ : ℤ → Bool
is_zero_ℤ a = nat_beq (pos_part a) 0 && nat_beq (neg_part a) 0

pub is_zero_ℤ_iff : (a : ℤ) → (is_zero_ℤ a ≡ true) ↔ (a ≡ pos 0)
is_zero_ℤ_iff a = ground arith

-- The integers meet the interface.
instance abbrev pub ℤ_decimal : DecimalOps ℤ
ℤ_decimal = record {
  zero_value = pos 0;
  add = ◌+ℤ◌;
  sub = ◌-ℤ◌;
  gt = λ a b. ltb_ℤ b a;
  is_zero = is_zero_ℤ;
  scaled = λ a. a;
  scaled_zero = refl;
  scaled_add = λ a b. refl;
  scaled_sub = λ a b. refl;
  gt_lem = λ a b. refl;
  is_zero_iff = is_zero_ℤ_iff;
}
