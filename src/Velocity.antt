-- ===== src/Velocity.antt =====
-- Velocity limits (cala-ledger/src/velocity, cala-ledger-core-types/src/velocity): the types.
pub mod Context
pub mod Limit
pub mod Collect
pub mod Enforce
use cala.Prelude.{ℕ, String, Option, List, Bool, true, ◌&&◌, ◌≡◌, ◌↔◌, arith, Eq, nat_eq}
use cala.Types.{
  Layer, DebitOrCredit, DateTime, Currency, AccountId, JournalId, VelocityControlId,
  VelocityLimitId,
}
use cala.Types.Json.{Json}
use cala.Cel.{CelError}

pub data VelocityEnforcementAction : Type 0 where
  reject : VelocityEnforcementAction

pub record VelocityEnforcement : Type 0 where
  pub action : VelocityEnforcementAction

pub record PartitionKey (Expr : Type 0) : Type 0 where
  pub alias : String
  pub value : Expr

pub record AccountBalanceLimit (A : Type 0) : Type 0 where
  pub layer : Layer
  pub amount : A
  pub enforcement_direction : DebitOrCredit
  pub start : DateTime
  pub end : Option DateTime

pub record AccountLimit (A Expr : Type 0) : Type 0 where
  pub timestamp_source : Option Expr
  pub balance : List (AccountBalanceLimit A)

pub record AccountVelocityLimit (A Expr : Type 0) : Type 0 where
  pub limit_id : VelocityLimitId
  pub window : List (PartitionKey Expr)
  pub condition : Option Expr
  pub currency : Option Currency
  pub limit : AccountLimit A Expr

pub record AccountVelocityControl (A Expr : Type 0) : Type 0 where
  pub account_id : AccountId
  pub control_id : VelocityControlId
  pub enforcement : VelocityEnforcement
  pub condition : Option Expr
  pub velocity_limits : List (AccountVelocityLimit A Expr)

-- `serde_json::Map` with its equality, the type that a window holds: the crate's, so an interface.
pub record WindowOps (W : Type 0) : Type 0 where
  pub new : W
  pub insert : W → String → Json → W
  pub window_eq : Eq W

-- The balance that one limit of one control counts for one account in one window.
pub record VelocityBalanceKey (W : Type 0) : Type 0 where
  pub window : W
  pub currency : Currency
  pub journal_id : JournalId
  pub account_id : AccountId
  pub control_id : VelocityControlId
  pub limit_id : VelocityLimitId

pub record LimitExceededError (A : Type 0) : Type 0 where
  pub account_id : AccountId
  pub currency : Currency
  pub direction : DebitOrCredit
  pub limit_id : VelocityLimitId
  pub layer : Layer
  pub limit : A
  pub requested : A

-- The errors that the modelled code makes; `panicked` is an `expect` that fails.
pub data VelocityError (A : Type 0) : Type 0 where
  cel : CelError → VelocityError A
  exceeded : LimitExceededError A → VelocityError A
  panicked : String → VelocityError A

module _ {W : Type 0} ⦃ops : WindowOps W⦄ where
  abbrev pub key_beq : VelocityBalanceKey W → VelocityBalanceKey W → Bool
  key_beq a b =
      ops.window_eq.beq a.window b.window
      && nat_eq.beq a.currency b.currency
      && nat_eq.beq a.journal_id b.journal_id
      && nat_eq.beq a.account_id b.account_id
      && nat_eq.beq a.control_id b.control_id
      && nat_eq.beq a.limit_id b.limit_id

  pub key_beq_iff : (a b : VelocityBalanceKey W) → (key_beq a b ≡ true) ↔ (a ≡ b)
  key_beq_iff a b = ground (arith, ops.window_eq.beq_iff a.window b.window)

  instance abbrev pub key_eq : Eq (VelocityBalanceKey W)
  key_eq = record { beq = key_beq; beq_iff = key_beq_iff }
