-- ===== src/Types/Primitives.antt =====
-- cala-ledger-core-types/src/primitives.rs. An identifier is a UUID, a 128-bit number that is only
-- compared; a currency is compared, ordered and hashed by its code alone, and is that code; points
-- in time and dates are only compared, and count from some origin.
use cala.Prelude.{ℕ, ◌≡◌, ◌↔◌, Bool, true, false, arith, Eq}

abbrev pub AccountId : Type 0
AccountId = ℕ

abbrev pub AccountSetId : Type 0
AccountSetId = ℕ

abbrev pub JournalId : Type 0
JournalId = ℕ

abbrev pub TransactionId : Type 0
TransactionId = ℕ

abbrev pub EntryId : Type 0
EntryId = ℕ

abbrev pub TxTemplateId : Type 0
TxTemplateId = ℕ

abbrev pub VelocityLimitId : Type 0
VelocityLimitId = ℕ

abbrev pub VelocityControlId : Type 0
VelocityControlId = ℕ

abbrev pub Currency : Type 0
Currency = ℕ

abbrev pub DateTime : Type 0
DateTime = ℕ

abbrev pub NaiveDate : Type 0
NaiveDate = ℕ

-- `From<AccountSetId> for AccountId`: a set has an account of the same id.
abbrev pub set_account : AccountSetId → AccountId
set_account id = id

pub data DebitOrCredit : Type 0 where
  debit credit : DebitOrCredit

pub data Layer : Type 0 where
  settled pending encumbrance : Layer

pub data Status : Type 0 where
  active locked : Status

abbrev pub direction_beq : DebitOrCredit → DebitOrCredit → Bool
direction_beq debit debit = true
direction_beq credit credit = true
direction_beq _ _ = false

abbrev pub layer_beq : Layer → Layer → Bool
layer_beq settled settled = true
layer_beq pending pending = true
layer_beq encumbrance encumbrance = true
layer_beq _ _ = false

pub layer_beq_iff : (a b : Layer) → (layer_beq a b ≡ true) ↔ (a ≡ b)
layer_beq_iff a b = ground arith

instance abbrev pub layer_eq : Eq Layer
layer_eq = record { beq = layer_beq; beq_iff = layer_beq_iff }
