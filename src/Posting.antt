-- ===== src/Posting.antt =====
-- The posting flow (cala-ledger/src/posting): its inputs, what it reads and its errors.
pub mod Prepare
pub mod Validate
pub mod FoldBalances
pub mod Hydrate
pub mod Cache
pub mod Keys
use cala.Prelude.{ℕ, String, Bool, Option, List}
use cala.Prelude.Map.{Map}
use cala.Types.{
  AccountId, AccountSetId, JournalId, TransactionId, TxTemplateId, Currency, Status,
  BalanceSnapshot,
}
use cala.Cel.{CelValue}
use cala.Template.{TxTemplateValues, TxTemplateError}
use cala.Velocity.Collect.{Controls}

-- cala-ledger-core-types/src/journal.rs
pub record JournalConfig : Type 0 where
  pub enable_effective_balances : Bool

pub record JournalValues : Type 0 where
  pub id : JournalId
  pub version : ℕ
  pub name : String
  pub code : Option String
  pub status : Status
  pub description : Option String
  pub config : JournalConfig

pub record PostingInput (A : Type 0) : Type 0 where
  pub tx_id : TransactionId
  pub tx_template_code : String
  pub params : Map String (CelValue A)

-- posting/template_cache.rs
pub record ResolvedTemplate (Expr : Type 0) : Type 0 where
  pub id : TxTemplateId
  pub version : ℕ
  pub values : TxTemplateValues Expr

-- posting/repo.rs
pub record AccountMeta : Type 0 where
  pub locked : Bool
  pub eventually_consistent : Bool
  pub is_account_set : Bool

pub record AccountMembership : Type 0 where
  pub account_set_id : AccountSetId
  pub account_id : AccountId

pub record PostingState (A Expr : Type 0) : Type 0 where
  pub epoch : ℕ
  pub seeds : List AccountMembership
  pub journals : Map JournalId JournalValues
  pub accounts : Map AccountId AccountMeta
  pub balances : Map (JournalId × (AccountId × Currency)) (BalanceSnapshot A)
  pub controls : Controls A Expr

-- posting/error.rs
pub data RejectionReason (A : Type 0) : Type 0 where
  tx_template : TxTemplateError A → RejectionReason A
  account_not_found : AccountId → RejectionReason A
  entry_targets_account_set : AccountId → RejectionReason A
  account_locked : AccountId → RejectionReason A
  journal_locked : JournalId → RejectionReason A
  journal_not_found : JournalId → RejectionReason A
  duplicate_transaction_id_in_batch : TransactionId → RejectionReason A
  duplicate_external_id_in_batch : String → RejectionReason A

-- The errors that the modelled code makes; `panicked` is an `expect` that fails.
pub data PostingError (A : Type 0) : Type 0 where
  rejected : ℕ → TransactionId → RejectionReason A → PostingError A
  ancestor_locked : AccountId → PostingError A
  batch_too_many_accounts : ℕ → ℕ → PostingError A
  panicked : String → PostingError A
