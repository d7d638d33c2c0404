-- ===== src/Types/Transaction.antt =====
-- cala-ledger-core-types/src/transaction.rs, and what velocity contexts know of an account
-- (cala-ledger-core-types/src/velocity/context_values.rs).
use cala.Prelude.{ℕ, String, Option, List}
use cala.Types.Json.{Json}
use cala.Types.Primitives.{
  TransactionId, JournalId, TxTemplateId, EntryId, AccountId, DateTime, NaiveDate, DebitOrCredit,
}

pub record TransactionValues : Type 0 where
  pub id : TransactionId
  pub version : ℕ
  pub created_at : DateTime
  pub modified_at : DateTime
  pub journal_id : JournalId
  pub tx_template_id : TxTemplateId
  pub entry_ids : List EntryId
  pub effective : NaiveDate
  pub correlation_id : String
  pub external_id : Option String
  pub description : Option String
  pub metadata : Option Json

pub record VelocityContextAccountValues : Type 0 where
  pub id : AccountId
  pub name : String
  pub normal_balance_type : DebitOrCredit
  pub external_id : Option String
  pub metadata : Option Json
