-- ===== src/Template.antt =====
-- Transaction templates (cala-ledger/src/tx_template/mod.rs, cala-ledger-core-types/src/tx_template.rs,
-- cala-ledger/src/entry/entity.rs): from a template and its parameters to a prepared transaction.
pub mod Prepare
pub mod Balanced
pub mod DoubleEntry
pub mod Prepared
use cala.Prelude.{ℕ, String, Option, List}
use cala.Types.{
  TxTemplateId, TransactionId, JournalId, AccountId, EntryId, NaiveDate, DateTime, Layer, Currency,
  DebitOrCredit,
}
use cala.Types.Json.{Json}
use cala.Param.{ParamDefinition, ParamError}
use cala.Cel.{CelError}

pub record TxTemplateEntry (Expr : Type 0) : Type 0 where
  pub entry_type : Expr
  pub account_id : Expr
  pub layer : Expr
  pub direction : Expr
  pub units : Expr
  pub currency : Expr
  pub description : Option Expr
  pub metadata : Option Expr

pub record TxTemplateTransaction (Expr : Type 0) : Type 0 where
  pub effective : Expr
  pub journal_id : Expr
  pub correlation_id : Option Expr
  pub external_id : Option Expr
  pub description : Option Expr
  pub metadata : Option Expr

pub record TxTemplateValues (Expr : Type 0) : Type 0 where
  pub id : TxTemplateId
  pub version : ℕ
  pub code : String
  pub params : Option (List (ParamDefinition Expr))
  pub transaction : TxTemplateTransaction Expr
  pub entries : List (TxTemplateEntry Expr)
  pub description : Option String
  pub metadata : Option Json

pub record NewEntry (A : Type 0) : Type 0 where
  pub id : EntryId
  pub transaction_id : TransactionId
  pub journal_id : JournalId
  pub account_id : AccountId
  pub entry_type : String
  pub sequence : ℕ
  pub layer : Layer
  pub units : A
  pub currency : Currency
  pub direction : DebitOrCredit
  pub description : Option String
  pub metadata : Option Json

pub record PreparedTransaction (A : Type 0) : Type 0 where
  pub tx_id : TransactionId
  pub journal_id : JournalId
  pub tx_template_id : TxTemplateId
  pub effective : NaiveDate
  pub correlation_id : Option String
  pub external_id : Option String
  pub description : Option String
  pub metadata : Option Json
  pub entries : List (NewEntry A)

pub data TxTemplateError (A : Type 0) : Type 0 where
  cel : CelError → TxTemplateError A
  param : ParamError → TxTemplateError A
  unbalanced_transaction : Currency → Layer → A → TxTemplateError A
  not_found : TxTemplateError A
  serde_json : TxTemplateError A
