-- ===== src/Types/Entry.antt =====
-- cala-ledger-core-types/src/entry.rs.
use cala.Prelude.{ℕ, String, Option}
use cala.Types.Json.{Json}
use cala.Types.Primitives.{
  EntryId, TransactionId, JournalId, AccountId, Layer, Currency, DebitOrCredit,
}

pub record EntryValues (A : Type 0) : Type 0 where
  pub id : EntryId
  pub version : ℕ
  pub transaction_id : TransactionId
  pub journal_id : JournalId
  pub account_id : AccountId
  pub entry_type : String
  pub sequence : ℕ
  pub layer : Layer
  pub units : A
  pub currency : Currency
  pub direction : DebitOrCredit
  pub description : Option String
  pub metadata : Option Json
