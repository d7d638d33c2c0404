-- ===== src/Velocity/Context.antt =====
-- `EvalContext` (cala-ledger/src/velocity/context.rs) and the CEL values that it is made of.
use cala.Prelude.{String, Option, none, some, List, [], ◌∷◌, Result, ok, err, nat_eq}
use cala.Prelude.Map.{Map, get, insert}
use cala.Types.{EntryValues, EntryId, AccountId, TransactionValues, VelocityContextAccountValues}
use cala.Types.Json.{Json}
use cala.Cel.{CelKey, CelValue, CelFields}
use cala.Cel.Eval.{CelOps}
use cala.Cel.Coerce.{layer_value, direction_value}
use cala.Cel.FromJson.{json_value}
use cala.Velocity.{VelocityError, panicked}

-- A member of a `CelMap` under a text key.
abbrev pub field : {A : Type 0} → String → CelValue A → CelFields A → CelFields A
field name v rest = CelFields.field (CelKey.string name) v rest

-- `if let Some(metadata) = ... { map.insert("metadata", ...) }`
abbrev metadata_field : {A : Type 0} → Option Json → CelFields A
metadata_field none = CelFields.end
metadata_field (some j) = field "metadata" (json_value j) CelFields.end

abbrev text_or_default : Option String → String
text_or_default none = ""
text_or_default (some s) = s

module _ {A Expr Ctx : Type 0} (c : CelOps A Expr Ctx) where
  -- `From<&EntryValues> for CelValue`
  unfoldable pub entry_value : EntryValues A → CelValue A
  entry_value e = CelValue.map (
      field "id" (CelValue.uuid e.id) (
        field "entryType" (CelValue.string e.entry_type) (
          field "sequence" (CelValue.uint e.sequence) (
            field "layer" (layer_value c e.layer) (
              field "direction" (direction_value c e.direction) (
                field "units" (CelValue.decimal e.units) (
                  field "currency" (CelValue.string (c.currency_code e.currency))
                    (metadata_field e.metadata))))))))

  -- `From<&TransactionValues> for CelValue`
  unfoldable pub transaction_value : TransactionValues → CelValue A
  transaction_value tx = CelValue.map (
      field "id" (CelValue.uuid tx.id) (
        field "createdAt" (CelValue.timestamp tx.created_at) (
          field "journalId" (CelValue.uuid tx.journal_id) (
            field "txTemplateId" (CelValue.uuid tx.tx_template_id) (
              field "effective" (CelValue.date tx.effective) (
                field "correlationId" (CelValue.string tx.correlation_id)
                  (metadata_field tx.metadata)))))))

  -- `From<&VelocityContextAccountValues> for CelValue`
  unfoldable pub account_value : VelocityContextAccountValues → CelValue A
  account_value a = CelValue.map (
      field "id" (CelValue.uuid a.id) (
        field "name" (CelValue.string a.name) (
          field "externalId" (CelValue.string (text_or_default a.external_id)) (
            field "normalBalanceType" (direction_value c a.normal_balance_type)
              (metadata_field a.metadata)))))

pub record EvalContext (A : Type 0) : Type 0 where
  pub transaction : CelValue A
  pub entry_values : Map EntryId (CelValue A)
  pub account_values : Map AccountId (CelValue A)

module _ {A Expr Ctx : Type 0} (c : CelOps A Expr Ctx) where
  -- `accounts.map(|a| (a.id, a.into())).collect()`
  abbrev pub account_values_of :
      List VelocityContextAccountValues → Map AccountId (CelValue A) → Map AccountId (CelValue A)
  account_values_of [] m = m
  account_values_of (a ∷ accounts) m =
      account_values_of accounts (insert a.id (account_value c a) m)

  -- `EvalContext::new`
  unfoldable pub new_context : TransactionValues → List VelocityContextAccountValues → EvalContext A
  unfolding transaction_value account_value
  new_context tx accounts = record {
    transaction = transaction_value c tx;
    entry_values = [];
    account_values = account_values_of accounts [];
  }

  -- The value that is kept for an entry, made on its first use.
  abbrev pub cached_value : EntryValues A → Option (CelValue A) → CelValue A
  cached_value e none = entry_value c e
  cached_value e (some v) = v

  abbrev pub keep_value :
      EntryValues A → Option (CelValue A) → Map EntryId (CelValue A) → Map EntryId (CelValue A)
  keep_value e none m = insert e.id (entry_value c e) m
  keep_value e (some v) m = m

  -- The context that an expression is evaluated in.
  abbrev pub context_of : CelValue A → CelValue A → CelValue A → Ctx
  context_of transaction entry account = c.add_variable c.initial "context" (
      CelValue.map (
        field "vars"
          (CelValue.map (
            field "transaction" transaction
              (field "entry" entry (field "account" account CelFields.end))))
          CelFields.end))

  -- `EvalContext::context_for_entry`: the context, and the values kept after it.
  unfoldable pub context_for_entry :
      EvalContext A → AccountId → EntryValues A → Result (Ctx × EvalContext A) (VelocityError A)
  unfolding entry_value
  context_for_entry ec account_id e =
      let kept = get e.id ec.entry_values in
      elim (get account_id ec.account_values) [
        | none ↦ err (panicked "account values not set for context")
        | some account ↦ ok (
          context_of ec.transaction (cached_value e kept) account,
          record ec { entry_values = keep_value e kept ec.entry_values },
        )
      ]
