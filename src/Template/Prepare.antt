-- ===== src/Template/Prepare.antt =====
-- `TxTemplates::prepare_transaction` and `prep_entries`.
use cala.Prelude.{
  ℕ, ◌+◌, ◌%◌, String, not, Option, none, some, List, [], ◌∷◌, if◌then◌else◌, Result, ok, err,
  ◌>>=◌, ◌>>◌, map_err, traverse_option, pair_eq, nat_eq,
}
use cala.Prelude.Map.{Map, get, insert}
use cala.Types.{
  DecimalOps, TransactionId, JournalId, EntryId, Layer, layer_eq, Currency, DebitOrCredit, debit,
  credit,
}
use cala.Cel.{CelValue, CelError}
use cala.Cel.Eval.{CelOps, try_evaluate}
use cala.Cel.Coerce.{
  try_uuid, try_string, try_layer, try_decimal, try_currency, try_direction, try_date, try_json,
}
use cala.Param.{into_context}
use cala.Balance.Snapshot.{u32_mod}
use cala.Template.{
  TxTemplateEntry, TxTemplateValues, NewEntry, PreparedTransaction, TxTemplateError, cel, param,
  unbalanced_transaction,
}

-- The running total of each currency and layer: credits less debits.
abbrev pub Totals : Type 0 → Type 0
Totals A = Map (Currency × Layer) A

module _ {A : Type 0} ⦃d : DecimalOps A⦄ where
  abbrev pub total_or_zero : Option A → A
  total_or_zero none = d.zero_value
  total_or_zero (some a) = a

  abbrev pub signed : DebitOrCredit → A → A → A
  signed debit total units = d.sub total units
  signed credit total units = d.add total units

  -- `totals.entry((currency, layer)).or_insert(ZERO)`, and the `match direction` on it.
  unfoldable pub add_total : NewEntry A → Totals A → Totals A
  add_total e totals =
      let key : Currency × Layer = (e.currency, e.layer) in
      insert key (signed e.direction (total_or_zero (get key totals)) e.units) totals

  -- The loop over the totals: the first that is not zero is reported.
  unfoldable pub check_totals : Totals A → Result (Unit {0}) (TxTemplateError A)
  check_totals [] = ok tt
  check_totals (((currency, layer), v) ∷ totals) =
      if not (d.is_zero v)
      then err (unbalanced_transaction currency layer v)
      else check_totals totals

module _ {A Expr Ctx : Type 0} ⦃d : DecimalOps A⦄ (c : CelOps A Expr Ctx) where
  -- One round of the loop: the entry that it builds, `id` being that of `EntryId::new()`.
  unfoldable pub prep_entry :
      Ctx
      → TransactionId
      → JournalId
      → EntryId
      → ℕ
      → TxTemplateEntry Expr
      → Result (NewEntry A) CelError
  prep_entry ctx transaction_id journal_id id index e = do
    account_id ← try_evaluate c (try_uuid c) ctx e.account_id
    entry_type ← try_evaluate c (try_string c) ctx e.entry_type
    layer ← try_evaluate c (try_layer c) ctx e.layer
    units ← try_evaluate c (try_decimal c) ctx e.units
    currency ← try_evaluate c (try_currency c) ctx e.currency
    direction ← try_evaluate c (try_direction c) ctx e.direction
    description ← traverse_option (try_evaluate c (try_string c) ctx) e.description
    metadata ← traverse_option (try_evaluate c (try_json c) ctx) e.metadata
    ok (record {
      id = id;
      transaction_id = transaction_id;
      journal_id = journal_id;
      account_id = account_id;
      entry_type = entry_type;
      sequence = (index + 1) % u32_mod;
      layer = layer;
      units = units;
      currency = currency;
      direction = direction;
      description = description;
      metadata = metadata;
    })

  -- The loop over the template's entries. `ids n` is what the n-th call of `EntryId::new()` gives.
  unfoldable pub prep_loop :
      Ctx
      → TransactionId
      → JournalId
      → (ℕ → EntryId)
      → ℕ
      → Totals A
      → List (TxTemplateEntry Expr)
      → Result (List (NewEntry A) × Totals A) (TxTemplateError A)
  prep_loop ctx transaction_id journal_id ids index totals [] = ok ([], totals)
  prep_loop ctx transaction_id journal_id ids index totals (e ∷ entries) = do
    entry ← map_err cel (prep_entry ctx transaction_id journal_id (ids index) index e)
    rest ← prep_loop ctx transaction_id journal_id ids (index + 1) (add_total entry totals) entries
    ok (entry ∷ rest.0, rest.1)

  unfoldable pub prep_entries :
      TxTemplateValues Expr
      → TransactionId
      → JournalId
      → (ℕ → EntryId)
      → Ctx
      → Result (List (NewEntry A)) (TxTemplateError A)
  prep_entries tmpl transaction_id journal_id ids ctx = do
    prepared ← prep_loop ctx transaction_id journal_id ids 0 [] tmpl.entries
    check_totals prepared.1
    ok prepared.0

  -- The rest of the transaction, after its entries.
  unfoldable pub complete_transaction :
      TransactionId
      → TxTemplateValues Expr
      → Ctx
      → JournalId
      → List (NewEntry A)
      → Result (PreparedTransaction A) CelError
  complete_transaction tx_id tmpl ctx journal_id entries = do
    let t = tmpl.transaction
    effective ← try_evaluate c (try_date c) ctx t.effective
    correlation_id ← traverse_option (try_evaluate c (try_string c) ctx) t.correlation_id
    external_id ← traverse_option (try_evaluate c (try_string c) ctx) t.external_id
    description ← traverse_option (try_evaluate c (try_string c) ctx) t.description
    metadata ← traverse_option (try_evaluate c (try_json c) ctx) t.metadata
    ok (record {
      tx_id = tx_id;
      journal_id = journal_id;
      tx_template_id = tmpl.id;
      effective = effective;
      correlation_id = correlation_id;
      external_id = external_id;
      description = description;
      metadata = metadata;
      entries = entries;
    })

  unfoldable pub prepare_transaction :
      TransactionId
      → TxTemplateValues Expr
      → Map String (CelValue A)
      → (ℕ → EntryId)
      → Result (PreparedTransaction A) (TxTemplateError A)
  unfolding prep_entries complete_transaction
  prepare_transaction tx_id tmpl params ids = do
    ctx ← map_err param (into_context c params tmpl.params)
    journal_id ← map_err cel (try_evaluate c (try_uuid c) ctx tmpl.transaction.journal_id)
    entries ← prep_entries tmpl tx_id journal_id ids ctx
    map_err cel (complete_transaction tx_id tmpl ctx journal_id entries)
