-- ===== src/Template/Prepared.antt =====
-- A prepared transaction as a whole.
use cala.Prelude.{
  ℕ, ◌≡◌, String, List, length, ok, map_err, >>=-eq-ok, map_err-eq-ok, pair_eq, nat_eq, arith,
}
use cala.Prelude.Int.{pos}
use cala.Prelude.Map.{Map}
use cala.Types.{DecimalOps, TransactionId, JournalId, EntryId, Currency, Layer}
use cala.Cel.{CelValue}
use cala.Cel.Eval.{CelOps, try_evaluate}
use cala.Cel.Coerce.{try_uuid}
use cala.Param.{into_context}
use cala.Template.{TxTemplateValues, NewEntry, PreparedTransaction, cel, param}
use cala.Template.Prepare.{prep_entries, complete_transaction, prepare_transaction}
use cala.Template.Balanced.{net}
use cala.Template.DoubleEntry.{IsNumbered, prep_entries_double_entry}

module _ {A Expr Ctx : Type 0} ⦃d : DecimalOps A⦄ (c : CelOps A Expr Ctx) where
  complete_transaction-entries :
      (tx_id : TransactionId) (tmpl : TxTemplateValues Expr) (ctx : Ctx) (journal_id : JournalId)
      (entries : List (NewEntry A)) {p : PreparedTransaction A}
      → complete_transaction c tx_id tmpl ctx journal_id entries ≡ ok p
      → (p.tx_id ≡ tx_id) × (p.journal_id ≡ journal_id) × (p.entries ≡ entries)
  unfolding complete_transaction
  complete_transaction-entries tx_id tmpl ctx journal_id entries h = ground arith

  -- The transaction has the id, and the journal and entries that were evaluated in one context.
  prepare_transaction-entries :
      (tx_id : TransactionId) (tmpl : TxTemplateValues Expr) (params : Map String (CelValue A))
      (ids : ℕ → EntryId) (p : PreparedTransaction A)
      → prepare_transaction c tx_id tmpl params ids ≡ ok p
      → (ctx : Ctx) × (p.tx_id ≡ tx_id)
        × (prep_entries c tmpl tx_id p.journal_id ids ctx ≡ ok p.entries)
  unfolding prepare_transaction
  prepare_transaction-entries tx_id tmpl params ids p h =
      let (ctx, _, h1) = >>=-eq-ok (map_err param (into_context c params tmpl.params)) _ h in
      let (journal_id, _, h2) =
        >>=-eq-ok (map_err cel (try_evaluate c (try_uuid c) ctx tmpl.transaction.journal_id)) _
          h1 in
      let (entries, made, h3) = >>=-eq-ok (prep_entries c tmpl tx_id journal_id ids ctx) _ h2 in
      let (same, journal, all) =
        complete_transaction-entries tx_id tmpl ctx journal_id entries
          (map_err-eq-ok cel (complete_transaction c tx_id tmpl ctx journal_id entries) h3) in
      (ctx, same, rw (journal, all) made)

  -- A transaction that is prepared has the given id, one entry for each of the template's, all in
  -- the transaction's own journal and numbered from 1 in order, and credits as much as it debits in
  -- every currency and layer.
  pub prepare_transaction_double_entry :
      (tx_id : TransactionId) (tmpl : TxTemplateValues Expr) (params : Map String (CelValue A))
      (ids : ℕ → EntryId) (p : PreparedTransaction A)
      → prepare_transaction c tx_id tmpl params ids ≡ ok p
      → (p.tx_id ≡ tx_id)
        × ((k : Currency × Layer) → net k p.entries ≡ pos 0)
        × IsNumbered tx_id p.journal_id ids 0 p.entries
        × (length p.entries ≡ length tmpl.entries)
  prepare_transaction_double_entry tx_id tmpl params ids p h =
      let (ctx, same, made) = prepare_transaction-entries tx_id tmpl params ids p h in
      let (balanced, numbered, count) =
        prep_entries_double_entry c ctx tx_id p.journal_id ids tmpl made in
      (same, balanced, numbered, count)
