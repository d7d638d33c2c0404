-- ===== src/Template/DoubleEntry.antt =====
-- A prepared transaction is double entry, and its entries are numbered.
use mathlib.Core.Path.{subst}
use cala.Prelude.{
  ℕ, suc, ◌+◌, ◌%◌, ◌≡◌, ◌≢◌, refl, sym, ap, ◌∙◌, true, List, [], ◌∷◌, length, >>=-eq-err, Result,
  ok, err, map_err, >>=-eq-ok, ok-injective, pair_eq, nat_eq, arith, All, Option-cases, inl, inr,
}
use cala.Prelude.Int.{ℤ, pos, ◌+ℤ◌, zero_+ℤ}
use cala.Prelude.Map.{get, All-get}
use cala.Types.{DecimalOps, TransactionId, JournalId, EntryId, Layer, layer_eq, Currency}
use cala.Cel.{CelError}
use mathlib.Core.Logic.{⊎_elim}
use cala.Cel.Eval.{CelOps}
use cala.Balance.Snapshot.{u32_mod}
use cala.Template.{TxTemplateEntry, TxTemplateValues, NewEntry, cel, unbalanced_transaction}
use cala.Template.Prepare.{
  Totals, total_or_zero, add_total, check_totals, prep_entry, prep_loop, prep_entries,
}
use cala.Template.Balanced.{
  net, total_of, check_totals-eq-ok, check_totals-eq-err, prep_loop-cons, prep_loop-total_of,
  prep_loop-IsUnique,
}

map_err-cel :
    {A B : Type 0} (m : Result B CelError) {currency : Currency} {layer : Layer} {v : A}
    → map_err cel m ≢ err (unbalanced_transaction currency layer v)
map_err-cel (ok b) h = cc
map_err-cel (err e) h = cc

err≢ok : {A E : Type 0} {a : A} {e : E} → ok a ≢ err e
err≢ok h = cc

module _ {A : Type 0} ⦃d : DecimalOps A⦄ where
  -- Totals that start from nothing are the net of the entries.
  net_of_totals :
      (k : Currency × Layer) (es : List (NewEntry A)) {total : ℤ}
      → total ≡ d.scaled d.zero_value +ℤ net k es
      → net k es ≡ total
  net_of_totals k es h = sym (h ∙ rw d.scaled_zero (zero_+ℤ (net k es)))

  total_of_zeros :
      (k : Currency × Layer) (totals : Totals A)
      → All (λ x. d.is_zero x.1 ≡ true) totals
      → total_of k totals ≡ pos 0
  total_of_zeros k totals h = elim (Option-cases (get k totals)) [
    | inl absent ↦ ap (λ o. d.scaled (total_or_zero o)) absent ∙ d.scaled_zero
    | inr (v, found) ↦
        ap (λ o. d.scaled (total_or_zero o)) found
        ∙ (d.is_zero_iff v).0 (All-get (λ x. d.is_zero x.1 ≡ true) k totals h found)
  ]

module _ {A : Type 0} (tx_id : TransactionId) (journal_id : JournalId) (ids : ℕ → EntryId) where
  -- The entries carry the transaction, the journal, their ids in order and the sequence from
  -- the given index on.
  abbrev pub IsNumbered : ℕ → List (NewEntry A) → Type 0
  IsNumbered index [] = Unit
  IsNumbered index (e ∷ es) =
      (e.id ≡ ids index)
      × (e.sequence ≡ (index + 1) % u32_mod)
      × (e.transaction_id ≡ tx_id)
      × (e.journal_id ≡ journal_id)
      × IsNumbered (index + 1) es

module _ {A Expr Ctx : Type 0} ⦃d : DecimalOps A⦄ (c : CelOps A Expr Ctx) where
  module _ (ctx : Ctx) (tx_id : TransactionId) (journal_id : JournalId) (ids : ℕ → EntryId) where
    prep_entry-numbered :
        (id : EntryId) (index : ℕ) (t : TxTemplateEntry Expr) {e : NewEntry A}
        → prep_entry c ctx tx_id journal_id id index t ≡ ok e
        → (e.id ≡ id)
          × (e.sequence ≡ (index + 1) % u32_mod)
          × (e.transaction_id ≡ tx_id)
          × (e.journal_id ≡ journal_id)
    unfolding prep_entry
    prep_entry-numbered id index t h = ground arith

    prep_loop-IsNumbered :
        (index : ℕ) (totals : Totals A) (templates : List (TxTemplateEntry Expr))
        (out : List (NewEntry A) × Totals A)
        → prep_loop c ctx tx_id journal_id ids index totals templates ≡ ok out
        → IsNumbered tx_id journal_id ids index out.0 × (length out.0 ≡ length templates)
    unfolding prep_loop
    prep_loop-IsNumbered index totals [] out h =
        subst (λ o. IsNumbered tx_id journal_id ids index o.0 × (length o.0 ≡ 0)) (ok-injective h)
          (tt, refl)
    prep_loop-IsNumbered index totals (t ∷ templates) out h =
        let (e, rest, prepared, loop, made) =
          prep_loop-cons c ctx tx_id journal_id ids index totals t templates h in
        let (id, sequence, tx, journal) = prep_entry-numbered (ids index) index t prepared in
        let (numbered, count) =
          prep_loop-IsNumbered (index + 1) (add_total e totals) templates rest loop in
        subst
          (λ o. IsNumbered tx_id journal_id ids index o.0 × (length o.0 ≡ suc (length templates)))
          (sym made) ((id, sequence, tx, journal, numbered), ap suc count)

    -- The entries of a transaction that is not rejected: one for each of the template's, numbered
    -- from 1 in order under the ids drawn for them, all of the transaction and its journal, with as
    -- much credited as debited in every currency and layer.
    pub prep_entries_double_entry :
        (tmpl : TxTemplateValues Expr) {es : List (NewEntry A)}
        → prep_entries c tmpl tx_id journal_id ids ctx ≡ ok es
        → ((k : Currency × Layer) → net k es ≡ pos 0)
          × IsNumbered tx_id journal_id ids 0 es
          × (length es ≡ length tmpl.entries)
    unfolding prep_entries
    prep_entries_double_entry tmpl h =
        let (prepared, loop, q) =
          >>=-eq-ok (prep_loop c ctx tx_id journal_id ids 0 [] tmpl.entries) _ h in
        let (_, checked, made) = >>=-eq-ok (check_totals prepared.1) _ q in
        let (numbered, count) = prep_loop-IsNumbered 0 [] tmpl.entries prepared loop in
        subst
          (λ es.
            ((k : Currency × Layer) → net k es ≡ pos 0)
            × IsNumbered tx_id journal_id ids 0 es
            × (length es ≡ length tmpl.entries))
          (ok-injective made)
          (
            λ k.
                net_of_totals k prepared.0 (
                  prep_loop-total_of c ctx tx_id journal_id ids 0 [] tmpl.entries prepared.0
                    prepared.1 k loop)
                ∙ total_of_zeros k prepared.1 (check_totals-eq-ok prepared.1 checked),
            numbered,
            count,
          )

    prep_loop_evaluates :
        (index : ℕ) (totals : Totals A) (templates : List (TxTemplateEntry Expr))
        {currency : Currency} {layer : Layer} {v : A}
        → prep_loop c ctx tx_id journal_id ids index totals templates
          ≢ err (unbalanced_transaction currency layer v)
    unfolding prep_loop
    prep_loop_evaluates index totals [] h = cc
    prep_loop_evaluates index totals (t ∷ templates) h =
        ⊎_elim
          (λ failed. map_err-cel (prep_entry c ctx tx_id journal_id (ids index) index t) failed)
          (λ (e, prepared, q).
            ⊎_elim (λ failed. prep_loop_evaluates (index + 1) (add_total e totals) templates failed)
              (λ (rest, loop, made). err≢ok made)
              (>>=-eq-err
                (prep_loop c ctx tx_id journal_id ids (index + 1) (add_total e totals) templates) _
                q))
          (>>=-eq-err (map_err cel (prep_entry c ctx tx_id journal_id (ids index) index t)) _ h)

    -- A transaction rejected as unbalanced: its entries were all evaluated, and the amount that is
    -- reported is their credits less their debits in the currency and layer named, and not zero.
    pub prep_entries_unbalanced :
        (tmpl : TxTemplateValues Expr) {currency : Currency} {layer : Layer} {v : A}
        → prep_entries c tmpl tx_id journal_id ids ctx
          ≡ err (unbalanced_transaction currency layer v)
        → (es : List (NewEntry A)) × (totals : Totals A) × (prep_loop c ctx tx_id journal_id ids 0
              [] tmpl.entries
            ≡ ok (es, totals))
          × (d.scaled v ≡ net (currency, layer) es)
          × (net (currency, layer) es ≢ pos 0)
    unfolding prep_entries
    prep_entries_unbalanced tmpl {currency} {layer} {v} h =
        ⊎_elim (λ failed. absurd (prep_loop_evaluates 0 [] tmpl.entries failed))
          (λ (prepared, loop, q).
            ⊎_elim (λ failed. reported prepared.0 prepared.1 loop failed)
              (λ (u, checked, made). absurd (err≢ok made))
              (>>=-eq-err (check_totals prepared.1) _ q))
          (>>=-eq-err (prep_loop c ctx tx_id journal_id ids 0 [] tmpl.entries) _ h)
      where
        reported :
            (es : List (NewEntry A)) (totals : Totals A)
            → prep_loop c ctx tx_id journal_id ids 0 [] tmpl.entries ≡ ok (es, totals)
            → check_totals totals ≡ err (unbalanced_transaction currency layer v)
            → (es : List (NewEntry A)) × (totals : Totals A) × (prep_loop c ctx tx_id journal_id ids
                  0 [] tmpl.entries
                ≡ ok (es, totals))
              × (d.scaled v ≡ net (currency, layer) es)
              × (net (currency, layer) es ≢ pos 0)
        reported es totals loop failed =
            let (found, nonzero) = check_totals-eq-err totals failed (
              prep_loop-IsUnique c ctx tx_id journal_id ids 0 [] tmpl.entries (es, totals) tt
                loop) in
            let sum : net (currency, layer) es ≡ d.scaled v =
              net_of_totals (currency, layer) es
                (prep_loop-total_of c ctx tx_id journal_id ids 0 [] tmpl.entries es totals
                  (currency, layer) loop)
              ∙ ap (λ o. d.scaled (total_or_zero o)) found in
            (es, totals, loop, sym sum, λ none_left. cc ((d.is_zero_iff v).1 (sym sum ∙ none_left)))
