-- ===== src/Template/Balanced.antt =====
-- Double entry: the entries of a prepared transaction balance in each currency and layer.
use mathlib.Core.Path.{subst}
use cala.Prelude.{
  ℕ, ◌+◌, ◌≡◌, sym, ap, ◌∙◌, true, false, some, List, [], ◌∷◌, if◌then◌else◌, ok, err, map_err,
  >>=-eq-ok, map_err-eq-ok, ok-injective, pair_eq, nat_eq, arith, All, Bool-cases, inl, inr,
}
use cala.Prelude.Int.{ℤ, pos, ◌+ℤ◌, ◌-ℤ◌, int_laws, +ℤ_zero, +ℤ_assoc}
use cala.Prelude.Map.{get, get-insert_same, get-insert_ne, beq_of_get, IsUnique, insert-IsUnique}
use cala.Types.{
  DecimalOps, TransactionId, JournalId, EntryId, Layer, layer_eq, Currency, DebitOrCredit, debit,
  credit,
}
use cala.Cel.Eval.{CelOps}
use cala.Template.{TxTemplateEntry, NewEntry, cel, unbalanced_transaction}
use cala.Template.Prepare.{
  Totals, total_or_zero, signed, add_total, check_totals, prep_entry, prep_loop,
}

module _ {A : Type 0} ⦃d : DecimalOps A⦄ where
  -- Credits count up and debits down.
  abbrev pub signed_units : NewEntry A → ℤ
  signed_units e = elim e.direction [
    | debit ↦ pos 0 -ℤ d.scaled e.units
    | credit ↦ d.scaled e.units
  ]

  -- Credits less debits of one currency and layer.
  abbrev pub net : Currency × Layer → List (NewEntry A) → ℤ
  net k [] = pos 0
  net k (e ∷ entries) =
      (if pair_eq.beq k (e.currency, e.layer) then signed_units e else pos 0) +ℤ net k entries

  abbrev pub total_of : Currency × Layer → Totals A → ℤ
  total_of k totals = d.scaled (total_or_zero (get k totals))

  scaled-signed :
      (e : NewEntry A) (total : A)
      → d.scaled (signed e.direction total e.units) ≡ d.scaled total +ℤ signed_units e
  scaled-signed e total = by_direction e.direction
    where
      by_direction :
          (x : DebitOrCredit)
          → d.scaled (signed x total e.units)
            ≡ d.scaled total
              +ℤ (elim x [ debit ↦ pos 0 -ℤ d.scaled e.units | credit ↦ d.scaled e.units ])
      by_direction debit = d.scaled_sub total e.units ∙ omega int_laws
      by_direction credit = d.scaled_add total e.units

  total_of-add_total :
      (k : Currency × Layer) (e : NewEntry A) (totals : Totals A)
      → total_of k (add_total e totals)
        ≡ total_of k totals
          +ℤ (if pair_eq.beq k (e.currency, e.layer) then signed_units e else pos 0)
  unfolding add_total
  total_of-add_total k e totals =
      let key : Currency × Layer = (e.currency, e.layer) in
      let sum : A = signed e.direction (total_or_zero (get key totals)) e.units in
      elim (Bool-cases (pair_eq.beq k key)) [
        | inl same ↦
            ap (λ o. d.scaled (total_or_zero o)) (get-insert_same key k sum totals same)
            ∙ scaled-signed e (total_or_zero (get key totals))
            ∙ rw same (
                ap (λ j. total_of j totals +ℤ signed_units e)
                  (sym ((pair_eq.beq_iff k key).0 same)))
        | inr other ↦
            ap (λ o. d.scaled (total_or_zero o)) (get-insert_ne key k sum totals other)
            ∙ rw other (sym (+ℤ_zero (total_of k totals)))
      ]

  pub check_totals-eq-ok :
      (totals : Totals A) {u : Unit {0}}
      → check_totals totals ≡ ok u
      → All (λ x. d.is_zero x.1 ≡ true) totals
  unfolding check_totals
  check_totals-eq-ok [] h = tt
  check_totals-eq-ok (x ∷ totals) h = ground (arith, check_totals-eq-ok totals)

  reported_lem :
      (x : (Currency × Layer) × A) (totals : Totals A) {c : Currency} {l : Layer} {v : A}
      → d.is_zero x.1 ≡ false
      → check_totals (x ∷ totals) ≡ err (unbalanced_transaction c l v)
      → (x.0 ≡ (c, l)) × (x.1 ≡ v)
  unfolding check_totals
  reported_lem x totals here h = ground arith

  pub check_totals-eq-err :
      (totals : Totals A) {c : Currency} {l : Layer} {v : A}
      → check_totals totals ≡ err (unbalanced_transaction c l v)
      → IsUnique totals
      → (get (c, l) totals ≡ some v) × (d.is_zero v ≡ false)
  unfolding check_totals
  check_totals-eq-err [] h u = cc
  check_totals-eq-err (x ∷ totals) {c} {l} {v} h u = elim (Bool-cases (d.is_zero x.1)) [
    | inl zero_here ↦
        let rest = check_totals-eq-err totals {c = c} {l = l} {v = v} (ground arith) u.1 in
        rw (beq_of_get (c, l) x.0 totals rest.0 u.0) rest
    | inr here ↦
        let (same_key, same_total) = reported_lem x totals here h in
        (
          rw ((pair_eq.beq_iff (c, l) x.0).1 (sym same_key)) (ap some same_total),
          subst (λ w. d.is_zero w ≡ false) same_total here,
        )
  ]

  IsUnique-add_total :
      (e : NewEntry A) (totals : Totals A) → IsUnique totals → IsUnique (add_total e totals)
  unfolding add_total
  IsUnique-add_total e totals u =
      insert-IsUnique (e.currency, e.layer)
        (signed e.direction (total_or_zero (get (e.currency, e.layer) totals)) e.units) totals u

module _ {A Expr Ctx : Type 0} ⦃d : DecimalOps A⦄ (c : CelOps A Expr Ctx) where
  module _ (ctx : Ctx) (tx_id : TransactionId) (journal_id : JournalId) (ids : ℕ → EntryId) where
    -- A round that succeeds is the entry's preparation and the rest of the loop.
    pub prep_loop-cons :
        (index : ℕ) (totals : Totals A) (t : TxTemplateEntry Expr)
        (templates : List (TxTemplateEntry Expr)) {out : List (NewEntry A) × Totals A}
        → prep_loop c ctx tx_id journal_id ids index totals (t ∷ templates) ≡ ok out
        → (e : NewEntry A) × (rest : List (NewEntry A) × Totals A) × (prep_entry c ctx tx_id
              journal_id
              (ids index)
              index
              t
            ≡ ok e)
          × (prep_loop c ctx tx_id journal_id ids (index + 1) (add_total e totals) templates
              ≡ ok rest)
          × (out ≡ (e ∷ rest.0, rest.1))
    unfolding prep_loop
    prep_loop-cons index totals t templates h =
        let (e, prepared, q) =
          >>=-eq-ok (map_err cel (prep_entry c ctx tx_id journal_id (ids index) index t)) _ h in
        let (rest, loop, out) =
          >>=-eq-ok
            (prep_loop c ctx tx_id journal_id ids (index + 1) (add_total e totals) templates) _ q in
        (e, rest, map_err-eq-ok cel _ prepared, loop, sym (ok-injective out))

    pub prep_loop-total_of :
        (index : ℕ) (totals : Totals A) (templates : List (TxTemplateEntry Expr))
        (es : List (NewEntry A)) (totals' : Totals A) (k : Currency × Layer)
        → prep_loop c ctx tx_id journal_id ids index totals templates ≡ ok (es, totals')
        → total_of k totals' ≡ total_of k totals +ℤ net k es
    unfolding prep_loop
    prep_loop-total_of index totals [] es totals' k h =
        let done : ◌≡◌ {A = List (NewEntry A) × Totals A} ([], totals) (es, totals') =
          ok-injective h in
        subst (λ o. total_of k o.1 ≡ total_of k totals +ℤ net k o.0) done
          (sym (+ℤ_zero (total_of k totals)))
    prep_loop-total_of index totals (t ∷ templates) es totals' k h =
        let (e, rest, prepared, loop, out) = prep_loop-cons index totals t templates h in
        subst (λ o. total_of k o.1 ≡ total_of k totals +ℤ net k o.0) (sym out)
          (prep_loop-total_of (index + 1) (add_total e totals) templates rest.0 rest.1 k loop
            ∙ ap (λ n. n +ℤ net k rest.0) (total_of-add_total k e totals)
            ∙ +ℤ_assoc (total_of k totals) _ (net k rest.0))

    pub prep_loop-IsUnique :
        (index : ℕ) (totals : Totals A) (templates : List (TxTemplateEntry Expr))
        (out : List (NewEntry A) × Totals A)
        → IsUnique totals
        → prep_loop c ctx tx_id journal_id ids index totals templates ≡ ok out
        → IsUnique out.1
    unfolding prep_loop
    prep_loop-IsUnique index totals [] out u h = subst (λ o. IsUnique o.1) (ok-injective h) u
    prep_loop-IsUnique index totals (t ∷ templates) out u h =
        let (e, rest, prepared, loop, made) = prep_loop-cons index totals t templates h in
        subst (λ o. IsUnique o.1) (sym made)
          (prep_loop-IsUnique (index + 1) (add_total e totals) templates rest
            (IsUnique-add_total e totals u) loop)
