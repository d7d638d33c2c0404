-- ===== src/Posting/Cache/Covered.antt =====
-- `post_all_in_op` (cala-ledger/src/posting/mod.rs): `resolve_in_op`, then `prepare_all`.
use mathlib.Core.Path.{subst}
use cala.Prelude.{
  ℕ, ◌+◌, String, ◌≡◌, ◌≢◌, sym, Bool, true, false, Option, none, some, List, [], ◌∷◌, ◌++◌,
  option_list, Result, ok, err, Bool-cases, >>=-eq-err, map_err, reject_if, All, All-mono,
  Option-cases, inl, inr, nat_eq, string_eq,
}
use cala.Prelude.Map.{Map, get, contains_key}
use cala.Types.{DecimalOps, TransactionId, EntryId}
use cala.Cel.Eval.{CelOps}
use cala.Template.{TxTemplateError}
use cala.Template.Prepare.{prepare_transaction}
use cala.Posting.{PostingInput, ResolvedTemplate, RejectionReason, rejected, panicked, tx_template}
use cala.Posting.Prepare.{check_id, check_external, prepare_input, prepare_loop, prepare_all}
use cala.Posting.Cache.{Fetched, Templates, resolve}
use cala.Posting.Cache.Fresh.{is_in, resolve_cover}

-- A code of the list has what every code of the list has.
All-is_in :
    (P : String → Type 0) (x : String) (codes : List String)
    → is_in x codes ≡ true
    → All P codes
    → P x
All-is_in P x [] h all = cc
All-is_in P x (y ∷ codes) h all = elim (Bool-cases (string_eq.beq x y)) [
  | inl same ↦ subst P (sym ((string_eq.beq_iff x y).0 same)) all.0
  | inr other ↦ All-is_in P x codes (rw other at h) all.1
]

module _ {A : Type 0} where
  rejected_not_panic :
      (b : Bool) (i : ℕ) (id : TransactionId) (e : RejectionReason A) (reason : String)
      → reject_if b (rejected i id e) ≢ err (panicked reason)
  rejected_not_panic true i id e reason h = cc
  rejected_not_panic false i id e reason h = cc

  check_external_not_panic :
      (i : ℕ) (id : TransactionId) (external : Option String) (seen : List String) (reason : String)
      → check_external {A = A} i id external seen ≢ err (panicked reason)
  check_external_not_panic i id none seen reason h = cc
  check_external_not_panic i id (some x) seen reason h = rejected_not_panic _ _ _ _ reason h

  map_err_not_panic :
      {X : Type 0} (i : ℕ) (id : TransactionId) (m : Result X (TxTemplateError A)) (reason : String)
      → map_err (λ e. rejected i id (tx_template e)) m ≢ err (panicked reason)
  map_err_not_panic i id (ok x) reason h = cc
  map_err_not_panic i id (err e) reason h = cc

module _ {A Expr Ctx : Type 0} ⦃d : DecimalOps A⦄ (c : CelOps A Expr Ctx) where
  module _ (templates : Map String (ResolvedTemplate Expr)) (ids : ℕ → ℕ → EntryId)
      (reason : String) where
    prepare_input_not_panic :
        (index : ℕ) (input : PostingInput A)
        → contains_key input.tx_template_code templates ≡ true
        → prepare_input c templates ids index input ≢ err (panicked reason)
    unfolding prepare_input
    prepare_input_not_panic index input covered h =
        elim (Option-cases (get input.tx_template_code templates)) [
          | inl absent ↦ cc
          | inr (template, found) ↦
              map_err_not_panic index input.tx_id
                (prepare_transaction c input.tx_id template.values input.params (ids index)) reason
                (rw (prepare_input, found) at h)
        ]

    prepare_loop_not_panic :
        (index : ℕ) (seen_ids : List TransactionId) (seen_external : List String)
        (batch : List (PostingInput A))
        → All (λ input. contains_key input.tx_template_code templates ≡ true) batch
        → prepare_loop c templates ids index seen_ids seen_external batch ≢ err (panicked reason)
    unfolding prepare_loop
    prepare_loop_not_panic index seen_ids seen_external [] covered h = cc
    prepare_loop_not_panic index seen_ids seen_external (input ∷ batch) covered h =
        elim (>>=-eq-err (prepare_input c templates ids index input) _ h) [
          | inl panics ↦ prepare_input_not_panic index input covered.0 panics
          | inr (posting, made, h1) ↦
              elim (>>=-eq-err (check_id index input.tx_id posting.tx_id seen_ids) _ h1) [
                | inl panics ↦ rejected_not_panic _ _ _ _ reason panics
                | inr (u, new, h2) ↦
                    elim (>>=-eq-err
                      (check_external index input.tx_id posting.external_id seen_external) _ h2) [
                        | inl panics ↦
                            check_external_not_panic index input.tx_id posting.external_id
                              seen_external reason panics
                        | inr (v, fresh, h3) ↦
                            elim (>>=-eq-err
                              (prepare_loop c templates ids (index + 1) (posting.tx_id ∷ seen_ids)
                                (option_list posting.external_id ++ seen_external) batch)
                              _ h3) [
                                | inl panics ↦
                                    prepare_loop_not_panic (index + 1) (posting.tx_id ∷ seen_ids)
                                      (option_list posting.external_id ++ seen_external) batch
                                      covered.1 panics
                                | inr (rest, others, done) ↦ cc
                              ]
                      ]
              ]
        ]

  -- Where the codes of a batch are among those that were resolved, whatever the cache holds and the
  -- database answers, preparing the batch with the templates resolved finds the template of every
  -- input: it does not end in the panic of the `expect` on that lookup. It says nothing of a panic
  -- in a crate that the preparation calls, as of rust_decimal on a sum that overflows.
  pub prepare_all_finds_templates :
      (fetch : List String → Fetched Expr) (cache : Templates Expr) (codes : List String)
      (done : Templates Expr × Templates Expr) (ids : ℕ → ℕ → EntryId)
      (batch : List (PostingInput A)) (reason : String)
      → resolve {A = A} fetch cache codes ≡ ok done
      → All (λ input. is_in input.tx_template_code codes ≡ true) batch
      → prepare_all c done.0 ids batch ≢ err (panicked reason)
  unfolding prepare_all
  prepare_all_finds_templates fetch cache codes done ids batch reason resolves asked =
      prepare_loop_not_panic done.0 ids reason 0 [] [] batch (
        All-mono batch
          (λ input asked_for.
            All-is_in (λ code. contains_key code done.0 ≡ true) input.tx_template_code codes
              asked_for (resolve_cover fetch cache codes done resolves))
          asked)
