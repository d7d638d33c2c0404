-- ===== src/Posting/Prepare.antt =====
-- `Postings::prepare_all` (cala-ledger/src/posting/mod.rs).
pub mod Distinct
use cala.Prelude.{
  ℕ, ◌+◌, String, Bool, true, false, ◌||◌, any, Option, none, some, List, [], ◌∷◌, ◌++◌,
  option_list, if◌then◌else◌, Result, ok, err, ◌>>=◌, ◌>>◌, map_err, reject_if, Eq, ◌==◌, nat_eq,
  string_eq,
}
use cala.Prelude.Map.{Map, get}
use cala.Types.{DecimalOps, TransactionId, EntryId}
use cala.Cel.Eval.{CelOps}
use cala.Template.{PreparedTransaction}
use cala.Template.Prepare.{prepare_transaction}
use cala.Posting.{
  PostingInput, ResolvedTemplate, PostingError, rejected, panicked, tx_template,
  duplicate_transaction_id_in_batch, duplicate_external_id_in_batch,
}

-- `HashSet::contains`
abbrev pub contains : {K : Type 0} ⦃e : Eq K⦄ → K → List K → Bool
contains k [] = false
contains k (x ∷ seen) = k == x || contains k seen

module _ {A : Type 0} where
  -- `if !seen_ids.insert(..)`
  abbrev pub check_id :
      ℕ → TransactionId → TransactionId → List TransactionId → Result (Unit {0}) (PostingError A)
  check_id index input_id tx_id seen =
      reject_if (contains tx_id seen)
        (rejected index input_id (duplicate_transaction_id_in_batch tx_id))

  -- `if !seen_external.insert(..)`, where there is an external id.
  abbrev pub check_external :
      ℕ → TransactionId → Option String → List String → Result (Unit {0}) (PostingError A)
  check_external index input_id none seen = ok tt
  check_external index input_id (some x) seen =
      reject_if (contains x seen) (rejected index input_id (duplicate_external_id_in_batch x))

module _ {A Expr Ctx : Type 0} ⦃d : DecimalOps A⦄ (c : CelOps A Expr Ctx) where
  module _ (templates : Map String (ResolvedTemplate Expr)) (ids : ℕ → ℕ → EntryId) where
    -- The template of an input, evaluated. `ids n` are the entry ids drawn for the n-th input.
    unfoldable pub prepare_input :
        ℕ → PostingInput A → Result (PreparedTransaction A) (PostingError A)
    prepare_input index input = elim (get input.tx_template_code templates) [
      | none ↦ err (panicked "template resolved above")
      | some template ↦
          map_err (λ e. rejected index input.tx_id (tx_template e))
            (prepare_transaction c input.tx_id template.values input.params (ids index))
    ]

    -- The loop, from an index, on the ids seen so far.
    unfoldable pub prepare_loop :
        ℕ
        → List TransactionId
        → List String
        → List (PostingInput A)
        → Result (List (PreparedTransaction A)) (PostingError A)
    prepare_loop index seen_ids seen_external [] = ok []
    prepare_loop index seen_ids seen_external (input ∷ batch) = do
      posting ← prepare_input index input
      check_id index input.tx_id posting.tx_id seen_ids
      check_external index input.tx_id posting.external_id seen_external
      rest ←
          prepare_loop (index + 1) (posting.tx_id ∷ seen_ids)
            (option_list posting.external_id ++ seen_external) batch
      ok (posting ∷ rest)

    unfoldable pub prepare_all :
        List (PostingInput A) → Result (List (PreparedTransaction A)) (PostingError A)
    unfolding prepare_loop
    prepare_all batch = prepare_loop 0 [] [] batch
