-- ===== src/Posting/Hydrate.antt =====
-- From prepared transactions to what the batch posts: `PreparedTransaction::into_new_transaction`
-- (cala-ledger/src/tx_template/mod.rs) and the initial events of transactions and entries.
use cala.Prelude.{
  ℕ, ◌+◌, ◌≡◌, String, Option, none, some, List, [], ◌∷◌, map, ok, err, All, nat_eq, string_eq,
  Option-cases, inl, inr, map_err-eq-ok,
}
use cala.Prelude.Map.{Map, get}
use cala.Types.{DecimalOps, EntryValues, TransactionValues, DateTime, TransactionId, EntryId}
use cala.Cel.Eval.{CelOps}
use cala.Template.{NewEntry, PreparedTransaction}
use cala.Template.Prepare.{prepare_transaction}
use cala.Template.DoubleEntry.{IsNumbered}
use cala.Template.Prepared.{prepare_transaction_double_entry}
use cala.Velocity.Enforce.{Posting}
use cala.Posting.{PostingInput, ResolvedTemplate, rejected, tx_template}
use cala.Posting.Prepare.{prepare_input, prepare_all}
use cala.Posting.Prepare.Distinct.{ArePrepared, prepare_all-ArePrepared}
use cala.Posting.FoldBalances.Batch.{AreOwn}

-- The correlation id is that of the template, or the transaction's id as text.
abbrev pub correlation_or_id :
    {A Expr Ctx : Type 0} → CelOps A Expr Ctx → TransactionId → Option String → String
correlation_or_id c tx_id none = c.show_uuid tx_id
correlation_or_id c tx_id (some x) = x

module _ {A : Type 0} where
  -- `NewEntry::into_events`: the values of the entry that is hydrated from them.
  unfoldable pub entry_values : NewEntry A → EntryValues A
  entry_values e = record {
    id = e.id;
    version = 1;
    transaction_id = e.transaction_id;
    journal_id = e.journal_id;
    account_id = e.account_id;
    entry_type = e.entry_type;
    sequence = e.sequence;
    layer = e.layer;
    units = e.units;
    currency = e.currency;
    direction = e.direction;
    description = e.description;
    metadata = e.metadata;
  }

module _ {A Expr Ctx : Type 0} (c : CelOps A Expr Ctx) where
  -- `into_new_transaction`, and `NewTransaction::into_events`.
  unfoldable pub transaction_values : DateTime → PreparedTransaction A → TransactionValues
  transaction_values now p = record {
    id = p.tx_id;
    version = 1;
    created_at = now;
    modified_at = now;
    journal_id = p.journal_id;
    tx_template_id = p.tx_template_id;
    entry_ids = map (λ e. e.id) p.entries;
    effective = p.effective;
    correlation_id = correlation_or_id c p.tx_id p.correlation_id;
    external_id = p.external_id;
    description = p.description;
    metadata = p.metadata;
  }

  -- The loop that fills `hydrated` and `entry_values`.
  unfoldable pub hydrate : DateTime → List (PreparedTransaction A) → List (Posting A)
  unfolding transaction_values entry_values
  hydrate now [] = []
  hydrate now (p ∷ prepared) =
      (transaction_values now p, map entry_values p.entries) ∷ hydrate now prepared

module _ {A Expr Ctx : Type 0} ⦃d : DecimalOps A⦄ (c : CelOps A Expr Ctx) where
  module _ (templates : Map String (ResolvedTemplate Expr)) (ids : ℕ → ℕ → EntryId)
      (now : DateTime) where
    prepare_input-prepared :
        (index : ℕ) (input : PostingInput A) (p : PreparedTransaction A)
        → prepare_input c templates ids index input ≡ ok p
        → (template : ResolvedTemplate Expr) × (get input.tx_template_code templates
            ≡ some template)
          × (prepare_transaction c input.tx_id template.values input.params (ids index) ≡ ok p)
    unfolding prepare_input
    prepare_input-prepared index input p h =
        elim (Option-cases (get input.tx_template_code templates)) [
          | inl absent ↦ absurd (err≢ok (rw (prepare_input, absent) at h))
          | inr (template, found) ↦ (
            template,
            found,
            map_err-eq-ok (λ e. rejected index input.tx_id (tx_template e)) _
                (rw (prepare_input, found) at h),
          )
        ]
      where
        err≢ok : {X E : Type 0} {x : X} {e : E} → err e ≡ ok x → ⊥
        err≢ok h = cc

    numbered_own :
        (tx_id j : ℕ) (draw : ℕ → EntryId) (index : ℕ) (entries : List (NewEntry A))
        → IsNumbered tx_id j draw index entries
        → All (λ e. e.journal_id ≡ j) (map entry_values entries)
    unfolding entry_values
    numbered_own tx_id j draw index [] h = tt
    numbered_own tx_id j draw index (e ∷ entries) (_, _, _, own, rest) =
        (own, numbered_own tx_id j draw (index + 1) entries rest)

    hydrate_own :
        (index : ℕ) (batch : List (PostingInput A)) (prepared : List (PreparedTransaction A))
        → ArePrepared c templates ids index batch prepared
        → AreOwn (hydrate c now prepared)
    unfolding hydrate transaction_values
    hydrate_own index [] [] h = tt
    hydrate_own index [] (p ∷ prepared) h = absurd h
    hydrate_own index (input ∷ batch) [] h = absurd h
    hydrate_own index (input ∷ batch) (p ∷ prepared) (made, rest) =
        let (template, _, evaluated) = prepare_input-prepared index input p made in
        let (_, _, numbered, _) =
          prepare_transaction_double_entry c input.tx_id template.values input.params (ids index) p
            evaluated in
        (
          numbered_own input.tx_id p.journal_id (ids index) 0 p.entries numbered,
          hydrate_own (index + 1) batch prepared rest,
        )

    -- In a batch that was prepared, every entry that is posted is of its transaction's journal.
    pub prepare_all-AreOwn :
        (batch : List (PostingInput A)) (prepared : List (PreparedTransaction A))
        → prepare_all c templates ids batch ≡ ok prepared
        → AreOwn (hydrate c now prepared)
    prepare_all-AreOwn batch prepared h =
        hydrate_own 0 batch prepared (prepare_all-ArePrepared c templates ids batch prepared h).0
