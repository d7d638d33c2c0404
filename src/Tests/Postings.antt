-- ===== src/Tests/Postings.antt =====
-- The theorems on the posting flow at a batch of one transfer.
use cala.Prelude.{
  ℕ, ◌≡◌, ◌↔◌, refl, false, none, List, [], ◌∷◌, ok, string_eq, nat_eq, pair_eq, All, length,
  String,
}
use cala.Prelude.Int.{ℤ, pos, ◌+ℤ◌, ◌-ℤ◌}
use cala.Prelude.Map.{Map}
use cala.Types.{active, ℤ_decimal, Currency, Layer}
use cala.Template.{PreparedTransaction}
use cala.Template.Balanced.{net}
use cala.Param.{into_context}
use cala.Cel.Coerce.{
  try_uuid, try_string, try_layer, try_decimal, try_currency, parse_currency, try_direction,
  try_date,
}
use cala.Template.Prepare.{
  prepare_transaction, complete_transaction, prep_entries, prep_loop, prep_entry, add_total,
  check_totals,
}
use cala.Template.DoubleEntry.{IsNumbered}
use cala.Template.Prepared.{prepare_transaction_double_entry}
use cala.Balance.Fold.{inline_targets}
use cala.Balance.Fold.Spec.{postings}
use cala.Velocity.Enforce.{Posting}
use cala.Posting.{
  PostingInput, PostingState, ResolvedTemplate, JournalValues, AccountMeta, rejected,
  account_not_found,
}
use cala.Posting.Prepare.{prepare_all, prepare_loop, prepare_input}
use cala.Posting.Prepare.Distinct.{
  ArePrepared, AreDistinct, tx_ids, external_ids, prepare_all-ArePrepared,
}
use cala.Posting.Validate.{validate, check_journal, check_entries, check_entry}
use cala.Posting.Validate.Accepted.{IsAcceptable, validate-ok_iff}
use cala.Posting.Validate.Rejected.{IsBlamed, validate-IsBlamed}
use cala.Posting.FoldBalances.{fold_balances, journal_entries}
use cala.Posting.FoldBalances.Journal.{running}
use cala.Posting.FoldBalances.Batch.{of_balance, AreOwn, fold_balances-eq-running}
use cala.Posting.Hydrate.{hydrate, prepare_all-AreOwn}
use cala.Tests.Data.{usd, stored, Expr, cel_ops, settled_debit, settled_credit}
use cala.Tests.Templates.{transfer, thirty, prepared, ids}
use cala.Tests.Limits.{tx}

abbrev input : PostingInput ℤ
input = record { tx_id = 5; tx_template_code = "TRANSFER"; params = [] }

abbrev templates : Map String (ResolvedTemplate Expr)
templates = ("TRANSFER", record { id = 1; version = 1; values = transfer thirty }) ∷ []

abbrev pub evaluated : PreparedTransaction ℤ
evaluated = record {
  tx_id = 5;
  journal_id = 7;
  tx_template_id = 1;
  effective = 3;
  correlation_id = none;
  external_id = none;
  description = none;
  metadata = none;
  entries = prepared;
}

evaluates : prepare_transaction cel_ops 5 (transfer thirty) [] ids ≡ ok evaluated
unfolding prepare_transaction complete_transaction prep_entries prep_loop prep_entry add_total
    check_totals into_context try_uuid try_string try_layer try_decimal try_currency parse_currency
    try_direction try_date ◌+ℤ◌ ◌-ℤ◌
evaluates = refl

prepares : prepare_all cel_ops templates (λ n. ids) (input ∷ []) ≡ ok (evaluated ∷ [])
unfolding prepare_all prepare_loop prepare_input prepare_transaction complete_transaction
    prep_entries prep_loop prep_entry add_total check_totals into_context try_uuid try_string
    try_layer try_decimal try_currency parse_currency try_direction try_date ◌+ℤ◌ ◌-ℤ◌
prepares = refl

prepare_transaction_double_entry_example :
    (evaluated.tx_id ≡ 5)
    × ((k : Currency × Layer) → net k prepared ≡ pos 0)
    × IsNumbered 5 7 ids 0 prepared
    × (length prepared ≡ 2)
prepare_transaction_double_entry_example =
    prepare_transaction_double_entry cel_ops 5 (transfer thirty) [] ids evaluated evaluates

prepare_all-ArePrepared_example :
    ArePrepared cel_ops templates (λ n. ids) 0 (input ∷ []) (evaluated ∷ [])
    × AreDistinct (tx_ids (evaluated ∷ []))
    × AreDistinct (external_ids (evaluated ∷ []))
prepare_all-ArePrepared_example =
    prepare_all-ArePrepared cel_ops templates (λ n. ids) (input ∷ []) (evaluated ∷ []) prepares

prepare_all-AreOwn_example : AreOwn (hydrate cel_ops 9 (evaluated ∷ []))
prepare_all-AreOwn_example =
    prepare_all-AreOwn cel_ops templates (λ n. ids) 9 (input ∷ []) (evaluated ∷ []) prepares

abbrev journal : JournalValues
journal = record {
  id = 7;
  version = 1;
  name = "journal";
  code = none;
  status = active;
  description = none;
  config = record { enable_effective_balances = false };
}

abbrev leaf : AccountMeta
leaf = record { locked = false; eventually_consistent = false; is_account_set = false }

abbrev read : Map ℕ AccountMeta → PostingState ℤ Expr
read accounts = record {
  epoch = 1;
  seeds = [];
  journals = (7, journal) ∷ [];
  accounts = accounts;
  balances = ((7, (10, usd)), stored 10) ∷ [];
  controls = [];
}

abbrev both : PostingState ℤ Expr
both = read ((10, leaf) ∷ (11, leaf) ∷ [])

validate-ok_iff_example :
    (validate both (input ∷ []) (evaluated ∷ []) ≡ ok tt) ↔ All (IsAcceptable both) (evaluated ∷ [])
validate-ok_iff_example = validate-ok_iff both (input ∷ []) (evaluated ∷ []) refl

abbrev one : PostingState ℤ Expr
one = read ((10, leaf) ∷ [])

validate-IsBlamed_example :
    IsBlamed one 0 (input ∷ []) (evaluated ∷ []) (rejected 0 5 (account_not_found 11))
unfolding validate check_journal check_entries check_entry
validate-IsBlamed_example =
    validate-IsBlamed one (input ∷ []) (evaluated ∷ []) {x = rejected 0 5 (account_not_found 11)}
      refl refl

abbrev posted : List (Posting ℤ)
posted = (tx, settled_debit ∷ settled_credit ∷ []) ∷ []

fold_balances-eq-running_example :
    of_balance 7 (10, usd) (fold_balances both 9 posted [])
    ≡ running both 7 9 (10, usd) (postings (inline_targets []) (journal_entries 7 posted))
fold_balances-eq-running_example =
    fold_balances-eq-running both 9 posted [] 7 (10, usd) (refl, tt) ((refl, (refl, tt)), tt)
