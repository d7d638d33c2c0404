-- ===== src/Tests/Codes.antt =====
-- The theorems on the template cache at two codes, of which the cache holds one.
use cala.Prelude.{
  err, ◌≢◌, ℕ, String, ◌≡◌, ◌↔◌, refl, true, some, List, [], ◌∷◌, ok, string_eq, nat_eq, All,
}
use cala.Prelude.Int.{ℤ}
use cala.Prelude.Map.{Map, get, contains_key}
use cala.Types.{TxTemplateId, ℤ_decimal}
use cala.Posting.{PostingInput, ResolvedTemplate, panicked}
use cala.Posting.Prepare.{prepare_all}
use cala.Posting.Cache.Covered.{prepare_all_finds_templates}
use cala.Posting.Cache.{
  Fetched, Templates, extend, split_codes, assert_up_to_date, resolve_fetched, fetch_and_install,
  resolve,
}
use cala.Posting.Cache.Fresh.{assert_up_to_date-ok_iff, resolve_cover}
use cala.Tests.Data.{Expr, cel_ops}
use cala.Tests.Templates.{transfer, thirty, ids}

abbrev transfer_held : ResolvedTemplate Expr
transfer_held = record { id = 1; version = 3; values = transfer thirty }

abbrev fee_stored : ResolvedTemplate Expr
fee_stored = record { id = 2; version = 1; values = transfer thirty }

abbrev cache : Templates Expr
cache = ("TRANSFER", transfer_held) ∷ []

abbrev fetch : List String → Fetched Expr
fetch codes = ("FEE", some fee_stored) ∷ []

abbrev resolved : Templates Expr
resolved = ("FEE", fee_stored) ∷ ("TRANSFER", transfer_held) ∷ []

abbrev codes : List String
codes = "TRANSFER" ∷ "FEE" ∷ []

resolves : resolve {A = ℤ} fetch cache codes ≡ ok (resolved, resolved)
unfolding resolve fetch_and_install resolve_fetched split_codes extend
resolves = refl

resolve_cover_example : All (λ code. contains_key code resolved ≡ true) codes
resolve_cover_example = resolve_cover {A = ℤ} fetch cache codes (resolved, resolved) resolves

abbrev observed : Map String (TxTemplateId × ℕ)
observed = ("TRANSFER", (1, 3)) ∷ ("FEE", (2, 1)) ∷ []

assert_up_to_date-ok_iff_example :
    (assert_up_to_date resolved observed ≡ ok tt)
    ↔ All (λ x. get x.0 observed ≡ some (x.1.id, x.1.version)) resolved
assert_up_to_date-ok_iff_example = assert_up_to_date-ok_iff resolved observed

abbrev asked : List (PostingInput ℤ)
asked = record { tx_id = 5; tx_template_code = "FEE"; params = [] } ∷ []

prepare_all_finds_templates_example :
    prepare_all cel_ops resolved (λ n. ids) asked ≢ err (panicked "template resolved above")
prepare_all_finds_templates_example =
    prepare_all_finds_templates cel_ops fetch cache codes (resolved, resolved) (λ n. ids) asked
      "template resolved above" resolves (refl, tt)
