-- ===== src/Posting/Cache.antt =====
-- `TemplateCache` (cala-ledger/src/posting/template_cache.rs): the templates of a batch, from the
-- cache or the database, and the test of their versions under the locks.
pub mod Fresh
pub mod Covered
use cala.Prelude.{
  ℕ, String, Bool, true, false, not, ◌&&◌, nat_beq, Option, none, some, List, [], ◌∷◌, is_empty,
  if◌then◌else◌, Result, ok, err, ◌>>=◌, string_eq,
}
use cala.Prelude.Map.{Map, get, insert, remove}
use cala.Types.{TxTemplateId}
use cala.Template.{TxTemplateError, not_found, serde_json}
use cala.Posting.{ResolvedTemplate}

-- The templates that the database holds for some codes; `none` where the event does not decode.
abbrev pub Fetched : Type 0 → Type 0
Fetched Expr = Map String (Option (ResolvedTemplate Expr))

abbrev pub Templates : Type 0 → Type 0
Templates Expr = Map String (ResolvedTemplate Expr)

-- `HashMap::extend`, and the loop of `install`.
unfoldable pub extend : {V : Type 0} → Map String V → Map String V → Map String V
extend m [] = m
extend m ((k, v) ∷ more) = extend (insert k v m) more

module _ {Expr : Type 0} where
  -- The loop of `resolve_in_op`: what the cache holds, and the codes that it does not.
  unfoldable pub split_codes : Templates Expr → List String → Templates Expr × List String
  split_codes cache [] = ([], [])
  split_codes cache (code ∷ codes) =
      let rest = split_codes cache codes in
      elim (get code cache) [
        | some resolved ↦ (insert code resolved rest.0, rest.1)
        | none ↦ (rest.0, code ∷ rest.1)
      ]

  -- Is the version used the one observed?
  abbrev pub is_current : Option (TxTemplateId × ℕ) → ResolvedTemplate Expr → Bool
  is_current none resolved = false
  is_current (some (id, version)) resolved =
      nat_beq id resolved.id && nat_beq version resolved.version

  -- The `filter` and the `map` of `assert_up_to_date`.
  unfoldable pub stale_codes : Templates Expr → Map String (TxTemplateId × ℕ) → List String
  stale_codes [] observed = []
  stale_codes ((code, resolved) ∷ used) observed =
      let rest = stale_codes used observed in
      if is_current (get code observed) resolved then rest else code ∷ rest

  unfoldable pub assert_up_to_date :
      Templates Expr → Map String (TxTemplateId × ℕ) → Result (Unit {0}) (List String)
  unfolding stale_codes
  assert_up_to_date used observed =
      let stale = stale_codes used observed in if is_empty stale then ok tt else err stale

module _ {A Expr : Type 0} where
  -- The loop of `fetch_and_install`.
  unfoldable pub resolve_fetched :
      Fetched Expr → List String → Result (Templates Expr) (TxTemplateError A)
  resolve_fetched fetched [] = ok []
  resolve_fetched fetched (code ∷ codes) = elim (get code fetched) [
    | none ↦ err not_found
    | some none ↦ err serde_json
    | some (some resolved) ↦
        resolve_fetched (remove code fetched) codes >>= λ rest. ok (insert code resolved rest)
  ]

  module _ (fetch : List String → Fetched Expr) where
    -- `fetch_and_install`: the templates, and the cache after it.
    unfoldable pub fetch_and_install :
        Templates Expr → List String → Result (Templates Expr × Templates Expr) (TxTemplateError A)
    unfolding resolve_fetched extend
    fetch_and_install cache codes =
        resolve_fetched (fetch codes) codes >>= λ resolved. ok (resolved, extend cache resolved)

    -- `resolve_in_op`: the templates used, and the cache after it.
    unfoldable pub resolve :
        Templates Expr → List String → Result (Templates Expr × Templates Expr) (TxTemplateError A)
    unfolding split_codes extend
    resolve cache codes =
        let (used, missing) = split_codes cache codes in
        if is_empty missing
        then ok (used, cache)
        else (fetch_and_install cache missing >>= λ done. ok (extend used done.0, done.1))
