-- ===== src/Posting/Cache/Fresh.antt =====
-- What is resolved covers the batch, and what passes the test is current.
use mathlib.Core.Path.{subst}
use cala.Prelude.{
  ℕ, String, ◌≡◌, ◌≢◌, refl, sym, ap, ◌∙◌, ◌↔◌, Bool, true, false, ◌||◌, any, Option, none, some,
  List, [], ◌∷◌, is_empty, if◌then◌else◌, ok, err, >>=-eq-ok, ok-injective, All, All-mono,
  Bool-cases, Option-cases, inl, inr, beq_refl, string_eq, nat_eq, arith,
}
use cala.Prelude.Map.{Map, get, insert, remove, contains_key, get-insert}
use cala.Types.{TxTemplateId}
use cala.Posting.{ResolvedTemplate}
use cala.Posting.Cache.{
  Fetched, Templates, extend, split_codes, is_current, stale_codes, assert_up_to_date,
  resolve_fetched, fetch_and_install, resolve,
}

abbrev pub is_in : String → List String → Bool
is_in code = any (string_eq.beq code)

contains_key-insert :
    {V : Type 0} (k j : String) (v : V) (m : Map String V)
    → contains_key j (insert k v m) ≡ (string_eq.beq k j || contains_key j m)
contains_key-insert k j v m = ground (arith, get-insert k j v m)

contains_key-extend :
    {V : Type 0} (k : String) (m more : Map String V)
    → contains_key k (extend m more) ≡ (contains_key k m || contains_key k more)
unfolding extend
contains_key-extend k m [] = ground arith
contains_key-extend k m ((j, v) ∷ more) = ground (
  arith,
  contains_key-extend k (insert j v m) more,
  contains_key-insert j k v m,
  string_eq.beq_iff j k,
  string_eq.beq_iff k j,
)

err≢ok : {X E : Type 0} {x : X} {e : E} → err e ≢ ok x
err≢ok h = cc

found_already :
    (a : Bool) (x : String) (missing : List String)
    → is_empty missing ≡ true
    → (a || is_in x missing) ≡ true
    → a ≡ true
found_already a x [] h p = ground arith
found_already a x (y ∷ missing) h p = cc

either_found :
    (a : Bool) (x : String) (missing : List String) (test : String → Bool)
    → (a || is_in x missing) ≡ true
    → All (λ y. test y ≡ true) missing
    → (a || test x) ≡ true
either_found a x [] test p all = ground arith
either_found a x (y ∷ missing) test p all = elim (Bool-cases (string_eq.beq x y)) [
  | inl same ↦ rw ((string_eq.beq_iff x y).0 same, all.0) (ground arith)
  | inr other ↦ either_found a x missing test (rw other at p) all.1
]

passes_iff : {E : Type 0} (b : Bool) (e : E) → ((if b then ok tt else err e) ≡ ok tt) ↔ (b ≡ true)
passes_iff true e = (λ h. refl, λ h. refl)
passes_iff false e = (λ h. cc, λ h. cc)

either_iff :
    {P Q : Type 0} (b : Bool) (code : String) (rest : List String)
    → ((b ≡ true) ↔ P)
    → ((is_empty rest ≡ true) ↔ Q)
    → (is_empty (if b then rest else code ∷ rest) ≡ true) ↔ (P × Q)
either_iff true code rest i j = (λ h. (i.0 refl, j.0 h), λ h. j.1 h.1)
either_iff false code rest i j = (λ h. cc, λ h. absurd (cc (i.1 h.0)))

covered_later : (a b c : Bool) → (a || c) ≡ true → (a || (b || c)) ≡ true
covered_later a b c h = ground arith

module _ {Expr : Type 0} where
  -- Every code is found or missing.
  abbrev AreCovered : List String → Templates Expr × List String → Type 0
  AreCovered codes s = All (λ code. (contains_key code s.0 || is_in code s.1) ≡ true) codes

  split_absent :
      (cache : Templates Expr) (code : String) (codes : List String)
      → get code cache ≡ none
      → split_codes cache (code ∷ codes)
        ≡ ((split_codes cache codes).0, code ∷ (split_codes cache codes).1)
  unfolding split_codes
  split_absent cache code codes h = rw (split_codes, h) refl

  split_found :
      (cache : Templates Expr) (code : String) (codes : List String)
      {resolved : ResolvedTemplate Expr}
      → get code cache ≡ some resolved
      → split_codes cache (code ∷ codes)
        ≡ (insert code resolved (split_codes cache codes).0, (split_codes cache codes).1)
  unfolding split_codes
  split_found cache code codes h = rw (split_codes, h) refl

  split_codes_cover :
      (cache : Templates Expr) (codes : List String) → AreCovered codes (split_codes cache codes)
  split_codes_cover cache [] = tt
  split_codes_cover cache (code ∷ codes) =
      let s = split_codes cache codes in
      elim (Option-cases (get code cache)) [
        | inl absent ↦
            subst (AreCovered (code ∷ codes)) (sym (split_absent cache code codes absent)) (
              ground (arith, beq_refl code),
              All-mono codes
                  (λ x p. covered_later (contains_key x s.0) (string_eq.beq x code) (is_in x s.1) p)
                  (split_codes_cover cache codes),
            )
        | inr (resolved, found) ↦
            subst (AreCovered (code ∷ codes)) (sym (split_found cache code codes found)) (
              ground (arith, contains_key-insert code code resolved s.0, beq_refl code),
              All-mono codes (λ x p. ground (arith, p, contains_key-insert code x resolved s.0))
                  (split_codes_cover cache codes),
            )
      ]

  is_current_iff :
      (o : Option (TxTemplateId × ℕ)) (resolved : ResolvedTemplate Expr)
      → (is_current o resolved ≡ true) ↔ (o ≡ some (resolved.id, resolved.version))
  is_current_iff o resolved = ground arith

  stale_codes-empty_iff :
      (used : Templates Expr) (observed : Map String (TxTemplateId × ℕ))
      → (is_empty (stale_codes used observed) ≡ true)
        ↔ All (λ x. get x.0 observed ≡ some (x.1.id, x.1.version)) used
  unfolding stale_codes
  stale_codes-empty_iff [] observed = (λ h. tt, λ h. refl)
  stale_codes-empty_iff ((code, resolved) ∷ used) observed =
      either_iff (is_current (get code observed) resolved) code (stale_codes used observed)
        (is_current_iff (get code observed) resolved) (stale_codes-empty_iff used observed)

  -- The templates used pass the test exactly where every one of them was observed under the id and
  -- the version that it has.
  pub assert_up_to_date-ok_iff :
      (used : Templates Expr) (observed : Map String (TxTemplateId × ℕ))
      → (assert_up_to_date used observed ≡ ok tt)
        ↔ All (λ x. get x.0 observed ≡ some (x.1.id, x.1.version)) used
  unfolding assert_up_to_date
  assert_up_to_date-ok_iff used observed =
      let i = passes_iff (is_empty (stale_codes used observed)) (stale_codes used observed) in
      let j = stale_codes-empty_iff used observed in (λ h. j.0 (i.0 h), λ h. i.1 (j.1 h))

module _ {A Expr : Type 0} where
  resolve_fetched_cover :
      (fetched : Fetched Expr) (codes : List String) (out : Templates Expr)
      → resolve_fetched {A = A} fetched codes ≡ ok out
      → All (λ code. contains_key code out ≡ true) codes
  unfolding resolve_fetched
  resolve_fetched_cover fetched [] out h = tt
  resolve_fetched_cover fetched (code ∷ codes) out h = elim (Option-cases (get code fetched)) [
    | inl absent ↦ absurd (err≢ok (rw (resolve_fetched, absent) at h))
    | inr (none, broken) ↦ absurd (err≢ok (rw (resolve_fetched, broken) at h))
    | inr (some resolved, found) ↦
        let (rest, others, made) =
          >>=-eq-ok (resolve_fetched {A = A} (remove code fetched) codes) _
            (rw (resolve_fetched, found) at h) in
        subst (λ o. All (λ x. contains_key x o ≡ true) (code ∷ codes)) (ok-injective made)
          (
            ground (arith, contains_key-insert code code resolved rest, beq_refl code),
            All-mono codes (λ x p. ground (arith, p, contains_key-insert code x resolved rest))
                (resolve_fetched_cover (remove code fetched) codes rest others),
          )
  ]

  -- Where the templates of some codes are resolved, whatever the cache holds and the database
  -- answers, there is one for every code asked for.
  pub resolve_cover :
      (fetch : List String → Fetched Expr) (cache : Templates Expr) (codes : List String)
      (done : Templates Expr × Templates Expr)
      → resolve {A = A} fetch cache codes ≡ ok done
      → All (λ code. contains_key code done.0 ≡ true) codes
  unfolding resolve fetch_and_install
  resolve_cover fetch cache codes done h =
      let s = split_codes cache codes in
      elim (Bool-cases (is_empty s.1)) [
        | inl nothing ↦
            subst (λ o. All (λ x. contains_key x o.0 ≡ true) codes) (ok-injective (rw nothing at h))
              (All-mono codes (λ x p. found_already (contains_key x s.0) x s.1 nothing p)
                (split_codes_cover cache codes))
        | inr missing ↦
            let (made, fetched, q) =
              >>=-eq-ok (fetch_and_install {A = A} fetch cache s.1) _ (rw missing at h) in
            let (resolved, complete, r) =
              >>=-eq-ok (resolve_fetched {A = A} (fetch s.1) s.1) _ fetched in
            let all = resolve_fetched_cover (fetch s.1) s.1 resolved complete in
            let same : extend s.0 resolved ≡ done.0 =
              ap (λ o. extend s.0 o.0) (ok-injective r) ∙ ap (λ o. o.0) (ok-injective q) in
            subst (λ m. All (λ x. contains_key x m ≡ true) codes) same
              (All-mono codes
                (λ x p.
                  contains_key-extend x s.0 resolved
                  ∙ either_found (contains_key x s.0) x s.1 (λ code. contains_key code resolved) p
                      all)
                (split_codes_cover cache codes))
      ]
