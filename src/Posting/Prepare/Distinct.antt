-- ===== src/Posting/Prepare/Distinct.antt =====
-- What a prepared batch is.
use mathlib.Core.Path.{subst}
use cala.Prelude.{
  ℕ, ◌+◌, String, ◌≡◌, refl, Bool, true, false, ◌||◌, Option, none, some, List, [], ◌∷◌, ◌++◌, map,
  option_list, Result, ok, >>=-eq-ok, ok-injective, reject_if, All, All-mono, Eq, ◌==◌, nat_eq,
  string_eq,
}
use cala.Prelude.Map.{Map}
use cala.Types.{DecimalOps, TransactionId, EntryId}
use cala.Cel.Eval.{CelOps}
use cala.Template.{PreparedTransaction}
use cala.Posting.{PostingInput, ResolvedTemplate, PostingError}
use cala.Posting.Prepare.{
  contains, check_id, check_external, prepare_input, prepare_loop, prepare_all,
}

-- No key twice.
abbrev pub AreDistinct : {K : Type 0} ⦃e : Eq K⦄ → List K → Type 0
AreDistinct [] = Unit
AreDistinct (x ∷ xs) = All (λ y. y == x ≡ false) xs × AreDistinct xs

-- None of the keys was seen.
abbrev pub AreFresh : {K : Type 0} ⦃e : Eq K⦄ → List K → List K → Type 0
AreFresh seen = All (λ y. contains y seen ≡ false)

module _ {A : Type 0} where
  abbrev pub tx_ids : List (PreparedTransaction A) → List TransactionId
  tx_ids = map (λ p. p.tx_id)

  abbrev pub external_ids : List (PreparedTransaction A) → List String
  external_ids [] = []
  external_ids (p ∷ prepared) = option_list p.external_id ++ external_ids prepared

or_parts : (a b : Bool) → (a || b) ≡ false → (a ≡ false) × (b ≡ false)
or_parts false false h = (refl, refl)
or_parts false true h = cc
or_parts true b h = cc

module _ {K : Type 0} ⦃e : Eq K⦄ where
  -- What is fresh after a key was seen differs from the key, and was fresh before.
  fresh_after :
      (x : K) (seen ys : List K)
      → AreFresh (x ∷ seen) ys
      → All (λ y. y == x ≡ false) ys × AreFresh seen ys
  fresh_after x seen ys h = (
    All-mono ys (λ y p. (or_parts (e.beq y x) (contains y seen) p).0) h,
    All-mono ys (λ y p. (or_parts (e.beq y x) (contains y seen) p).1) h,
  )

  pub distinct_cons :
      (x : K) (seen ys : List K)
      → contains x seen ≡ false
      → AreFresh (x ∷ seen) ys × AreDistinct ys
      → AreFresh seen (x ∷ ys) × AreDistinct (x ∷ ys)
  distinct_cons x seen ys new (fresh, distinct) =
      let (others, before) = fresh_after x seen ys fresh in ((new, before), (others, distinct))

reject_if-ok : {E : Type 0} (b : Bool) (e : E) {u : Unit {0}} → reject_if b e ≡ ok u → b ≡ false
reject_if-ok true e h = cc
reject_if-ok false e h = refl

distinct_external :
    {A : Type 0} (index : ℕ) (id : TransactionId) (o : Option String) (seen ys : List String)
    {u : Unit {0}}
    → ◌≡◌ {A = Result (Unit {0}) (PostingError A)} (check_external index id o seen) (ok u)
    → AreFresh (option_list o ++ seen) ys × AreDistinct ys
    → AreFresh seen (option_list o ++ ys) × AreDistinct (option_list o ++ ys)
distinct_external index id none seen ys h fresh = fresh
distinct_external index id (some x) seen ys h fresh =
    distinct_cons x seen ys (reject_if-ok (contains x seen) _ h) fresh

module _ {A Expr Ctx : Type 0} ⦃d : DecimalOps A⦄ (c : CelOps A Expr Ctx) where
  module _ (templates : Map String (ResolvedTemplate Expr)) (ids : ℕ → ℕ → EntryId) where
    -- One prepared transaction for each input from the index on, of its template.
    abbrev pub ArePrepared : ℕ → List (PostingInput A) → List (PreparedTransaction A) → Type 0
    ArePrepared index [] [] = Unit
    ArePrepared index (input ∷ batch) (p ∷ prepared) =
        (prepare_input c templates ids index input ≡ ok p) × ArePrepared (index + 1) batch prepared
    ArePrepared index _ _ = ⊥

    prepare_loop-lem :
        (index : ℕ) (seen_ids : List TransactionId) (seen_external : List String)
        (batch : List (PostingInput A)) (out : List (PreparedTransaction A))
        → prepare_loop c templates ids index seen_ids seen_external batch ≡ ok out
        → ArePrepared index batch out
          × (AreFresh seen_ids (tx_ids out) × AreDistinct (tx_ids out))
          × (AreFresh seen_external (external_ids out) × AreDistinct (external_ids out))
    unfolding prepare_loop
    prepare_loop-lem index seen_ids seen_external [] out h =
        subst
          (λ o.
            ArePrepared index [] o
            × (AreFresh seen_ids (tx_ids o) × AreDistinct (tx_ids o))
            × (AreFresh seen_external (external_ids o) × AreDistinct (external_ids o)))
          (ok-injective h) (tt, (tt, tt), (tt, tt))
    prepare_loop-lem index seen_ids seen_external (input ∷ batch) out h =
        let (p, prepared, q) = >>=-eq-ok (prepare_input c templates ids index input) _ h in
        let (_, new, r) = >>=-eq-ok (check_id index input.tx_id p.tx_id seen_ids) _ q in
        let (_, new_external, s) =
          >>=-eq-ok (check_external index input.tx_id p.external_id seen_external) _ r in
        let (rest, others, last) =
          >>=-eq-ok (prepare_loop c templates ids (index + 1) _ _ batch) _ s in
        let (all, distinct, external) = prepare_loop-lem (index + 1) _ _ batch rest others in
        subst
          (λ o.
            ArePrepared index (input ∷ batch) o
            × (AreFresh seen_ids (tx_ids o) × AreDistinct (tx_ids o))
            × (AreFresh seen_external (external_ids o) × AreDistinct (external_ids o)))
          (ok-injective last)
          (
            (prepared, all),
            distinct_cons p.tx_id seen_ids (tx_ids rest)
                (reject_if-ok (contains p.tx_id seen_ids) _ new) distinct,
            distinct_external index input.tx_id p.external_id seen_external (external_ids rest)
                new_external external,
          )

    -- A batch that is prepared has one prepared transaction for each input, in order, evaluated from
    -- the input's template, and no transaction id and no external id occurs in it twice.
    pub prepare_all-ArePrepared :
        (batch : List (PostingInput A)) (out : List (PreparedTransaction A))
        → prepare_all c templates ids batch ≡ ok out
        → ArePrepared 0 batch out × AreDistinct (tx_ids out) × AreDistinct (external_ids out)
    unfolding prepare_all
    prepare_all-ArePrepared batch out h =
        let (all, distinct, external) = prepare_loop-lem 0 [] [] batch out h in
        (all, distinct.1, external.1)
