-- ===== src/Balance/Fold/Step.antt =====
-- One call of `apply`: it moves one entry of its key from what is to come to what is written.
use mathlib.Core.Path.{subst}
use mathlib.Core.List.{append-nil, append_assoc}
use cala.Prelude.{
  ◌≡◌, refl, sym, ap, ◌∙◌, Option, none, some, List, [], ◌∷◌, ◌++◌, true, false, if◌then◌else◌,
  pair_eq, nat_eq, filter-append, Bool-cases, Option-cases, inl, inr, beq_refl,
}
use cala.Prelude.Map.{get, remove, get-remove_ne, All-get}
use cala.Types.{DecimalOps, BalanceSnapshot, EntryValues, DateTime, AccountId}
use cala.Balance.Fold.{BalanceKey, SnapshotFold, apply}
use cala.Balance.Fold.Spec.{key_of, of_key, chain}
use cala.Balance.Fold.Keys.{IsWellKeyed, apply_touched, apply_first, apply_skipped}

module _ {A : Type 0} ⦃d : DecimalOps A⦄ where
  -- What is still to be written for a key, given its latest and its loaded balance.
  abbrev pub remaining :
      DateTime
      → AccountId
      → Option (BalanceSnapshot A)
      → Option (Option (BalanceSnapshot A))
      → List (EntryValues A)
      → List (BalanceSnapshot A)
  remaining time a (some s) loaded entries = s ∷ chain time a (some s) entries
  remaining time a none none entries = []
  remaining time a none (some base) entries = chain time a base entries

  abbrev pub remaining_for :
      BalanceKey → SnapshotFold A → List (EntryValues A) → List (BalanceSnapshot A)
  remaining_for k f entries = remaining f.time k.0 (get k f.latest) (get k f.current) entries

  abbrev pub written_for :
      BalanceKey → SnapshotFold A → List (EntryValues A) → List (BalanceSnapshot A)
  written_for k f entries = of_key k f.completed ++ remaining_for k f entries

  of_key-last_same :
      (k : BalanceKey) (xs : List (BalanceSnapshot A)) (s : BalanceSnapshot A)
      → pair_eq.beq k (key_of s) ≡ true
      → of_key k (xs ++ s ∷ []) ≡ of_key k xs ++ s ∷ []
  of_key-last_same k xs s h = filter-append (λ t. pair_eq.beq k (key_of t)) xs (s ∷ []) ∙ rw h refl

  of_key-last_other :
      (k : BalanceKey) (xs : List (BalanceSnapshot A)) (s : BalanceSnapshot A)
      → pair_eq.beq k (key_of s) ≡ false
      → of_key k (xs ++ s ∷ []) ≡ of_key k xs
  of_key-last_other k xs s h =
      filter-append (λ t. pair_eq.beq k (key_of t)) xs (s ∷ []) ∙ rw h (append-nil (of_key k xs))

  module _ (f : SnapshotFold A) (a : AccountId) (e : EntryValues A) (rest : List (EntryValues A))
      (h : IsWellKeyed f) where
    key_of_latest :
        (prev : BalanceSnapshot A)
        → get (a, e.currency) f.latest ≡ some prev
        → key_of prev ≡ (a, e.currency)
    key_of_latest prev = All-get (λ x. key_of x.1 ≡ x.0) (a, e.currency) f.latest h.written

    -- A call of `apply` moves one entry of its key from what is to come to what is written.
    apply-written_for_same :
        written_for (a, e.currency) (apply f a e) rest ≡ written_for (a, e.currency) f (e ∷ rest)
    apply-written_for_same =
        let key : BalanceKey = (a, e.currency) in
        elim (Option-cases (get key f.latest)) [
          | inl fresh ↦ elim (Option-cases (get key f.current)) [
            | inl unknown ↦ rw (apply_skipped f a e fresh unknown, fresh, unknown) refl
            | inr (base, known) ↦
                rw (apply_first f a e base fresh known, beq_refl key, fresh, known) refl
          ]
          | inr (prev, touched) ↦
              let mine : pair_eq.beq key (key_of prev) ≡ true =
                (pair_eq.beq_iff key (key_of prev)).1 (sym (key_of_latest prev touched)) in
              rw (apply_touched f a e prev touched, beq_refl key, touched)
                (ap (λ l. l ++ chain f.time a (some prev) (e ∷ rest))
                    (of_key-last_same key f.completed prev mine)
                  ∙ append_assoc (of_key key f.completed) (prev ∷ [])
                      (chain f.time a (some prev) (e ∷ rest)))
        ]

    apply-written_for_other :
        (k : BalanceKey)
        → pair_eq.beq k (a, e.currency) ≡ false
        → written_for k (apply f a e) rest ≡ written_for k f rest
    apply-written_for_other k other =
        let key : BalanceKey = (a, e.currency) in
        elim (Option-cases (get key f.latest)) [
          | inl fresh ↦ elim (Option-cases (get key f.current)) [
            | inl unknown ↦ rw (apply_skipped f a e fresh unknown)
            | inr (base, known) ↦
                rw
                  (
                    apply_first f a e base fresh known,
                    other,
                    get-remove_ne key k f.latest other,
                    get-remove_ne key k f.current other,
                  )
                  refl
          ]
          | inr (prev, touched) ↦
              let theirs : pair_eq.beq k (key_of prev) ≡ false =
                subst (λ j. pair_eq.beq k j ≡ false) (sym (key_of_latest prev touched)) other in
              rw
                (
                  apply_touched f a e prev touched,
                  other,
                  get-remove_ne key k (remove key f.latest) other,
                  get-remove_ne key k f.latest other,
                  of_key-last_other k f.completed prev theirs,
                )
                refl
        ]

  pub apply-written_for :
      (k : BalanceKey) (f : SnapshotFold A) (a : AccountId) (e : EntryValues A)
      (rest : List (EntryValues A))
      → IsWellKeyed f
      → written_for k (apply f a e) rest
        ≡ written_for k f (if pair_eq.beq k (a, e.currency) then e ∷ rest else rest)
  apply-written_for k f a e rest h = elim (Bool-cases (pair_eq.beq k (a, e.currency))) [
    | inl same ↦
        let k_is : k ≡ (a, e.currency) = (pair_eq.beq_iff k (a, e.currency)).0 same in
        rw same (
          subst (λ j. written_for j (apply f a e) rest ≡ written_for j f (e ∷ rest)) (sym k_is)
            (apply-written_for_same f a e rest h))
    | inr other ↦ rw other (apply-written_for_other f a e rest h k other)
  ]
