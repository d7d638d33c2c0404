-- ===== src/Velocity/Enforce/Valued.antt =====
-- The contexts that the limits of a batch are evaluated in.
use mathlib.Core.Path.{subst}
use cala.Prelude.{
  ◌≡◌, refl, sym, ap, ◌∙◌, Option, none, some, Result, ok, err, ok-injective, inl, inr,
  Option-cases, Bool-cases, nat_beq, nat_eq, nat_beq_iff,
}
use cala.Prelude.Map.{Map, get, insert, get-insert_same, get-insert_ne}
use cala.Types.{EntryValues, EntryId, AccountId, TransactionId}
use cala.Cel.{CelValue}
use cala.Cel.Eval.{CelOps}
use cala.Velocity.{VelocityError}
use cala.Velocity.Context.{
  EvalContext, entry_value, cached_value, keep_value, context_of, context_for_entry,
}
use cala.Velocity.Enforce.{Contexts, expect}

some-same : {X : Type 0} {x y : X} → ◌≡◌ {A = Option X} (some x) (some y) → x ≡ y
some-same h = cc

none-not-some : {X : Type 0} {x : X} → ◌≡◌ {A = Option X} none (some x) → ⊥
none-not-some h = cc

err-not-ok :
    {A X : Type 0} {e : VelocityError A} {x : X}
    → ◌≡◌ {A = Result X (VelocityError A)} (err e) (ok x)
    → ⊥
err-not-ok h = cc

pub expect-is_some :
    {A X : Type 0} (o : Option X) (e : VelocityError A) {x : X} → expect o e ≡ ok x → o ≡ some x
expect-is_some none e h = cc
expect-is_some (some y) e h = cc

module _ {A Expr Ctx : Type 0} (c : CelOps A Expr Ctx) (tx_value : TransactionId → CelValue A)
    (value_of : EntryId → CelValue A) (accounts : Map AccountId (CelValue A)) where
  -- A context holds the value of its transaction, those of the accounts, and for an entry none but
  -- its own.
  pub record IsTrueContext (tx_id : TransactionId) (ec : EvalContext A) : Type 0 where
    pub transaction : ec.transaction ≡ tx_value tx_id
    pub account_values : ec.account_values ≡ accounts
    pub entry_values :
        (id : EntryId) (v : CelValue A) → get id ec.entry_values ≡ some v → v ≡ value_of id

  abbrev pub AreTrue : Contexts A → Type 0
  AreTrue contexts =
      (tx_id : TransactionId) (ec : EvalContext A)
      → get tx_id contexts ≡ some ec
      → IsTrueContext tx_id ec

  -- The context of an entry on an account: the values of its transaction, its own and the account's.
  abbrev pub IsContextOf : TransactionId → AccountId → EntryValues A → Ctx → Type 0
  IsContextOf tx_id account_id e ctx =
      (account : CelValue A) × (get account_id accounts ≡ some account)
      × (ctx ≡ context_of c (tx_value tx_id) (entry_value c e) account)

  cached_value-eq :
      (e : EntryValues A) (kept : Option (CelValue A))
      → value_of e.id ≡ entry_value c e
      → ((v : CelValue A) → kept ≡ some v → v ≡ value_of e.id)
      → cached_value c e kept ≡ entry_value c e
  cached_value-eq e none own h = refl
  cached_value-eq e (some v) own h = h v refl ∙ own

  keep_value-eq :
      (e : EntryValues A) (kept : Option (CelValue A)) (m : Map EntryId (CelValue A))
      → value_of e.id ≡ entry_value c e
      → ((id : EntryId) (v : CelValue A) → get id m ≡ some v → v ≡ value_of id)
      → (id : EntryId) (v : CelValue A) → get id (keep_value c e kept m) ≡ some v
      → v ≡ value_of id
  keep_value-eq e (some w) m own h id v found = h id v found
  keep_value-eq e none m own h id v found = elim (Bool-cases (nat_beq id e.id)) [
    | inl same ↦
        some-same (sym found ∙ get-insert_same e.id id (entry_value c e) m same)
        ∙ sym own
        ∙ ap value_of (sym ((nat_beq_iff id e.id).0 same))
    | inr other ↦ h id v (sym (get-insert_ne e.id id (entry_value c e) m other) ∙ found)
  ]

  pub context_for_entry-IsContextOf :
      (tx_id : TransactionId) (ec : EvalContext A) (account_id : AccountId) (e : EntryValues A)
      (made : Ctx × EvalContext A)
      → IsTrueContext tx_id ec
      → value_of e.id ≡ entry_value c e
      → context_for_entry c ec account_id e ≡ ok made
      → IsContextOf tx_id account_id e made.0 × IsTrueContext tx_id made.1
  unfolding context_for_entry
  context_for_entry-IsContextOf tx_id ec account_id e made true_ec own h =
      elim (Option-cases (get account_id ec.account_values)) [
        | inl absent ↦ absurd (err-not-ok (rw (absent, context_for_entry) at h))
        | inr (account, found) ↦
            let kept = get e.id ec.entry_values in
            let out = ok-injective (rw (found, context_for_entry) at h) in
            (
              (
                account,
                ap (get account_id) (sym true_ec.account_values) ∙ found,
                ap (λ o. o.0) (sym out)
                    ∙ ap (λ t. context_of c t (cached_value c e kept) account) true_ec.transaction
                    ∙ ap (λ v. context_of c (tx_value tx_id) v account)
                        (cached_value-eq e kept own (λ v. true_ec.entry_values e.id v)),
              ),
              subst (λ o. IsTrueContext tx_id o.1) out
                  (record {
                    transaction = true_ec.transaction;
                    account_values = true_ec.account_values;
                    entry_values = keep_value-eq e kept ec.entry_values own true_ec.entry_values;
                  }),
            )
      ]

  pub insert-AreTrue :
      (contexts : Contexts A) (tx_id : TransactionId) (ec : EvalContext A)
      → AreTrue contexts
      → IsTrueContext tx_id ec
      → AreTrue (insert tx_id ec contexts)
  insert-AreTrue contexts tx_id ec all own other found_ec found =
      elim (Bool-cases (nat_beq other tx_id)) [
        | inl same ↦
            subst (λ x. IsTrueContext x found_ec) (sym ((nat_beq_iff other tx_id).0 same))
              (subst (IsTrueContext tx_id)
                (some-same (sym (get-insert_same tx_id other ec contexts same) ∙ found)) own)
        | inr apart ↦ all other found_ec (sym (get-insert_ne tx_id other ec contexts apart) ∙ found)
      ]
