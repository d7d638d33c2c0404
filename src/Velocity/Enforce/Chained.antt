-- ===== src/Velocity/Enforce/Chained.antt =====
-- What the enforcement of a batch writes.
use mathlib.Core.Path.{subst}
use cala.Prelude.{
  ◌≡◌, refl, ap, sym, ◌⊎◌, inl, inr, true, false, Option, none, some, List, [], ◌∷◌, ok, >>=-eq-ok,
  ok-injective, All, All-mono, Bool-cases, beq_refl, nat_eq, arith,
}
use cala.Prelude.Map.{Map, get, remove, insert, keys, IsUnique, get-remove, beq_of_get}
use cala.Types.{
  DecimalOps, BalanceSnapshot, EntryValues, EntryId, TransactionId, AccountId, DateTime,
}
use cala.Cel.Eval.{CelOps}
use cala.Balance.Fold.{next_snapshot}
use cala.Balance.Fold.Spec.{chain}
use cala.Velocity.{AccountVelocityLimit, WindowOps, VelocityBalanceKey, panicked, key_eq}
use cala.Velocity.Context.{EvalContext, entry_value, context_for_entry}
use cala.Velocity.Enforce.Valued.{
  IsTrueContext, expect-is_some, AreTrue, IsContextOf, context_for_entry-IsContextOf,
  insert-AreTrue,
}
use cala.Cel.{CelValue}
use cala.Velocity.Limit.{is_other_currency, limit_time, enforce}
use cala.Velocity.Limit.Respected.{is_exceeded, enforce-respects}
use cala.Velocity.Collect.{Counted, Checks}
use cala.Velocity.Enforce.{Contexts, expect, enforce_entries, new_snapshots_with_limit_enforcement}

-- The entries that are counted.
abbrev pub entries_of : {A Expr : Type 0} → List (Counted A Expr) → List (EntryValues A)
entries_of [] = []
entries_of ((l, e) ∷ counted) = e ∷ entries_of counted

module _ {A Expr Ctx : Type 0} ⦃d : DecimalOps A⦄ (c : CelOps A Expr Ctx) where
  -- A limit is respected by a balance of another currency, or when none of its balance limits is
  -- exceeded at the time that it looks at in a context.
  abbrev pub IsWithin : DateTime → AccountVelocityLimit A Expr → Ctx → BalanceSnapshot A → Type 0
  IsWithin time l ctx s =
      (is_other_currency l.currency s.currency ≡ true)
      ⊎ ((t : DateTime) × (limit_time c l ctx time ≡ ok t)
          × All (λ b. is_exceeded t s b ≡ false) l.limit.balance)

  enforce-IsWithin :
      (l : AccountVelocityLimit A Expr) (ctx : Ctx) (time : DateTime) (s : BalanceSnapshot A)
      {u : Unit {0}}
      → enforce c l ctx time s ≡ ok u
      → IsWithin time l ctx s
  enforce-IsWithin l ctx time s h = elim (Bool-cases (is_other_currency l.currency s.currency)) [
    | inl other ↦ inl other
    | inr same ↦ inr (enforce-respects c l ctx time s same h)
  ]

module _ {A Expr Ctx : Type 0} ⦃d : DecimalOps A⦄ (c : CelOps A Expr Ctx)
    (tx_value : TransactionId → CelValue A) (value_of : EntryId → CelValue A)
    (accounts : Map AccountId (CelValue A)) where
  -- Each snapshot respects the limit that its entry is counted by, in the context of the entry.
  abbrev pub AreWithin :
      DateTime → AccountId → List (Counted A Expr) → List (BalanceSnapshot A) → Type 0
  AreWithin time a [] [] = Unit
  AreWithin time a (x ∷ counted) (s ∷ snapshots) =
      ((ctx : Ctx) × IsContextOf c tx_value value_of accounts x.1.transaction_id a x.1 ctx
        × IsWithin c time x.0 ctx s)
      × AreWithin time a counted snapshots
  AreWithin time a _ _ = ⊥

  -- The values of the entries are those of their ids.
  abbrev pub HaveValues : List (Counted A Expr) → Type 0
  HaveValues = All (λ x. value_of x.1.id ≡ entry_value c x.1)

  expect_context :
      (contexts : Contexts A) (e : EntryValues A) (ec : EvalContext A)
      → AreTrue c tx_value value_of accounts contexts
      → expect {A = A} (get e.transaction_id contexts) (panicked "context built for every posting")
        ≡ ok ec
      → IsTrueContext c tx_value value_of accounts e.transaction_id ec
  expect_context contexts e ec all h =
      all e.transaction_id ec (expect-is_some (get e.transaction_id contexts) _ h)

  enforce_entries-cons :
      (time : DateTime) (a : AccountId) (latest : Option (BalanceSnapshot A))
      (l : AccountVelocityLimit A Expr) (e : EntryValues A) (counted : List (Counted A Expr))
      (contexts : Contexts A) {out : List (BalanceSnapshot A) × Contexts A}
      → AreTrue c tx_value value_of accounts contexts
      → value_of e.id ≡ entry_value c e
      → enforce_entries c time a latest ((l, e) ∷ counted) contexts ≡ ok out
      → ((ctx : Ctx) × IsContextOf c tx_value value_of accounts e.transaction_id a e ctx
          × IsWithin c time l ctx (next_snapshot time a latest e))
        × ((after : Contexts A) × (rest : List (BalanceSnapshot A) × Contexts A) × AreTrue c
              tx_value value_of accounts after
            × (enforce_entries c time a (some (next_snapshot time a latest e)) counted after
                ≡ ok rest)
            × (out ≡ (next_snapshot time a latest e ∷ rest.0, rest.1)))
  unfolding enforce_entries
  enforce_entries-cons time a latest l e counted contexts all own h =
      let (ec, known, p) = >>=-eq-ok (expect (get e.transaction_id contexts) _) _ h in
      let (made, evaluated, q) = >>=-eq-ok (context_for_entry c ec a e) _ p in
      let (_, passed, r) =
        >>=-eq-ok (enforce c l made.0 time (next_snapshot time a latest e)) _ q in
      let (rest, done, last) = >>=-eq-ok (enforce_entries c time a _ counted _) _ r in
      let (mine, kept) =
        context_for_entry-IsContextOf c tx_value value_of accounts e.transaction_id ec a e made
          (expect_context contexts e ec all known) own evaluated in
      (
        (made.0, mine, enforce-IsWithin c l made.0 time (next_snapshot time a latest e) passed),
        (
          insert e.transaction_id made.1 contexts,
          rest,
          insert-AreTrue c tx_value value_of accounts contexts e.transaction_id made.1 all kept,
          done,
          sym (ok-injective last),
        ),
      )

  enforce_entries-chain :
      (time : DateTime) (a : AccountId) (latest : Option (BalanceSnapshot A))
      (counted : List (Counted A Expr)) (contexts : Contexts A)
      (out : List (BalanceSnapshot A) × Contexts A)
      → AreTrue c tx_value value_of accounts contexts
      → HaveValues counted
      → enforce_entries c time a latest counted contexts ≡ ok out
      → (out.0 ≡ chain time a latest (entries_of counted))
        × AreWithin time a counted out.0
        × AreTrue c tx_value value_of accounts out.1
  unfolding enforce_entries
  enforce_entries-chain time a latest [] contexts out all own h =
      subst (λ o. (o.0 ≡ []) × AreWithin time a [] o.0 × AreTrue c tx_value value_of accounts o.1)
        (ok-injective h) (refl, tt, all)
  enforce_entries-chain time a latest ((l, e) ∷ counted) contexts out all own h =
      let (within, (after, rest, still, done, made)) =
        enforce_entries-cons time a latest l e counted contexts all own.0 h in
      let (chained, others, last) =
        enforce_entries-chain time a (some (next_snapshot time a latest e)) counted after rest still
          own.1 done in
      subst
        (λ o.
          (o.0 ≡ chain time a latest (e ∷ entries_of counted))
          × AreWithin time a ((l, e) ∷ counted) o.0
          × AreTrue c tx_value value_of accounts o.1)
        (sym made) (ap (◌∷◌ (next_snapshot time a latest e)) chained, (within, others), last)

module _ {A Expr Ctx W : Type 0} ⦃d : DecimalOps A⦄ ⦃ops : WindowOps W⦄ (c : CelOps A Expr Ctx)
    (tx_value : TransactionId → CelValue A) (value_of : EntryId → CelValue A)
    (accounts : Map AccountId (CelValue A)) where
  -- What is written for a key: the running balances of the entries counted under it, from the
  -- balance that was read for it, each within the limit that counts its entry.
  abbrev pub IsEnforced :
      DateTime
      → Map (VelocityBalanceKey W) (Option (BalanceSnapshot A))
      → Checks W A Expr
      → VelocityBalanceKey W × List (BalanceSnapshot A)
      → Type 0
  IsEnforced time current checks x =
      (base : Option (BalanceSnapshot A)) × (counted : List (Counted A Expr)) × (get x.0 current
        ≡ some base)
      × (get x.0 checks ≡ some counted)
      × (x.1 ≡ chain time x.0.account_id base (entries_of counted))
      × AreWithin c tx_value value_of accounts time x.0.account_id counted x.1

  get_of_removed :
      (k j : VelocityBalanceKey W)
      (current : Map (VelocityBalanceKey W) (Option (BalanceSnapshot A)))
      {base : Option (BalanceSnapshot A)}
      → get j (remove k current) ≡ some base
      → get j current ≡ some base
  get_of_removed k j current h = ground (arith, get-remove k j current)

  IsEnforced-cons :
      (time : DateTime) (current : Map (VelocityBalanceKey W) (Option (BalanceSnapshot A)))
      (checks : Checks W A Expr) (key : VelocityBalanceKey W) (entries : List (Counted A Expr))
      → get key checks ≡ none
      → (x : VelocityBalanceKey W × List (BalanceSnapshot A))
      → IsEnforced time (remove key current) checks x
      → IsEnforced time current ((key, entries) ∷ checks) x
  IsEnforced-cons time current checks key entries fresh x
        (base, counted, read, found, chained, within) =
      (
        base,
        counted,
        get_of_removed key x.0 current read,
        rw (beq_of_get x.0 key checks found fresh) found,
        chained,
        within,
      )

  new_snapshots-cons :
      (time : DateTime) (current : Map (VelocityBalanceKey W) (Option (BalanceSnapshot A)))
      (key : VelocityBalanceKey W) (entries : List (Counted A Expr)) (checks : Checks W A Expr)
      (contexts : Contexts A) {out : Map (VelocityBalanceKey W) (List (BalanceSnapshot A))}
      → new_snapshots_with_limit_enforcement c time current ((key, entries) ∷ checks) contexts
        ≡ ok out
      → (base : Option (BalanceSnapshot A)) × (done : List (BalanceSnapshot A) × Contexts A)
        × (rest : Map (VelocityBalanceKey W) (List (BalanceSnapshot A))) × (get key current
            ≡ some base)
        × (enforce_entries c time key.account_id base entries contexts ≡ ok done)
        × (new_snapshots_with_limit_enforcement c time (remove key current) checks done.1 ≡ ok rest)
        × (out ≡ (key, done.0) ∷ rest)
  unfolding new_snapshots_with_limit_enforcement
  new_snapshots-cons time current key entries checks contexts h =
      let (base, read, p) = >>=-eq-ok (expect (get key current) _) _ h in
      let (done, enforced, q) =
        >>=-eq-ok (enforce_entries c time key.account_id base entries contexts) _ p in
      let (rest, others, last) =
        >>=-eq-ok (new_snapshots_with_limit_enforcement c time (remove key current) checks done.1) _
          q in
      (
        base,
        done,
        rest,
        expect-is_some (get key current) _ read,
        enforced,
        others,
        sym (ok-injective last),
      )

  -- In contexts that hold the values of their transactions, and where the id of an entry that is
  -- counted determines its value, and the clock that expressions may read stands still, enforcement
  -- that passes writes for exactly the keys that are
  -- checked, and for each of them the running balances of the entries counted under it, from the
  -- balance that was read. Every one of them is within the limit that counts its entry, in the
  -- context of that entry on the account of the key: no limit is exceeded on the way.
  pub new_snapshots-IsEnforced :
      (time : DateTime) (current : Map (VelocityBalanceKey W) (Option (BalanceSnapshot A)))
      (checks : Checks W A Expr) (contexts : Contexts A)
      (out : Map (VelocityBalanceKey W) (List (BalanceSnapshot A)))
      → IsUnique checks
      → AreTrue c tx_value value_of accounts contexts
      → All (λ x. HaveValues c tx_value value_of accounts x.1) checks
      → new_snapshots_with_limit_enforcement c time current checks contexts ≡ ok out
      → (keys out ≡ keys checks) × All (IsEnforced time current checks) out
  unfolding new_snapshots_with_limit_enforcement
  new_snapshots-IsEnforced time current [] contexts out unique all own h =
      subst (λ o. (keys o ≡ []) × All (IsEnforced time current []) o) (ok-injective h) (refl, tt)
  new_snapshots-IsEnforced time current ((key, entries) ∷ checks) contexts out unique all own h =
      let (base, done, rest, read, enforced, others, made) =
        new_snapshots-cons time current key entries checks contexts h in
      let (chained, within, after) =
        enforce_entries-chain c tx_value value_of accounts time key.account_id base entries contexts
          done all own.0 enforced in
      let (same, every) =
        new_snapshots-IsEnforced time (remove key current) checks done.1 rest unique.1 after own.1
          others in
      subst
        (λ o.
          (keys o ≡ key ∷ keys checks) × All (IsEnforced time current ((key, entries) ∷ checks)) o)
        (sym made)
        (
          ap (◌∷◌ key) same,
          (
            (base, entries, read, rw (beq_refl key) refl, chained, within),
            All-mono rest (IsEnforced-cons time current checks key entries unique.0) every,
          ),
        )
