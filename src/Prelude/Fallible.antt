-- ===== src/Prelude/Fallible.antt =====
-- `Result<A, E>` with the chaining of `?`.
use mathlib.Core.Path.{◌≡◌, refl}
use mathlib.Core.Logic.{◌⊎◌, inl, inr}
use mathlib.Core.Bool.{Bool, true, false}
use mathlib.Core.Option.{Option, none, some}

pub data Result {ℓ} (A E : Type ℓ) : Type ℓ where
  ok : A → Result A E
  err : E → Result A E

infixl 5 ◌>>=◌
abbrev pub ◌>>=◌ {ℓ} : {A B E : Type ℓ} → Result A E → (A → Result B E) → Result B E
err e >>= next = err e
ok a >>= next = next a

-- `if c { return Err(e) }`
abbrev pub reject_if : {E : Type 0} → Bool → E → Result (Unit {0}) E
reject_if true e = err e
reject_if false e = ok tt

infixl 5 ◌>>◌
abbrev pub ◌>>◌ : {B E : Type 0} → Result (Unit {0}) E → Result B E → Result B E
check >> rest = check >>= λ _. rest

-- `ok_or`
abbrev pub ok_or {ℓ} : {A E : Type ℓ} → Option A → E → Result A E
ok_or none e = err e
ok_or (some a) e = ok a

-- `map_err`
abbrev pub map_err {ℓ} : {A E F : Type ℓ} → (E → F) → Result A E → Result A F
map_err f (ok a) = ok a
map_err f (err e) = err (f e)

-- `Option<Result<A, E>>::transpose` after `map`
abbrev pub traverse_option : {A B E : Type 0} → (A → Result B E) → Option A → Result (Option B) E
traverse_option f none = ok none
traverse_option f (some a) = f a >>= λ b. ok (some b)

-- A chain that succeeds went through its first step, and one that fails failed in a step.
pub >>=-eq-ok {ℓ} :
    {A B E : Type ℓ} (first : Result A E) (next : A → Result B E) {out : B}
    → (first >>= next) ≡ ok out
    → (made : A) × (first ≡ ok made) × (next made ≡ ok out)
>>=-eq-ok (err e) next h = cc
>>=-eq-ok (ok made) next h = (made, refl, h)

pub map_err-eq-ok {ℓ} :
    {A E F : Type ℓ} (f : E → F) (m : Result A E) {a : A} → map_err f m ≡ ok a → m ≡ ok a
map_err-eq-ok f (ok a) h = cc
map_err-eq-ok f (err e) h = cc

pub ok-injective {ℓ} : {A E : Type ℓ} {a b : A} → ◌≡◌ {A = Result A E} (ok a) (ok b) → a ≡ b
ok-injective h = cc

pub >>=-eq-err {ℓ} :
    {A B E : Type ℓ} (m : Result A E) (f : A → Result B E) {x : E}
    → (m >>= f) ≡ err x
    → (m ≡ err x) ⊎ ((a : A) × (m ≡ ok a) × (f a ≡ err x))
>>=-eq-err (ok a) f h = inr (a, refl, h)
>>=-eq-err (err e) f h = inl (cc)
