-- ===== src/Prelude/Map.antt =====
-- A `HashMap` as an association list. The order of the entries is one of those that a hash table
-- may have, and no statement depends on it.
use mathlib.Core.Path.{subst}
use cala.Prelude.{
  ◌≡◌, refl, sym, true, ap, Bool, false, Option, none, some, List, [], ◌∷◌, ◌∙◌, inl, inr, arith,
  if◌then◌else◌, Eq, beq_refl, Bool-cases, filter, option_list, All, any, is_some,
}

abbrev pub Map {ℓ κ} : Type ℓ → Type κ → Type (ℓ ⊔ κ)
Map K V = List (K × V)

-- `HashMap::into_values`
abbrev pub values {ℓ κ} : {K : Type ℓ} {V : Type κ} → Map K V → List V
values [] = []
values ((k, v) ∷ m) = v ∷ values m

-- `HashMap::keys`
abbrev pub keys {ℓ κ} : {K : Type ℓ} {V : Type κ} → Map K V → List K
keys [] = []
keys ((k, v) ∷ m) = k ∷ keys m

none≢some {ℓ} : {A : Type ℓ} {a : A} → Option.none ≡ some a → ⊥
none≢some h = cc

module _ {ℓ} {K : Type ℓ} ⦃e : Eq K⦄ where
  -- Is it one of some keys?
  abbrev has_key : K → List K → Bool
  has_key k = any (e.beq k)

  abbrev AreDistinct : List K → Type 0
  AreDistinct [] = Unit
  AreDistinct (k ∷ ks) = (has_key k ks ≡ false) × AreDistinct ks

none_of_absent {ℓ} : {A : Type ℓ} (o : Option A) → is_some o ≡ false → o ≡ none
none_of_absent none h = refl
none_of_absent (some a) h = cc

module _ {ℓ κ} {K : Type ℓ} {V : Type κ} ⦃e : Eq K⦄ where
  abbrev pub get : K → Map K V → Option V
  get k [] = none
  get k ((j, v) ∷ m) = if e.beq k j then some v else get k m

  abbrev pub contains_key : K → Map K V → Bool
  contains_key k m = is_some (get k m)

  -- `HashMap::remove`, on the map
  abbrev pub remove : K → Map K V → Map K V
  remove k [] = []
  remove k ((j, v) ∷ m) = if e.beq k j then remove k m else (j, v) ∷ remove k m

  -- `HashMap::insert`
  abbrev pub insert : K → V → Map K V → Map K V
  insert k v m = (k, v) ∷ remove k m

  -- No key is stored twice.
  abbrev pub IsUnique : Map K V → Type κ
  IsUnique [] = Unit
  IsUnique ((k, v) ∷ m) = (get k m ≡ none) × IsUnique m

  pub get-remove :
      (k j : K) (m : Map K V) → get j (remove k m) ≡ (if e.beq k j then none else get j m)
  get-remove k j [] = ground arith
  get-remove k j ((i, v) ∷ m) =
      ground (arith, get-remove k j m, e.beq_iff k i, e.beq_iff k j, e.beq_iff j i)

  pub get-remove_ne : (k j : K) (m : Map K V) → e.beq j k ≡ false → get j (remove k m) ≡ get j m
  get-remove_ne k j m h = ground (arith, get-remove k j m, e.beq_iff k j, e.beq_iff j k)

  pub get-insert :
      (k j : K) (v : V) (m : Map K V)
      → get j (insert k v m) ≡ (if e.beq k j then some v else get j m)
  get-insert k j v m = ground (arith, get-remove k j m, e.beq_iff k j, e.beq_iff j k)

  pub get-insert_same :
      (k j : K) (v : V) (m : Map K V) → e.beq j k ≡ true → get j (insert k v m) ≡ some v
  get-insert_same k j v m h = rw h refl

  pub get-insert_ne :
      (k j : K) (v : V) (m : Map K V) → e.beq j k ≡ false → get j (insert k v m) ≡ get j m
  get-insert_ne k j v m h = rw h (get-remove_ne k j m h)

  -- A key that is found differs from one that is not.
  pub beq_of_get :
      (k j : K) (m : Map K V) {v : V} → get k m ≡ some v → get j m ≡ none → e.beq k j ≡ false
  beq_of_get k j m found absent = elim (Bool-cases (e.beq k j)) [
    | inl same ↦
        let moved : get j m ≡ get k m = ap (λ i. get i m) (sym ((e.beq_iff k j).0 same)) in
        absurd (none≢some (sym absent ∙ moved ∙ found))
    | inr other ↦ other
  ]

  pub remove-IsUnique : (k : K) (m : Map K V) → IsUnique m → IsUnique (remove k m)
  remove-IsUnique k [] h = h
  remove-IsUnique k ((i, v) ∷ m) h = ground (arith, remove-IsUnique k m h.1, get-remove k i m)

  pub insert-IsUnique : (k : K) (v : V) (m : Map K V) → IsUnique m → IsUnique (insert k v m)
  insert-IsUnique k v m h = (get-remove k k m ∙ rw (beq_refl k), remove-IsUnique k m h)

  -- What holds of all entries holds of those that a removal leaves.
  pub All-remove {μ} : (P : K × V → Type μ) (k : K) (m : Map K V) → All P m → All P (remove k m)
  All-remove P k [] h = h
  All-remove P k ((i, v) ∷ m) h = elim (Bool-cases (e.beq k i)) [
    | inl same ↦ rw same (All-remove P k m h.1)
    | inr other ↦ rw other (h.0, All-remove P k m h.1)
  ]

  -- What holds of all entries holds of one that is found.
  pub All-get {μ} :
      (P : K × V → Type μ) (k : K) (m : Map K V) {v : V} → All P m → get k m ≡ some v → P (k, v)
  All-get P k [] h found = absurd (cc)
  All-get P k ((i, w) ∷ m) {v} h found = elim (Bool-cases (e.beq k i)) [
    | inl same ↦
        let first : w ≡ v = cc (rw same at found) in
        rw ((e.beq_iff k i).0 same) (subst (λ x. P (i, x)) first h.0)
    | inr other ↦ All-get P k m h.1 (rw other at found)
  ]

  -- Where the values carry their keys, the values of one key are what the map holds for it.
  pub filter-values :
      (key : V → K) (k : K) (m : Map K V)
      → IsUnique m
      → All (λ x. key x.1 ≡ x.0) m
      → filter (λ v. e.beq k (key v)) (values m) ≡ option_list (get k m)
  filter-values key k [] u h = refl
  filter-values key k ((i, v) ∷ m) u h = elim (Bool-cases (e.beq k i)) [
    | inl same ↦
        let gone : get k m ≡ none = rw ((e.beq_iff k i).0 same) u.0 in
        rw (h.0, same) (ap (◌∷◌ v) (filter-values key k m u.1 h.1 ∙ ap option_list gone))
    | inr other ↦ rw (h.0, other) (filter-values key k m u.1 h.1)
  ]

  contains-keys : (k : K) (m : Map K V) → contains_key k m ≡ has_key k (keys m)
  contains-keys k [] = refl
  contains-keys k ((j, v) ∷ m) = elim (Bool-cases (e.beq k j)) [
    | inl same ↦ rw same refl
    | inr other ↦ rw other (contains-keys k m)
  ]

  IsUnique-distinct : (m : Map K V) → IsUnique m → AreDistinct (keys m)
  IsUnique-distinct [] u = tt
  IsUnique-distinct ((k, v) ∷ m) u =
      (sym (contains-keys k m) ∙ ap is_some u.0, IsUnique-distinct m u.1)

  distinct-IsUnique : (m : Map K V) → AreDistinct (keys m) → IsUnique m
  distinct-IsUnique [] h = tt
  distinct-IsUnique ((k, v) ∷ m) h =
      (none_of_absent (get k m) (contains-keys k m ∙ h.0), distinct-IsUnique m h.1)

  -- What holds of every value that is found holds of all values.
  pub All_of_get {μ} :
      (P : V → Type μ) (m : Map K V)
      → IsUnique m
      → ((k : K) (v : V) → get k m ≡ some v → P v)
      → All (λ x. P x.1) m
  All_of_get P [] u h = tt
  All_of_get P ((j, v) ∷ m) u h = (
    h j v (rw (beq_refl j) refl),
    All_of_get P m u.1 (λ k w found. h k w (rw (beq_of_get k j m found u.0) found)),
  )

-- Two maps that have the same keys.
module _ {ℓ κ μ} {K : Type ℓ} {V : Type κ} {U : Type μ} ⦃e : Eq K⦄ where
  pub contains_key_same :
      (k : K) (m : Map K V) (n : Map K U) → keys m ≡ keys n → contains_key k m ≡ contains_key k n
  contains_key_same k m n h = contains-keys k m ∙ ap (has_key k) h ∙ sym (contains-keys k n)

  pub IsUnique_same : (m : Map K V) (n : Map K U) → keys m ≡ keys n → IsUnique n → IsUnique m
  IsUnique_same m n h u = distinct-IsUnique m (subst AreDistinct (sym h) (IsUnique-distinct n u))
