-- ===== src/AccountSet/Validate/Search.antt =====
-- `first_depth_overflow` finds an edge at which the depth passes the bound.
use cala.Prelude.{
  ℕ, zero, suc, ◌+◌, ◌-◌, ◌/◌, ◌<◌, ◌≤◌, ◌≡◌, ◌⊎◌, inl, inr, refl, false, some, List, length, ltb,
  ltb→lt, arith, Bool-cases,
}
use cala.AccountSet.Graph.{SetMembership}
use cala.AccountSet.Validate.{
  max_membership_depth, prefix_depth, search_overflow, first_depth_overflow,
}

module _ (depth : ℕ → ℕ) where
  -- The first edges before `n` are not too many, when there are any.
  abbrev IsStart : ℕ → Type 0
  IsStart n = (n ≡ 1) ⊎ (depth (n - 1) ≤ max_membership_depth)

  abbrev Found : ℕ → ℕ → ℕ → Type 0
  Found fuel low high =
      (n : ℕ) × (search_overflow fuel depth low high ≡ some n)
      × (low ≤ n)
      × (n ≤ high)
      × (max_membership_depth < depth n)
      × IsStart n

  middle_lem : (low high : ℕ) → low < high → (low ≤ (low + high) / 2) × ((low + high) / 2 < high)
  middle_lem low high h = (omega arith, omega arith)

  narrow : (low high : ℕ) → ltb low high ≡ false → low ≤ high → low ≡ high
  narrow low high h range = ground arith

  fits_lem :
      (n : ℕ)
      → ltb max_membership_depth (depth n) ≡ false
      → depth ((n + 1) - 1) ≤ max_membership_depth
  fits_lem n h = let same : (n + 1) - 1 ≡ n = omega arith in rw same (ground arith)

  search_overflow-Found :
      (fuel low high : ℕ)
      → high < low + fuel
      → low ≤ high
      → max_membership_depth < depth high
      → IsStart low
      → Found fuel low high
  unfolding search_overflow
  search_overflow-Found zero low high enough range deep start = absurd (omega arith)
  search_overflow-Found (suc fuel) low high enough range deep start =
      let middle = (low + high) / 2 in
      elim (Bool-cases (ltb low high)) [
        | inr same ↦
            let e : low ≡ high = narrow low high same range in
            (low, rw (same, search_overflow) refl, omega arith, range, rw e deep, start)
        | inl wide ↦
            let (above, under) = middle_lem low high (ltb→lt low high wide) in
            elim (Bool-cases (ltb max_membership_depth (depth middle))) [
              | inl too_deep ↦
                  let (n, found, from, to, over, first) =
                    search_overflow-Found fuel low middle (omega (arith, under, enough)) above
                      (ltb→lt max_membership_depth (depth middle) too_deep) start in
                  (
                    n,
                    rw (wide, too_deep, search_overflow) found,
                    from,
                    omega (arith, to, under),
                    over,
                    first,
                  )
              | inr fits ↦
                  let (n, found, from, to, over, first) =
                    search_overflow-Found fuel (middle + 1) high (omega (arith, above, enough))
                      (omega (arith, under)) deep (inr (fits_lem middle fits)) in
                  (
                    n,
                    rw (wide, fits, search_overflow) found,
                    omega (arith, above, from),
                    to,
                    over,
                    first,
                  )
            ]
      ]

-- In a batch that is too deep with all its edges, the search gives the position of an edge and the
-- depth with the edges up to it: this depth passes the bound, and the depth with the edges before
-- it, where there are any, does not.
pub first_depth_overflow-IsBoundary :
    (existing proposed : List SetMembership)
    → 0 < length proposed
    → max_membership_depth < prefix_depth existing proposed (length proposed)
    → (i : ℕ) × (first_depth_overflow existing proposed
        ≡ some (i, prefix_depth existing proposed (i + 1)))
      × (i < length proposed)
      × (max_membership_depth < prefix_depth existing proposed (i + 1))
      × ((i ≡ 0) ⊎ (prefix_depth existing proposed i ≤ max_membership_depth))
unfolding first_depth_overflow
first_depth_overflow-IsBoundary existing proposed some_edge deep =
    let depth = prefix_depth existing proposed in
    let (n, found, from, to, over, first) =
      search_overflow-Found depth (suc (length proposed)) 1 (length proposed) (omega arith)
        some_edge deep (inl refl) in
    let same : (n - 1) + 1 ≡ n = omega (arith, from) in
    (
      n - 1,
      rw (found, first_depth_overflow, same) refl,
      omega (arith, from, to),
      rw same over,
      (elim first [ inl one ↦ inl (omega (arith, one)) | inr fits ↦ inr fits ]),
    )
