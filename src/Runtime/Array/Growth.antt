-- ===== src/Runtime/Array/Growth.antt =====
-- The growth policy of `vix_array_grown_capacity`.
use native.Mathlib.Nat.{pow-suc}
use vix_lang.Common.Int.{pos, int_max, ltb_ℤ}
use vix_lang.Common.{
  ℕ, zero, suc, ◌*◌, ◌^◌, ◌≤◌, ◌<◌, ◌≡◌, ◌≢◌, ◌⊎◌, inl, inr, none, some, arith, Option-cases,
  Bool-cases,
}
use vix_lang.Runtime.Array.{grow, grown_capacity, initial_capacity}

-- The loop ends before `f + 1` rounds if `f` doublings reach `needed`.
grow-ne-none :
    (f capacity needed : ℕ) → needed ≤ capacity * 2 ^ f → grow (suc f) capacity needed ≢ none
unfolding grow
grow-ne-none zero capacity needed h = ground arith
grow-ne-none (suc f) capacity needed h =
    let h' : needed ≤ capacity * 2 * 2 ^ f = omega (arith, rw pow-suc at h) in
    ground (arith, grow-ne-none f (capacity * 2) needed h')

-- What a finished loop returns.
grow_bounds :
    (f capacity needed r : ℕ)
    → 0 < capacity
    → capacity ≤ int_max
    → needed ≤ int_max
    → grow f capacity needed ≡ some r
    → (needed ≤ r) × (capacity ≤ r) × (r ≤ int_max) × ((r ≡ capacity) ⊎ (r < 2 * needed))
unfolding grow
grow_bounds zero capacity needed r pos_c c n h = ground arith
grow_bounds (suc f) capacity needed r pos_c c n h =
    ground (arith, grow_bounds f (capacity * 2) needed r)

-- From any capacity of at least 8, 32 rounds suffice to reach an `int`.
grow_from :
    (capacity needed : ℕ)
    → initial_capacity ≤ capacity
    → capacity ≤ int_max
    → needed ≤ int_max
    → (r : ℕ) × (grow 32 capacity needed ≡ some r)
      × (needed ≤ r)
      × (capacity ≤ r)
      × (r ≤ int_max)
      × ((r ≡ capacity) ⊎ (r < 2 * needed))
grow_from capacity needed lo hi n = elim (Option-cases (grow 32 capacity needed)) [
  | inl e ↦ absurd (grow-ne-none 31 capacity needed (omega arith) e)
  | inr (r, e) ↦
      let (a, b, c, d) = grow_bounds 32 capacity needed r (omega arith) hi n e in (r, e, a, b, c, d)
]

-- For a capacity and a need that fit an `int`, the loop ends with a capacity that holds what is
-- needed, fits an `int`, and is no smaller than the old one or 8; it is less than twice what is
-- needed unless it is one of these two.
pub grown_capacity_lem :
    (old needed : ℕ)
    → old ≤ int_max
    → needed ≤ int_max
    → (r : ℕ) × (grown_capacity (pos old) needed ≡ some r)
      × (needed ≤ r)
      × (initial_capacity ≤ r)
      × (old ≤ r)
      × (r ≤ int_max)
      × ((r ≡ old) ⊎ (r ≡ initial_capacity) ⊎ (r < 2 * needed))
unfolding grown_capacity
grown_capacity_lem old needed o n = elim (Bool-cases (ltb_ℤ (pos old) (pos initial_capacity))) [
  | inl small ↦
      let (r, e, a, b, c, d) = grow_from initial_capacity needed (omega arith) (omega arith) n in
      (r, rw small e, a, b, ground arith, c, ground (arith, d))
  | inr large ↦
      let (r, e, a, b, c, d) = grow_from old needed (ground arith) o n in
      (r, rw large e, a, ground arith, b, c, ground (arith, d))
]
