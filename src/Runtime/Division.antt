-- ===== src/Runtime/Division.antt =====
-- `vix_safe_sdiv_i32` and `vix_safe_srem_i32`: the division of 32-bit integers that never traps.
use native.Mathlib.Nat.{div-le_self, div-add-mod}
use vix_lang.Common.Int.{ℤ, pos, negsuc, pos_part, neg_part, sub_ℕ, ◌+ℤ◌, ◌*ℤ◌, ◌≤ℤ◌, int_max}
use vix_lang.Common.{
  ℕ, suc, ◌+◌, ◌*◌, ◌/◌, ◌%◌, ◌<◌, ◌≡◌, ◌⊎◌, inl, inr, refl, Bool, true, Bool-cases, ◌&&◌, ◌||◌,
  arith, if◌then◌else◌, ◌==◌,
}

abbrev pub abs : ℤ → ℕ
abs a = pos_part a + neg_part a

-- C's `/` and `%` on `int`: the quotient is truncated towards zero, and the remainder has the
-- sign of the dividend.
unfoldable pub quotient : ℤ → ℤ → ℤ
quotient (pos a) (pos b) = pos (a / b)
quotient (pos a) (negsuc b) = sub_ℕ 0 (a / suc b)
quotient (negsuc a) (pos b) = sub_ℕ 0 (suc a / b)
quotient (negsuc a) (negsuc b) = pos (suc a / suc b)

unfoldable pub remainder : ℤ → ℤ → ℤ
remainder (pos a) (pos b) = pos (a % b)
remainder (pos a) (negsuc b) = pos (a % suc b)
remainder (negsuc a) (pos b) = sub_ℕ 0 (suc a % b)
remainder (negsuc a) (negsuc b) = sub_ℕ 0 (suc a % suc b)

abbrev is_eq : ℤ → ℤ → Bool
is_eq a b = pos_part a == pos_part b && neg_part a == neg_part b

abbrev pub int_min : ℤ
int_min = negsuc int_max

-- The divisions that C leaves undefined.
abbrev pub is_trap : ℤ → ℤ → Bool
is_trap left right = is_eq right (pos 0) || (is_eq left int_min && is_eq right (negsuc 0))

unfoldable pub safe_sdiv : ℤ → ℤ → ℤ
unfolding quotient
safe_sdiv left right = if is_trap left right then pos 0 else quotient left right

unfoldable pub safe_srem : ℤ → ℤ → ℤ
unfolding remainder
safe_srem left right = if is_trap left right then pos 0 else remainder left right

abbrev pub IsInt : ℤ → Type 0
IsInt a = (int_min ≤ℤ a) × (a ≤ℤ pos int_max)

-- Both results are `int`s, for all operands that are.
safe_IsInt :
    (left right : ℤ)
    → IsInt left
    → IsInt right
    → IsInt (safe_sdiv left right) × IsInt (safe_srem left right)
unfolding safe_sdiv safe_srem
safe_IsInt (pos a) (pos b) l r = ground (arith, div-le_self a b)
safe_IsInt (pos a) (negsuc b) l r = ground (arith, div-le_self a (suc b))
safe_IsInt (negsuc a) (pos b) l r = ground (arith, div-le_self (suc a) b)
safe_IsInt (negsuc a) (negsuc b) l r = ground (arith, div-le_self (suc a) (suc b))

euclid : (a b : ℕ) → a / b * b + a % b ≡ a
euclid a b = omega (arith, div-add-mod a b)

-- The law of truncated division, for each pair of signs.
quotient-remainder :
    (left right : ℤ) → 0 < abs right → quotient left right *ℤ right +ℤ remainder left right ≡ left
unfolding quotient remainder
quotient-remainder (pos a) (pos b) h = ground (arith, euclid a b)
quotient-remainder (pos a) (negsuc b) h = ground (arith, euclid a (suc b))
quotient-remainder (negsuc a) (pos b) h = ground (arith, euclid (suc a) b)
quotient-remainder (negsuc a) (negsuc b) h = ground (arith, euclid (suc a) (suc b))

-- Whether a number has the sign of another, or is zero.
abbrev pub HasSignOf : ℤ → ℤ → Type 0
HasSignOf left r = ((pos 0 ≤ℤ left) × (pos 0 ≤ℤ r)) ⊎ ((left ≤ℤ pos 0) × (r ≤ℤ pos 0))

remainder_bounds :
    (left right : ℤ)
    → 0 < abs right
    → (abs (remainder left right) < abs right) × HasSignOf left (remainder left right)
unfolding remainder
remainder_bounds (pos a) (pos b) h = (ground arith, inl (ground arith, ground arith))
remainder_bounds (pos a) (negsuc b) h = (ground arith, inl (ground arith, ground arith))
remainder_bounds (negsuc a) (pos b) h = (ground arith, inr (ground arith, ground arith))
remainder_bounds (negsuc a) (negsuc b) h = (ground arith, inr (ground arith, ground arith))

is_trap_inv :
    (left right : ℤ)
    → is_trap left right ≡ true
    → (right ≡ pos 0) ⊎ ((left ≡ negsuc 2147483647) × (right ≡ negsuc 0))
is_trap_inv left (pos b) h = inl (ground arith)
is_trap_inv (pos a) (negsuc b) h = inr (ground arith)
is_trap_inv (negsuc a) (negsuc b) h = inr (ground arith, ground arith)

-- For all `int` operands both results are `int`s. In a division by zero and in that of `INT_MIN`
-- by -1 both are 0; in all others the quotient and the remainder give the dividend back, the
-- remainder is smaller than the divisor, and it has the sign of the dividend or is zero.
pub safe_sdiv-safe_srem :
    (left right : ℤ)
    → IsInt left
    → IsInt right
    → IsInt (safe_sdiv left right)
      × IsInt (safe_srem left right)
      × ((((right ≡ pos 0) ⊎ ((left ≡ negsuc 2147483647) × (right ≡ negsuc 0)))
            × (safe_sdiv left right ≡ pos 0)
            × (safe_srem left right ≡ pos 0))
          ⊎ ((safe_sdiv left right *ℤ right +ℤ safe_srem left right ≡ left)
              × (abs (safe_srem left right) < abs right)
              × HasSignOf left (safe_srem left right)))
unfolding safe_sdiv safe_srem
safe_sdiv-safe_srem left right l r = let (q, m) = safe_IsInt left right l r in (q, m, cases)
  where
    cases :
        (((right ≡ pos 0) ⊎ ((left ≡ negsuc 2147483647) × (right ≡ negsuc 0)))
          × (safe_sdiv left right ≡ pos 0)
          × (safe_srem left right ≡ pos 0))
        ⊎ ((safe_sdiv left right *ℤ right +ℤ safe_srem left right ≡ left)
            × (abs (safe_srem left right) < abs right)
            × HasSignOf left (safe_srem left right))
    cases = elim (Bool-cases (is_trap left right)) [
      | inl trap ↦ inl (is_trap_inv left right trap, rw trap refl, rw trap refl)
      | inr safe ↦
          let nonzero : 0 < abs right = ground arith in
          let law = quotient-remainder left right nonzero in
          let (small, sign) = remainder_bounds left right nonzero in
          inr (rw safe (law, small, sign))
    ]
