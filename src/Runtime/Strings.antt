-- ===== src/Runtime/Strings.antt =====
-- `vix_string_concat` and `vix_string_slice`. A string pointer is `none` for `NULL`; the parameter
-- says for which sizes `malloc` gives a block.
use vix_lang.Common.Int.{ℤ, pos, to_size, int_max, ◌-ℤ◌, ◌≤ℤ◌}
use vix_lang.Common.Text.{Bytes}
use vix_lang.Common.{
  ℕ, ◌+◌, ◌-◌, ◌≡◌, refl, Bool, Option, none, some, [], ◌++◌, arith, length, take, drop,
  if◌then◌else◌,
}
use vix_lang.Runtime.Range.{clamp_sized, clamp_sized_lem, low, high, low-le-high}

-- `if (s == NULL) s = "";`
abbrev pub or_empty : Option Bytes → Bytes
or_empty none = []
or_empty (some s) = s

module _ (can_alloc : ℕ → Bool) where
  unfoldable pub string_concat : Option Bytes → Option Bytes → Option Bytes
  string_concat a b =
      if can_alloc (length (or_empty a) + length (or_empty b) + 1)
      then some (or_empty a ++ or_empty b)
      else none

  unfoldable pub string_slice : Option Bytes → ℤ → ℤ → Option Bytes
  string_slice s start end =
      let text = or_empty s in
      let (lo, hi) = clamp_sized start end (length text) in
      let count = to_size (hi -ℤ lo) in
      if can_alloc (count + 1) then some (take count (drop (to_size lo) text)) else none

-- The bytes of the clamped range.
abbrev pub window : Bytes → ℤ → ℤ → Bytes
window s start end =
    take (high start end (length s) - low start (length s)) (drop (low start (length s)) s)

abbrev pub width : Bytes → ℤ → ℤ → ℕ
width s start end = high start end (length s) - low start (length s)

module _ (can_alloc : ℕ → Bool) where
  -- A slice is a fresh string with the bytes of the clamped range, `NULL` counting as the empty
  -- string; it is `NULL` exactly where no block of one byte more than that can be had.
  pub string_slice_lem :
      (s : Option Bytes) (start end : ℤ)
      → start ≤ℤ pos int_max
      → end ≤ℤ pos int_max
      → string_slice can_alloc s start end ≡ (
          if can_alloc (width (or_empty s) start end + 1)
          then some (window (or_empty s) start end)
          else none)
  unfolding string_slice
  string_slice_lem s start end h k =
      let n = length (or_empty s) in
      let ends = low-le-high start end n in
      let count : to_size (pos (high start end n) -ℤ pos (low start n))
          ≡ width (or_empty s) start end =
        ground (arith, ends) in
      rw (clamp_sized_lem start end n h k, count) refl
