-- ===== src/Helper/Substring.antt =====
-- Copies of a part of a text.
use vix_lang.Common.Int.{ℤ, pos, pos_part, int_max, to_int_small, to_size, ◌-ℤ◌, ◌≤ℤ◌}
use vix_lang.Common.Text.{Bytes}
use vix_lang.Common.{
  ℕ, none, if◌then◌else◌, take, drop, min, ◌-◌, ◌+◌, ◌≤◌, ◌≡◌, refl, Bool, true, some, ◌++◌, length,
  length-append, take-append, drop-append, arith,
}
use vix_lang.Runtime.Strings.{string_slice, string_slice_lem, width, window}
use vix_lang.Runtime.Range.{low, high, low-le-high}
use Prim.Native.Nat.{max}
use vix_lang.Helper.{source_line_copy, substr, substr_range}

substr_range_lem :
    (start end : ℤ) (n : ℕ)
    → substr_range start end (pos n) ≡ (pos (low start n), pos (high start end n))
unfolding substr_range
substr_range_lem start end n = ground arith

module _ (can_alloc : ℕ → Bool) where
  pub substr-string_slice :
      (text : Bytes) (start end : ℤ)
      → length text ≤ int_max
      → start ≤ℤ pos int_max
      → end ≤ℤ pos int_max
      → let lo = min (pos_part start) (length text) in
        let hi = min (max (pos_part start) (pos_part end)) (length text) in
        let copied =
          if can_alloc (hi - lo + 1) then some (take (hi - lo) (drop lo text)) else none in
        (substr can_alloc (some text) start end ≡ copied)
        × (string_slice can_alloc (some text) start end ≡ copied)
  substr-string_slice text start end h k l =
      (substr_lem, string_slice_lem can_alloc (some text) start end k l)
    where
      count :
          to_size (pos (high start end (length text)) -ℤ pos (low start (length text)))
          ≡ high start end (length text) - low start (length text)
      count = ground (arith, low-le-high start end (length text))

      substr_lem :
          substr can_alloc (some text) start end
          ≡ (if can_alloc (width text start end + 1) then some (window text start end) else none)
      substr_lem =
          unfold substr in
          rw (to_int_small (length text) h, substr_range_lem start end (length text), count) refl

  -- A copied line is the text of the given length at the given position.
  source_line_copy-append :
      (before line after : Bytes)
      → ((n : ℕ) → can_alloc n ≡ true)
      → source_line_copy can_alloc
          (some (before ++ (line ++ after)))
          (pos (length before))
          (pos (length line))
        ≡ some line
  unfolding source_line_copy
  source_line_copy-append before line after alloc =
      let size = length-append before (line ++ after) in
      let size' = length-append line after in
      rw (drop-append before (line ++ after), take-append line after (length line) refl)
        (ground (arith, size, size', alloc (length line + 1)))
