-- ===== src/Runtime/Range.antt =====
-- The clamping of a range `start .. end` in `vix_array_slice_bytes`, whose length is an `int`, and in
-- `vix_string_slice`, whose length is a `size_t`.
use Prim.Native.Nat.{max}
use vix_lang.Common.Int.{ℤ, pos, negsuc, pos_part, ltb_ℤ, ◌-ℤ◌, ◌≤ℤ◌, int_max, to_int, to_size}
use vix_lang.Common.{ℕ, ltb, ◌-◌, ap, ◌≤◌, ◌≡◌, arith, if◌then◌else◌, min}

-- `if (start < 0) start = 0; if (end < start) end = start; if (start > length) start = length;
-- if (end > length) end = length;`
unfoldable pub clamp_range : ℤ → ℤ → ℤ → ℤ × ℤ
clamp_range start end length =
    let start' = if ltb_ℤ start (pos 0) then pos 0 else start in
    let end' = if ltb_ℤ end start' then start' else end in
    (if ltb_ℤ length start' then length else start', if ltb_ℤ length end' then length else end')

-- The clamped start and end, in closed form.
abbrev pub low : ℤ → ℕ → ℕ
low start n = min (pos_part start) n

abbrev pub high : ℤ → ℤ → ℕ → ℕ
high start end n = min (max (pos_part start) (pos_part end)) n

-- The clamped range lies inside the object: its ends are the given ones where these are in range
-- and in order, and the nearest such otherwise.
clamp_range_lem :
    (start end : ℤ) (n : ℕ)
    → clamp_range start end (pos n) ≡ (pos (low start n), pos (high start end n))
unfolding clamp_range
clamp_range_lem start end n = ground arith

pub low-le-high : (start end : ℤ) (n : ℕ) → low start n ≤ high start end n
low-le-high start end n = omega arith

-- What a caller computes from the clamped range: its first position and its width.
pub clamp_range-low :
    (start end : ℤ) (n : ℕ) → pos_part (clamp_range start end (pos n)).0 ≡ low start n
clamp_range-low start end n = ap (λ p. pos_part p.0) (clamp_range_lem start end n)

pub clamp_range-width :
    (start end : ℤ) (n : ℕ)
    → pos_part ((clamp_range start end (pos n)).1 -ℤ (clamp_range start end (pos n)).0)
      ≡ high start end n - low start n
clamp_range-width start end n = rw clamp_range_lem (ground (arith, low-le-high start end n))

-- `if (start < 0) start = 0; if (end < start) end = start;
-- if ((size_t)start > length) start = (int)length; if ((size_t)end > length) end = (int)length;`
unfoldable pub clamp_sized : ℤ → ℤ → ℕ → ℤ × ℤ
clamp_sized start end length =
    let start' = if ltb_ℤ start (pos 0) then pos 0 else start in
    let end' = if ltb_ℤ end start' then start' else end in
    (
      if ltb length (to_size start') then to_int length else start',
      if ltb length (to_size end') then to_int length else end',
    )

-- For ends that are `int`s the casts change nothing, however long the object is.
pub clamp_sized_lem :
    (start end : ℤ) (n : ℕ)
    → start ≤ℤ pos int_max
    → end ≤ℤ pos int_max
    → clamp_sized start end n ≡ (pos (low start n), pos (high start end n))
unfolding clamp_sized
clamp_sized_lem (pos a) (pos b) n h k = ground arith
clamp_sized_lem (pos a) (negsuc b) n h k = ground arith
clamp_sized_lem (negsuc a) (pos b) n h k = ground arith
clamp_sized_lem (negsuc a) (negsuc b) n h k = ground arith
