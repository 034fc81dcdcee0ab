-- ===== src/Runtime/Array/Slice.antt =====
-- Slicing an array: `vix_array_slice_bytes`.
use vix_lang.Common.Int.{ℤ, pos, pos_part, to_int_small, ◌-ℤ◌}
use vix_lang.Common.{
  ◌==◌, false, ℕ, ◌+◌, ◌-◌, ◌*◌, ◌≤◌, ◌<◌, ◌≡◌, refl, ap, inl, inr, ◌∙◌, sym, none, some, [], arith,
  Option-cases, length, take, drop, length-take, length-drop, take_of_length-le, drop_of_length-le,
  append-nil, take-drop-take,
}
use vix_lang.Runtime.Array.{
  Array, Allocator, header_bytes, array_len, slice_at, slice_bytes, write_at,
}
use vix_lang.Runtime.Array.Push.{IsArray, IsValid, contents}
use vix_lang.Runtime.Range.{clamp_range, clamp_range-low, clamp_range-width, low, high, low-le-high}

pub mul_mono : (es a b : ℕ) → a ≤ b → a * es ≤ b * es
mul_mono es a b h = grind arith

-- The copy has exactly the chosen elements, and its length for a capacity.
slice_at-IsArray :
    (m : Allocator) (a : Array) (es n c s count : ℕ) (r : Array)
    → IsArray es a n c
    → s + count ≤ n
    → slice_at m a s count es ≡ some r
    → IsArray es r count count
      × (take (count * es) r.bytes ≡ take (count * es) (drop (s * es) (take (n * es) a.bytes)))
unfolding slice_at
slice_at-IsArray m a es n c s count r v inside h =
    elim (Option-cases (m.resize (header_bytes + count * es) [])) [
      | inl e ↦ ground arith
      | inr (d, e) ↦
          let size = m.resize-length (header_bytes + count * es) [] d e in
          let fits : s * es + count * es ≤ n * es =
            omega (arith, mul_mono es (s + count) n inside) in
          let inside' : n * es ≤ c * es = mul_mono es n c v.len_le in
          let src = take (count * es) (drop (s * es) a.bytes) in
          let src_size : length src ≡ count * es = omega (
            arith,
            length-take (count * es) (drop (s * es) a.bytes),
            length-drop (s * es) a.bytes,
          ) in
          let whole : write_at 0 src d ≡ src =
            rw (drop_of_length-le (0 + length src) d (omega arith)) (append-nil src) in
          let small = to_int_small count (omega arith) in
          let copied : r.bytes ≡ src = ground (arith, whole) in
          (
            ground (arith, ap length copied),
            rw (copied, take_of_length-le (count * es) src (omega arith))
                (sym (take-drop-take (s * es) (count * es) (n * es) a.bytes fits)),
          )
    ]

-- The slice copies the clamped range.
slice_bytes-slice_at :
    (m : Allocator) (es : ℕ) (a : Array) (n : ℕ) (start end : ℤ)
    → a.len ≡ pos n
    → 0 < es
    → slice_bytes m (some a) start end es
      ≡ slice_at m a (low start n) (high start end n - low start n) es
unfolding slice_bytes array_len
slice_bytes-slice_at m es a n start end e sized =
    let lo = ap (λ l. pos_part (clamp_range start end l).0) e ∙ clamp_range-low start end n in
    let width =
      ap (λ l. pos_part ((clamp_range start end l).1 -ℤ (clamp_range start end l).0)) e
      ∙ clamp_range-width start end n in
    let present : (es == 0) ≡ false = ground arith in rw (present, width, lo) refl

-- A slice of a valid array with elements of at least one byte, where it gives an array, gives a
-- valid one with the elements of the clamped range, in order, and as many as the range is long.
pub slice_bytes-IsValid :
    (m : Allocator) (es : ℕ) (a r : Array) (n : ℕ) (start end : ℤ)
    → IsValid es (some a) n
    → 0 < es
    → slice_bytes m (some a) start end es ≡ some r
    → IsValid es (some r) (high start end n - low start n)
      × (contents es (some r) (high start end n - low start n)
          ≡ take
              ((high start end n - low start n) * es)
              (drop (low start n * es) (contents es (some a) n)))
slice_bytes-IsValid m es a r n start end (c, v) sized h =
    let inside = low-le-high start end n in
    let h' = sym (slice_bytes-slice_at m es a n start end v.len_is sized) ∙ h in
    let (block, copied) =
      slice_at-IsArray m a es n c (low start n) (high start end n - low start n) r v (omega arith)
        h' in
    ((high start end n - low start n, block), copied)

-- A slice of an empty range is `NULL`, the array with no elements.
pub slice_bytes_empty :
    (m : Allocator) (es : ℕ) (a : Array) (n : ℕ) (start end : ℤ)
    → IsValid es (some a) n
    → 0 < es
    → high start end n ≡ low start n
    → slice_bytes m (some a) start end es ≡ none
unfolding slice_at
slice_bytes_empty m es a n start end (c, v) sized h =
    slice_bytes-slice_at m es a n start end v.len_is sized ∙ rw h (ground arith)
