-- ===== src/Runtime/Array/Push.antt =====
-- Pushing: the reserved block, the invariant of arrays, and the list that an array stands for.
use native.Mathlib.Nat.{le-div_iff_mul-le}
use vix_lang.Common.Int.{pos, int_max, size_max}
use vix_lang.Common.Text.{Bytes}
use vix_lang.Common.{
  ℕ, ◌+◌, ◌-◌, ◌*◌, ◌/◌, ◌≤◌, ◌<◌, ◌≡◌, ◌≢◌, inl, inr, ap, ◌∙◌, sym, Option, none, some, ◌++◌, [],
  arith, Option-cases, Bool-cases, length, take, drop, length-append, length-take, length-drop,
  append_assoc, take_of_length-le, take-append, ltb,
}
use vix_lang.Runtime.Array.{
  Array, Allocator, array_len, array_capacity, old_data, reserve_at, reserve_for_push, push_raw,
  header_bytes, write_at, store_back,
}
use vix_lang.Runtime.Array.Growth.{grown_capacity_lem}

-- A block whose header words are `int`s that describe its data.
pub record IsArray (es : ℕ) (a : Array) (n : ℕ) (c : ℕ) : Type 0 where
  pub len_is : a.len ≡ pos n
  pub capacity_is : a.capacity ≡ pos c
  pub len_le : n ≤ c
  pub capacity_le : c ≤ int_max
  pub bytes_length : length a.bytes ≡ c * es

-- `NULL` is the array with no elements.
abbrev pub IsValid : ℕ → Option Array → ℕ → Type 0
IsValid es none n = n ≡ 0
IsValid es (some a) n = (c : ℕ) × IsArray es a n c

-- The bytes of the elements, in order.
abbrev pub contents : ℕ → Option Array → ℕ → Bytes
contents es none n = []
contents es (some a) n = take (n * es) a.bytes

module _ (m : Allocator) (es : ℕ) where
  open m use {resize, resize-length, resize_keeps}

  -- The block that `realloc` gives has the new header and the old bytes at its front.
  reserve_at-IsArray :
      (arr : Option Array) (n c : ℕ) (a : Array)
      → n * es ≤ length (old_data arr)
      → n < c
      → c ≤ int_max
      → reserve_at m arr es n (n + 1) c ≡ some a
      → IsArray es a n c × (take (n * es) a.bytes ≡ take (n * es) (old_data arr))
  unfolding reserve_at
  reserve_at-IsArray arr n c a fits lt hi h =
      elim (Option-cases (resize (header_bytes + c * es) (old_data arr))) [
        | inl e ↦ ground arith
        | inr (d, e) ↦
            let size = resize-length (header_bytes + c * es) (old_data arr) d e in
            let small : n * es ≤ c * es = grind arith in
            let keeps =
              resize_keeps (header_bytes + c * es) (old_data arr) d (n * es) e fits (omega arith) in
            (ground arith, ground (arith, keeps))
      ]

  -- A reserved block has room for one more element and still holds the old ones.
  reserve-IsArray :
      (arr : Option Array) (n : ℕ) (a : Array)
      → IsValid es arr n
      → n < int_max
      → reserve_for_push m arr es (pos n) (pos (n + 1)) ≡ some a
      → (c : ℕ) × IsArray es a n c × (n < c) × (take (n * es) a.bytes ≡ contents es arr n)
  unfolding reserve_for_push array_capacity
  reserve-IsArray none n a v lt h =
      let (r, e, enough, _, _, hi, _) = grown_capacity_lem 0 (n + 1) (omega arith) (omega arith) in
      let h' : reserve_at m none es n (n + 1) r ≡ some a = ground arith in
      let (block, keeps) = reserve_at-IsArray none n r a (rw v (omega arith)) (omega arith) hi h' in
      (r, block, omega arith, keeps ∙ take_of_length-le (n * es) [] (omega arith))
  reserve-IsArray (some b) n a (c, v) lt h = elim (Bool-cases (ltb c (n + 1))) [
    | inl full ↦
        let (r, e, enough, _, _, hi, _) =
          grown_capacity_lem c (n + 1) v.capacity_le (omega arith) in
        let h' : reserve_at m (some b) es n (n + 1) r ≡ some a = ground arith in
        let fits : n * es ≤ c * es = grind arith in
        let (block, keeps) = reserve_at-IsArray (some b) n r a (omega arith) (omega arith) hi h' in
        (r, block, omega arith, keeps)
    | inr room ↦ (c, ground arith, ground arith, ground arith)
  ]

-- A write behind a prefix extends the prefix, and keeps the size of the block.
write_at_back :
    (b val : Bytes) (at total : ℕ)
    → total ≡ at + length val
    → total ≤ length b
    → (take total (write_at at val b) ≡ take at b ++ val) × (length (write_at at val b) ≡ length b)
write_at_back b val at total e h = (
  rw (← append_assoc (take at b) val (drop (at + length val) b)) (
      take-append (take at b ++ val) _ total
        (omega (arith, length-append (take at b) val, length-take at b))),
  omega (
    arith,
    length-append (take at b) (val ++ drop (at + length val) b),
    length-append val (drop (at + length val) b),
    length-take at b,
    length-drop (at + length val) b,
  ),
)

array_len_valid : (es : ℕ) (arr : Option Array) (n : ℕ) → IsValid es arr n → array_len arr ≡ pos n
unfolding array_len
array_len_valid es none n v = ap pos (sym v)
array_len_valid es (some a) n (c, v) = v.len_is

len-le-int_max : (es : ℕ) (arr : Option Array) (n : ℕ) → IsValid es arr n → n ≤ int_max
len-le-int_max es none n v = omega arith
len-le-int_max es (some a) n (c, v) = omega arith

-- The element is written behind the old ones in a block that has room for it.
store_back-IsArray :
    (val : Bytes) (b : Array) (n c : ℕ)
    → IsArray (length val) b n c
    → n < c
    → IsArray (length val) (store_back n val b) (n + 1) c
      × (take ((n + 1) * length val) (store_back n val b).bytes
          ≡ take (n * length val) b.bytes ++ val)
unfolding store_back
store_back-IsArray val b n c v lt =
    let fits : (n + 1) * length val ≤ c * length val = grind arith in
    let (front, size) =
      write_at_back b.bytes val (n * length val) ((n + 1) * length val) (omega arith)
        (omega arith) in
    (ground arith, front)

module _ (m : Allocator) (val : Bytes) where
  -- A push of a value of at least one byte onto a valid array of such elements, where it gives an
  -- array, gives a valid one with one element more, whose contents are the old contents with the
  -- value behind them; the old array was then shorter than `INT_MAX`.
  pub push_raw-IsValid :
      (arr : Option Array) (n : ℕ) (a : Array)
      → IsValid (length val) arr n
      → 0 < length val
      → push_raw m arr val ≡ some a
      → (n < int_max)
        × IsValid (length val) (some a) (n + 1)
        × (contents (length val) (some a) (n + 1) ≡ contents (length val) arr n ++ val)
  unfolding push_raw array_len
  push_raw-IsValid arr n a v nonempty h =
      elim (Option-cases (reserve_for_push m arr (length val) (pos n) (pos (n + 1)))) [
        | inl e ↦ ground (arith, array_len_valid (length val) arr n v)
        | inr (b, e) ↦
            let l = array_len_valid (length val) arr n v in
            let lt : n < int_max = ground (arith, len-le-int_max (length val) arr n v) in
            let written : a ≡ store_back n val b = ground arith in
            let (c, block, room, keeps) = reserve-IsArray m (length val) arr n b v lt e in
            let (longer, front) = store_back-IsArray val b n c block room in
            (lt, rw written (c, longer), rw (written, front, keeps))
      ]

-- An element of at most 2 ^ 32 bytes passes the test on the size of the block.
size_in_range :
    (es c : ℕ)
    → es ≤ 4294967296
    → 0 < c
    → c ≤ int_max
    → (es ≤ (size_max - header_bytes) / c) × (header_bytes + c * es ≤ size_max)
size_in_range es c small pos_c hi =
    let bound : es * c ≤ 4294967296 * c = grind arith in
    ((le-div_iff_mul-le pos_c).1 (omega arith), omega arith)

module _ (m : Allocator) (es : ℕ) (small : es ≤ 4294967296)
    (alloc : (total : ℕ) (old : Bytes) → total ≤ size_max → m.resize total old ≢ none) where
  reserve_at-ne-none :
      (arr : Option Array) (n c : ℕ) → n < c → c ≤ int_max → reserve_at m arr es n (n + 1) c ≢ none
  unfolding reserve_at
  reserve_at-ne-none arr n c lt hi =
      let (fits, total) = size_in_range es c small (omega arith) hi in
      ground (arith, alloc (header_bytes + c * es) (old_data arr) total)

  reserve-ne-none :
      (arr : Option Array) (n : ℕ)
      → IsValid es arr n
      → n < int_max
      → reserve_for_push m arr es (pos n) (pos (n + 1)) ≢ none
  unfolding reserve_for_push array_capacity
  reserve-ne-none none n v lt =
      let (r, e, enough, _, _, hi, _) = grown_capacity_lem 0 (n + 1) (omega arith) (omega arith) in
      ground (arith, reserve_at-ne-none none n r (omega arith) hi)
  reserve-ne-none (some b) n (c, v) lt =
      let (r, e, enough, _, _, hi, _) = grown_capacity_lem c (n + 1) v.capacity_le (omega arith) in
      ground (arith, reserve_at-ne-none (some b) n r (omega arith) hi)

-- A push of a value of 1 to 2 ^ 32 bytes onto a valid array that is shorter than `INT_MAX`
-- succeeds if the allocator gives every block of at most `SIZE_MAX` bytes.
pub push_raw-ne-none :
    (m : Allocator) (val : Bytes) (arr : Option Array) (n : ℕ)
    → ((total : ℕ) (old : Bytes) → total ≤ size_max → m.resize total old ≢ none)
    → IsValid (length val) arr n
    → n < int_max
    → 0 < length val
    → length val ≤ 4294967296
    → push_raw m arr val ≢ none
unfolding push_raw
push_raw-ne-none m val arr n alloc v lt nonempty small = ground (
  arith,
  array_len_valid (length val) arr n v,
  reserve-ne-none m (length val) small alloc arr n v lt,
)
