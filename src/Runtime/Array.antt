-- ===== src/Runtime/Array.antt =====
-- The growable arrays of `src/runtime.c`. An array pointer is `none` for `NULL`; a block is its
-- two header words and the bytes behind them. The C library's `realloc` and `malloc` are the
-- parameter `Allocator`.
pub mod Growth
pub mod Elements
pub mod Push
pub mod Slice
use vix_lang.Common.Int.{ℤ, pos, ltb_ℤ, ◌-ℤ◌, int_max, size_max, pos_part, to_int}
use vix_lang.Runtime.Range.{clamp_range}
use vix_lang.Common.Text.{Bytes}
use vix_lang.Common.{
  ℕ, zero, suc, ◌+◌, ◌-◌, ◌*◌, ◌/◌, ◌%◌, ◌≤◌, ◌≡◌, Bool, true, false, ◌&&◌, ◌||◌, Option, none,
  some, [], ◌∷◌, ◌++◌, ltb, leb, ◌==◌, if◌then◌else◌, ◌>>=◌, length, take, drop, min,
}

abbrev pub header_bytes : ℕ
header_bytes = 8

abbrev pub initial_capacity : ℕ
initial_capacity = 8

-- `header[0]`, `header[1]` and the data behind the header
pub record Array : Type 0 where
  pub len : ℤ
  pub capacity : ℤ
  pub bytes : Bytes

-- `realloc`: the total size asked for and the data of the old block give the data of the new
-- block, or `none`. `realloc(NULL, n)` is `malloc(n)`, of a block with no old data.
pub record Allocator : Type 0 where
  pub resize : ℕ → Bytes → Option Bytes
  pub resize-length :
      (total : ℕ) (old new : Bytes)
      → resize total old ≡ some new
      → length new ≡ total - header_bytes
  pub resize_keeps :
      (total : ℕ) (old new : Bytes) (n : ℕ)
      → resize total old ≡ some new
      → n ≤ length old
      → n ≤ length new
      → take n new ≡ take n old

unfoldable pub array_len : Option Array → ℤ
array_len none = pos 0
array_len (some a) = a.len

unfoldable pub array_capacity : Option Array → ℤ
array_capacity none = pos 0
array_capacity (some a) = a.capacity

-- The `while` of `vix_array_grown_capacity`, on fuel; `none` means that the fuel ran out. The
-- doubling cannot overflow behind the first test, so `next <= capacity` holds only at 0.
unfoldable pub grow : ℕ → ℕ → ℕ → Option ℕ
grow zero capacity needed = none
grow (suc fuel) capacity needed =
    let rest = grow fuel (capacity * 2) needed in
    if ltb capacity needed
    then (if ltb (int_max / 2) capacity
        then some needed
        else if leb (capacity * 2) capacity
        then some needed
        else rest)
    else some capacity

-- 32 rounds are enough for an `int`, since the capacity doubles from 8.
unfoldable pub grown_capacity : ℤ → ℕ → Option ℕ
unfolding grow
grown_capacity old needed =
    grow 32 (if ltb_ℤ old (pos initial_capacity) then initial_capacity else pos_part old) needed

abbrev pub old_data : Option Array → Bytes
old_data none = []
old_data (some a) = a.bytes

module _ (m : Allocator) where
  open m use {resize}

  -- The reallocation of `vix_array_reserve_for_push`, at the grown capacity.
  unfoldable pub reserve_at : Option Array → ℕ → ℕ → ℕ → ℕ → Option Array
  reserve_at arr elem_size old_len new_len new_capacity =
      if ltb new_capacity new_len || ltb ((size_max - header_bytes) / new_capacity) elem_size
      then none
      else do
        data' ← resize (header_bytes + new_capacity * elem_size) (old_data arr)
        some (record { len = pos old_len; capacity = pos new_capacity; bytes = data' })

  unfoldable pub reserve_for_push : Option Array → ℕ → ℤ → ℤ → Option Array
  unfolding reserve_at
  reserve_for_push arr elem_size old_len new_len =
      if ltb_ℤ old_len (pos 0) || ltb_ℤ new_len (pos 0) || ltb_ℤ (array_capacity arr) (pos 0)
      then none
      else if leb (pos_part new_len) (pos_part (array_capacity arr))
      then arr
      else do
        new_capacity ← grown_capacity (array_capacity arr) (pos_part new_len)
        reserve_at arr elem_size (pos_part old_len) (pos_part new_len) new_capacity

-- `memcpy(data + at, val, length val)`
abbrev pub write_at : ℕ → Bytes → Bytes → Bytes
write_at at val bytes = take at bytes ++ (val ++ drop (at + length val) bytes)

-- The write of `vix_array_push_raw` into a reserved block.
unfoldable pub store_back : ℕ → Bytes → Array → Array
store_back old_len val a = record {
  len = pos (old_len + 1);
  capacity = a.capacity;
  bytes = write_at (old_len * length val) val a.bytes;
}

module _ (m : Allocator) where
  -- `elem_size` is the length of `val`. A failed push gives `NULL`.
  unfoldable pub push_raw : Option Array → Bytes → Option Array
  unfolding store_back
  push_raw arr val =
      if length val == 0
      then arr
      else if ltb_ℤ (array_len arr) (pos 0) || pos_part (array_len arr) == int_max
      then none
      else do
        let old_len = pos_part (array_len arr)
        reserved ← reserve_for_push m arr (length val) (pos old_len) (pos (old_len + 1))
        some (store_back old_len val reserved)

-- The bytes of a little-endian machine word.
abbrev pub le_bytes : ℕ → ℕ → Bytes
le_bytes zero v = []
le_bytes (suc k) v = (v % 256) ∷ le_bytes k (v / 256)

module _ (m : Allocator) where
  -- The value is the bit pattern of the `int`.
  unfoldable pub push_i32 : Option Array → ℕ → Option Array
  push_i32 arr val = push_raw m arr (le_bytes 4 val)

  -- The value is the address that the pointer holds.
  unfoldable pub push_ptr : Option Array → ℕ → Option Array
  push_ptr arr val = push_raw m arr (le_bytes 8 val)

  unfoldable pub push_bytes : Option Array → Bytes → Option Array
  push_bytes arr val = push_raw m arr val

  -- The copy of `vix_array_slice_bytes`, of `count` elements from `start` on.
  unfoldable pub slice_at : Array → ℕ → ℕ → ℕ → Option Array
  slice_at a start count elem_size =
      if count == 0 || ltb ((size_max - header_bytes) / elem_size) count then none else do
        fresh ← m.resize (header_bytes + count * elem_size) []
        some (record {
          len = to_int count;
          capacity = to_int count;
          bytes = write_at 0 (take (count * elem_size) (drop (start * elem_size) a.bytes)) fresh;
        })

  unfoldable pub slice_bytes : Option Array → ℤ → ℤ → ℕ → Option Array
  unfolding slice_at
  slice_bytes none start end elem_size = none
  slice_bytes (some a) start end elem_size =
      if elem_size == 0
      then none
      else (let (lo, hi) = clamp_range start end (array_len (some a)) in
          slice_at a (pos_part lo) (pos_part (hi -ℤ lo)) elem_size)
