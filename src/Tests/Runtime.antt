-- ===== src/Tests/Runtime.antt =====
-- `src/runtime.c` at concrete inputs.
use vix_lang.Common.Int.{pos, negsuc, int_max, size_max, ◌+ℤ◌, ◌*ℤ◌}
use vix_lang.Common.Text.{Bytes, codes}
use vix_lang.Common.{
  ◌⊎◌, ℕ, zero, suc, ◌+◌, ◌-◌, ◌*◌, ◌≤◌, ◌<◌, ◌≡◌, ◌≢◌, refl, ap, arith, Bool, true, Option, none,
  some, [], ◌∷◌, ◌++◌, length, take, drop,
}
use vix_lang.Runtime.Array.{
  Array, Allocator, header_bytes, grown_capacity, le_bytes, push_raw, push_i32, push_ptr,
  slice_bytes, reserve_for_push, array_len, array_capacity,
}
use vix_lang.Runtime.Array.Elements.{le_value, element, push_i32-read}
use vix_lang.Runtime.Array.Push.{IsValid, contents, push_raw-IsValid, push_raw-ne-none}
use vix_lang.Runtime.Array.Slice.{slice_bytes-IsValid}
use vix_lang.Runtime.Division.{IsInt, abs, HasSignOf, safe_sdiv, safe_srem, safe_sdiv-safe_srem}
use vix_lang.Runtime.Range.{low, high, clamp_range}
use vix_lang.Runtime.Strings.{string_concat}

-- An allocator that always succeeds, with zeros in the new bytes.
pad : ℕ → Bytes → Bytes
pad zero s = []
pad (suc n) [] = 0 ∷ pad n []
pad (suc n) (c ∷ s) = c ∷ pad n s

length-pad : (n : ℕ) (s : Bytes) → length (pad n s) ≡ n
unfolding pad
length-pad zero s = refl
length-pad (suc n) [] = ap suc (length-pad n [])
length-pad (suc n) (c ∷ s) = ap suc (length-pad n s)

take-pad : (k n : ℕ) (s : Bytes) → k ≤ length s → k ≤ n → take k (pad n s) ≡ take k s
unfolding pad
take-pad zero n s h l = refl
take-pad (suc k) zero s h l = elim l [ ]
take-pad (suc k) (suc n) [] h l = elim h [ ]
take-pad (suc k) (suc n) (c ∷ s) h l = ap (◌∷◌ c) (take-pad k n s (omega arith) (omega arith))

abbrev resize : ℕ → Bytes → Option Bytes
resize total old = some (pad (total - header_bytes) old)

resize-length :
    (total : ℕ) (old new : Bytes) → resize total old ≡ some new → length new ≡ total - header_bytes
resize-length total old new h =
    let e : pad (total - header_bytes) old ≡ new = cc in rw (← e) (length-pad _ old)

resize_keeps :
    (total : ℕ) (old new : Bytes) (n : ℕ)
    → resize total old ≡ some new
    → n ≤ length old
    → n ≤ length new
    → take n new ≡ take n old
resize_keeps total old new n h l l' =
    let e : pad (total - header_bytes) old ≡ new = cc in
    let size = rw (← e) at l' in
    rw (← e) (
      take-pad n (total - header_bytes) old l
        (omega (arith, size, length-pad (total - header_bytes) old)))

resize_some : (total : ℕ) (old : Bytes) → total ≤ size_max → resize total old ≢ none
resize_some total old h e = cc

abbrev zeroing : Allocator
zeroing = record { resize = resize; resize-length = resize-length; resize_keeps = resize_keeps }

-- Eight elements of four bytes, the first of which is 7.
abbrev one_int : Array
one_int = record { len = pos 1; capacity = pos 8; bytes = 7 ∷ 1 ∷ 0 ∷ 0 ∷ pad 28 [] }

push_one : push_i32 zeroing none 263 ≡ some one_int
unfolding push_i32 push_raw reserve_for_push grown_capacity array_len array_capacity pad
push_one = refl

push_i32-read_example : le_value (element 4 (some one_int) 0) ≡ 263
push_i32-read_example = push_i32-read zeroing none one_int 0 263 refl (omega arith) push_one

one_int-IsValid : IsValid 4 (some one_int) 1
one_int-IsValid = (
  8,
  record {
    len_is = refl;
    capacity_is = refl;
    len_le = omega arith;
    capacity_le = omega arith;
    bytes_length = unfold pad in refl;
  },
)

abbrev one_ptr : Array
one_ptr = record {
  len = pos 1;
  capacity = pos 8;
  bytes = 9 ∷ 0 ∷ 0 ∷ 0 ∷ 0 ∷ 0 ∷ 0 ∷ 0 ∷ pad 56 [];
}

push_pointer : push_ptr zeroing none 9 ≡ some one_ptr
unfolding push_ptr push_raw reserve_for_push grown_capacity array_len array_capacity pad
push_pointer = refl

push_raw_one : push_raw zeroing none (le_bytes 4 263) ≡ some one_int
unfolding push_raw reserve_for_push grown_capacity array_len array_capacity pad
push_raw_one = refl

push_raw-IsValid_example :
    (0 < int_max)
    × IsValid 4 (some one_int) (0 + 1)
    × (contents 4 (some one_int) (0 + 1) ≡ contents 4 none 0 ++ le_bytes 4 263)
push_raw-IsValid_example =
    push_raw-IsValid zeroing (le_bytes 4 263) none 0 one_int refl (omega arith) push_raw_one

push_raw-ne-none_example : push_raw zeroing (some one_int) (le_bytes 4 5) ≢ none
push_raw-ne-none_example =
    push_raw-ne-none zeroing (le_bytes 4 5) (some one_int) 1 resize_some one_int-IsValid
      (omega arith) (omega arith) (omega arith)

abbrev sliced : Array
sliced = record { len = pos 1; capacity = pos 1; bytes = 7 ∷ 1 ∷ 0 ∷ 0 ∷ [] }

slice_one : slice_bytes zeroing (some one_int) (negsuc 2) (pos 5) 4 ≡ some sliced
unfolding slice_bytes clamp_range array_len pad
slice_one = refl

slice_bytes-IsValid_example :
    IsValid 4 (some sliced) (high (negsuc 2) (pos 5) 1 - low (negsuc 2) 1)
    × (contents 4 (some sliced) (high (negsuc 2) (pos 5) 1 - low (negsuc 2) 1)
        ≡ take
            ((high (negsuc 2) (pos 5) 1 - low (negsuc 2) 1) * 4)
            (drop (low (negsuc 2) 1 * 4) (contents 4 (some one_int) 1)))
slice_bytes-IsValid_example =
    slice_bytes-IsValid zeroing 4 one_int sliced 1 (negsuc 2) (pos 5) one_int-IsValid (omega arith)
      slice_one

-- The quotient that is no `int`.
safe_sdiv-safe_srem_example :
    let left = negsuc int_max in
    let right = negsuc 0 in
    IsInt (safe_sdiv left right)
    × IsInt (safe_srem left right)
    × ((((right ≡ pos 0) ⊎ ((left ≡ negsuc 2147483647) × (right ≡ negsuc 0)))
          × (safe_sdiv left right ≡ pos 0)
          × (safe_srem left right ≡ pos 0))
        ⊎ ((safe_sdiv left right *ℤ right +ℤ safe_srem left right ≡ left)
            × (abs (safe_srem left right) < abs right)
            × HasSignOf left (safe_srem left right)))
safe_sdiv-safe_srem_example =
    safe_sdiv-safe_srem (negsuc int_max) (negsuc 0) (omega arith, omega arith)
      (omega arith, omega arith)

truncated : (safe_sdiv (negsuc 6) (pos 2) ≡ negsuc 2) × (safe_srem (negsuc 6) (pos 2) ≡ negsuc 0)
unfolding safe_sdiv safe_srem
truncated = (refl, refl)

trapped : safe_sdiv (negsuc int_max) (negsuc 0) ≡ pos 0
unfolding safe_sdiv
trapped = refl

always : ℕ → Bool
always n = true

always-true : (n : ℕ) → always n ≡ true
unfolding always
always-true n = refl

joined : string_concat always (some (codes "ab")) (some (codes "c")) ≡ some (codes "abc")
unfolding string_concat always
joined = refl
