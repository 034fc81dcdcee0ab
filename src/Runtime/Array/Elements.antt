-- ===== src/Runtime/Array/Elements.antt =====
-- What is read back from pushed words: `vix_array_push_i32` and `vix_array_push_ptr`.
use vix_lang.Common.Text.{Bytes}
use vix_lang.Common.{
  ℕ, zero, suc, ◌+◌, ◌*◌, ◌/◌, ◌^◌, ◌≤◌, ◌<◌, ◌≡◌, refl, ap, Option, none, some, [], ◌∷◌, ◌++◌,
  arith, length, take, drop, drop-append_at, length-take, drop-take,
}
use vix_lang.Runtime.Array.{Array, Allocator, le_bytes, push_i32, push_ptr}
use vix_lang.Runtime.Array.Push.{IsValid, contents, push_raw-IsValid}
use vix_lang.Runtime.Array.Slice.{mul_mono}
use native.Mathlib.Nat.{pow-suc}

-- The word that little-endian bytes spell.
abbrev pub le_value : Bytes → ℕ
le_value [] = 0
le_value (b ∷ bs) = b + 256 * le_value bs

pub length-le_bytes : (k v : ℕ) → length (le_bytes k v) ≡ k
length-le_bytes zero v = refl
length-le_bytes (suc k) v = ap suc (length-le_bytes k (v / 256))

pub le_value-le_bytes : (k v : ℕ) → v < 256 ^ k → le_value (le_bytes k v) ≡ v
le_value-le_bytes zero v h = omega arith
le_value-le_bytes (suc k) v h =
    let h' : v < 256 ^ k * 256 = rw pow-suc at h in
    omega (arith, le_value-le_bytes k (v / 256) (omega arith))

-- The bytes of element `n` of an array with elements of `es` bytes.
abbrev pub element : ℕ → Option Array → ℕ → Bytes
element es none n = []
element es (some a) n = take es (drop (n * es) a.bytes)

-- The contents of `n` elements are `n * es` bytes.
length-contents :
    (es : ℕ) (arr : Option Array) (n : ℕ) → IsValid es arr n → n * es ≡ length (contents es arr n)
length-contents es none n v = rw v (omega arith)
length-contents es (some a) n (c, v) =
    let fits : n * es ≤ c * es = mul_mono es n c v.len_le in
    omega (arith, length-take (n * es) a.bytes)

-- The last element is what was pushed.
last_element :
    (val : Bytes) (arr : Option Array) (a : Array) (n : ℕ)
    → IsValid (length val) arr n
    → contents (length val) (some a) (n + 1) ≡ contents (length val) arr n ++ val
    → element (length val) (some a) n ≡ val
last_element val arr a n v h =
    let cut =
      drop-take (n * length val) (length val) ((n + 1) * length val) a.bytes (omega arith) in
    rw (← cut, h)
      (drop-append_at (contents (length val) arr n) val (n * length val)
        (length-contents (length val) arr n v))

-- An `int` that was pushed onto a valid array is the last element, and reads back as its bit
-- pattern.
pub push_i32-read :
    (m : Allocator) (arr : Option Array) (a : Array) (n val : ℕ)
    → IsValid 4 arr n
    → val < 256 ^ 4
    → push_i32 m arr val ≡ some a
    → le_value (element 4 (some a) n) ≡ val
unfolding push_i32
push_i32-read m arr a n val v lt h =
    let (_, _, grown) = push_raw-IsValid m (le_bytes 4 val) arr n a v (omega arith) h in
    rw (last_element (le_bytes 4 val) arr a n v grown) (le_value-le_bytes 4 val lt)

-- A pointer that was pushed onto a valid array is the last element, and reads back as its
-- address.
push_ptr-read :
    (m : Allocator) (arr : Option Array) (a : Array) (n val : ℕ)
    → IsValid 8 arr n
    → val < 256 ^ 8
    → push_ptr m arr val ≡ some a
    → le_value (element 8 (some a) n) ≡ val
unfolding push_ptr
push_ptr-read m arr a n val v lt h =
    let (_, _, grown) = push_raw-IsValid m (le_bytes 8 val) arr n a v (omega arith) h in
    rw (last_element (le_bytes 8 val) arr a n v grown) (le_value-le_bytes 8 val lt)
