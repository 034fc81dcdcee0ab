-- ===== src/Helper.antt =====
-- The string helpers of `src/helper.c` and its diagnostic settings. A string pointer is `none` for
-- `NULL`; the parameter says for which sizes `malloc` gives a block. Where the code keeps the
-- length of a text in an `int`, the model is of texts of at most `INT_MAX` bytes.
pub mod Substring
pub mod Trim
pub mod Output
pub mod Lines
pub mod Symbol
use vix_lang.Common.Int.{ℤ, pos, negsuc, pos_part, ltb_ℤ, ◌-ℤ◌, size_max, to_int, to_size}
use vix_lang.Common.Text.{Bytes, is_blank, byte_at}
use vix_lang.Common.{
  ℕ, zero, suc, ◌+◌, ◌-◌, ◌%◌, Bool, true, false, ◌&&◌, ◌||◌, Option, none, some, List, [], ◌∷◌,
  ◌++◌, length, take, drop, get_or, map, ltb, leb, ◌==◌, if◌then◌else◌,
}
use vix_lang.Runtime.Strings.{or_empty}

-- `(int32_t)(int8_t)(unsigned char)text[index]`
unfoldable pub string_byte : Bytes → ℕ → ℤ
string_byte text index =
    let c = byte_at (drop index text) in if ltb c 128 then pos c else negsuc (255 - c)

unfoldable pub diag_strlen : Option Bytes → ℤ
diag_strlen none = pos 0
diag_strlen (some s) = to_int (length s)

-- The three static settings of the diagnostics.
pub record Diagnostics : Type 0 where
  pub format : ℤ
  pub color : ℤ
  pub test_mode : ℤ

unfoldable pub diag_configure : ℤ → ℤ → ℤ → Diagnostics → Diagnostics
diag_configure format color test_mode d = record {
  format = format;
  color = color;
  test_mode = test_mode;
}

abbrev pub is_int : ℕ → ℤ → Bool
is_int n (pos m) = m == n
is_int n (negsuc m) = false

-- `is_tty` is the answer of `isatty(STDERR_FILENO)`.
unfoldable pub diag_color_enabled : Bool → Diagnostics → ℤ
diag_color_enabled is_tty d =
    if (if is_int 0 d.test_mode then is_int 2 d.color else true)
    then pos 0
    else if is_int 1 d.color
    then pos 1
    else if is_tty
    then pos 1
    else pos 0

-- The first loop of `vix_trim_ascii`: the number of blanks at the front.
unfoldable pub blanks_in_front : Bytes → ℕ
unfolding is_blank
blanks_in_front [] = 0
blanks_in_front (c ∷ s) = let rest = blanks_in_front s in if is_blank c then suc rest else 0

-- The second loop: `while (end > start && blank(text[end - 1])) end--`
unfoldable pub end_from : ℕ → Bytes → ℕ → ℕ
unfolding is_blank
end_from start s zero = 0
end_from start s (suc end) =
    let rest = end_from start s end in
    if ltb start (suc end) && is_blank (get_or s end 0) then rest else suc end

-- `SIZE_MAX - total - 1` and `total + len + 1`, both modulo 2 ^ 64.
abbrev pub room_left : ℕ → ℕ
room_left total = (18446744073709551616 + 18446744073709551615 - total - 1) % 18446744073709551616

abbrev pub add_size : ℕ → ℕ → ℕ
add_size total len = (total + len + 1) % 18446744073709551616

-- The four adjustments of `vix_substr`.
unfoldable pub substr_range : ℤ → ℤ → ℤ → ℤ × ℤ
substr_range start end len =
    let start' = if ltb_ℤ start (pos 0) then pos 0 else start in
    let end' = if ltb_ℤ end start' then start' else end in
    (if ltb_ℤ len start' then len else start', if ltb_ℤ len end' then len else end')

-- The first loop of `vix_join_lines`; `none` where the size would overflow.
unfoldable pub total_size : ℕ → List (Option Bytes) → Option ℕ
total_size total [] = some total
total_size total (line ∷ lines) =
    let rest = total_size (add_size total (length (or_empty line))) lines in
    if ltb (room_left total) (length (or_empty line)) then none else rest

-- The lines, each with a newline; a null pointer is an empty line.
unfoldable pub lines_text : List (Option Bytes) → Bytes
lines_text [] = []
lines_text (line ∷ lines) = or_empty line ++ b'\n' ∷ lines_text lines

-- A byte that `vix_clean_symbol_name` keeps.
unfoldable pub is_symbol : ℕ → Bool
is_symbol c =
    (leb b'a' c && leb c b'z')
    || (leb b'A' c && leb c b'Z')
    || (leb b'0' c && leb c b'9')
    || c == b'_'

unfoldable pub clean_byte : ℕ → ℕ
unfolding is_symbol
clean_byte c = if is_symbol c then c else b'_'

-- Without the `%` or the `@` in front.
unfoldable pub without_sigil : Bytes → Bytes
without_sigil [] = []
without_sigil (c ∷ s) = if c == b'%' || c == b'@' then s else c ∷ s

module _ (can_alloc : ℕ → Bool) where
  abbrev pub fresh : Bytes → Option Bytes
  fresh text = if can_alloc (length text + 1) then some text else none

  -- The checks of `vix_source_line_copy` behind the null pointer and the signs.
  abbrev pub line_at : Bytes → ℕ → ℕ → Option Bytes
  line_at src start len =
      if ltb (length src) start || ltb (length src - start) len
      then none
      else fresh (take len (drop start src))

  unfoldable pub source_line_copy : Option Bytes → ℤ → ℤ → Option Bytes
  source_line_copy none start len = none
  source_line_copy (some src) start len =
      if ltb_ℤ start (pos 0) || ltb_ℤ len (pos 0)
      then none
      else line_at src (pos_part start) (pos_part len)

  unfoldable pub substr : Option Bytes → ℤ → ℤ → Option Bytes
  substr none start end = fresh []
  substr (some text) start end =
      let (lo, hi) = substr_range start end (to_int (length text)) in
      let out_len = to_size (hi -ℤ lo) in
      if can_alloc (out_len + 1) then some (take out_len (drop (to_size lo) text)) else none

  unfoldable pub trim_ascii : Option Bytes → Option Bytes
  unfolding blanks_in_front end_from substr
  trim_ascii none = substr (some []) (pos 0) (pos 0)
  trim_ascii (some text) =
      let start = blanks_in_front text in
      substr (some text) (pos start) (pos (end_from start text (length text)))

  abbrev pub allocated : Option ℕ → Bytes → Option Bytes
  allocated none text = none
  allocated (some total) text = if can_alloc total then some text else none

  unfoldable pub join_lines : Option (List (Option Bytes)) → Option Bytes
  unfolding total_size lines_text
  join_lines none = fresh []
  join_lines (some lines) = allocated (total_size 1 lines) (lines_text lines)

  unfoldable pub clean_symbol_name : Option Bytes → Option Bytes
  unfolding clean_byte without_sigil substr
  clean_symbol_name none = substr (some []) (pos 0) (pos 0)
  clean_symbol_name (some name) = fresh (map clean_byte (without_sigil name))
