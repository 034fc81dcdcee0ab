-- ===== src/Mir/Tokens.antt =====
-- Characters and tokens of a line: `mir_name_char`, `mir_skip_space`, `mir_trim_copy`,
-- `mir_token_at`, `mir_contains_token` and `mir_replace_token`. A pointer into a string is the
-- rest of the string from there on.
pub mod Trim
pub mod Replace
pub mod Absent
pub mod Words
pub mod Renamed
pub mod Substitution
pub mod Membership
use vix_lang.Common.Text.{Bytes, codes, has_prefix, byte_at}
use vix_lang.Common.{
  ℕ, zero, suc, ◌+◌, ◌*◌, ◌<◌, Bool, true, false, not, ◌&&◌, ◌||◌, Option, none, some, [], ◌∷◌,
  ◌++◌, ltb, leb, ◌==◌, if◌then◌else◌, length, take, drop, get_or,
}

unfoldable pub name_char : ℕ → Bool
name_char c =
    (leb b'a' c && leb c b'z')
    || (leb b'A' c && leb c b'Z')
    || (leb b'0' c && leb c b'9')
    || c == b'_'
    || c == b'.'
    || c == b'%'
    || c == b'@'

unfoldable pub is_space : ℕ → Bool
is_space c = c == b' ' || c == b'\t' || c == b'\r'

unfoldable pub skip_space : Bytes → Bytes
skip_space [] = []
skip_space (c ∷ s) = if is_space c then skip_space s else c ∷ s

unfoldable pub starts : Bytes → Bytes → Bool
starts s prefix = has_prefix (skip_space s) prefix

-- `while (end > begin && space(end[-1])) end--`, on the number of bytes left.
unfoldable pub trim_end : ℕ → Bytes → Bytes
trim_end zero s = []
trim_end (suc n) s =
    let rest = trim_end n s in if is_space (get_or s n 0) then rest else take (suc n) s

-- `mir_trim_copy` of the bytes between its two pointers.
unfoldable pub trim_copy : Bytes → Bytes
unfolding skip_space trim_end
trim_copy s = trim_end (length (skip_space s)) (skip_space s)

-- Whether a token may begin behind this byte; there is none at the start of the string.
unfoldable pub is_boundary : Option ℕ → Bool
is_boundary none = true
is_boundary (some c) = not (name_char c)

-- `mir_token_at`, on the byte before the position and the string from the position on. The byte
-- behind the name may be the terminating null.
unfoldable pub token_at : Option ℕ → Bytes → Bytes → Bool
unfolding is_boundary
token_at prev s name =
    has_prefix s name && is_boundary prev && not (name_char (byte_at (drop (length name) s)))

-- The scanner's flags.
pub record Quote : Type 0 where
  pub quoted : Bool
  pub escaped : Bool

abbrev pub outside : Quote
outside = record { quoted = false; escaped = false }

-- How a byte changes the flags.
unfoldable pub advance : Quote → ℕ → Quote
advance q c =
    if q.quoted
    then (if q.escaped
        then record q { escaped = false }
        else if c == b'\\'
        then record q { escaped = true }
        else if c == b'"'
        then record q { quoted = false }
        else q)
    else if c == b'"'
    then record q { quoted = true }
    else q

-- The loop of `mir_contains_token`.
unfoldable pub contains_from : Option ℕ → Quote → Bytes → Bytes → Bool
unfolding token_at advance
contains_from prev q [] name = false
contains_from prev q (c ∷ s) name =
    (not q.quoted && not (c == b'"') && token_at prev (c ∷ s) name)
    || contains_from (some c) (advance q c) s name

unfoldable pub contains_token : Bytes → Bytes → Bool
unfolding contains_from
contains_token s name = contains_from none outside s name

-- The last byte of a name, the byte before the position behind it.
abbrev pub last_or : Option ℕ → Bytes → Option ℕ
last_or prev [] = prev
last_or prev (c ∷ s) = last_or (some c) s

-- `if (len + add + 1 > cap) cap = (len + add + 1) * 2`
unfoldable pub grown : ℕ → ℕ → ℕ → ℕ
grown cap len add = if ltb cap (len + add + 1) then (len + add + 1) * 2 else cap

-- The output buffer of `mir_replace_token`: what is written, and the size of the block.
pub record Buffer : Type 0 where
  pub out : Bytes
  pub cap : ℕ

unfoldable pub write : Buffer → Bytes → Buffer
unfolding grown
write b bytes = record { out = b.out ++ bytes; cap = grown b.cap (length b.out) (length bytes) }

-- The loop of `mir_replace_token`, on fuel; `none` means that the fuel ran out. At a match the
-- position moves past the name, which is no progress if the name is empty.
unfoldable pub replace_from : ℕ → Option ℕ → Quote → Bytes → Bytes → Bytes → Buffer → Option Buffer
unfolding token_at advance write
replace_from zero prev q s name value b = none
replace_from (suc fuel) prev q [] name value b = some b
replace_from (suc fuel) prev q (c ∷ s) name value b =
    let replaced =
      replace_from fuel (last_or prev name) q (drop (length name) (c ∷ s)) name value
        (write b value) in
    let copied = replace_from fuel (some c) (advance q c) s name value (write b (c ∷ [])) in
    if not q.quoted && token_at prev (c ∷ s) name then replaced else copied

-- One round for each byte, and one for the end.
unfoldable pub replace_token : Bytes → Bytes → Bytes → Option Buffer
unfolding replace_from
replace_token s name value =
    replace_from (suc (length s)) none outside s name value
      (record { out = []; cap = length s + 1 })
