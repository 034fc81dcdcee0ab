-- ===== src/Scanner.antt =====
-- The two peeks of the lexer in `src/helper.c`, `vix_lexer_peek_char` and
-- `vix_lexer_next_non_space_char`. The null pointer is `none`, and a character is returned as its
-- byte plus one. The source from a position on is a list of bytes.
pub mod Trivia
use vix_lang.Common.Int.{ℤ, pos, ltb_ℤ, pos_part}
use vix_lang.Common.Text.{Bytes, is_blank}
use vix_lang.Common.{
  ℕ, zero, suc, ◌+◌, Bool, ◌&&◌, ◌||◌, Option, none, some, [], ◌∷◌, drop, length, ◌==◌,
  if◌then◌else◌,
}

abbrev pub first_plus_one : Bytes → Option ℕ
first_plus_one [] = none
first_plus_one (c ∷ s) = some (c + 1)

unfoldable pub peek_char : Option Bytes → ℤ → Option ℕ
peek_char none at = none
peek_char (some src) at = if ltb_ℤ at (pos 0) then none else first_plus_one (drop (pos_part at) src)

-- To the newline that ends a line comment, or to the end of the source.
unfoldable pub skip_line : Bytes → Bytes
skip_line [] = []
skip_line (c ∷ s) = let rest = skip_line s in if c == b'\n' then c ∷ s else rest

-- Behind the end of a block comment. A comment that is not closed is left at its last byte.
unfoldable pub skip_block : Bytes → Bytes
skip_block [] = []
skip_block (c ∷ []) = c ∷ []
skip_block (c ∷ d ∷ s) = let rest = skip_block (d ∷ s) in if c == b'*' && d == b'/' then s else rest

-- The loop of `vix_lexer_next_non_space_char`, on fuel; the outer `none` means that the fuel ran
-- out.
unfoldable pub next_from : ℕ → Bytes → Option (Option ℕ)
unfolding is_blank skip_line skip_block
next_from zero s = none
next_from (suc fuel) [] = some none
next_from (suc fuel) (c ∷ []) =
    let rest = next_from fuel [] in if is_blank c then rest else some (some (c + 1))
next_from (suc fuel) (c ∷ d ∷ s) =
    let rest = next_from fuel (d ∷ s) in
    let line = next_from fuel (skip_line (c ∷ d ∷ s)) in
    let block = next_from fuel (skip_block s) in
    if is_blank c
    then rest
    else if c == b'/' && d == b'/'
    then line
    else if c == b'/' && d == b'*'
    then block
    else some (some (c + 1))

-- Every round passes at least one byte.
unfoldable pub next_non_space_char : Option Bytes → ℤ → Option (Option ℕ)
unfolding next_from
next_non_space_char none at = some none
next_non_space_char (some src) at =
    if ltb_ℤ at (pos 0)
    then some none
    else next_from (suc (length (drop (pos_part at) src))) (drop (pos_part at) src)
