-- ===== src/Scanner/Trivia.antt =====
-- What the lexer's peek skips: blanks and comments.
use vix_lang.Common.Int.{ℤ, pos, pos_part}
use vix_lang.Common.Text.{is_blank, Bytes}
use vix_lang.Common.{
  ℕ, zero, suc, ◌+◌, ◌≤◌, ◌<◌, ◌≡◌, ◌≢◌, refl, ap, ◌∙◌, Bool, true, false, not, ◌&&◌, ◌||◌, Option,
  none, some, List, [], ◌∷◌, ◌++◌, length, drop, arith, length-append, All, ◌==◌,
}
use vix_lang.Scanner.{skip_line, skip_block, next_from, next_non_space_char, first_plus_one}

length-skip_line : (s : Bytes) → length (skip_line s) ≤ length s
unfolding skip_line
length-skip_line [] = omega arith
length-skip_line (c ∷ s) = ground (arith, length-skip_line s)

length-skip_block : (s : Bytes) → length (skip_block s) ≤ length s
unfolding skip_block
length-skip_block [] = omega arith
length-skip_block (c ∷ []) = omega arith
length-skip_block (c ∷ d ∷ s) = ground (arith, length-skip_block (d ∷ s))

skip_line_slash : (s : Bytes) → skip_line (b'/' ∷ s) ≡ skip_line s
unfolding skip_line
skip_line_slash s = refl

next_from-ne-none : (fuel : ℕ) (s : Bytes) → length s < fuel → next_from fuel s ≢ none
unfolding next_from
next_from-ne-none zero s h = elim h [ ]
next_from-ne-none (suc fuel) [] h = λ e. cc
next_from-ne-none (suc fuel) (c ∷ []) h = ground (arith, next_from-ne-none fuel [])
next_from-ne-none (suc fuel) (c ∷ d ∷ s) h = ground (
  arith,
  next_from-ne-none fuel (d ∷ s),
  next_from-ne-none fuel (skip_line (c ∷ d ∷ s)),
  next_from-ne-none fuel (skip_block s),
  length-skip_block s,
  skip_line_slash (d ∷ s),
  length-skip_line (d ∷ s),
)

-- The peek ends on every source, at every position.
next_non_space_char-ne-none : (src : Option Bytes) (at : ℤ) → next_non_space_char src at ≢ none
unfolding next_non_space_char
next_non_space_char-ne-none none at = λ e. cc
next_non_space_char-ne-none (some src) at =
    let rest = drop (pos_part at) src in ground (arith, next_from-ne-none (suc (length rest)) rest)

-- Whether a text has no end of a block comment.
abbrev pub no_close : Bytes → Bool
no_close [] = true
no_close (c ∷ []) = true
no_close (c ∷ d ∷ s) = not (c == b'*' && d == b'/') && no_close (d ∷ s)

-- What stands between two tokens: a blank, a line comment with its text, or a block comment with
-- its text.
pub data Trivia : Type 0 where
  blank : ℕ → Trivia
  line : Bytes → Trivia
  block : Bytes → Trivia

-- Its text, in front of the rest of the source.
abbrev pub put : Trivia → Bytes → Bytes
put (blank c) s = c ∷ s
put (line t) s = b'/' ∷ b'/' ∷ (t ++ b'\n' ∷ s)
put (block t) s = b'/' ∷ b'*' ∷ (t ++ b'*' ∷ b'/' ∷ s)

abbrev pub put_all : List Trivia → Bytes → Bytes
put_all [] s = s
put_all (t ∷ ts) s = put t (put_all ts s)

-- A line comment has no newline in it, and a block comment no end.
abbrev pub IsTrivia : Trivia → Type 0
IsTrivia (blank c) = is_blank c ≡ true
IsTrivia (line t) = All (λ c. (c == b'\n') ≡ false) t
IsTrivia (block t) = no_close t ≡ true

skip_line-append :
    (t s : Bytes) → All (λ c. (c == b'\n') ≡ false) t → skip_line (t ++ b'\n' ∷ s) ≡ b'\n' ∷ s
unfolding skip_line
skip_line-append [] s h = refl
skip_line-append (c ∷ t) s h = rw h.0 (skip_line-append t s h.1)

skip_block-append : (t s : Bytes) → no_close t ≡ true → skip_block (t ++ b'*' ∷ b'/' ∷ s) ≡ s
unfolding skip_block
skip_block-append [] s h = refl
skip_block-append (c ∷ []) s h = ground arith
skip_block-append (c ∷ d ∷ t) s h = ground (arith, skip_block-append (d ∷ t) s)

skip_block_open :
    (t : Bytes) (c : ℕ) → no_close (t ++ c ∷ []) ≡ true → skip_block (t ++ c ∷ []) ≡ c ∷ []
unfolding skip_block
skip_block_open [] c h = refl
skip_block_open (d ∷ []) c h = ground arith
skip_block_open (d ∷ e ∷ t) c h = ground (arith, skip_block_open (e ∷ t) c)

abbrev pub starts_comment : Bytes → Bool
starts_comment (c ∷ d ∷ s) = c == b'/' && (d == b'/' || d == b'*')
starts_comment _ = false

-- The end of the source, or a text that begins with neither a blank nor a comment.
abbrev pub IsStart : Bytes → Type 0
IsStart [] = Unit
IsStart (c ∷ s) = (is_blank c ≡ false) × (starts_comment (c ∷ s) ≡ false)

next_from_blank :
    (fuel c : ℕ) (s : Bytes) → is_blank c ≡ true → next_from (suc fuel) (c ∷ s) ≡ next_from fuel s
unfolding next_from
next_from_blank fuel c [] h = rw h
next_from_blank fuel c (d ∷ s) h = rw h

next_from_start :
    (fuel : ℕ) (s : Bytes) → IsStart s → next_from (suc fuel) s ≡ some (first_plus_one s)
unfolding next_from
next_from_start fuel [] h = refl
next_from_start fuel (c ∷ []) h = rw h.0 refl
next_from_start fuel (c ∷ d ∷ s) h = ground (arith, h.0, h.1)

next_from_line :
    (fuel : ℕ) (t s : Bytes)
    → IsTrivia (line t)
    → next_from (suc (suc fuel)) (put (line t) s) ≡ next_from fuel s
unfolding next_from
next_from_line fuel t s p =
    let cut : skip_line (b'/' ∷ b'/' ∷ (t ++ b'\n' ∷ s)) ≡ b'\n' ∷ s =
      unfold skip_line in skip_line-append t s p in
    ap (next_from (suc fuel)) cut ∙ next_from_blank fuel b'\n' s (unfold is_blank in refl)

next_from_block :
    (fuel : ℕ) (t s : Bytes)
    → IsTrivia (block t)
    → next_from (suc fuel) (put (block t) s) ≡ next_from fuel s
unfolding next_from
next_from_block fuel t s p = ap (next_from fuel) (skip_block-append t s p)

next_from-put_all :
    (fuel : ℕ) (ts : List Trivia) (s : Bytes)
    → All IsTrivia ts
    → IsStart s
    → length (put_all ts s) < fuel
    → next_from fuel (put_all ts s) ≡ some (first_plus_one s)
next_from-put_all zero ts s p h room = elim room [ ]
next_from-put_all (suc fuel) [] s p h room = next_from_start fuel s h
next_from-put_all (suc fuel) (blank c ∷ ts) s p h room =
    next_from_blank fuel c (put_all ts s) p.0 ∙ next_from-put_all fuel ts s p.1 h (omega arith)
next_from-put_all (suc zero) (line t ∷ ts) s p h room = absurd (omega arith)
next_from-put_all (suc (suc fuel)) (line t ∷ ts) s p h room =
    let shorter = length-append t (b'\n' ∷ put_all ts s) in
    next_from_line fuel t (put_all ts s) p.0
    ∙ next_from-put_all fuel ts s p.1 h (omega (arith, shorter))
next_from-put_all (suc fuel) (block t ∷ ts) s p h room =
    let shorter = length-append t (b'*' ∷ b'/' ∷ put_all ts s) in
    next_from_block fuel t (put_all ts s) p.0
    ∙ next_from-put_all fuel ts s p.1 h (omega (arith, shorter))

-- From the start of a source, blanks and closed comments, however many, are skipped: the peek
-- returns the character behind them, if that is no blank and begins no comment, or the null
-- pointer at the end of the source.
pub next_non_space_char-put_all :
    (ts : List Trivia) (s : Bytes)
    → All IsTrivia ts
    → IsStart s
    → next_non_space_char (some (put_all ts s)) (pos 0) ≡ some (first_plus_one s)
unfolding next_non_space_char
next_non_space_char-put_all ts s p h =
    next_from-put_all (suc (length (put_all ts s))) ts s p h (omega arith)

-- Behind the opening of a block comment that is never closed, the peek returns the last byte of
-- the source, if that is no blank.
pub next_non_space_char_open :
    (t : Bytes) (c : ℕ)
    → no_close (t ++ c ∷ []) ≡ true
    → is_blank c ≡ false
    → next_non_space_char (some (b'/' ∷ b'*' ∷ (t ++ c ∷ []))) (pos 0) ≡ some (some (c + 1))
unfolding next_non_space_char
next_non_space_char_open t c h k =
    let fuel = suc (length (t ++ c ∷ [])) in
    unfold next_from in
    (ap (next_from (suc fuel)) (skip_block_open t c h) ∙ next_from_start fuel (c ∷ []) (k, refl))
