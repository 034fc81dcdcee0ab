-- ===== src/Helper/Lines.antt =====
-- Joining of lines.
use vix_lang.Common.Text.{Bytes}
use vix_lang.Common.{
  ℕ, ◌+◌, ◌%◌, ◌≤◌, ◌≡◌, refl, ap, sym, ◌∙◌, Bool, true, false, Option, some, List, [], ◌∷◌, ◌++◌,
  map, length, length-append, arith, All, ◌==◌, append_assoc, append-nil,
}
use vix_lang.Common.Int.{size_max}
use vix_lang.Mir.Pass.{split_from, split_lines}
use vix_lang.Runtime.Strings.{or_empty}
use vix_lang.Helper.{total_size, lines_text, join_lines}

total_size-lines_text :
    (total : ℕ) (lines : List (Option Bytes))
    → total + length (lines_text lines) ≤ size_max
    → total_size total lines ≡ some (total + length (lines_text lines))
unfolding total_size lines_text
total_size-lines_text total [] h = ap some (omega arith)
total_size-lines_text total (line ∷ lines) h =
    let size = length-append (or_empty line) (b'\n' ∷ lines_text lines) in
    let next : (total + length (or_empty line) + 1) % 18446744073709551616
        ≡ total + length (or_empty line) + 1 =
      omega (arith, size) in
    let rest =
      total_size-lines_text (total + length (or_empty line) + 1) lines (omega (arith, size)) in
    rw next (ground (arith, size, rest))

-- Each line is written with a newline behind it, a null pointer as an empty line, if the text and
-- its terminating null are no longer than `SIZE_MAX` and a block of that size can be had.
join_lines-lines_text :
    (can_alloc : ℕ → Bool) (lines : List (Option Bytes))
    → length (lines_text lines) + 1 ≤ size_max
    → can_alloc (length (lines_text lines) + 1) ≡ true
    → join_lines can_alloc (some lines) ≡ some (lines_text lines)
unfolding join_lines
join_lines-lines_text can_alloc lines h alloc =
    let same : 1 + length (lines_text lines) ≡ length (lines_text lines) + 1 = omega arith in
    rw (total_size-lines_text 1 lines (omega arith), same, alloc) refl

abbrev pub IsLine : Bytes → Type 0
IsLine = All (λ c. (c == b'\n') ≡ false)

split_from-line :
    (line l rest : Bytes)
    → IsLine l
    → split_from line (l ++ b'\n' ∷ rest) ≡ (line ++ l) ∷ split_from [] rest
unfolding split_from
split_from-line line [] rest h = ap (λ x. x ∷ split_from [] rest) (sym (append-nil line))
split_from-line line (c ∷ l) rest h = rw h.0 (
    split_from-line (line ++ c ∷ []) l rest h.1
    ∙ ap (λ x. x ∷ split_from [] rest) (append_assoc line (c ∷ []) l))

-- The optimiser cuts joined lines into these lines, and an empty one behind the last newline, if
-- none of them has a newline in it.
split_lines-lines_text :
    (lines : List (Option Bytes))
    → All (λ l. IsLine (or_empty l)) lines
    → split_lines (lines_text lines) ≡ map or_empty lines ++ [] ∷ []
unfolding split_lines lines_text
split_lines-lines_text [] h = unfold split_from in refl
split_lines-lines_text (l ∷ lines) h =
    split_from-line [] (or_empty l) (lines_text lines) h.0
    ∙ ap (λ ls. or_empty l ∷ ls) (split_lines-lines_text lines h.1)
