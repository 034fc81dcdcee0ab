-- ===== src/Mir/Pass.antt =====
-- The whole pass, `vix_mir_opt_scalar`: the text is cut into lines, the lines from `fn @` to `}`
-- are optimised, and the living lines are written out, each with a newline.
pub mod Outside
pub mod Total
pub mod Functions
use vix_lang.Common.Text.{Bytes, codes, str_eq, has_prefix}
use vix_lang.Common.{
  Bool, true, false, ◌&&◌, not, Option, none, some, List, [], ◌∷◌, ◌++◌, ◌==◌, if◌then◌else◌, ◌>>=◌,
  map,
}
use vix_lang.Mir.Function.{MirLine, opt_function}
use vix_lang.Mir.Tokens.{starts, skip_space}

-- `line` is what is read of the current line.
unfoldable pub split_from : Bytes → Bytes → List Bytes
split_from line [] = line ∷ []
split_from line (c ∷ s) =
    let next = if c == b'\n' then [] else line ++ c ∷ [] in
    let rest = split_from next s in if c == b'\n' then line ∷ rest else rest

unfoldable pub split_lines : Bytes → List Bytes
unfolding split_from
split_lines = split_from []

abbrev pub living_line : Bytes → MirLine
living_line s = record { text = s; alive = true }

abbrev pub opens : MirLine → Bool
opens line = starts line.text (codes "fn @")

abbrev pub closes : MirLine → Bool
closes line = str_eq (skip_space line.text) (codes "}")

-- The loop over the lines. The first list is the function that is open, if one is; a function
-- that is not closed stays as it is.
unfoldable pub opt_lines : Option (List MirLine) → List MirLine → Option (List MirLine)
opt_lines none [] = some []
opt_lines (some body) [] = some body
opt_lines none (line ∷ lines) =
    let inside = opt_lines (some (line ∷ [])) lines in
    let after = opt_lines none lines >>= (λ rest. some (line ∷ rest)) in
    if opens line then inside else after
opt_lines (some body) (line ∷ lines) =
    let closed =
      opt_function (body ++ line ∷ [])
      >>= (λ body'. opt_lines none lines >>= (λ rest. some (body' ++ rest))) in
    let longer = opt_lines (some (body ++ line ∷ [])) lines in
    if closes line then closed else longer

unfoldable pub write_lines : List MirLine → Bytes
write_lines [] = []
write_lines (line ∷ lines) =
    let rest = write_lines lines in if line.alive then line.text ++ b'\n' ∷ rest else rest

-- `none` is a run that does not end; the null pointer is read as the empty text.
unfoldable pub opt_scalar : Option Bytes → Option Bytes
unfolding split_lines opt_lines write_lines
opt_scalar none = some []
opt_scalar (some text) = do
  lines ← opt_lines none (map living_line (split_lines text))
  some (write_lines lines)
