-- ===== src/Mir/Function.antt =====
-- The optimiser on the lines of one function, `mir_opt_function`: copy propagation with branch
-- folding in one pass, and then rounds of dead code removal until a round removes nothing.
-- Allocations are taken to succeed.
pub mod Justified
pub mod DeadCode
pub mod Propagation
pub mod Meaning
pub mod Behaviour
pub mod Operands
pub mod Rewriting
pub mod Copies
pub mod Whole
pub mod Terms
use vix_lang.Common.Text.{Bytes, codes, has_prefix, split_at}
use vix_lang.Common.{
  ℕ, zero, suc, ◌+◌, Bool, true, false, not, ◌&&◌, ◌||◌, Option, none, some, List, [], ◌∷◌, ◌++◌,
  if◌then◌else◌, ◌>>=◌, length,
}
use vix_lang.Mir.Line.{assignment_dest, assignment_uses, alias_value, fold_branch}
use vix_lang.Mir.Tokens.{skip_space, contains_token, replace_token}

pub record MirLine : Type 0 where
  pub text : Bytes
  pub alive : Bool

-- `names` and `values`, in the order in which they were noted.
abbrev pub Aliases : Type 0
Aliases = List (Bytes × Bytes)

-- Each alias in turn is replaced in the text; `none` where a replacement does not end.
unfoldable pub replace_all : Aliases → Bytes → Option Bytes
replace_all [] tail = some tail
replace_all ((name, value) ∷ aliases) tail = do
  b ← replace_token tail name value
  replace_all aliases b.out

-- The text up to the first `=`, which is kept, and the text behind it.
abbrev pub cut_line : Bytes → Option (Bytes × Bytes) → Bytes × Bytes
cut_line text none = ([], text)
cut_line text (some (before, after)) = (before ++ b'=' ∷ [], after)

unfoldable pub rewrite_line : Aliases → Bytes → Option Bytes
unfolding replace_all split_at
rewrite_line aliases text = do
  let (prefix, tail) = cut_line text (split_at b'=' text)
  tail' ← replace_all aliases tail
  some (prefix ++ tail')

abbrev add_alias : Aliases → Option Bytes → Option Bytes → Aliases
add_alias aliases (some dest) (some value) = aliases ++ (dest, value) ∷ []
add_alias aliases _ _ = aliases

unfoldable pub note_alias : Aliases → Bytes → Aliases
note_alias aliases text = add_alias aliases (assignment_dest text) (alias_value text)

-- The first loop.
unfoldable pub propagate : Aliases → List MirLine → Option (List MirLine)
unfolding rewrite_line note_alias
propagate aliases [] = some []
propagate aliases (line ∷ lines) = do
  text' ← rewrite_line aliases line.text
  lines' ← propagate (note_alias aliases text') lines
  some (record line { text = fold_branch text' } ∷ lines')

-- Calls have effects, and stay.
unfoldable pub is_call : Bytes → Bool
is_call text =
    let rhs = skip_space (assignment_uses text) in
    has_prefix rhs (codes "call ") || has_prefix rhs (codes "syscall ")

-- The destination of a line that may be removed.
unfoldable pub candidate : Bytes → Option Bytes
unfolding is_call
candidate text = if is_call text then none else assignment_dest text

-- Whether a living line uses the name.
unfoldable pub used_in : Bytes → List MirLine → Bool
used_in dest [] = false
used_in dest (line ∷ lines) =
    (line.alive && contains_token (assignment_uses line.text) dest) || used_in dest lines

abbrev unused : Option Bytes → List MirLine → List MirLine → Bool
unused none before after = false
unused (some dest) before after = not (used_in dest before || used_in dest after)

-- Whether a round removes the line that stands between these.
unfoldable pub removes : List MirLine → MirLine → List MirLine → Bool
unfolding candidate used_in
removes before line after = line.alive && unused (candidate line.text) before after

abbrev pub kill : Bool → MirLine → MirLine
kill dead line = if dead then record line { alive = false } else line

-- One round, with the lines that it has passed; the flag is `changed`.
unfoldable pub sweep : List MirLine → List MirLine → List MirLine × Bool
unfolding removes
sweep before [] = (before, false)
sweep before (line ∷ after) =
    let dead = removes before line after in
    let (lines, changed) = sweep (before ++ kill dead line ∷ []) after in (lines, dead || changed)

-- `while (changed)`, on fuel; `none` means that the fuel ran out.
unfoldable pub eliminate : ℕ → List MirLine → Option (List MirLine)
unfolding sweep
eliminate zero lines = none
eliminate (suc fuel) lines =
    let rest = eliminate fuel (sweep [] lines).0 in
    if (sweep [] lines).1 then rest else some (sweep [] lines).0

-- Every round but the last removes a line.
unfoldable pub opt_function : List MirLine → Option (List MirLine)
unfolding propagate eliminate
opt_function lines = do lines' ← propagate [] lines; eliminate (length lines' + 1) lines'
