-- ===== src/Mir/Line.antt =====
-- What the optimiser reads off one line: `mir_assignment_dest`, `mir_assignment_uses`,
-- `mir_integer_type`, `mir_alias_value` and `mir_fold_branch`. Allocations are taken to succeed.
pub mod Alias
pub mod Split
pub mod Branch
pub mod Folded
pub mod Shapes
use vix_lang.Common.Text.{Bytes, codes, str_eq, has_prefix, is_white, skip_white, split_at}
use vix_lang.Common.{
  ℕ, zero, suc, ◌+◌, ◌-◌, ◌<◌, Bool, true, false, not, ◌&&◌, ◌||◌, Option, none, some, [], ◌∷◌,
  ◌++◌, leb, ltb, ◌==◌, if◌then◌else◌, ◌>>=◌, length, take, drop,
}
use vix_lang.Mir.Tokens.{skip_space, trim_copy, is_space}

unfoldable pub assignment_dest : Bytes → Option Bytes
unfolding split_at
assignment_dest line = do (before, _) ← split_at b'=' line; some (trim_copy before)

abbrev uses_of : Bytes → Option (Bytes × Bytes) → Bytes
uses_of line none = line
uses_of line (some (_, after)) = after

unfoldable pub assignment_uses : Bytes → Bytes
unfolding split_at
assignment_uses line = uses_of line (split_at b'=' line)

unfoldable pub integer_type : Bytes → Bool
unfolding str_eq
integer_type ty =
    str_eq ty (codes "i1")
    || str_eq ty (codes "i8")
    || str_eq ty (codes "i16")
    || str_eq ty (codes "i32")
    || str_eq ty (codes "i64")
    || str_eq ty (codes "u8")
    || str_eq ty (codes "u16")
    || str_eq ty (codes "u32")
    || str_eq ty (codes "u64")
    || str_eq ty (codes "usize")

-- At most `width` bytes that are no white space, and the rest.
unfoldable pub word_bytes : ℕ → Bytes → Bytes × Bytes
unfolding is_white
word_bytes zero s = ([], s)
word_bytes (suc width) [] = ([], [])
word_bytes (suc width) (c ∷ s) =
    let (word, rest) = word_bytes width s in if is_white c then ([], c ∷ s) else (c ∷ word, rest)

abbrev as_word : Bytes × Bytes → Option (Bytes × Bytes)
as_word ([], rest) = none
as_word (c ∷ word, rest) = some (c ∷ word, rest)

-- One conversion `%<width>s` of `sscanf`: white space is skipped, and an empty word is a failure.
unfoldable pub scan_word : ℕ → Bytes → Option (Bytes × Bytes)
unfolding skip_white word_bytes
scan_word width s = as_word (word_bytes width (skip_white s))

abbrev pub none_left : Option (Bytes × Bytes) → Bool
none_left none = true
none_left (some _) = false

-- `sscanf(s, "%31s %127s %1s", ty, value, extra) == 2`, with the two words.
unfoldable pub scan_two : Bytes → Option (Bytes × Bytes)
unfolding scan_word
scan_two s = do
  (ty, s') ← scan_word 31 s
  (value, rest) ← scan_word 127 s'
  if none_left (scan_word 1 rest) then some (ty, value) else none

abbrev copy_value : Option (Bytes × Bytes) → Option Bytes → Option Bytes
copy_value none otherwise = otherwise
copy_value (some (ty, value)) otherwise = some value

const_value : Option (Bytes × Bytes) → Option Bytes
unfolding integer_type
const_value none = none
const_value (some (ty, value)) = if integer_type ty then some value else none

-- The value that stands for the destination of a `copy` or of a `const` of an integer type.
unfoldable pub alias_value : Bytes → Option Bytes
unfolding const_value scan_two
alias_value line =
    let rhs = skip_space (assignment_uses line) in
    let as_const =
      if has_prefix rhs (codes "const ") then const_value (scan_two (drop 6 rhs)) else none in
    if has_prefix rhs (codes "copy ") then copy_value (scan_two (drop 5 rhs)) as_const else as_const

-- `cond` is one of the four constants.
abbrev pub is_true : Bytes → Bool
is_true cond = str_eq cond (codes "1") || str_eq cond (codes "true")

abbrev pub is_false : Bytes → Bool
is_false cond = str_eq cond (codes "0") || str_eq cond (codes "false")

-- The branch to the chosen target, behind the indentation of the line.
unfoldable pub branch_to : Bytes → Bytes → Bytes → Bytes
branch_to text indent part =
    let label = trim_copy part in
    if has_prefix label (codes "label ")
    then indent ++ (codes "br label " ++ drop 6 label)
    else text

-- `c2`: the choice between the targets, if there are two.
unfoldable pub fold_targets : Bytes → Bytes → Bytes → Option (Bytes × Bytes) → Bytes
unfolding branch_to str_eq
fold_targets text indent cond none = text
fold_targets text indent cond (some (first, second)) =
    if is_true (trim_copy cond)
    then branch_to text indent first
    else if is_false (trim_copy cond)
    then branch_to text indent second
    else text

-- `c1`: the condition, if there is a comma behind it.
unfoldable pub fold_cond : Bytes → Bytes → Option (Bytes × Bytes) → Bytes
unfolding fold_targets split_at
fold_cond text indent none = text
fold_cond text indent (some (cond, targets)) = fold_targets text indent cond (split_at b',' targets)

-- The indentation is the white space in front of the branch.
unfoldable pub fold_branch : Bytes → Bytes
unfolding fold_cond
fold_branch text =
    let s = skip_space text in
    let indent = take (length text - length s) text in
    if has_prefix s (codes "br_cond ")
    then fold_cond text indent (split_at b',' (drop 8 s))
    else text
