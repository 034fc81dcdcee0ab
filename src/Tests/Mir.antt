-- ===== src/Tests/Mir.antt =====
-- The scalar optimiser at concrete inputs.
use vix_lang.Common.Text.{Bytes, codes, has_prefix, str_eq, split_at}
use vix_lang.Common.{
  ◌⊎◌, ◌<◌, ◌≡◌, inr, refl, arith, false, none, some, List, [], ◌∷◌, ◌++◌, ◌>>=◌, length, All, map,
}
use vix_lang.Mir.Function.Justified.{Weaker, IsJustified}
use vix_lang.Mir.Function.DeadCode.{IsLive, IsKept, eliminate-calls}
use vix_lang.Mir.Function.Propagation.{
  IsAssign, IsAlive, IsAssign-some, IsAssign-none, opt_function_total,
}
use vix_lang.Mir.Function.{MirLine, candidate, propagate, opt_function, eliminate}
use vix_lang.Mir.Line.Folded.{Folding, fold_branch_cases}
use vix_lang.Mir.Line.Branch.{br_cond, fold_branch_constant}
use vix_lang.Mir.Line.{fold_branch, alias_value, assignment_dest, assignment_uses}
use vix_lang.Mir.Pass.Functions.{Segment, IsSegment, IsOpen, lines_of, pass_of, opt_scalar-segments}
use vix_lang.Mir.Pass.Total.{IsProper, opt_scalar_total}
use vix_lang.Mir.Pass.{opt_lines, write_lines, opt_scalar, living_line, split_lines}
use vix_lang.Mir.Tokens.Absent.{replace_from_empty_name}
use vix_lang.Mir.Tokens.Replace.{replace_token_fits}
use vix_lang.Mir.Tokens.Words.{IsName, has_word, substituted, tokens}
use vix_lang.Mir.Tokens.Substitution.{replace_token-substituted}
use vix_lang.Mir.Tokens.Membership.{contains_token-has_word}
use vix_lang.Mir.Tokens.{
  Buffer, outside, contains_token, replace_token, replace_from, is_space, skip_space, trim_copy,
  starts, name_char,
}

abbrev source : Bytes
source =
    codes
      "fn @f(): i32 {\n  %1 = const i32 5\n  %2 = copy i32 %1\n  %3 = call_indirect %9(i32 %2): i32\n  br_cond 1, label a, label b\n  ret i32 %2\n}"

-- The constant is propagated, the branch is folded, and what has become unused goes: also the
-- call through a pointer, whose result is not used.
optimised : opt_scalar (some source) ≡ some (codes "fn @f(): i32 {\n  br label a\n  ret i32 5\n}\n")
unfolding opt_scalar opt_function starts skip_space is_space has_prefix assignment_dest
    assignment_uses alias_value contains_token replace_token trim_copy name_char fold_branch
    candidate
optimised = refl

abbrev body : List MirLine
body = living_line (codes "%1 = const i32 5") ∷ living_line (codes "ret i32 %1") ∷ []

body_assigns : All (λ l. IsAssign l.text × IsAlive l) body
unfolding trim_copy skip_space is_space split_at
body_assigns = (
  (
    IsAssign-some (codes "%1 = const i32 5") (codes "%1 ") (codes " const i32 5") refl (omega arith)
        (omega arith),
    refl,
  ),
  ((IsAssign-none (codes "ret i32 %1") refl, refl), tt),
)

opt_function_total_example :
    (ls ks : List MirLine) × (propagate [] body ≡ some ls)
    × (opt_function body ≡ some ks)
    × (length ls ≡ length body)
    × Weaker ls ks
    × All (IsJustified ks) ks
    × IsLive [] ks
opt_function_total_example = opt_function_total body body_assigns

abbrev with_call : List MirLine
with_call = living_line (codes "%1 = call @g(): i32") ∷ living_line (codes "%2 = copy i32 %1") ∷ []

abbrev without_copy : List MirLine
without_copy =
    living_line (codes "%1 = call @g(): i32")
    ∷ record { text = codes "%2 = copy i32 %1"; alive = false }
    ∷ []

removed : eliminate 3 with_call ≡ some without_copy
unfolding eliminate assignment_dest assignment_uses contains_token name_char has_prefix trim_copy
    skip_space is_space
removed = refl

eliminate-calls_example : All IsKept without_copy
eliminate-calls_example = eliminate-calls 3 with_call without_copy (refl, (refl, tt)) removed

fold_branch_constant_example :
    fold_branch (br_cond (codes "  ") (codes "false") (codes " label a") (codes " label b"))
    ≡ codes "  " ++ (codes "br label " ++ codes "b")
unfolding trim_copy skip_space is_space str_eq
fold_branch_constant_example =
    fold_branch_constant (codes "  ") (codes "false") (codes " label a") (codes " label b")
      (codes " label b") (codes "b") (refl, (refl, tt)) (omega arith) (omega arith)
      (inr (refl, refl)) refl

replaced :
    replace_token (codes "add i32 %1, %12") (codes "%1") (codes "500")
    ≡ some (record { out = codes "add i32 500, %12"; cap = 34 })
unfolding replace_token name_char has_prefix
replaced = refl

replace_token_fits_example : length (codes "add i32 500, %12") < 34
replace_token_fits_example =
    replace_token_fits (codes "add i32 %1, %12") (codes "%1") (codes "500")
      (record { out = codes "add i32 500, %12"; cap = 34 }) replaced

replace_from_empty_name_example :
    replace_from 100 none outside (codes " x") [] (codes "5") (record { out = []; cap = 3 }) ≡ none
unfolding name_char
replace_from_empty_name_example =
    replace_from_empty_name 100 b' ' (codes "x") (codes "5") (record { out = []; cap = 3 }) refl

abbrev small : Bytes
small = codes "fn @f {\n%1 = const i32 5\n}"

small-IsProper : All IsProper (map living_line (split_lines small))
unfolding split_lines split_at trim_copy skip_space is_space
small-IsProper = (
  (IsAssign-none (codes "fn @f {") refl, refl),
  (
    (
      IsAssign-some (codes "%1 = const i32 5") (codes "%1 ") (codes " const i32 5") refl
          (omega arith) (omega arith),
      refl,
    ),
    ((IsAssign-none (codes "}") refl, refl), tt),
  ),
)

opt_scalar-segments_example :
    (segments : List Segment) × (tail : List MirLine) × (map living_line (split_lines small)
      ≡ lines_of segments ++ tail)
    × All IsSegment segments
    × IsOpen tail
    × (opt_scalar (some small)
        ≡ (pass_of segments >>= (λ lines. some (write_lines (lines ++ tail)))))
opt_scalar-segments_example = opt_scalar-segments small

opt_scalar_total_example :
    (ks : List MirLine) × (opt_lines none (map living_line (split_lines small)) ≡ some ks)
    × (length ks ≡ length (split_lines small))
    × (opt_scalar (some small) ≡ some (write_lines ks))
opt_scalar_total_example = opt_scalar_total small small-IsProper

IsName-x1 : IsName (codes "%x1")
unfolding name_char
IsName-x1 = (omega arith, (refl, (refl, (refl, tt))))

-- Neither a longer word nor a quoted one is replaced.
replace_token-substituted_example :
    (r : Buffer) × (replace_token (codes "%x1,%x12\"%x1\"") (codes "%x1") (codes "5") ≡ some r)
    × (r.out ≡ codes "5,%x12\"%x1\"")
unfolding substituted tokens name_char str_eq vix_lang.Mir.Tokens.advance
replace_token-substituted_example =
    replace_token-substituted (codes "%x1,%x12\"%x1\"") (codes "%x1") (codes "5") IsName-x1

contains_token-has_word_example : contains_token (codes "%x12 \"%x1\"") (codes "%x1") ≡ false
unfolding has_word tokens name_char str_eq vix_lang.Mir.Tokens.advance
contains_token-has_word_example =
    contains_token-has_word (codes "%x12 \"%x1\"") (codes "%x1") IsName-x1

fold_branch_cases_example :
    (fold_branch (codes "  br_cond true , label a, label b")
      ≡ codes "  br_cond true , label a, label b")
    ⊎ Folding
        (codes "  br_cond true , label a, label b")
        (fold_branch (codes "  br_cond true , label a, label b"))
fold_branch_cases_example = fold_branch_cases (codes "  br_cond true , label a, label b")
