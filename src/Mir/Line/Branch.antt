-- ===== src/Mir/Line/Branch.antt =====
-- Branch folding: `mir_fold_branch`.
use vix_lang.Common.Text.{Bytes, codes, str_eq, has_prefix, str_eq_iff, split_at}
use vix_lang.Common.{
  ◌≡◌, ◌⊎◌, inl, inr, refl, ap, ◌∙◌, true, false, ◌-◌, [], ◌∷◌, ◌++◌, arith, Bool-cases, length,
  take, drop, length-append, take-append, if◌then◌else◌,
}
use vix_lang.Mir.Line.{fold_branch, branch_to, fold_cond, fold_targets, is_true, is_false}
use vix_lang.Mir.Line.Split.{Lacks, split_at_mark, skip_space-append}
use vix_lang.Mir.Tokens.{skip_space, trim_copy, is_space}
use vix_lang.Mir.Tokens.Trim.{IsBlank}

-- A conditional branch: a condition and two targets behind an indentation.
abbrev pub br_cond : Bytes → Bytes → Bytes → Bytes → Bytes
br_cond indent cond first second =
    indent ++ (codes "br_cond " ++ (cond ++ b',' ∷ (first ++ b',' ∷ second)))

has_prefix-append : (p s : Bytes) → has_prefix (p ++ s) p ≡ true
unfolding has_prefix
has_prefix-append [] s = refl
has_prefix-append (c ∷ p) s = ground (arith, has_prefix-append p s)

fold_branch_step :
    (text indent s : Bytes)
    → skip_space text ≡ s
    → take (length text - length s) text ≡ indent
    → has_prefix s (codes "br_cond ") ≡ true
    → fold_branch text ≡ fold_cond text indent (split_at b',' (drop 8 s))
unfolding fold_branch
fold_branch_step text indent s e f h = rw (e, h, f)

-- What folding does to a conditional branch, by the value of its condition.
pub fold_br_cond :
    (indent cond first second : Bytes)
    → IsBlank indent
    → Lacks b',' cond
    → Lacks b',' first
    → fold_branch (br_cond indent cond first second) ≡ (
        if is_true (trim_copy cond)
        then branch_to (br_cond indent cond first second) indent first
        else if is_false (trim_copy cond)
        then branch_to (br_cond indent cond first second) indent second
        else br_cond indent cond first second)
fold_br_cond indent cond first second blank c f =
    let tail = cond ++ b',' ∷ (first ++ b',' ∷ second) in
    let s = codes "br_cond " ++ tail in
    let skipped : skip_space (indent ++ s) ≡ s =
      skip_space-append indent s blank (unfold is_space in refl) in
    let front : take (length (indent ++ s) - length s) (indent ++ s) ≡ indent =
      take-append indent s _ (omega (arith, length-append indent s)) in
    let branches = has_prefix-append (codes "br_cond ") tail in
    let cut1 = split_at_mark b',' cond (first ++ b',' ∷ second) c in
    let cut2 = split_at_mark b',' first second f in
    fold_branch_step (indent ++ s) indent s skipped front branches
    ∙ ap (fold_cond (indent ++ s) indent) cut1
    ∙ unfold fold_cond in
      ap (fold_targets (indent ++ s) indent cond) cut2 ∙ unfold fold_targets in refl

is_true-false : (cond : Bytes) → is_false cond ≡ true → is_true cond ≡ false
is_true-false cond h = elim (Bool-cases (str_eq cond (codes "0"))) [
  | inl e ↦ rw ((str_eq_iff cond (codes "0")).0 e) (unfold str_eq in refl)
  | inr n ↦
      let e : str_eq cond (codes "false") ≡ true = ground arith in
      rw ((str_eq_iff cond (codes "false")).0 e) (unfold str_eq in refl)
]

-- A conditional branch on a constant, whose chosen target is a label, becomes the branch to that
-- label, with the indentation kept: the first target for `1` and `true`, the second for `0` and
-- `false`. The condition and the first target have no comma in them.
pub fold_branch_constant :
    (indent cond first second target name : Bytes)
    → IsBlank indent
    → Lacks b',' cond
    → Lacks b',' first
    → ((is_true (trim_copy cond) ≡ true) × (target ≡ first))
      ⊎ ((is_false (trim_copy cond) ≡ true) × (target ≡ second))
    → trim_copy target ≡ codes "label " ++ name
    → fold_branch (br_cond indent cond first second) ≡ indent ++ (codes "br label " ++ name)
unfolding branch_to
fold_branch_constant indent cond first second target name blank c f choice label =
    let labelled = has_prefix-append (codes "label ") name in
    let taken : branch_to (br_cond indent cond first second) indent target
        ≡ indent ++ (codes "br label " ++ name) =
      rw (label, labelled) in
    fold_br_cond indent cond first second blank c f
    ∙ ground (arith, taken, is_true-false (trim_copy cond))

-- A line that is no conditional branch, and a conditional branch on anything but the four
-- constants, stays as it is.
pub fold_branch_other :
    (text : Bytes)
    → has_prefix (skip_space text) (codes "br_cond ") ≡ false
    → fold_branch text ≡ text
unfolding fold_branch
fold_branch_other text h = rw h

pub fold_branch_variable :
    (indent cond first second : Bytes)
    → IsBlank indent
    → Lacks b',' cond
    → Lacks b',' first
    → is_true (trim_copy cond) ≡ false
    → is_false (trim_copy cond) ≡ false
    → fold_branch (br_cond indent cond first second) ≡ br_cond indent cond first second
fold_branch_variable indent cond first second blank c f t n =
    fold_br_cond indent cond first second blank c f ∙ rw (t, n)
