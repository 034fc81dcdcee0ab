-- ===== src/Mir/Line/Shapes/Branching.antt =====
-- What folding makes of a conditional branch between two labels.
use vix_lang.Mir.Line.Shapes.{
  jump, branch, name_char-comma, All-names, name-Lacks, trim_copy-name, trim_copy-label,
  indent-Lacks,
}
use vix_lang.Common.Text.{Bytes, codes, str_eq, str_eq_iff}
use vix_lang.Common.{
  ◌≡◌, ◌⊎◌, inl, inr, refl, ap, ◌∙◌, true, false, [], ◌∷◌, ◌++◌, arith, All-append, Bool-cases,
}
use vix_lang.Mir.Line.{fold_branch, is_true, is_false}
use vix_lang.Mir.Line.Branch.{fold_branch_constant, fold_branch_variable}
use vix_lang.Mir.Line.Split.{Lacks}
use vix_lang.Mir.Tokens.{trim_copy}
use vix_lang.Mir.Tokens.Trim.{IsBlank}
use vix_lang.Mir.Tokens.Words.{IsName}

-- Branches on a constant are folded, and no others.
name_no_comma : (s : Bytes) → IsName s → Lacks b',' s
name_no_comma s h = All-names _ s name_char-comma h.1

label_no_comma : (target : Bytes) → IsName target → Lacks b',' (codes " label " ++ target)
label_no_comma target h =
    All-append _ (codes " label ") target (ground arith) (name_no_comma target h)

pub branch-Lacks :
    (indent cond first second : Bytes)
    → IsBlank indent
    → IsName cond
    → IsName first
    → IsName second
    → Lacks b'=' (branch indent cond first second)
branch-Lacks indent cond first second h c f s =
    let front : Lacks b'=' (codes "br_cond ") = ground arith in
    let label : Lacks b'=' (codes " label ") = ground arith in
    let second' = All-append _ (codes " label ") second label (name-Lacks second s) in
    let first' = All-append _ (codes " label ") first label (name-Lacks first f) in
    let targets =
      All-append _ (codes " label " ++ first) (b',' ∷ (codes " label " ++ second)) first'
        (ground arith, second') in
    let parts =
      All-append _ cond (b',' ∷ ((codes " label " ++ first) ++ b',' ∷ (codes " label " ++ second)))
        (name-Lacks cond c) (ground arith, targets) in
    All-append _ indent _ (indent-Lacks indent h) (All-append _ (codes "br_cond ") _ front parts)

abbrev pub IsTrue : Bytes → Type 0
IsTrue cond = (cond ≡ codes "1") ⊎ (cond ≡ codes "true")

abbrev pub IsFalse : Bytes → Type 0
IsFalse cond = (cond ≡ codes "0") ⊎ (cond ≡ codes "false")

is_true_cases : (cond : Bytes) → IsTrue cond ⊎ (is_true cond ≡ false)
is_true_cases cond = elim (Bool-cases (str_eq cond (codes "1"))) [
  | inl e ↦ inl (inl ((str_eq_iff cond (codes "1")).0 e))
  | inr n ↦ elim (Bool-cases (str_eq cond (codes "true"))) [
    | inl e ↦ inl (inr ((str_eq_iff cond (codes "true")).0 e))
    | inr k ↦ inr (rw (n, k) refl)
  ]
]

is_false_cases : (cond : Bytes) → IsFalse cond ⊎ (is_false cond ≡ false)
is_false_cases cond = elim (Bool-cases (str_eq cond (codes "0"))) [
  | inl e ↦ inl (inl ((str_eq_iff cond (codes "0")).0 e))
  | inr n ↦ elim (Bool-cases (str_eq cond (codes "false"))) [
    | inl e ↦ inl (inr ((str_eq_iff cond (codes "false")).0 e))
    | inr k ↦ inr (rw (n, k) refl)
  ]
]

IsTrue-is_true : (cond : Bytes) → IsTrue cond → is_true cond ≡ true
unfolding str_eq
IsTrue-is_true cond (inl e) = rw e refl
IsTrue-is_true cond (inr e) = rw e refl

IsFalse-is_false : (cond : Bytes) → IsFalse cond → is_false cond ≡ true
unfolding str_eq
IsFalse-is_false cond (inl e) = rw e refl
IsFalse-is_false cond (inr e) = rw e refl

pub fold_branch-branch :
    (indent cond first second : Bytes)
    → IsBlank indent
    → IsName cond
    → IsName first
    → IsName second
    → (fold_branch (branch indent cond first second) ≡ branch indent cond first second)
      ⊎ (IsTrue cond × (fold_branch (branch indent cond first second) ≡ jump indent first))
      ⊎ (IsFalse cond × (fold_branch (branch indent cond first second) ≡ jump indent second))
fold_branch-branch indent cond first second h c f s =
    let trimmed : trim_copy cond ≡ cond = (trim_copy-name [] cond tt c).0 in
    let one = codes " label " ++ first in
    let two = codes " label " ++ second in
    elim (is_true_cases cond) [
      | inl t ↦ inr (
          inl (
            t,
            fold_branch_constant indent cond one two one first h (name_no_comma cond c)
                (label_no_comma first f) (inl (ap is_true trimmed ∙ IsTrue-is_true cond t, refl))
                (trim_copy-label first f),
          ))
      | inr n ↦ elim (is_false_cases cond) [
        | inl t ↦ inr (
            inr (
              t,
              fold_branch_constant indent cond one two two second h (name_no_comma cond c)
                  (label_no_comma first f)
                  (inr (ap is_false trimmed ∙ IsFalse-is_false cond t, refl))
                  (trim_copy-label second s),
            ))
        | inr k ↦ inl (
            fold_branch_variable indent cond one two h (name_no_comma cond c)
              (label_no_comma first f) (ap is_true trimmed ∙ n) (ap is_false trimmed ∙ k))
      ]
    ]

pub jump-Lacks :
    (indent target : Bytes) → IsBlank indent → IsName target → Lacks b'=' (jump indent target)
jump-Lacks indent target h t =
    let front : Lacks b'=' (codes "br label ") = ground arith in
    All-append _ indent _ (indent-Lacks indent h)
      (All-append _ (codes "br label ") target front (name-Lacks target t))
