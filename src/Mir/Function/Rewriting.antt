-- ===== src/Mir/Function/Rewriting.antt =====
-- What the rewriting of a line and branch folding keep: what the line does.
use vix_lang.Common.Text.{Bytes, split_at}
use vix_lang.Common.{
  suc, ◌+◌, length, ◌≡◌, ◌≢◌, ◌⊎◌, refl, ap, sym, ◌∙◌, inl, inr, true, false, Option, none, some,
  [], ◌∷◌, arith, ◌++◌, All, Option-cases, append_assoc,
}
use vix_lang.Mir.Function.{Aliases, replace_all, rewrite_line}
use vix_lang.Mir.Function.Meaning.{Meaning}
use vix_lang.Mir.Function.Operands.{
  line_of, IsCut, IsRegister, IsBranching, Operands, IsSound, IsApt,
}
use vix_lang.Mir.Function.Propagation.{All-replace_from}
use vix_lang.Mir.Line.{fold_branch, assignment_dest, assignment_uses}
use vix_lang.Mir.Line.Branch.{fold_branch_other}
use vix_lang.Mir.Line.Folded.{fold_branch-Lacks}
use vix_lang.Mir.Line.Shapes.Branching.{branch-Lacks, fold_branch-branch}
use vix_lang.Mir.Line.Split.{Lacks, split_at_mark, split_at-none, split_at-some, split_at-none_inv}
use vix_lang.Mir.Tokens.{Buffer, replace_token, contains_token, outside, name_char, trim_copy}
use vix_lang.Mir.Tokens.Absent.{IsPlain, replace_token_absent}
use vix_lang.Mir.Tokens.Words.{tokens, substituted, IsName}
use vix_lang.Mir.Tokens.Substitution.{replace_token-substituted}

-- A replacement brings no `=` into a text.
pub replace_token-Lacks :
    (s name value : Bytes) (b : Buffer)
    → Lacks b'=' s
    → Lacks b'=' value
    → replace_token s name value ≡ some b
    → Lacks b'=' b.out
unfolding replace_token
replace_token-Lacks s name value b h v e =
    All-replace_from (λ c. c ≢ b'=') name value v (suc (length s)) none outside s
      (record { out = []; cap = length s + 1 }) b h tt e

substituted-absent :
    (s name value : Bytes)
    → IsName name
    → contains_token s name ≡ false
    → substituted name value (tokens s) ≡ s
substituted-absent s name value h absent =
    let (b, done, out) = replace_token-substituted s name value h in
    let (b', done', out') = replace_token_absent s name value (name-IsPlain name h) absent in
    let same : b ≡ b' = cc in sym out ∙ ap (λ (b : Buffer). b.out) same ∙ out'
  where
    name-IsPlain : (name : Bytes) → IsName name → IsPlain name
    name-IsPlain [] h = elim h.0 [ ]
    name-IsPlain (c ∷ name) h = let t = h.1.0 in unfold name_char in ground arith

pub IsRegister-IsName : (name : Bytes) → IsRegister name → IsName name
IsRegister-IsName [] h = absurd h
IsRegister-IsName (c ∷ s) h = h.1

module _ (m : Meaning) (o : Operands m) where
  open m use {Value, World, exec}

  -- Folding keeps what a line does, and what it assigns.
  pub exec-fold_branch :
      (text : Bytes) (env : Bytes → Value) (w : World)
      → IsBranching m o text
      → exec (fold_branch text) env w ≡ exec text env w
  exec-fold_branch text env w (inl other) = rw (fold_branch_other text other) refl
  exec-fold_branch text env w (inr (indent, cond, first, second, is, blank, c, f, s)) =
      let law = o.branches indent cond first second env w blank f s in
      rw is (elim (fold_branch-branch indent cond first second blank c f s) [
        | inl same ↦ rw same refl
        | inr (inl (t, folded)) ↦ rw folded (sym (law.0 t))
        | inr (inr (t, folded)) ↦ rw folded (sym (law.1 t))
      ])

  pub assignment_dest-fold_branch :
      (text : Bytes)
      → IsBranching m o text
      → assignment_dest (fold_branch text) ≡ assignment_dest text
  assignment_dest-fold_branch text (inl other) = rw (fold_branch_other text other) refl
  assignment_dest-fold_branch text (inr (indent, cond, first, second, is, blank, c, f, s)) =
      let lacks : Lacks b'=' text = rw is (branch-Lacks indent cond first second blank c f s) in
      unfold assignment_dest in
      rw (split_at-none b'=' text lacks, split_at-none b'=' _ (fold_branch-Lacks text lacks)) refl

  -- A name may be replaced by its value, and one that is not there by anything.
  exec-substituted :
      (before : Option Bytes) (s name value : Bytes) (env : Bytes → Value) (w : World)
      → IsCut before s
      → IsRegister name
      → o.operand value ≡ true
      → (contains_token s name ≡ false) ⊎ (env name ≡ o.denote value env)
      → exec (line_of before (substituted name value (tokens s))) env w
        ≡ exec (line_of before s) env w
  exec-substituted before s name value env w cut h operand (inr told) =
      o.substitutes before s name value env w cut h operand told
  exec-substituted before s name value env w cut h operand (inl absent) =
      ap (λ t. exec (line_of before t) env w)
        (substituted-absent s name value (IsRegister-IsName name h) absent)

  -- The aliases that are apt may be replaced in the operands of a line.
  exec-replace_all :
      (aliases : Aliases) (before : Option Bytes) (s r : Bytes) (env : Bytes → Value) (w : World)
      → All (IsSound m o) aliases
      → IsApt m o aliases env s
      → IsCut before s
      → replace_all aliases s ≡ some r
      → (exec (line_of before r) env w ≡ exec (line_of before s) env w) × IsCut before r
  unfolding replace_all
  exec-replace_all [] before s r env w sound apt cut e =
      let same : s ≡ r = cc in rw (← same) (refl, cut)
  exec-replace_all ((name, value) ∷ aliases) before s r env w sound apt cut e =
      let (is_name, lacks, operand) = sound.0 in
      let (b, done, out) =
        replace_token-substituted s name value (IsRegister-IsName name is_name) in
      let next : replace_all aliases b.out ≡ some r = rw done at e in
      let cut' = cut_replaced before cut b done lacks in
      let rest : IsApt m o aliases env b.out = rw out (apt.1) in
      let (same, cut'') = exec-replace_all aliases before b.out r env w sound.1 rest cut' next in
      (
        same
            ∙ ap (λ t. exec (line_of before t) env w) out
            ∙ exec-substituted before s name value env w cut is_name operand apt.0,
        cut'',
      )
    where
      cut_replaced :
          (before : Option Bytes)
          → IsCut before s
          → (b : Buffer) → replace_token s name value ≡ some b
          → Lacks b'=' value
          → IsCut before b.out
      cut_replaced none cut b done lacks = replace_token-Lacks s name value b cut lacks done
      cut_replaced (some before) cut b done lacks = cut

  assignment_dest-line_of :
      (before operands : Bytes)
      → Lacks b'=' before
      → assignment_dest (line_of (some before) operands) ≡ some (trim_copy before)
  unfolding assignment_dest
  assignment_dest-line_of before operands h = rw (split_at_mark b'=' before operands h) refl

  pub exec-rewrite_line :
      (aliases : Aliases) (text text' : Bytes) (env : Bytes → Value) (w : World)
      → All (IsSound m o) aliases
      → IsApt m o aliases env (assignment_uses text)
      → rewrite_line aliases text ≡ some text'
      → (exec text' env w ≡ exec text env w) × (assignment_dest text' ≡ assignment_dest text)
  unfolding rewrite_line assignment_uses
  exec-rewrite_line aliases text text' env w sound apt e =
      elim (Option-cases (split_at b'=' text)) [
        | inl n ↦ elim (Option-cases (replace_all aliases text)) [
          | inl f ↦ let out : none ≡ some text' = rw (n, f) at e in cc
          | inr (r, f) ↦
              let out : some r ≡ some text' = rw (n, f) at e in
              let is : r ≡ text' = cc in
              let lacks = split_at-none_inv b'=' text n in
              let (same, lacks') =
                exec-replace_all aliases none text r env w sound (rw n at apt) lacks f in
              rw (← is) (same, unfold assignment_dest in rw (n, split_at-none b'=' r lacks') refl)
        ]
        | inr ((b, a), c) ↦ elim (Option-cases (replace_all aliases a)) [
          | inl f ↦ let out : none ≡ some text' = rw (c, f) at e in cc
          | inr (r, f) ↦
              let out : some ((b ++ b'=' ∷ []) ++ r) ≡ some text' = rw (c, f) at e in
              let is : b ++ b'=' ∷ r ≡ text' = sym (append_assoc b (b'=' ∷ []) r) ∙ cc in
              let (whole, lacks) = split_at-some b'=' text b a c in
              let (same, _) =
                exec-replace_all aliases (some b) a r env w sound (rw c at apt) lacks f in
              rw (← is, whole)
                (same, assignment_dest-line_of b r lacks ∙ sym (assignment_dest-line_of b a lacks))
        ]
      ]
