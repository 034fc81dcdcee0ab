-- ===== src/Mir/Function/Terms/Laws.antt =====
-- The laws of operands for the meaning in which values are terms.
use vix_lang.Common.Text.{Bytes, codes, str_eq, str_eq_iff}
use vix_lang.Common.{
  ◌≡◌, refl, sym, ap, ◌∙◌, inl, inr, true, false, Option, none, some, List, [], ◌∷◌, ◌++◌,
  Bool-cases, append-nil,
}
use vix_lang.Mir.Function.Meaning.{assigned}
use vix_lang.Mir.Function.Operands.{line_of, IsCut, IsRegister}
use vix_lang.Mir.Function.Rewriting.{replace_token-Lacks, IsRegister-IsName}
use vix_lang.Mir.Function.Terms.{
  terms, Log, does, is_name, is_register, value_of, resolved, evaluated, settled,
  IsRegister-is_register, is_name-IsName, is_register-IsName,
}
use vix_lang.Mir.Line.{assignment_dest, assignment_uses}
use vix_lang.Mir.Line.Shapes.{
  assigning, copy_of, const_of, assignment_dest-assigning, assignment_uses-assigning, name-Lacks,
}
use vix_lang.Mir.Line.Shapes.Noted.{AliasOf, copied, constant}
use vix_lang.Mir.Line.Split.{split_at-none, split_at_mark}
use vix_lang.Mir.Tokens.{name_char, outside, advance, is_space}
use vix_lang.Mir.Tokens.Renamed.{tokens_from-name, renamed, tokens-substituted}
use vix_lang.Mir.Tokens.Substitution.{replace_token-substituted}
use vix_lang.Mir.Tokens.Trim.{IsBlank}
use vix_lang.Mir.Tokens.Words.{
  Token, word, mark, tokens_from, tokens, substituted, has_word, IsName,
}

-- What a line assigns and uses.
dest_of : Option Bytes → Bytes → Option Bytes
dest_of before operands = assignment_dest (line_of before operands)

uses-line_of :
    (before : Option Bytes) (operands : Bytes)
    → IsCut before operands
    → assignment_uses (line_of before operands) ≡ operands
unfolding assignment_uses
uses-line_of none operands cut = rw (split_at-none b'=' operands cut) refl
uses-line_of (some before) operands cut = rw (split_at_mark b'=' before operands cut) refl

IsCut-substituted :
    (before : Option Bytes) (s name value : Bytes)
    → IsCut before s
    → IsName name
    → IsName value
    → IsCut before (substituted name value (tokens s))
IsCut-substituted none s name value lacks h k =
    let (b, done, out) = replace_token-substituted s name value h in
    rw out at (replace_token-Lacks s name value b lacks (name-Lacks value k) done)
IsCut-substituted (some before) s name value cut h k = cut

dest-cut :
    (before : Option Bytes) (s t : Bytes)
    → IsCut before s
    → IsCut before t
    → assignment_dest (line_of before s) ≡ assignment_dest (line_of before t)
unfolding assignment_dest
dest-cut none s t cut cut' = rw (split_at-none b'=' s cut, split_at-none b'=' t cut') refl
dest-cut (some before) s t cut cut' =
    rw (split_at_mark b'=' before s cut, split_at_mark b'=' before t cut) refl

-- A register may be replaced by what has its value.
resolved-renamed :
    (env : Bytes → Bytes) (name value : Bytes) (ts : List Token)
    → value_of name env ≡ value_of value env
    → resolved env (renamed name value ts) ≡ resolved env ts
unfolding resolved renamed
resolved-renamed env name value [] same = refl
resolved-renamed env name value (word w ∷ ts) same =
    let rest = resolved-renamed env name value ts same in
    elim (Bool-cases (str_eq w name)) [
      | inl e ↦
          let is = (str_eq_iff w name).0 e in
          rw (e, rest)
            (ap (λ v. v ∷ resolved env ts) (sym same ∙ ap (λ n. value_of n env) (sym is)))
      | inr e ↦ rw (e, rest) refl
    ]
resolved-renamed env name value (mark c ∷ ts) same =
    rw (resolved-renamed env name value ts same) refl

value_of-register :
    (env : Bytes → Bytes) (name : Bytes) → IsRegister name → value_of name env ≡ env name
unfolding value_of
value_of-register env name h = rw (IsRegister-is_register name h) refl

pub substitutes_term :
    (before : Option Bytes) (s name value : Bytes) (env : Bytes → Bytes) (w : Log)
    → IsCut before s
    → IsRegister name
    → is_name value ≡ true
    → env name ≡ value_of value env
    → does (line_of before (substituted name value (tokens s))) env w
      ≡ does (line_of before s) env w
substitutes_term before s name value env w cut h is told =
    let k = IsRegister-IsName name h in
    let v = is_name-IsName value is in
    let t = substituted name value (tokens s) in
    let cut' = IsCut-substituted before s name value cut k v in
    let words : resolved env (tokens t) ≡ resolved env (tokens s) =
      ap (resolved env) (tokens-substituted name value s v)
      ∙ resolved-renamed env name value (tokens s) (value_of-register env name h ∙ told) in
    rw (uses-line_of before t cut', uses-line_of before s cut, dest-cut before t s cut' cut, words)
      refl

-- A value changes with its register only.
pub steady_term :
    (value dest : Bytes) (env : Bytes → Bytes) (v : Bytes)
    → has_word dest (tokens value) ≡ false
    → value_of value (assigned terms (some dest) v env) ≡ value_of value env
unfolding value_of
steady_term value dest env v unread = elim (Bool-cases (is_register value)) [
  | inr e ↦ rw e refl
  | inl e ↦
      let only : tokens value ≡ word value ∷ [] =
        ap tokens (sym (append-nil value))
        ∙ unfold tokens in
          (tokens_from-name outside value [] refl (is_register-IsName value e)
              (unfold name_char in refl)
            ∙ unfold tokens_from in refl) in
      let other : str_eq value dest ≡ false = elim (Bool-cases (str_eq value dest)) [
        | inl t ↦ absurd (unfold has_word in let bad = rw (only, t) at unread in cc)
        | inr f ↦ f
      ] in
      rw (e, other) refl
]

-- The words of the lines as they are printed.
words-two :
    (env : Bytes → Bytes) (ty value : Bytes)
    → IsName ty
    → IsName value
    → resolved env (tokens_from outside [] (ty ++ b' ' ∷ value))
      ≡ value_of ty env ∷ value_of value env ∷ []
words-two env ty value t v =
    let last : tokens_from outside [] value ≡ word value ∷ [] =
      ap (tokens_from outside []) (sym (append-nil value))
      ∙ tokens_from-name outside value [] refl v (unfold name_char in refl)
      ∙ unfold tokens_from in refl in
    ap (resolved env) (tokens_from-name outside ty (b' ' ∷ value) refl t (unfold name_char in refl))
    ∙ ap (λ ts. resolved env (word ty ∷ ts)) (space value)
    ∙ ap (λ ts. resolved env (word ty ∷ mark b' ' ∷ ts)) last
    ∙ (unfold resolved in unfold is_space in refl)
  where
    space : (s : Bytes) → tokens_from outside [] (b' ' ∷ s) ≡ mark b' ' ∷ tokens_from outside [] s
    space s = unfold tokens_from in unfold name_char in unfold advance in refl

words-copy :
    (env : Bytes → Bytes) (rest : Bytes)
    → resolved env (tokens (b' ' ∷ (codes "copy " ++ rest)))
      ≡ codes "copy" ∷ resolved env (tokens_from outside [] rest)
unfolding tokens tokens_from name_char advance resolved is_space value_of str_eq
words-copy env rest = refl

words-const :
    (env : Bytes → Bytes) (rest : Bytes)
    → resolved env (tokens (b' ' ∷ (codes "const " ++ rest)))
      ≡ codes "const" ∷ resolved env (tokens_from outside [] rest)
unfolding tokens tokens_from name_char advance resolved is_space value_of str_eq
words-const env rest = refl

pub copies_term :
    (indent dest value right : Bytes) (env : Bytes → Bytes) (w : Log)
    → IsBlank indent
    → IsRegister dest
    → AliasOf value right
    → is_name value ≡ true
    → does (assigning indent dest right) env w ≡ (value_of value env, w, none)
unfolding settled evaluated str_eq
copies_term indent dest value _ env w blank h (copied ty named t v) is =
    let k = IsRegister-IsName dest h in
    rw
      (
        assignment_dest-assigning indent dest (copy_of ty value) blank k,
        assignment_uses-assigning indent dest (copy_of ty value) blank k,
        words-copy env (ty ++ b' ' ∷ value),
        words-two env ty value named (is_name-IsName value is),
      )
      refl
copies_term indent dest value _ env w blank h (constant ty i named t v) is =
    let k = IsRegister-IsName dest h in
    rw
      (
        assignment_dest-assigning indent dest (const_of ty value) blank k,
        assignment_uses-assigning indent dest (const_of ty value) blank k,
        words-const env (ty ++ b' ' ∷ value),
        words-two env ty value named (is_name-IsName value is),
      )
      refl
