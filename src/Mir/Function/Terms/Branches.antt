-- ===== src/Mir/Function/Terms/Branches.antt =====
-- The laws of operands for the meaning in which values are terms: branches, and all of them.
use vix_lang.Common.Text.{Bytes, codes, str_eq}
use vix_lang.Common.{
  ℕ, ◌≡◌, refl, sym, ap, ◌∙◌, inl, inr, true, false, some, List, [], ◌∷◌, ◌++◌, arith, append-nil,
}
use vix_lang.Mir.Function.Operands.{Operands}
use vix_lang.Mir.Function.Terms.{terms, Log, does, is_name, value_of, resolved, performed, settled}
use vix_lang.Mir.Function.Terms.Laws.{substitutes_term, copies_term, steady_term}
use vix_lang.Mir.Line.{assignment_dest, assignment_uses}
use vix_lang.Mir.Line.Shapes.{branch, jump}
use vix_lang.Mir.Line.Shapes.Branching.{branch-Lacks, jump-Lacks, IsTrue, IsFalse}
use vix_lang.Mir.Line.Split.{Lacks, split_at-none}
use vix_lang.Mir.Tokens.{name_char, outside, advance, is_space}
use vix_lang.Mir.Tokens.Renamed.{tokens_from-name}
use vix_lang.Mir.Tokens.Trim.{IsBlank}
use vix_lang.Mir.Tokens.Words.{Token, word, mark, tokens_from, tokens, tokens_from-mark, IsName}

-- Blanks in front change no words.
words-blank :
    (env : Bytes → Bytes) (indent s : Bytes)
    → IsBlank indent
    → resolved env (tokens_from outside [] (indent ++ s)) ≡ resolved env (tokens_from outside [] s)
words-blank env [] s h = refl
words-blank env (c ∷ indent) s h =
    ap (resolved env) (space c (indent ++ s) h.0)
    ∙ skip c (tokens_from outside [] (indent ++ s)) (h.0)
    ∙ words-blank env indent s h.1
  where
    skip :
        (c : ℕ) (ts : List Token) → is_space c ≡ true → resolved env (mark c ∷ ts) ≡ resolved env ts
    skip c ts e = unfold resolved in rw e refl

    no_name : (c : ℕ) → is_space c ≡ true → name_char c ≡ false
    no_name c e = unfold is_space in unfold name_char in ground arith

    stays : (c : ℕ) → is_space c ≡ true → advance outside c ≡ outside
    stays c e = unfold is_space in unfold advance in ground arith

    space :
        (c : ℕ) (s : Bytes)
        → is_space c ≡ true
        → tokens_from outside [] (c ∷ s) ≡ mark c ∷ tokens_from outside [] s
    space c s e = tokens_from-mark outside c s (no_name c e) ∙ rw (stays c e) refl

words-jump :
    (env : Bytes → Bytes) (rest : Bytes)
    → resolved env (tokens_from outside [] (codes "br label " ++ rest))
      ≡ codes "br" ∷ codes "label" ∷ resolved env (tokens_from outside [] rest)
unfolding tokens_from name_char advance resolved is_space value_of str_eq
words-jump env rest = refl

words-name :
    (env : Bytes → Bytes) (s : Bytes)
    → IsName s
    → resolved env (tokens_from outside [] s) ≡ value_of s env ∷ []
words-name env s h =
    ap (λ t. resolved env (tokens_from outside [] t)) (sym (append-nil s))
    ∙ ap (resolved env) (tokens_from-name outside s [] refl h (unfold name_char in refl))
    ∙ (unfold tokens_from in unfold resolved in refl)

words-second :
    (env : Bytes → Bytes) (rest : Bytes)
    → resolved env (tokens_from outside [] (b',' ∷ (codes " label " ++ rest)))
      ≡ codes "," ∷ codes "label" ∷ resolved env (tokens_from outside [] rest)
unfolding tokens_from name_char advance resolved is_space value_of str_eq
words-second env rest = refl

words-targets :
    (env : Bytes → Bytes) (first second : Bytes)
    → IsName first
    → IsName second
    → resolved env (tokens_from outside [] (first ++ b',' ∷ (codes " label " ++ second)))
      ≡ value_of first env ∷ codes "," ∷ codes "label" ∷ value_of second env ∷ []
words-targets env first second h k =
    let rest = b',' ∷ (codes " label " ++ second) in
    ap (resolved env) (tokens_from-name outside first rest refl h (unfold name_char in refl))
    ∙ behind (tokens_from outside [] rest)
    ∙ ap (λ ws. value_of first env ∷ ws) (words-second env second)
    ∙ ap (λ ws. value_of first env ∷ codes "," ∷ codes "label" ∷ ws) (words-name env second k)
  where
    behind :
        (ts : List Token) → resolved env (word first ∷ ts) ≡ value_of first env ∷ resolved env ts
    behind ts = unfold resolved in refl

-- The words of a branch on a constant.
words-true :
    (env : Bytes → Bytes) (cond rest : Bytes)
    → IsTrue cond
    → resolved env
        (tokens_from outside [] (codes "br_cond " ++ (cond ++ b',' ∷ (codes " label " ++ rest))))
      ≡ codes "br_cond"
        ∷ codes "1"
        ∷ codes ","
        ∷ codes "label"
        ∷ resolved env (tokens_from outside [] rest)
unfolding tokens_from name_char advance resolved is_space value_of str_eq
words-true env cond rest (inl e) = rw e refl
words-true env cond rest (inr e) = rw e refl

words-false :
    (env : Bytes → Bytes) (cond rest : Bytes)
    → IsFalse cond
    → resolved env
        (tokens_from outside [] (codes "br_cond " ++ (cond ++ b',' ∷ (codes " label " ++ rest))))
      ≡ codes "br_cond"
        ∷ codes "0"
        ∷ codes ","
        ∷ codes "label"
        ∷ resolved env (tokens_from outside [] rest)
unfolding tokens_from name_char advance resolved is_space value_of str_eq
words-false env cond rest (inl e) = rw e refl
words-false env cond rest (inr e) = rw e refl

does-Lacks :
    (text : Bytes) (env : Bytes → Bytes) (w : Log)
    → Lacks b'=' text
    → does text env w ≡ performed (resolved env (tokens_from outside [] text)) w
unfolding assignment_dest assignment_uses settled tokens
does-Lacks text env w lacks = rw (split_at-none b'=' text lacks) refl

does-jump :
    (indent target : Bytes) (env : Bytes → Bytes) (w : Log)
    → IsBlank indent
    → IsName target
    → does (jump indent target) env w ≡ ([], w, some (value_of target env))
does-jump indent target env w blank h =
    does-Lacks (jump indent target) env w (jump-Lacks indent target blank h)
    ∙ ap (λ ws. performed ws w)
        (words-blank env indent (codes "br label " ++ target) blank
          ∙ words-jump env target
          ∙ ap (λ ws. codes "br" ∷ codes "label" ∷ ws) (words-name env target h))
    ∙ (unfold performed in unfold str_eq in refl)

IsTrue-IsName : (cond : Bytes) → IsTrue cond → IsName cond
unfolding name_char
IsTrue-IsName cond (inl e) = rw e (omega arith, (refl, tt))
IsTrue-IsName cond (inr e) = rw e (omega arith, (refl, (refl, (refl, (refl, tt)))))

IsFalse-IsName : (cond : Bytes) → IsFalse cond → IsName cond
unfolding name_char
IsFalse-IsName cond (inl e) = rw e (omega arith, (refl, tt))
IsFalse-IsName cond (inr e) = rw e (omega arith, (refl, (refl, (refl, (refl, (refl, tt))))))

performed_one :
    (a b : Bytes) (w : Log)
    → performed
        (codes "br_cond"
          ∷ codes "1"
          ∷ codes ","
          ∷ codes "label"
          ∷ a
          ∷ codes ","
          ∷ codes "label"
          ∷ b
          ∷ [])
        w
      ≡ ([], w, some a)
unfolding performed str_eq
performed_one a b w = refl

performed_zero :
    (a b : Bytes) (w : Log)
    → performed
        (codes "br_cond"
          ∷ codes "0"
          ∷ codes ","
          ∷ codes "label"
          ∷ a
          ∷ codes ","
          ∷ codes "label"
          ∷ b
          ∷ [])
        w
      ≡ ([], w, some b)
unfolding performed str_eq
performed_zero a b w = refl

branches_true :
    (indent cond first second : Bytes) (env : Bytes → Bytes) (w : Log)
    → IsBlank indent
    → IsName first
    → IsName second
    → IsTrue cond
    → does (branch indent cond first second) env w ≡ does (jump indent first) env w
branches_true indent cond first second env w blank h k t =
    let rest = first ++ b',' ∷ (codes " label " ++ second) in
    does-Lacks (branch indent cond first second) env w
      (branch-Lacks indent cond first second blank (IsTrue-IsName cond t) h k)
    ∙ ap (λ ws. performed ws w)
        (words-blank env indent (codes "br_cond " ++ (cond ++ b',' ∷ (codes " label " ++ rest)))
            blank
          ∙ words-true env cond rest t
          ∙ ap (λ ws. codes "br_cond" ∷ codes "1" ∷ codes "," ∷ codes "label" ∷ ws)
              (words-targets env first second h k))
    ∙ performed_one (value_of first env) (value_of second env) w
    ∙ sym (does-jump indent first env w blank h)

branches_false :
    (indent cond first second : Bytes) (env : Bytes → Bytes) (w : Log)
    → IsBlank indent
    → IsName first
    → IsName second
    → IsFalse cond
    → does (branch indent cond first second) env w ≡ does (jump indent second) env w
branches_false indent cond first second env w blank h k t =
    let rest = first ++ b',' ∷ (codes " label " ++ second) in
    does-Lacks (branch indent cond first second) env w
      (branch-Lacks indent cond first second blank (IsFalse-IsName cond t) h k)
    ∙ ap (λ ws. performed ws w)
        (words-blank env indent (codes "br_cond " ++ (cond ++ b',' ∷ (codes " label " ++ rest)))
            blank
          ∙ words-false env cond rest t
          ∙ ap (λ ws. codes "br_cond" ∷ codes "0" ∷ codes "," ∷ codes "label" ∷ ws)
              (words-targets env first second h k))
    ∙ performed_zero (value_of first env) (value_of second env) w
    ∙ sym (does-jump indent second env w blank k)

pub branches_term :
    (indent cond first second : Bytes) (env : Bytes → Bytes) (w : Log)
    → IsBlank indent
    → IsName first
    → IsName second
    → (IsTrue cond → does (branch indent cond first second) env w ≡ does (jump indent first) env w)
      × (IsFalse cond
          → does (branch indent cond first second) env w ≡ does (jump indent second) env w)
branches_term indent cond first second env w blank h k = (
  λ t. branches_true indent cond first second env w blank h k t,
  λ t. branches_false indent cond first second env w blank h k t,
)

-- Every name is an operand.
abbrev pub term_operands : Operands terms
term_operands = record {
  operand = λ text. is_name text;
  denote = λ text env. value_of text env;
  substitutes = λ before s name value env w cut h is told.
      substitutes_term before s name value env w cut h is told;
  copies = λ indent dest value right env w blank h alias is.
      copies_term indent dest value right env w blank h alias is;
  steady = λ value dest env v unread. steady_term value dest env v unread;
  branches = λ indent cond first second env w blank h k.
      branches_term indent cond first second env w blank h k;
}
