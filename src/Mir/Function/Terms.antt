-- ===== src/Mir/Function/Terms.antt =====
-- A meaning of the lines in which the values are terms: a constant stands for itself, a register
-- for its value, a copy for its operand, and every other operation for its words. Branches go to
-- the places of their labels, and other lines without a result are kept in a log.
pub mod Laws
pub mod Branches
use vix_lang.Common.Text.{Bytes, codes, str_eq, str_eq_iff, byte_at}
use vix_lang.Common.{
  ℕ, zero, suc, ◌+◌, ◌≡◌, refl, sym, ap, ◌∙◌, inl, inr, Bool, true, false, not, ◌&&◌, ◌||◌, Option,
  none, some, List, [], ◌∷◌, ◌++◌, if◌then◌else◌, ◌==◌, arith, All, Bool-cases, ltb, length,
}
use vix_lang.Mir.Function.{candidate}
use vix_lang.Mir.Function.Meaning.{Meaning, assigned}
use vix_lang.Mir.Function.Operands.{Operands, line_of, IsCut, IsRegister}
use vix_lang.Mir.Function.Rewriting.{replace_token-Lacks, IsRegister-IsName}
use vix_lang.Mir.Line.{assignment_dest, assignment_uses}
use vix_lang.Mir.Line.Shapes.{
  assigning, branch, jump, assignment_dest-assigning, assignment_uses-assigning, name-Lacks,
}
use vix_lang.Mir.Line.Shapes.Branching.{branch-Lacks, IsTrue, IsFalse, jump-Lacks}
use vix_lang.Mir.Line.Shapes.Noted.{AliasOf, copied, constant}
use vix_lang.Mir.Line.Split.{Lacks, split_at-none, split_at_mark}
use vix_lang.Mir.Tokens.{name_char, outside, advance, is_space, contains_token}
use vix_lang.Mir.Tokens.Membership.{contains_token-has_word}
use vix_lang.Mir.Tokens.Renamed.{front-name, tokens_from-name, renamed, tokens-substituted}
use vix_lang.Mir.Tokens.Substitution.{replace_token-substituted}
use vix_lang.Mir.Tokens.Trim.{IsBlank}
use vix_lang.Mir.Tokens.Words.{
  Token, word, mark, tokens_from, tokens, tokens_from-mark, substituted, has_word, IsName,
}

abbrev all_names : Bytes → Bool
all_names [] = true
all_names (c ∷ s) = name_char c && all_names s

abbrev pub is_name : Bytes → Bool
is_name s = ltb 0 (length s) && all_names s

abbrev pub is_register : Bytes → Bool
is_register [] = false
is_register (c ∷ s) = c == b'%' && all_names (c ∷ s)

-- A constant, of which two have another spelling.
abbrev pub literal : Bytes → Bytes
literal s =
    if str_eq s (codes "true") then codes "1" else if str_eq s (codes "false") then codes "0" else s

unfoldable pub value_of : Bytes → (Bytes → Bytes) → Bytes
value_of s env = if is_register s then env s else literal s

-- The words of a line with their values; a mark stands for itself.
unfoldable pub resolved : (Bytes → Bytes) → List Token → List Bytes
unfolding value_of
resolved env [] = []
resolved env (word w ∷ ts) = value_of w env ∷ resolved env ts
resolved env (mark c ∷ ts) =
    let rest = resolved env ts in if is_space c then rest else (c ∷ []) ∷ rest

abbrev term : List Bytes → Bytes
term [] = []
term (w ∷ ws) = w ++ b' ' ∷ term ws

-- The value of the right side of an assignment.
unfoldable pub evaluated : List Bytes → Bytes
evaluated (op ∷ ty ∷ v ∷ []) =
    if str_eq op (codes "copy") || str_eq op (codes "const") then v else term (op ∷ ty ∷ v ∷ [])
evaluated ws = term ws

abbrev Log : Type 0
Log = List (List Bytes)

-- What a line without a result does.
unfoldable pub performed : List Bytes → Log → Bytes × Log × Option Bytes
performed (op ∷ label ∷ target ∷ []) w =
    if str_eq op (codes "br")
    then ([], w, some target)
    else ([], w ++ (op ∷ label ∷ target ∷ []) ∷ [], none)
performed (op ∷ c ∷ comma ∷ label ∷ first ∷ comma' ∷ label' ∷ second ∷ []) w =
    if str_eq op (codes "br_cond")
    then ([], w, some (if str_eq c (codes "0") then second else first))
    else ([], w ++ (op ∷ c ∷ comma ∷ label ∷ first ∷ comma' ∷ label' ∷ second ∷ []) ∷ [], none)
performed ws w = ([], w ++ ws ∷ [], none)

unfoldable pub settled : Option Bytes → List Bytes → Log → Bytes × Log × Option Bytes
settled none ws w = performed ws w
settled (some dest) ws w = (evaluated ws, w, none)

abbrev pub does : Bytes → (Bytes → Bytes) → Log → Bytes × Log × Option Bytes
does text env w = settled (assignment_dest text) (resolved env (tokens (assignment_uses text))) w

-- The place of the line `label:`; only lines that end in a colon are looked at.
abbrev is_label : Bytes → Bool
is_label [] = false
is_label (c ∷ []) = c == b':'
is_label (c ∷ d ∷ s) = is_label (d ∷ s)

unfoldable pub place : Bytes → List Bytes → ℕ
place label [] = 0
place label (text ∷ texts) =
    let rest = place label texts + 1 in
    if is_label text then (if str_eq text (label ++ b':' ∷ []) then 0 else rest) else rest

all_names-All : (s : Bytes) → all_names s ≡ true → All (λ c. name_char c ≡ true) s
all_names-All [] e = tt
all_names-All (c ∷ s) e = (ground arith, all_names-All s (ground arith))

All-all_names : (s : Bytes) → All (λ c. name_char c ≡ true) s → all_names s ≡ true
All-all_names [] h = refl
All-all_names (c ∷ s) h = rw (h.0, All-all_names s h.1) refl

pub is_name-IsName : (s : Bytes) → is_name s ≡ true → IsName s
is_name-IsName [] e = absurd (ground arith)
is_name-IsName (c ∷ s) e = (omega arith, all_names-All (c ∷ s) (ground arith))

pub is_register-IsName : (s : Bytes) → is_register s ≡ true → IsName s
is_register-IsName [] e = absurd (ground arith)
is_register-IsName (c ∷ s) e = (omega arith, all_names-All (c ∷ s) (ground arith))

pub IsRegister-is_register : (s : Bytes) → IsRegister s → is_register s ≡ true
IsRegister-is_register [] h = absurd h
IsRegister-is_register (c ∷ s) h = rw (h.0, ← h.0, All-all_names (c ∷ s) (h.1.1)) refl

-- A line depends on the registers in it only.
resolved-reads :
    (env env' : Bytes → Bytes) (ts : List Token)
    → ((name : Bytes) → IsName name → has_word name ts ≡ true → env name ≡ env' name)
    → resolved env ts ≡ resolved env' ts
unfolding resolved has_word
resolved-reads env env' [] h = refl
resolved-reads env env' (word w ∷ ts) h =
    let rest = resolved-reads env env' ts (λ name k e. h name k (rw e (ground arith))) in
    elim (Bool-cases (is_register w)) [
      | inl e ↦
          let same = h w (is_register-IsName w e) (rw ((str_eq_iff w w).1 refl) refl) in
          rw (e, same, rest) refl
      | inr e ↦ rw (e, rest) refl
    ]
resolved-reads env env' (mark c ∷ ts) h = rw (resolved-reads env env' ts h) refl

pub reads_line :
    (text : Bytes) (env env' : Bytes → Bytes) (w : Log)
    → ((name : Bytes) → contains_token (assignment_uses text) name ≡ true → env name ≡ env' name)
    → does text env w ≡ does text env' w
reads_line text env env' w same =
    ap (λ ws. settled (assignment_dest text) ws w)
      (resolved-reads env env' (tokens (assignment_uses text))
        (λ name k e. same name (contains_token-has_word (assignment_uses text) name k ∙ e)))

candidate-dest : (text dest : Bytes) → candidate text ≡ some dest → assignment_dest text ≡ some dest
candidate-dest text dest c = unfold candidate in ground arith

pub pure_line :
    (text dest : Bytes) (env : Bytes → Bytes) (w : Log)
    → candidate text ≡ some dest
    → (v : Bytes) × (does text env w ≡ (v, w, none))
unfolding settled
pure_line text dest env w e =
    (evaluated (resolved env (tokens (assignment_uses text))), rw (candidate-dest text dest e) refl)

abbrev pub terms : Meaning
terms = record {
  Value = Bytes;
  World = Log;
  exec = λ text env w. does text env w;
  target = λ label texts. place label texts;
  reads = λ text env env' w same. reads_line text env env' w same;
  effectless = λ text. true;
  pure = λ text dest env w c is. pure_line text dest env w c;
}
