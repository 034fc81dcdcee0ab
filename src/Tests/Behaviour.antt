-- ===== src/Tests/Behaviour.antt =====
-- The behaviour of a function behind dead code removal, at a concrete input: a meaning in which a
-- line reads `%x`, and a line without an assignment writes what it has read to a log.
use vix_lang.Common.Text.{Bytes, codes, has_prefix, str_eq}
use vix_lang.Common.{
  ℕ, ◌≡◌, refl, inr, Bool, true, false, Option, none, some, List, [], ◌∷◌, if◌then◌else◌, ap,
}
use vix_lang.Mir.Line.{assignment_uses, assignment_dest, alias_value, fold_branch}
use vix_lang.Mir.Tokens.{contains_token, skip_space, is_space, name_char, trim_copy}
use vix_lang.Mir.Function.{MirLine, candidate, propagate, opt_function}
use vix_lang.Mir.Function.Meaning.{Meaning, State, run, Agrees}
use vix_lang.Mir.Function.Behaviour.{opt_function-Agrees}

abbrev logged : Option Bytes → ℕ → List ℕ → ℕ × List ℕ × Option Bytes
logged none v w = (v, v ∷ w, none)
logged (some dest) v w = (v, w, none)

abbrev value_of : Bytes → (Bytes → ℕ) → ℕ
value_of text env =
    if contains_token (assignment_uses text) (codes "%x") then env (codes "%x") else 1

abbrev reader : Bytes → (Bytes → ℕ) → List ℕ → ℕ × List ℕ × Option Bytes
reader text env w = logged (candidate text) (value_of text env) w

reader_reads :
    (text : Bytes) (env env' : Bytes → ℕ) (w : List ℕ)
    → ((name : Bytes) → contains_token (assignment_uses text) name ≡ true → env name ≡ env' name)
    → reader text env w ≡ reader text env' w
reader_reads text env env' w h =
    ap (λ v. logged (candidate text) v w)
      (same (contains_token (assignment_uses text) (codes "%x")) refl)
  where
    same :
        (b : Bool)
        → contains_token (assignment_uses text) (codes "%x") ≡ b
        → value_of text env ≡ value_of text env'
    same true e = rw e (h (codes "%x") e)
    same false e = rw e refl

reader_pure :
    (text dest : Bytes) (env : Bytes → ℕ) (w : List ℕ)
    → candidate text ≡ some dest
    → (v : ℕ) × (reader text env w ≡ (v, w, none))
reader_pure text dest env w e = (value_of text env, rw e refl)

abbrev reading : Meaning
reading = record {
  Value = ℕ;
  World = List ℕ;
  exec = reader;
  target = λ label texts. 0;
  reads = reader_reads;
  effectless = λ text. true;
  pure = λ text dest env w c is. reader_pure text dest env w c;
}

abbrev living : Bytes → MirLine
living text = record { text = text; alive = true }

-- The second line is removed.
abbrev lines : List MirLine
lines =
    living (codes "%x = load i32, %p")
    ∷ living (codes "%y = load i32, %x")
    ∷ living (codes "store i32 %x, %q")
    ∷ []

abbrev kept : List MirLine
kept =
    living (codes "%x = load i32, %p")
    ∷ record { text = codes "%y = load i32, %x"; alive = false }
    ∷ living (codes "store i32 %x, %q")
    ∷ []

abbrev start : State reading
start = record { pc = 0; env = λ name. 0; world = [] }

written : (run reading 3 kept start).world ≡ 1 ∷ []
unfolding run candidate has_prefix skip_space assignment_uses is_space assignment_dest
    contains_token name_char str_eq trim_copy
written = refl

optimised : (propagate [] lines ≡ some lines) × (opt_function lines ≡ some kept)
unfolding propagate opt_function assignment_dest alias_value has_prefix skip_space assignment_uses
    is_space fold_branch contains_token trim_copy name_char
optimised = (refl, refl)

opt_function-Agrees_example :
    Agrees reading kept (run reading 3 lines start) (run reading 3 kept start)
opt_function-Agrees_example =
    opt_function-Agrees reading 3 lines lines kept start (refl, (refl, (refl, tt))) (optimised.0)
      (inr refl, (inr refl, (inr refl, tt))) (optimised.1)
