-- ===== src/Mir/Function/Operands.antt =====
-- Blocks of lines, for a meaning of a line that depends on the values of its operands only.
use vix_lang.Common.Text.{Bytes, codes, str_eq, has_prefix}
use vix_lang.Common.{◌≡◌, ◌⊎◌, Bool, true, false, Option, none, some, List, [], ◌∷◌, ◌++◌, All}
use vix_lang.Mir.Line.{assignment_dest}
use vix_lang.Mir.Line.Shapes.{assigning, branch, jump}
use vix_lang.Mir.Line.Shapes.Branching.{IsTrue, IsFalse}
use vix_lang.Mir.Line.Shapes.Noted.{AliasOf, IsNoAlias}
use vix_lang.Mir.Line.Split.{Lacks}
use vix_lang.Mir.Tokens.{skip_space, contains_token}
use vix_lang.Mir.Tokens.Trim.{IsBlank}
use vix_lang.Mir.Tokens.Words.{tokens, substituted, has_word, IsName}
use vix_lang.Mir.Function.{MirLine, Aliases, rewrite_line, note_alias}
use vix_lang.Mir.Function.Meaning.{Meaning, assigned}

-- A line that assigns to the text in front of `=`, or one that does not assign.
abbrev pub line_of : Option Bytes → Bytes → Bytes
line_of none operands = operands
line_of (some before) operands = before ++ b'=' ∷ operands

abbrev pub IsCut : Option Bytes → Bytes → Type 0
IsCut none operands = Lacks b'=' operands
IsCut (some before) operands = Lacks b'=' before

-- A name that begins as those of values do.
abbrev pub IsRegister : Bytes → Type 0
IsRegister [] = ⊥
IsRegister (c ∷ s) = (c ≡ b'%') × IsName (c ∷ s)

module _ (m : Meaning) where
  open m use {Value, World, exec}

  -- `operand` tells which texts may stand for a register, and `denote` gives their values. A line
  -- means the same with an operand in the place of a register of the same value; a copy and a
  -- constant of an integer type give the value of their operand; the value of an operand is that of
  -- its words; and a conditional branch on a constant goes to the chosen label.
  pub record Operands : Type 0 where
    pub operand : Bytes → Bool
    pub denote : Bytes → (Bytes → Value) → Value
    pub substitutes :
        (before : Option Bytes) (operands name value : Bytes) (env : Bytes → Value) (w : World)
        → IsCut before operands
        → IsRegister name
        → operand value ≡ true
        → env name ≡ denote value env
        → exec (line_of before (substituted name value (tokens operands))) env w
          ≡ exec (line_of before operands) env w
    pub copies :
        (indent dest value right : Bytes) (env : Bytes → Value) (w : World)
        → IsBlank indent
        → IsRegister dest
        → AliasOf value right
        → operand value ≡ true
        → exec (assigning indent dest right) env w ≡ (denote value env, w, none)
    pub steady :
        (value dest : Bytes) (env : Bytes → Value) (v : Value)
        → has_word dest (tokens value) ≡ false
        → denote value (assigned m (some dest) v env) ≡ denote value env
    pub branches :
        (indent cond first second : Bytes) (env : Bytes → Value) (w : World)
        → IsBlank indent
        → IsName first
        → IsName second
        → (IsTrue cond
            → exec (branch indent cond first second) env w ≡ exec (jump indent first) env w)
          × (IsFalse cond
              → exec (branch indent cond first second) env w ≡ exec (jump indent second) env w)

  -- The values of the names, the machine, and the label of a jump.
  abbrev pub Outcome : Type 0
  Outcome = (Bytes → Value) × World × Option Bytes

  -- A jump leaves the block.
  abbrev pub and_then :
      Option Bytes
      → (Bytes → Value)
      → Value × World × Option Bytes
      → ((Bytes → Value) → World → Outcome)
      → Outcome
  and_then dest env (v, w, some label) next = (assigned m dest v env, w, some label)
  and_then dest env (v, w, none) next = next (assigned m dest v env) w

  -- The lines one after the other, up to the first that jumps.
  unfoldable pub run_block : List MirLine → (Bytes → Value) → World → Outcome
  run_block [] env w = (env, w, none)
  run_block (line ∷ lines) env w =
      and_then (assignment_dest line.text) env (exec line.text env w)
        (λ env' w'. run_block lines env' w')

  module _ (o : Operands) where
    -- The aliases tell the values of their names.
    abbrev pub Holds : Aliases → (Bytes → Value) → Type 0
    Holds aliases env = All (λ (a : Bytes × Bytes). env a.0 ≡ o.denote a.1 env) aliases

    -- Each alias in turn tells the value of its name, or the name is not in the text.
    abbrev pub IsApt : Aliases → (Bytes → Value) → Bytes → Type 0
    IsApt [] env s = Unit
    IsApt ((name, value) ∷ aliases) env s =
        ((contains_token s name ≡ false) ⊎ (env name ≡ o.denote value env))
        × IsApt aliases env (substituted name value (tokens s))

    -- Aliases that stand for a name.
    abbrev pub IsSound : Bytes × Bytes → Type 0
    IsSound (name, value) = IsRegister name × Lacks b'=' value × (o.operand value ≡ true)

    -- The assignment changes neither the names nor the values of the aliases.
    abbrev pub IsFresh : Option Bytes → Aliases → Type 0
    IsFresh none aliases = Unit
    IsFresh (some dest) aliases =
        All
          (λ (a : Bytes × Bytes). (str_eq a.0 dest ≡ false) × (has_word dest (tokens a.1) ≡ false))
          aliases

    -- A line either makes no alias, or is a copy or a constant into a register, whose operand does
    -- not use it.
    abbrev pub IsNoted : Bytes → Type 0
    IsNoted text =
        IsNoAlias text
        ⊎ ((indent dest value right : Bytes) × (text ≡ assigning indent dest right)
            × IsBlank indent
            × AliasOf value right
            × IsSound (dest, value)
            × (has_word dest (tokens value) ≡ false))

    -- A line is no conditional branch, or one between two labels.
    abbrev pub IsBranching : Bytes → Type 0
    IsBranching text =
        (has_prefix (skip_space text) (codes "br_cond ") ≡ false)
        ⊎ ((indent cond first second : Bytes) × (text ≡ branch indent cond first second)
            × IsBlank indent
            × IsName cond
            × IsName first
            × IsName second)

    -- The lines as propagation rewrites them: each assigns no name that an earlier alias has or
    -- uses, and copies, constants and conditional branches are written as the printer does.
    abbrev pub IsSingle : Aliases → List MirLine → Type 0
    IsSingle aliases [] = Unit
    IsSingle aliases (line ∷ lines) =
        (text' : Bytes) × (rewrite_line aliases line.text ≡ some text')
        × IsFresh (assignment_dest text') aliases
        × IsNoted text'
        × IsBranching text'
        × IsSingle (note_alias aliases text') lines
