-- ===== src/Mir/Function/Whole.antt =====
-- What the optimiser keeps of a function: its behaviour, jumps included.
use vix_lang.Common.Text.{Bytes}
use vix_lang.Common.{ℕ, zero, suc, ◌<◌, ◌≡◌, Option, none, some, List, [], ◌∷◌, get_elem?}
use vix_lang.Mir.Function.{MirLine, Aliases, rewrite_line, note_alias}
use vix_lang.Mir.Function.Meaning.{Meaning, State, run}
use vix_lang.Mir.Function.Operands.{Operands, IsApt}
use vix_lang.Mir.Line.{assignment_dest, assignment_uses}

abbrev noted : Aliases → Option Bytes → Aliases
noted aliases none = aliases
noted aliases (some text) = note_alias aliases text

-- The aliases of the lines above a place.
unfoldable pub aliases_above : Aliases → List MirLine → ℕ → Aliases
aliases_above aliases lines zero = aliases
aliases_above aliases [] (suc i) = aliases
aliases_above aliases (line ∷ lines) (suc i) =
    aliases_above (noted aliases (rewrite_line aliases line.text)) lines i

module _ (m : Meaning) (o : Operands m) where
  open m use {Value, World, exec}

  abbrev pub IsReadyLine : Aliases → (Bytes → Value) → Option MirLine → Type 0
  IsReadyLine aliases env none = Unit
  IsReadyLine aliases env (some line) = IsApt m o aliases env (assignment_uses line.text)

  -- Where a line is reached, each alias above it whose name it uses has the value of its name.
  abbrev pub IsReady : List MirLine → State m → Type 0
  IsReady lines s = IsReadyLine (aliases_above [] lines s.pc) s.env (get_elem? lines s.pc)

  -- A line does the same as the line that it is rewritten to.
  abbrev IsSame : MirLine → MirLine → (Bytes → Value) → World → Type 0
  IsSame line k env w =
      (exec k.text env w ≡ exec line.text env w)
      × (assignment_dest k.text ≡ assignment_dest line.text)
      × (k.alive ≡ line.alive)

  abbrev IsSameAt : Option MirLine → Option MirLine → (Bytes → Value) → World → Type 0
  IsSameAt none none env w = Unit
  IsSameAt (some line) (some k) env w = IsSame line k env w
  IsSameAt _ _ env w = ⊥

  -- All aliases above the lines that a run reaches are ready there.
  abbrev pub IsReadyFor : ℕ → List MirLine → State m → Type 0
  IsReadyFor n lines s = (k : ℕ) → k < n → IsReady lines (run m k lines s)
