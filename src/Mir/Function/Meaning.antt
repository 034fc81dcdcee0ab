-- ===== src/Mir/Function/Meaning.antt =====
-- The behaviour of the lines of a function, for a given meaning of a line.
use vix_lang.Common.Text.{Bytes, str_eq}
use vix_lang.Common.{
  ℕ, Bool, zero, suc, ◌+◌, ◌≡◌, ◌⊎◌, true, false, Option, none, some, List, get_elem?, map,
  if◌then◌else◌,
}
use vix_lang.Mir.Line.{assignment_dest, assignment_uses}
use vix_lang.Mir.Tokens.{contains_token}
use vix_lang.Mir.Function.{MirLine, candidate, used_in}

-- The meaning of a line: from the values of the names and the rest of the machine it gives the
-- value to assign, the machine behind it, and the label to jump to, if any. `target` is where a
-- label stands among the lines of the function. `effectless` tells the lines that do nothing but
-- assign.
pub record Meaning : Type 1 where
  pub Value : Type 0
  pub World : Type 0
  pub exec : Bytes → (Bytes → Value) → World → Value × World × Option Bytes
  pub target : Bytes → List Bytes → ℕ
  pub reads :
      (text : Bytes) (env env' : Bytes → Value) (w : World)
      → ((name : Bytes) → contains_token (assignment_uses text) name ≡ true → env name ≡ env' name)
      → exec text env w ≡ exec text env' w
  pub effectless : Bytes → Bool
  pub pure :
      (text dest : Bytes) (env : Bytes → Value) (w : World)
      → candidate text ≡ some dest
      → effectless text ≡ true
      → (v : Value) × (exec text env w ≡ (v, w, none))

abbrev pub texts_of : List MirLine → List Bytes
texts_of ls = map (λ l. l.text) ls

module _ (m : Meaning) where
  open m use {Value, World, exec, target}

  -- A line that the optimiser may remove does nothing but assign.
  abbrev pub IsHarmless : MirLine → Type 0
  IsHarmless line = (candidate line.text ≡ none) ⊎ (m.effectless line.text ≡ true)

  pub record State : Type 0 where
    pub pc : ℕ
    pub env : Bytes → Value
    pub world : World

  abbrev pub assigned : Option Bytes → Value → (Bytes → Value) → Bytes → Value
  assigned none v env name = env name
  assigned (some dest) v env name = if str_eq name dest then v else env name

  abbrev pub next_pc : Option Bytes → List Bytes → ℕ → ℕ
  next_pc none texts pc = pc + 1
  next_pc (some label) texts pc = target label texts

  abbrev pub finish : Bytes → List Bytes → Value × World × Option Bytes → State → State
  finish text texts (v, w, jump) s = record {
    pc = next_pc jump texts s.pc;
    env = assigned (assignment_dest text) v s.env;
    world = w;
  }

  abbrev pub step_line : Option MirLine → List Bytes → State → State
  step_line none texts s = s
  step_line (some line) texts s =
      if line.alive
      then finish line.text texts (exec line.text s.env s.world) s
      else record s { pc = s.pc + 1 }

  -- The line at `pc`; a removed line is passed over, and behind the last line the function stands
  -- still.
  unfoldable pub step : List MirLine → State → State
  step ls s = step_line (get_elem? ls s.pc) (texts_of ls) s

  unfoldable pub run : ℕ → List MirLine → State → State
  unfolding step
  run zero ls s = s
  run (suc n) ls s = run n ls (step ls s)

  -- The same place and the same machine, and the same values of the names that living lines use.
  abbrev pub Agrees : List MirLine → State → State → Type 0
  Agrees ks s s' =
      (s.pc ≡ s'.pc)
      × (s.world ≡ s'.world)
      × ((name : Bytes) → (used_in name ks ≡ false) ⊎ (s.env name ≡ s'.env name))
