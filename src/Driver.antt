-- ===== src/Driver.antt =====
-- What `lib/llvm/Passes.cpp` and `lib/llvm/Llc.cpp` share: the LLVM library, a parameter; the state
-- of such a file, its `LastError` and `InitOnce`; and the steps that both take. What happens
-- outside is a log of effects, the newest at the end.
pub mod Passes
pub mod Llc
pub mod Steps
pub mod Api
use vix_lang.Common.Int.{ℤ, pos, negsuc}
use vix_lang.Common.Text.{Bytes, codes}
use vix_lang.Common.{
  ℕ, Bool, true, false, Option, none, some, List, [], ◌∷◌, ◌++◌, ◌==◌, if◌then◌else◌,
}

-- A step that fails has a message.
pub data Outcome (A : Type 0) : Type 0 where
  ok : A → Outcome A
  fail : Bytes → Outcome A

infixl 5 ◌>>=◌
abbrev pub ◌>>=◌ : {A B : Type 0} → Outcome A → (A → Outcome B) → Outcome B
ok a >>= f = f a
fail e >>= f = fail e

pub data Level : Type 0 where
  o0 : Level
  o1 : Level
  o2 : Level
  o3 : Level

pub data FileType : Type 0 where
  object : FileType
  assembly : FileType

-- Modules, targets and target machines are LLVM's. `verify` gives the message of a broken module,
-- and `open_output` that of a file that cannot be opened.
pub record Library : Type 1 where
  pub Module : Type 0
  pub Target : Type 0
  pub Machine : Type 0
  pub parse_ir : Bytes → Outcome Module
  pub verify : Module → Option Bytes
  pub triple_of : Module → Bytes
  pub set_triple : Bytes → Module → Module
  pub default_triple : Bytes
  pub lookup_target : Bytes → Outcome Target
  pub create_machine : Target → Bytes → Option Machine
  pub set_layout : Machine → Module → Module
  pub open_output : Bytes → Option Bytes
  pub default_pipeline : Machine → Level → Module → Module
  pub o0_pipeline : Machine → Level → Module → Module
  pub print : Module → Bytes
  pub can_emit : Machine → FileType → Bool
  pub emit : Machine → FileType → Module → Bytes

pub data Effect : Type 0 where
  init_targets : Effect
  opened : Bytes → Effect
  wrote : Bytes → Bytes → Effect

pub record State : Type 0 where
  pub last_error : Bytes
  pub initialized : Bool
  pub effects : List Effect

-- `InputPath == nullptr || InputPath[0] == '\0'`
abbrev pub path_of : Option Bytes → Option Bytes
path_of none = none
path_of (some []) = none
path_of (some (c ∷ s)) = some (c ∷ s)

-- `setError`, and the result 1.
abbrev pub refuse : Bytes → State → ℤ × State
refuse message s = (pos 1, record s { last_error = message })

-- `std::call_once(InitOnce, initializeTargets)`
unfoldable pub initialize_once : State → State
initialize_once s =
    if s.initialized
    then s
    else record s { initialized = true; effects = s.effects ++ init_targets ∷ [] }

-- The message of a file that cannot be opened, in `Passes.cpp` and `Llc.cpp`.
abbrev pub cannot_open : Bytes → Bytes → Bytes
cannot_open path message = codes "cannot open output file '" ++ (path ++ (codes "': " ++ message))

module _ (l : Library) where
  open l use {
    Module, Target, Machine, triple_of, set_triple, default_triple, lookup_target, create_machine,
    verify,
  }

  abbrev pub or_default : Bytes → Bytes
  or_default [] = default_triple
  or_default (c ∷ s) = c ∷ s

  -- `TripleText`
  unfoldable pub triple_text : Option Bytes → Module → Bytes
  triple_text none m = or_default (triple_of m)
  triple_text (some []) m = or_default (triple_of m)
  triple_text (some (c ∷ s)) m = c ∷ s

  unfoldable pub verified : Module → Outcome Module
  verified m = elim (verify m) [ none ↦ ok m | some message ↦ fail message ]

  abbrev pub machine_or : Option Machine → Outcome Machine
  machine_or none = fail (codes "failed to create LLVM target machine")
  machine_or (some tm) = ok tm

  -- The module with its triple and its data layout, and the machine.
  unfoldable pub targeted : Option Bytes → Module → Outcome (Module × Machine)
  unfolding triple_text
  targeted triple m = do
    let text = triple_text triple m
    target ← lookup_target text
    tm ← machine_or (create_machine target text)
    ok (l.set_layout tm (set_triple text m), tm)
