-- ===== src/Driver/Api.antt =====
-- The entry points of `lib/api.c` to the two drivers, each with a state of its own, and the test of
-- a source for `#[no_std]`.
pub mod Once
use vix_lang.Common.Int.{ℤ, pos}
use vix_lang.Common.Text.{Bytes, codes, has_prefix}
use vix_lang.Common.{ℕ, Bool, false, ◌||◌, Option, none, some, List, [], ◌∷◌, if◌then◌else◌}
use vix_lang.Driver.{Library, State}
use vix_lang.Driver.Passes.{optimize_ir_file}
use vix_lang.Driver.Llc.{compile_object, compile_asm}

-- `strstr(src, text) != NULL`
unfoldable pub contains_text : Bytes → Bytes → Bool
unfolding has_prefix
contains_text [] text = has_prefix [] text
contains_text (c ∷ s) text = has_prefix (c ∷ s) text || contains_text s text

-- `vix_api_source_has_no_std`
unfoldable pub source_has_no_std : Option Bytes → ℤ
unfolding contains_text
source_has_no_std none = pos 0
source_has_no_std (some src) = if contains_text src (codes "#[no_std]") then pos 1 else pos 0

pub record System : Type 0 where
  pub passes : State
  pub llc : State

-- The statics of a file before its first call.
abbrev pub fresh : State
fresh = record { last_error = []; initialized = false; effects = [] }

-- A call of the library by its arguments.
pub data Call : Type 0 where
  llc_compile_object : Option Bytes → Option Bytes → Option Bytes → Call
  llc_compile_asm : Option Bytes → Option Bytes → Option Bytes → Call
  optimize_ir : Option Bytes → Option Bytes → Option Bytes → ℤ → Call

module _ (l : Library) where
  unfoldable pub call : Call → System → ℤ × System
  unfolding compile_object compile_asm optimize_ir_file
  call (llc_compile_object input output triple) s =
      let (code, llc') = compile_object l input output triple s.llc in
      (code, record s { llc = llc' })
  call (llc_compile_asm input output triple) s =
      let (code, llc') = compile_asm l input output triple s.llc in (code, record s { llc = llc' })
  call (optimize_ir input output triple level) s =
      let (code, passes') = optimize_ir_file l input output triple level s.passes in
      (code, record s { passes = passes' })

  -- Calls one after the other.
  unfoldable pub run_calls : List Call → System → System
  unfolding call
  run_calls [] s = s
  run_calls (c ∷ cs) s = run_calls cs (call c s).1
