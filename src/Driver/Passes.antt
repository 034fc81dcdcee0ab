-- ===== src/Driver/Passes.antt =====
-- `lib/llvm/Passes.cpp`: the optimisation of an IR file.
pub mod Written
use vix_lang.Common.Int.{ℤ, pos, negsuc}
use vix_lang.Common.Text.{Bytes, codes}
use vix_lang.Common.{
  ℕ, Bool, true, false, ◌||◌, Option, none, some, List, [], ◌∷◌, ◌++◌, ◌==◌, if◌then◌else◌, ltb,
}
use vix_lang.Driver.{
  Outcome, ok, fail, ◌>>=◌, Level, o0, o1, o2, o3, Library, Effect, opened, wrote, State, path_of,
  refuse, initialize_once, cannot_open, verified, targeted,
}

-- `optimizationLevel`
unfoldable pub optimization_level : ℤ → Level
optimization_level (negsuc n) = o0
optimization_level (pos n) = if n == 0 then o0 else if n == 1 then o1 else if n == 2 then o2 else o3

-- `OptLevel < 0 || OptLevel > 3`
unfoldable pub is_out_of_range : ℤ → Bool
is_out_of_range (negsuc n) = true
is_out_of_range (pos n) = ltb 3 n

abbrev pub is_level_0 : ℤ → Bool
is_level_0 (pos n) = n == 0
is_level_0 (negsuc n) = false

module _ (l : Library) where
  open l use {Module, Machine, parse_ir, open_output, print}

  unfoldable pub run_pipeline : ℤ → Machine → Module → Module
  unfolding optimization_level
  run_pipeline level tm m =
      if is_level_0 level
      then l.o0_pipeline tm (optimization_level level) m
      else l.default_pipeline tm (optimization_level level) m

  -- From the parsing of the file to the second verification.
  unfoldable pub optimized : Bytes → Option Bytes → ℤ → Outcome Module
  unfolding verified targeted run_pipeline
  optimized input triple level = do
    m ← parse_ir input
    (m', tm) ← targeted l triple m
    m'' ← verified l m'
    verified l (run_pipeline level tm m'')

  -- The opening of the output, with its message, and the writing.
  abbrev pub write_opened : Bytes → Module → Option Bytes → State → ℤ × State
  write_opened output m (some message) s = refuse (cannot_open output message) s
  write_opened output m none s =
      (pos 0, record s { effects = s.effects ++ opened output ∷ wrote output (print m) ∷ [] })

  unfoldable pub write_text : Bytes → Outcome Module → State → ℤ × State
  write_text output (fail message) s = refuse message s
  write_text output (ok m) s = write_opened output m (open_output output) s

  abbrev pub optimize_paths : Option Bytes → Option Bytes → Option Bytes → ℤ → State → ℤ × State
  optimize_paths (some input) (some output) triple level s =
      if is_out_of_range level
      then refuse (codes "optimization level must be between 0 and 3") s
      else write_text output (optimized input triple level) (initialize_once s)
  optimize_paths _ _ triple level s = refuse (codes "missing input or output path") s

  -- `optimizeIrFile`
  unfoldable pub optimize_ir_file :
      Option Bytes → Option Bytes → Option Bytes → ℤ → State → ℤ × State
  unfolding is_out_of_range optimized write_text initialize_once
  optimize_ir_file input output triple level s =
      optimize_paths (path_of input) (path_of output) triple level (record s { last_error = [] })
