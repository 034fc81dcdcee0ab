-- ===== src/Driver/Llc.antt =====
-- `lib/llvm/Llc.cpp`: the compilation of an IR file to an object or to assembly.
pub mod Written
use vix_lang.Common.Int.{ℤ, pos}
use vix_lang.Common.Text.{Bytes, codes}
use vix_lang.Common.{
  ℕ, Bool, true, false, Option, none, some, List, [], ◌∷◌, ◌++◌, ◌==◌, if◌then◌else◌,
}
use vix_lang.Driver.{
  Outcome, ok, fail, ◌>>=◌, FileType, object, assembly, Library, Effect, opened, wrote, State,
  path_of, refuse, initialize_once, cannot_open, verified, targeted,
}

-- `fileTypeForMode`
unfoldable pub file_type_for_mode : ℕ → FileType
file_type_for_mode mode = if mode == 1 then assembly else object

module _ (l : Library) where
  open l use {Module, Machine, parse_ir, open_output, can_emit, emit}

  unfoldable pub prepared : Bytes → Option Bytes → Outcome (Module × Machine)
  unfolding verified targeted
  prepared input triple = do m ← parse_ir input; m' ← verified l m; targeted l triple m'

  -- The file is opened before it is known whether the machine can emit this kind of file.
  abbrev pub emit_to : Bytes → FileType → Module → Machine → State → ℤ × State
  emit_to output kind m tm s =
      let s' = record s { effects = s.effects ++ opened output ∷ [] } in
      if can_emit tm kind
      then (pos 0, record s' { effects = s'.effects ++ wrote output (emit tm kind m) ∷ [] })
      else refuse (codes "target does not support requested output kind") s'

  abbrev pub write_opened : Bytes → FileType → Module → Machine → Option Bytes → State → ℤ × State
  write_opened output kind m tm (some message) s = refuse (cannot_open output message) s
  write_opened output kind m tm none s = emit_to output kind m tm s

  unfoldable pub write_code : Bytes → FileType → Outcome (Module × Machine) → State → ℤ × State
  write_code output kind (fail message) s = refuse message s
  write_code output kind (ok (m, tm)) s = write_opened output kind m tm (open_output output) s

  abbrev pub compile_paths : Option Bytes → Option Bytes → Option Bytes → ℕ → State → ℤ × State
  compile_paths (some input) (some output) triple mode s =
      write_code output (file_type_for_mode mode) (prepared input triple) (initialize_once s)
  compile_paths _ _ triple mode s = refuse (codes "missing input or output path") s

  -- `compileIrFile`
  unfoldable pub compile_ir_file :
      Option Bytes → Option Bytes → Option Bytes → ℕ → State → ℤ × State
  unfolding file_type_for_mode prepared write_code initialize_once
  compile_ir_file input output triple mode s =
      compile_paths (path_of input) (path_of output) triple mode (record s { last_error = [] })

  unfoldable pub compile_object : Option Bytes → Option Bytes → Option Bytes → State → ℤ × State
  unfolding compile_ir_file
  compile_object input output triple s = compile_ir_file input output triple 0 s

  unfoldable pub compile_asm : Option Bytes → Option Bytes → Option Bytes → State → ℤ × State
  unfolding compile_ir_file
  compile_asm input output triple s = compile_ir_file input output triple 1 s
