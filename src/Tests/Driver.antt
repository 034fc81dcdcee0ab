-- ===== src/Tests/Driver.antt =====
-- The LLVM drivers at concrete inputs.
use vix_lang.Common.Int.{ℤ, pos}
use vix_lang.Common.Text.{Bytes, codes}
use vix_lang.Common.{◌≡◌, ◌⊎◌, inl, refl, true, false, none, some, List, [], ◌∷◌}
use vix_lang.Driver.Api.Once.{run_calls-IsOnce}
use vix_lang.Driver.Api.{
  Call, source_has_no_std, llc_compile_object, llc_compile_asm, optimize_ir, fresh, run_calls,
}
use vix_lang.Driver.Llc.Written as LlcWritten
use vix_lang.Driver.Llc.Written.{compile_ir_file-cases}
use vix_lang.Driver.Llc.{compile_ir_file}
use vix_lang.Driver.Passes.Written as PassesWritten
use vix_lang.Driver.Passes.Written.{optimize_ir_file-cases}
use vix_lang.Driver.Passes.{optimize_ir_file}
use vix_lang.Driver.Steps.{IsOnce}
use vix_lang.Driver.{ok, Library, object, assembly, init_targets, opened, State}

-- Modules are texts, every one is well formed, and the machine emits assembly only.
abbrev texts : Library
texts = record {
  Module = Bytes;
  Target = Bytes;
  Machine = Bytes;
  parse_ir = λ path. ok path;
  verify = λ m. none;
  triple_of = λ m. [];
  set_triple = λ t m. m;
  default_triple = codes "x86_64";
  lookup_target = λ t. ok t;
  create_machine = λ t text. some t;
  set_layout = λ tm m. m;
  open_output = λ path. none;
  default_pipeline = λ tm level m. m;
  o0_pipeline = λ tm level m. m;
  print = λ m. m;
  can_emit = λ tm kind. elim kind [ object ↦ false | assembly ↦ true ];
  emit = λ tm kind m. m;
}

-- The level is refused, and the output is not opened.
refused :
    optimize_ir_file texts (some (codes "a.ll")) (some (codes "b.ll")) none (pos 4) fresh
    ≡ (pos 1, record fresh { last_error = codes "optimization level must be between 0 and 3" })
unfolding optimize_ir_file
refused = refl

-- An object that cannot be emitted leaves an empty file.
emptied :
    (compile_ir_file texts (some (codes "a.ll")) (some (codes "a.o")) none 0 fresh).1.effects
    ≡ init_targets ∷ opened (codes "a.o") ∷ []
unfolding compile_ir_file
emptied = refl

abbrev optimised : ℤ × State
optimised = optimize_ir_file texts (some (codes "a.ll")) (some (codes "b.ll")) none (pos 2) fresh

optimize_ir_file-cases_example :
    PassesWritten.IsOptimized texts
      (some (codes "a.ll"))
      (some (codes "b.ll"))
      none
      (pos 2)
      fresh
      optimised
    ⊎ PassesWritten.IsRefused texts
        (some (codes "a.ll"))
        (some (codes "b.ll"))
        (pos 2)
        fresh
        optimised
    ⊎ PassesWritten.IsFailed texts
        (some (codes "a.ll"))
        (some (codes "b.ll"))
        none
        (pos 2)
        fresh
        optimised
optimize_ir_file-cases_example =
    optimize_ir_file-cases texts (some (codes "a.ll")) (some (codes "b.ll")) none (pos 2) fresh

abbrev compiled : ℤ × State
compiled = compile_ir_file texts (some (codes "a.ll")) (some (codes "a.o")) none 0 fresh

compile_ir_file-cases_example :
    LlcWritten.IsCompiled texts (some (codes "a.ll")) (some (codes "a.o")) none 0 fresh compiled
    ⊎ LlcWritten.IsRefused texts (some (codes "a.ll")) (some (codes "a.o")) fresh compiled
    ⊎ LlcWritten.IsFailed texts (some (codes "a.ll")) (some (codes "a.o")) none fresh compiled
compile_ir_file-cases_example =
    compile_ir_file-cases texts (some (codes "a.ll")) (some (codes "a.o")) none 0 fresh

abbrev calls : List Call
calls =
    optimize_ir (some (codes "a.ll")) (some (codes "b.ll")) none (pos 2)
    ∷ llc_compile_object (some (codes "b.ll")) (some (codes "b.o")) none
    ∷ llc_compile_asm (some (codes "b.ll")) (some (codes "b.s")) none
    ∷ []

run_calls-IsOnce_example :
    IsOnce (run_calls texts calls (record { passes = fresh; llc = fresh })).passes
    × IsOnce (run_calls texts calls (record { passes = fresh; llc = fresh })).llc
run_calls-IsOnce_example =
    run_calls-IsOnce texts calls (record { passes = fresh; llc = fresh }) (inl (refl, refl))
      (inl (refl, refl))

bare :
    (source_has_no_std (some (codes "a\n#[no_std]\nb")) ≡ pos 1)
    × (source_has_no_std (some (codes "#[no-std]")) ≡ pos 0)
unfolding source_has_no_std
bare = (refl, refl)
