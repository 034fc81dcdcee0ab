-- ===== src/Driver/Api/Once.antt =====
-- The targets are initialised once, before any file is touched.
use vix_lang.Common.Int.{ℤ}
use vix_lang.Common.Text.{Bytes}
use vix_lang.Common.{ℕ, inl, inr, refl, Option, List, [], ◌∷◌, ◌++◌, Bool-cases, Option-cases}
use vix_lang.Driver.{Library, Outcome, ok, fail, State, opened, wrote, initialize_once, path_of}
use vix_lang.Driver.Steps.{IsOnce, IsReady, initialize_once-IsReady, append-IsReady}
use vix_lang.Driver.Passes.{optimize_ir_file, write_text, is_out_of_range, optimized}
use vix_lang.Driver.Llc.{
  compile_ir_file, compile_object, compile_asm, write_code, file_type_for_mode, prepared,
}
use vix_lang.Driver.{FileType}
use vix_lang.Driver.Api.{System, Call, llc_compile_object, llc_compile_asm, optimize_ir, run_calls}

module _ (l : Library) where
  open l use {Module, Machine, open_output}

  write_text-IsReady :
      (output : Bytes) (o : Outcome Module) (s : State)
      → IsReady s
      → IsReady (write_text l output o s).1
  unfolding write_text
  write_text-IsReady output (fail message) s h = h
  write_text-IsReady output (ok m) s h = elim (Option-cases (open_output output)) [
    | inl e ↦ rw e (append-IsReady s (opened output ∷ wrote output (l.print m) ∷ []) h refl)
    | inr (message, e) ↦ rw e h
  ]

  write_code-IsReady :
      (output : Bytes) (kind : FileType) (o : Outcome (Module × Machine)) (s : State)
      → IsReady s
      → IsReady (write_code l output kind o s).1
  unfolding write_code
  write_code-IsReady output kind (fail message) s h = h
  write_code-IsReady output kind (ok (m, tm)) s h =
      let opened' = append-IsReady s (opened output ∷ []) h refl in
      elim (Option-cases (open_output output)) [
        | inr (message, e) ↦ rw e h
        | inl e ↦ elim (Bool-cases (l.can_emit tm kind)) [
          | inl can ↦
              rw (e, can)
                (append-IsReady (record s { effects = s.effects ++ opened output ∷ [] })
                  (wrote output (l.emit tm kind m) ∷ []) opened' refl)
          | inr cannot ↦ rw (e, cannot) opened'
        ]
      ]

  optimize_ir_file-IsOnce :
      (input output triple : Option Bytes) (level : ℤ) (s : State)
      → IsOnce s
      → IsOnce (optimize_ir_file l input output triple level s).1
  unfolding optimize_ir_file
  optimize_ir_file-IsOnce input output triple level s h = elim (Option-cases (path_of input)) [
    | inl e ↦ rw e h
    | inr (from, e) ↦ elim (Option-cases (path_of output)) [
      | inl e' ↦ rw (e, e') h
      | inr (to, e') ↦ elim (Bool-cases (is_out_of_range level)) [
        | inl out ↦ rw (e, e', out) h
        | inr within ↦
            let ready = initialize_once-IsReady (record s { last_error = [] }) h in
            rw (e, e', within)
              (inr (
                write_text-IsReady to (optimized l from triple level)
                  (initialize_once (record s { last_error = [] })) ready))
      ]
    ]
  ]

  compile_ir_file-IsOnce :
      (input output triple : Option Bytes) (mode : ℕ) (s : State)
      → IsOnce s
      → IsOnce (compile_ir_file l input output triple mode s).1
  unfolding compile_ir_file
  compile_ir_file-IsOnce input output triple mode s h = elim (Option-cases (path_of input)) [
    | inl e ↦ rw e h
    | inr (from, e) ↦ elim (Option-cases (path_of output)) [
      | inl e' ↦ rw (e, e') h
      | inr (to, e') ↦
          let ready = initialize_once-IsReady (record s { last_error = [] }) h in
          rw (e, e')
            (inr (
              write_code-IsReady to (file_type_for_mode mode) (prepared l from triple)
                (initialize_once (record s { last_error = [] })) ready))
    ]
  ]

  -- Over any sequence of calls, each of the two drivers initialises the targets at most once, and
  -- before it opens or writes any file.
  pub run_calls-IsOnce :
      (cs : List Call) (s : System)
      → IsOnce s.passes
      → IsOnce s.llc
      → IsOnce (run_calls l cs s).passes × IsOnce (run_calls l cs s).llc
  unfolding run_calls compile_object compile_asm
  run_calls-IsOnce [] s h k = (h, k)
  run_calls-IsOnce (llc_compile_object i o t ∷ cs) s h k =
      run_calls-IsOnce cs _ h (compile_ir_file-IsOnce i o t 0 s.llc k)
  run_calls-IsOnce (llc_compile_asm i o t ∷ cs) s h k =
      run_calls-IsOnce cs _ h (compile_ir_file-IsOnce i o t 1 s.llc k)
  run_calls-IsOnce (optimize_ir i o t level ∷ cs) s h k =
      run_calls-IsOnce cs _ (optimize_ir_file-IsOnce i o t level s.passes h) k
