-- ===== src/Driver/Llc/Written.antt =====
-- What the compilation of an IR file leaves behind.
use vix_lang.Common.Int.{ℤ, pos}
use vix_lang.Common.Text.{Bytes, codes}
use vix_lang.Common.{
  ℕ, ◌≡◌, ◌⊎◌, inl, inr, refl, ap, ◌∙◌, true, false, Option, none, some, [], ◌∷◌, ◌++◌, Bool-cases,
  Option-cases, append_assoc,
}
use vix_lang.Driver.{
  Outcome, ok, fail, Library, FileType, opened, wrote, State, path_of, initialize_once, verified,
  targeted, cannot_open,
}
use vix_lang.Driver.Steps.{
  >>=-eq-ok, verified-ok, log_once, initialize_once-effects, initialize_once-last_error,
}
use vix_lang.Driver.Llc.{compile_ir_file, prepared, write_code, file_type_for_mode}

module _ (l : Library) where
  open l use {Module, Machine, parse_ir, open_output, can_emit, emit, verify}

  -- What a successful chain has done: the verifier accepts the module that was parsed.
  prepared-verified :
      (input : Bytes) (triple : Option Bytes) (m : Module) (tm : Machine)
      → prepared l input triple ≡ ok (m, tm)
      → (source : Module) × (parse_ir input ≡ ok source)
        × (verify source ≡ none)
        × (targeted l triple source ≡ ok (m, tm))
  unfolding prepared
  prepared-verified input triple m tm h =
      let (source, parsed, h1) = >>=-eq-ok (parse_ir input) _ (m, tm) h in
      let (source', first, h2) = >>=-eq-ok (verified l source) _ (m, tm) h1 in
      let (same, accepted) = verified-ok l source source' first in
      (source, parsed, accepted, ap (targeted l triple) same ∙ h2)

  -- The result 0: the output was opened and written, and there is no error.
  abbrev pub IsWritten : Bytes → FileType → Module → Machine → State → ℤ × State → Type 0
  IsWritten output kind m tm s (code, s') =
      (code ≡ pos 0)
      × (s'.last_error ≡ [])
      × (s'.effects ≡ log_once s ++ opened output ∷ wrote output (emit tm kind m) ∷ [])

  -- The result 1 where the output was opened, and is left empty.
  abbrev pub IsEmptied : Bytes → State → ℤ × State → Type 0
  IsEmptied output s (code, s') =
      (code ≡ pos 1)
      × (s'.last_error ≡ codes "target does not support requested output kind")
      × (s'.effects ≡ log_once s ++ opened output ∷ [])

  -- The chain fails with this message, or the output cannot be opened.
  abbrev pub IsBlocked : Bytes → Outcome (Module × Machine) → Bytes → Type 0
  IsBlocked output o message =
      (o ≡ fail message)
      ⊎ ((why : Bytes) × (open_output output ≡ some why) × (message ≡ cannot_open output why))

  -- What the last step does, by whether the machine can emit the kind of file.
  abbrev pub IsEmitted : Bytes → FileType → Module → Machine → State → ℤ × State → Type 0
  IsEmitted output kind m tm s result =
      ((can_emit tm kind ≡ true) × IsWritten output kind m tm s result)
      ⊎ ((can_emit tm kind ≡ false) × IsEmptied output s result)

  write_code-cases :
      (output : Bytes) (kind : FileType) (o : Outcome (Module × Machine)) (s : State)
      → s.last_error ≡ []
      → ((m : Module) × (tm : Machine) × (o ≡ ok (m, tm))
          × IsEmitted output kind m tm s (write_code l output kind o (initialize_once s)))
        ⊎ ((write_code l output kind o (initialize_once s)).0 ≡ pos 1)
          × ((write_code l output kind o (initialize_once s)).1.effects ≡ log_once s)
          × IsBlocked output o (write_code l output kind o (initialize_once s)).1.last_error
  unfolding write_code
  write_code-cases output kind (fail message) s h = inr (refl, initialize_once-effects s, inl refl)
  write_code-cases output kind (ok (m, tm)) s h =
      let log = initialize_once-effects s in
      elim (Option-cases (open_output output)) [
        | inr (message, e) ↦ inr (rw e (refl, log, inr (message, refl, refl)))
        | inl e ↦ elim (Bool-cases (can_emit tm kind)) [
          | inl can ↦
              let grown =
                append_assoc (initialize_once s).effects (opened output ∷ [])
                  (wrote output (emit tm kind m) ∷ [])
                ∙ ap (λ es. es ++ opened output ∷ wrote output (emit tm kind m) ∷ []) log in
              inl (
                m,
                tm,
                refl,
                inl (can, rw (e, can) (refl, initialize_once-last_error s ∙ h, grown)),
              )
          | inr cannot ↦ inl (
            m,
            tm,
            refl,
            inr (cannot, rw (e, cannot) (refl, refl, ap (λ es. es ++ opened output ∷ []) log)),
          )
        ]
      ]

  -- The module was parsed, verified and given its target, and the output opened.
  abbrev pub IsCompiled :
      Option Bytes → Option Bytes → Option Bytes → ℕ → State → ℤ × State → Type 0
  IsCompiled input output triple mode s result =
      (from to : Bytes) × (path_of input ≡ some from)
      × (path_of output ≡ some to)
      × (source m : Module) × (tm : Machine) × (parse_ir from ≡ ok source)
      × (verify source ≡ none)
      × (targeted l triple source ≡ ok (m, tm))
      × IsEmitted to (file_type_for_mode mode) m tm s result

  -- The result 1, in front of the initialisation: a path is missing.
  abbrev pub IsRefused : Option Bytes → Option Bytes → State → ℤ × State → Type 0
  IsRefused input output s (code, s') =
      (code ≡ pos 1)
      × (s'.effects ≡ s.effects)
      × (s'.last_error ≡ codes "missing input or output path")
      × ((path_of input ≡ none) ⊎ (path_of output ≡ none))

  -- The result 1, behind the initialisation: why no file was opened.
  abbrev pub IsFailed : Option Bytes → Option Bytes → Option Bytes → State → ℤ × State → Type 0
  IsFailed input output triple s (code, s') =
      (from to : Bytes) × (path_of input ≡ some from)
      × (path_of output ≡ some to)
      × (code ≡ pos 1)
      × (s'.effects ≡ log_once s)
      × IsBlocked to (prepared l from triple) s'.last_error

  -- The compilation of a file has one of four results. With 0 there is no error, and the output
  -- was opened and holds the code of a module that was parsed, verified and given its target. With
  -- 1 and such a module, the machine cannot emit the kind of file, and the output was opened and
  -- left empty. Else the result is 1, no file was opened, and the error says why: a path is
  -- missing, and nothing was done; or the chain that gives the module failed with that message, or
  -- the output cannot be opened.
  pub compile_ir_file-cases :
      (input output triple : Option Bytes) (mode : ℕ) (s : State)
      → IsCompiled input output triple mode s (compile_ir_file l input output triple mode s)
        ⊎ IsRefused input output s (compile_ir_file l input output triple mode s)
        ⊎ IsFailed input output triple s (compile_ir_file l input output triple mode s)
  unfolding compile_ir_file
  compile_ir_file-cases input output triple mode s = elim (Option-cases (path_of input)) [
    | inl e ↦ inr (inl (rw e (refl, refl, refl, inl refl)))
    | inr (from, e) ↦ elim (Option-cases (path_of output)) [
      | inl e' ↦ inr (inl (rw (e, e') (refl, refl, refl, inr refl)))
      | inr (to, e') ↦
          elim (write_code-cases to (file_type_for_mode mode) (prepared l from triple)
            (record s { last_error = [] }) refl) [
              | inl (m, tm, done, result) ↦
                  let (source, parsed, accepted, aimed) = prepared-verified from triple m tm done in
                  inl (from, to, e, e', source, m, tm, parsed, accepted, aimed, rw (e, e') result)
              | inr (code, log, why) ↦
                  inr (inr (from, to, e, e', rw (e, e') code, rw (e, e') log, rw (e, e') why))
            ]
    ]
  ]
