-- ===== src/Driver/Passes/Written.antt =====
-- What the optimisation of an IR file leaves behind.
use vix_lang.Common.Int.{ℤ, pos}
use vix_lang.Common.Text.{Bytes, codes}
use vix_lang.Common.{
  ◌≡◌, ◌⊎◌, inl, inr, refl, ap, sym, ◌∙◌, true, false, Option, none, some, [], ◌∷◌, ◌++◌,
  Bool-cases, Option-cases,
}
use vix_lang.Driver.{
  Outcome, ok, fail, Library, opened, wrote, State, path_of, initialize_once, verified, targeted,
  cannot_open,
}
use vix_lang.Driver.Steps.{
  >>=-eq-ok, verified-ok, log_once, initialize_once-effects, initialize_once-last_error,
}
use vix_lang.Driver.Passes.{optimize_ir_file, optimized, write_text, run_pipeline, is_out_of_range}

module _ (l : Library) where
  open l use {Module, Machine, parse_ir, open_output, print, verify}

  -- What a successful chain has done: the module that it gives is what the pipeline makes of a
  -- module that the verifier accepts, and is itself accepted.
  pub optimized-verified :
      (input : Bytes) (triple : Option Bytes) (level : ℤ) (m : Module)
      → optimized l input triple level ≡ ok m
      → (verify m ≡ none)
        × (source : Module) × (parse_ir input ≡ ok source)
        × (before : Module) × (tm : Machine) × (targeted l triple source ≡ ok (before, tm))
        × (verify before ≡ none)
        × (m ≡ run_pipeline l level tm before)
  unfolding optimized
  optimized-verified input triple level m h =
      let (source, parsed, h1) = >>=-eq-ok (parse_ir input) _ m h in
      let ((before, tm), aimed, h2) = >>=-eq-ok (targeted l triple source) _ m h1 in
      let (before', first, h3) = >>=-eq-ok (verified l before) _ m h2 in
      let (same, accepted) = verified-ok l before before' first in
      let (same', accepted') = verified-ok l (run_pipeline l level tm before') m h3 in
      (
        rw (← same') accepted',
        source,
        parsed,
        before,
        tm,
        aimed,
        accepted,
        sym same' ∙ ap (run_pipeline l level tm) (sym same),
      )

  -- The result 0: the output was opened and written with a module's text, and there is no error.
  abbrev pub IsWritten : Bytes → Module → State → ℤ × State → Type 0
  IsWritten output m s (code, s') =
      (code ≡ pos 0)
      × (s'.last_error ≡ [])
      × (s'.effects ≡ log_once s ++ opened output ∷ wrote output (print m) ∷ [])

  -- The chain fails with this message, or the output cannot be opened.
  abbrev pub IsBlocked : Bytes → Outcome Module → Bytes → Type 0
  IsBlocked output o message =
      (o ≡ fail message)
      ⊎ ((why : Bytes) × (open_output output ≡ some why) × (message ≡ cannot_open output why))

  write_text-cases :
      (output : Bytes) (o : Outcome Module) (s : State)
      → s.last_error ≡ []
      → ((m : Module) × (o ≡ ok m)
          × IsWritten output m s (write_text l output o (initialize_once s)))
        ⊎ ((write_text l output o (initialize_once s)).0 ≡ pos 1)
          × ((write_text l output o (initialize_once s)).1.effects ≡ log_once s)
          × IsBlocked output o (write_text l output o (initialize_once s)).1.last_error
  unfolding write_text
  write_text-cases output (fail message) s h = inr (refl, initialize_once-effects s, inl refl)
  write_text-cases output (ok m) s h = elim (Option-cases (open_output output)) [
    | inl e ↦
        let log =
          ap (λ es. es ++ opened output ∷ wrote output (print m) ∷ [])
            (initialize_once-effects s) in
        inl (m, refl, rw e (refl, initialize_once-last_error s ∙ h, log))
    | inr (message, e) ↦ inr (rw e (refl, initialize_once-effects s, inr (message, refl, refl)))
  ]

  -- The result 0, from a module that the verifier accepts.
  abbrev pub IsOptimized :
      Option Bytes → Option Bytes → Option Bytes → ℤ → State → ℤ × State → Type 0
  IsOptimized input output triple level s result =
      (from to : Bytes) × (path_of input ≡ some from)
      × (path_of output ≡ some to)
      × (is_out_of_range level ≡ false)
      × (m : Module) × (optimized l from triple level ≡ ok m)
      × (verify m ≡ none)
      × IsWritten to m s result

  -- The result 1, in front of the initialisation: what is wrong with the arguments.
  abbrev pub IsRefused : Option Bytes → Option Bytes → ℤ → State → ℤ × State → Type 0
  IsRefused input output level s (code, s') =
      (code ≡ pos 1)
      × (s'.effects ≡ s.effects)
      × (((path_of input ≡ none) × (s'.last_error ≡ codes "missing input or output path"))
          ⊎ ((path_of output ≡ none) × (s'.last_error ≡ codes "missing input or output path"))
          ⊎ ((is_out_of_range level ≡ true)
              × (s'.last_error ≡ codes "optimization level must be between 0 and 3")))

  -- The result 1, behind the initialisation: why nothing was written.
  abbrev pub IsFailed : Option Bytes → Option Bytes → Option Bytes → ℤ → State → ℤ × State → Type 0
  IsFailed input output triple level s (code, s') =
      (from to : Bytes) × (path_of input ≡ some from)
      × (path_of output ≡ some to)
      × (code ≡ pos 1)
      × (s'.effects ≡ log_once s)
      × IsBlocked to (optimized l from triple level) s'.last_error

  -- The optimisation of a file has one of three results. With 0 there is no error, and the output
  -- was opened and holds the text of a module that the verifier accepts; the paths are not empty
  -- and the level is in range. With 1 no file was opened, and the error says why: a path is missing
  -- or the level is out of range, and nothing was done; or the chain that gives the module failed
  -- with that message, or the output cannot be opened.
  pub optimize_ir_file-cases :
      (input output triple : Option Bytes) (level : ℤ) (s : State)
      → IsOptimized input output triple level s (optimize_ir_file l input output triple level s)
        ⊎ IsRefused input output level s (optimize_ir_file l input output triple level s)
        ⊎ IsFailed input output triple level s (optimize_ir_file l input output triple level s)
  unfolding optimize_ir_file
  optimize_ir_file-cases input output triple level s = elim (Option-cases (path_of input)) [
    | inl e ↦ inr (inl (rw e (refl, refl, inl (refl, refl))))
    | inr (from, e) ↦ elim (Option-cases (path_of output)) [
      | inl e' ↦ inr (inl (rw (e, e') (refl, refl, inr (inl (refl, refl)))))
      | inr (to, e') ↦ elim (Bool-cases (is_out_of_range level)) [
        | inl out ↦ inr (inl (rw (e, e', out) (refl, refl, inr (inr (refl, refl)))))
        | inr within ↦
            elim (write_text-cases to (optimized l from triple level) (record s { last_error = [] })
              refl) [
                | inl (m, done, written) ↦ inl (
                  from,
                  to,
                  e,
                  e',
                  within,
                  m,
                  done,
                  (optimized-verified from triple level m done).0,
                  rw (e, e', within) written,
                )
                | inr (code, log, why) ↦ inr (
                    inr (
                      from,
                      to,
                      e,
                      e',
                      rw (e, e', within) code,
                      rw (e, e', within) log,
                      rw (e, e', within) why,
                    ))
              ]
      ]
    ]
  ]
