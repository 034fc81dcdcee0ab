-- ===== src/Link/Coff.antt =====
-- The Windows branch of `vix_api_link_executable` of `lib/api.c`, and `runCoffLink` and
-- `vix_lld_link_coff` of `lib/llvm/Linker.cpp`. `PATH_MAX` and the result of LLD are parameters.
pub mod Words
use vix_lang.Common.Int.{ℤ, pos}
use vix_lang.Common.Text.{Bytes, codes}
use vix_lang.Common.{
  ℕ, ◌+◌, Bool, true, false, not, Option, none, some, List, [], ◌∷◌, ◌++◌, take, if◌then◌else◌,
}
use vix_lang.Link.{append_args, buffer_size, when}
use vix_lang.Link.Linker.{LldResult, add_split_args, joined_args, is_zero, or_else}

module _ (lld : List Bytes → LldResult) where
  -- The code, and the new `LastError`.
  unfoldable pub run_coff_link : List Bytes → ℤ × Bytes
  unfolding joined_args
  run_coff_link storage =
      let r = lld storage in
      let text = or_else r.err r.out in
      (
        r.code,
        if is_zero r.code
            then text
            else codes "lld args: " ++ (joined_args storage ++ b'\n' ∷ text),
      )

  unfoldable pub lld_link_coff : Option Bytes → Bytes → ℤ × Bytes
  unfolding run_coff_link add_split_args
  lld_link_coff text last_error = run_coff_link (add_split_args (codes "lld-link" ∷ []) text)

module _ (path_max : ℕ) where
  -- `snprintf(out_arg, sizeof(out_arg), "-OUT:%s", output_path)`
  abbrev pub out_arg : Bytes → Bytes
  out_arg output = take (path_max + 15) (codes "-OUT:" ++ output)

  -- The arguments in the order in which they are appended.
  unfoldable pub coff_arguments :
      Bytes → Option Bytes → Bytes → Option Bytes → Bool → List (Option Bytes)
  coff_arguments object runtime output args no_std =
      some (codes "-NOLOGO")
        ∷ some (codes "-MACHINE:X64")
        ∷ some (codes "-STACK:16777216")
        ∷ some (out_arg output)
        ∷ some object
        ∷ when (not no_std) (runtime ∷ [])
      ++ (args
            ∷ when (not no_std) (
                some (codes "msvcrt.lib")
                ∷ some (codes "ucrt.lib")
                ∷ some (codes "vcruntime.lib")
                ∷ some (codes "kernel32.lib")
                ∷ [])
          ++ when no_std (some (codes "-ENTRY:main") ∷ some (codes "-SUBSYSTEM:CONSOLE") ∷ []))

  -- `vix_api_link_executable` on Windows.
  unfoldable pub link_executable_coff :
      (List Bytes → LldResult)
      → Option Bytes
      → Option Bytes
      → Option Bytes
      → Option Bytes
      → Bool
      → Bytes
      → ℤ × Bytes
  unfolding append_args coff_arguments lld_link_coff
  link_executable_coff lld (some (c ∷ object)) runtime (some (d ∷ output)) args no_std last_error =
      lld_link_coff lld
        (some (
          append_args buffer_size []
            (coff_arguments (c ∷ object) runtime (d ∷ output) args no_std)))
        last_error
  link_executable_coff lld _ runtime _ args no_std last_error = (pos 1, last_error)
