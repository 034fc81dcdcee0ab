-- ===== src/Link/Coff/Words.antt =====
-- What LLD is called with on Windows.
use vix_lang.Common.Text.{Bytes, codes}
use vix_lang.Common.{ℕ, ◌+◌, ◌<◌, ◌≡◌, ◌∙◌, ap, Bool, Option, some, List, [], ◌∷◌, length}
use vix_lang.Link.{buffer_size}
use vix_lang.Link.Joined.{words, joined, append_args-joined}
use vix_lang.Link.Linker.{LldResult, add_split_args}
use vix_lang.Link.Linker.Split.{
  IsSpelled, in_order, joined-in_order, in_order-IsWord, split_from-joined,
}
use vix_lang.Link.Coff.{coff_arguments, run_coff_link, link_executable_coff, lld_link_coff}

-- On Windows, too, LLD is called with exactly the words of the arguments that
-- `vix_api_link_executable` appends, in their order, under the conditions of ELF.
pub link_executable_coff-words :
    (path_max : ℕ) (lld : List Bytes → LldResult) (object output : Bytes)
    (runtime args : Option Bytes) (no_std : Bool) (last_error : Bytes) (uss : List (List Bytes))
    → 0 < length object
    → 0 < length output
    → length (joined (words (coff_arguments path_max object runtime output args no_std))) + 2
      < buffer_size
    → IsSpelled (words (coff_arguments path_max object runtime output args no_std)) uss
    → link_executable_coff path_max lld (some object) runtime (some output) args no_std last_error
      ≡ run_coff_link lld (codes "lld-link" ∷ in_order uss)
unfolding link_executable_coff lld_link_coff add_split_args
link_executable_coff-words path_max lld [] output runtime args no_std last_error uss h k room
      spelled =
    elim h [ ]
link_executable_coff-words path_max lld (c ∷ o) [] runtime args no_std last_error uss h k room
      spelled =
    elim k [ ]
link_executable_coff-words path_max lld (c ∷ o) (d ∷ p) runtime args no_std last_error uss h k room
      spelled =
    let list = coff_arguments path_max (c ∷ o) runtime (d ∷ p) args no_std in
    ap (λ text. lld_link_coff lld (some text) last_error)
      (append_args-joined buffer_size list room ∙ joined-in_order (words list) uss spelled)
    ∙ ap (λ r. run_coff_link lld (codes "lld-link" ∷ r))
        (split_from-joined (in_order uss) (in_order-IsWord (words list) uss spelled))
