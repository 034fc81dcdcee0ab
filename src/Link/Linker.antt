-- ===== src/Link/Linker.antt =====
-- `lib/llvm/Linker.cpp`: the splitting of the command into arguments, and the call of LLD, whose
-- result is the parameter `lld`; and the calls of it in `lib/api.c`. `LastError` is the state.
pub mod Split
pub mod Quoted
use vix_lang.Common.Int.{ℤ, pos, negsuc}
use vix_lang.Common.Text.{Bytes, codes, is_blank}
use vix_lang.Common.{
  ℕ, Bool, true, false, not, ◌&&◌, ◌||◌, Option, none, some, List, [], ◌∷◌, ◌++◌, ◌==◌,
  if◌then◌else◌,
}
use vix_lang.Link.{link_command}

unfoldable pub is_quote : ℕ → Bool
is_quote c = c == b'\'' || c == b'"'

-- The loop of `addSplitArgs`: `Quote`, with `none` for 0, and `Current` behind a byte, and whether
-- the byte ends an argument.
unfoldable pub quote_after : Option ℕ → ℕ → Option ℕ
unfolding is_quote
quote_after (some q) c = if c == q then none else some q
quote_after none c = if is_quote c then some c else none

unfoldable pub current_after : Option ℕ → Bytes → ℕ → Bytes
unfolding is_quote is_blank
current_after (some q) current c = if c == q then current else current ++ c ∷ []
current_after none current c =
    if is_quote c then current else if is_blank c then [] else current ++ c ∷ []

unfoldable pub ends : Option ℕ → ℕ → Bool
unfolding is_quote is_blank
ends (some q) c = false
ends none c = not (is_quote c) && is_blank c

abbrev pub push_word : Bool → Bytes → List Bytes → List Bytes
push_word false current rest = rest
push_word true [] rest = rest
push_word true (c ∷ s) rest = (c ∷ s) ∷ rest

unfoldable pub split_from : Option ℕ → Bytes → Bytes → List Bytes
unfolding quote_after current_after ends
split_from q current [] = push_word true current []
split_from q current (c ∷ s) =
    push_word (ends q c) current (split_from (quote_after q c) (current_after q current c) s)

unfoldable pub add_split_args : List Bytes → Option Bytes → List Bytes
unfolding split_from
add_split_args storage none = storage
add_split_args storage (some text) = storage ++ split_from none [] text

-- `if (!Out.empty()) Out.push_back(' '); Out += Arg;`
abbrev pub join_step : Bytes → Bytes → Bytes
join_step [] arg = arg
join_step (c ∷ s) arg = (c ∷ s) ++ b' ' ∷ arg

unfoldable pub joined_from : Bytes → List Bytes → Bytes
joined_from out [] = out
joined_from out (arg ∷ args) = joined_from (join_step out arg) args

unfoldable pub joined_args : List Bytes → Bytes
unfolding joined_from
joined_args args = joined_from [] args

-- What LLD returns, and what it writes to the two streams.
pub record LldResult : Type 0 where
  pub code : ℤ
  pub out : Bytes
  pub err : Bytes

abbrev pub is_zero : ℤ → Bool
is_zero (pos n) = n == 0
is_zero (negsuc n) = false

abbrev pub or_else : Bytes → Bytes → Bytes
or_else [] other = other
or_else (c ∷ s) other = c ∷ s

module _ (lld : List Bytes → LldResult) where
  -- The code, and the new `LastError`.
  unfoldable pub run_elf_link : List Bytes → ℤ × Bytes
  unfolding joined_args
  run_elf_link storage =
      let r = lld storage in
      let text = or_else r.err r.out in
      (
        r.code,
        if is_zero r.code
            then text
            else codes "lld args: " ++ (joined_args storage ++ b'\n' ∷ text),
      )

  unfoldable pub lld_link_elf : Option Bytes → Bytes → ℤ × Bytes
  unfolding run_elf_link add_split_args
  lld_link_elf text last_error = run_elf_link (add_split_args (codes "ld.lld" ∷ []) text)

  abbrev link_with : Option Bytes → Bytes → ℤ × Bytes
  link_with none last_error = (pos 1, last_error)
  link_with (some command) last_error = lld_link_elf (some command) last_error

  -- `vix_api_link_executable`, on the `LastError` that `vix_api_link_error` returns.
  unfoldable pub link_executable :
      (Bytes → Bool)
      → Option Bytes
      → Option Bytes
      → Option Bytes
      → Option Bytes
      → Bool
      → Bytes
      → ℤ × Bytes
  unfolding lld_link_elf
  link_executable readable object runtime output args no_std last_error =
      link_with (link_command readable object runtime output args no_std) last_error

  unfoldable pub link_executable_std :
      (Bytes → Bool) → Option Bytes → Option Bytes → Option Bytes → Option Bytes → Bytes → ℤ × Bytes
  unfolding link_executable
  link_executable_std readable object runtime output args last_error =
      link_executable readable object runtime output args false last_error

  unfoldable pub link_executable_nostd :
      (Bytes → Bool) → Option Bytes → Option Bytes → Option Bytes → Bytes → ℤ × Bytes
  unfolding link_executable
  link_executable_nostd readable object output args last_error =
      link_executable readable object (some []) output args true last_error

  unfoldable pub link_object :
      (Bytes → Bool) → Option Bytes → Option Bytes → Option Bytes → Bool → Bytes → ℤ × Bytes
  unfolding link_executable
  link_object readable object output args no_std last_error =
      link_executable readable object (some []) output args no_std last_error
