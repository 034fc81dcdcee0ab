-- ===== src/Tests/Link.antt =====
-- The command of the linker at concrete inputs.
use vix_lang.Common.Text.{Bytes, codes}
use vix_lang.Common.{
  ℕ, ◌<◌, ◌≡◌, refl, Bool, true, false, none, some, [], ◌∷◌, length, arith, zero, suc, ap, List,
  ◌++◌,
}
use vix_lang.Common.Int.{pos}
use vix_lang.Common.Text.{is_blank}
use vix_lang.Link.Linker.{
  LldResult, lld_link_elf, link_executable, run_elf_link, add_split_args, is_quote,
}
use vix_lang.Link.Linker.Quoted.{plain, quoted, add_split_args-command}
use vix_lang.Link.Linker.Split.{link_executable-words, link_executable-blank}
use vix_lang.Link.Coff.{coff_arguments}
use vix_lang.Link.Bounds.{link_command_fits}
use vix_lang.Link.Joined.{link_command_long}
use vix_lang.Link.{append_args, append_arg, append_text, link_arguments, link_command, buffer_size}

-- No file can be read.
abbrev nothing : Bytes → Bool
nothing path = false

command :
    link_command nothing (some (codes "a.o")) none (some (codes "a")) (some (codes "-s")) true
    ≡ some (codes "-o a a.o -s")
unfolding link_command link_arguments append_args append_arg append_text
command = refl

link_command_fits_example :
    (command : Bytes) × (link_command nothing
        (some (codes "a.o"))
        none
        (some (codes "a"))
        none
        false
      ≡ some command)
    × (length command < buffer_size)
link_command_fits_example =
    link_command_fits nothing (codes "a.o") (codes "a") none none false (omega arith) (omega arith)

blanks : ℕ → Bytes
blanks zero = []
blanks (suc n) = b' ' ∷ blanks n

length-blanks : (n : ℕ) → length (blanks n) ≡ n
unfolding blanks
length-blanks zero = refl
length-blanks (suc n) = ap suc (length-blanks n)

link_command_long_example :
    link_command nothing (some (codes "a.o")) none (some (codes "a")) (some (blanks 65534)) true
    ≡ link_command nothing (some (codes "a.o")) none (some (codes "a")) none true
link_command_long_example =
    link_command_long nothing (codes "a.o") (codes "a") none (blanks 65534) true
      (omega (arith, length-blanks 65534))

abbrev failing : List Bytes → LldResult
failing args = record { code = pos 1; out = codes "note"; err = codes "no such file" }

-- The message of a failed link.
failed :
    lld_link_elf failing (some (codes "-o 'my prog' a.o")) []
    ≡ (pos 1, codes "lld args: ld.lld -o my prog a.o\nno such file")
unfolding lld_link_elf
failed = refl

-- Quotes in the link arguments keep a blank.
split_quotes : add_split_args [] (some (codes "-L\"a b\" -s")) ≡ codes "-La b" ∷ codes "-s" ∷ []
unfolding add_split_args
split_quotes = refl

-- The link arguments are two words.
link_executable-words_example :
    link_executable failing nothing
      (some (codes "a.o"))
      none
      (some (codes "a"))
      (some (codes "-s" ++ b' ' ∷ codes "-g"))
      true
      []
    ≡ run_elf_link failing
        (codes "ld.lld" ∷ codes "-o" ∷ codes "a" ∷ codes "a.o" ∷ codes "-s" ∷ codes "-g" ∷ [])
unfolding link_arguments is_quote is_blank
link_executable-words_example =
    link_executable-words failing nothing (codes "a.o") (codes "a") none
      (some (codes "-s" ++ b' ' ∷ codes "-g")) true []
      ((codes "-o" ∷ [])
        ∷ (codes "a" ∷ [])
        ∷ (codes "a.o" ∷ [])
        ∷ (codes "-s" ∷ codes "-g" ∷ [])
        ∷ [])
      (omega arith) (omega arith) (omega arith)
      (
        refl,
        omega arith,
        ((omega arith, ((refl, refl), ((refl, refl), tt))), tt),
        (
          refl,
          omega arith,
          ((omega arith, ((refl, refl), tt)), tt),
          (
            refl,
            omega arith,
            ((omega arith, ((refl, refl), ((refl, refl), ((refl, refl), tt)))), tt),
            (
              refl,
              omega arith,
              (
                (omega arith, ((refl, refl), ((refl, refl), tt))),
                ((omega arith, ((refl, refl), ((refl, refl), tt))), tt),
              ),
              tt,
            ),
          ),
        ),
      )

link_executable-blank_example :
    link_executable failing nothing
      (some (codes "a.o"))
      none
      (some (codes "my" ++ b' ' ∷ codes "p"))
      none
      true
      []
    ≡ run_elf_link failing (codes "ld.lld" ∷ codes "-o" ∷ codes "my" ∷ codes "p" ∷ codes "a.o" ∷ [])
unfolding is_quote is_blank
link_executable-blank_example =
    link_executable-blank failing nothing (codes "a.o") (codes "my") (codes "p") none []
      (omega arith, ((refl, refl), ((refl, refl), tt))) (omega arith, ((refl, refl), tt))
      (omega arith, ((refl, refl), ((refl, refl), ((refl, refl), tt)))) (omega arith)

-- On Windows, with the output cut to what its buffer holds.
windows :
    coff_arguments 1 (codes "a.obj") none (codes "a_long_name.exe") none true
    ≡ some (codes "-NOLOGO")
      ∷ some (codes "-MACHINE:X64")
      ∷ some (codes "-STACK:16777216")
      ∷ some (codes "-OUT:a_long_name")
      ∷ some (codes "a.obj")
      ∷ none
      ∷ some (codes "-ENTRY:main")
      ∷ some (codes "-SUBSYSTEM:CONSOLE")
      ∷ []
unfolding coff_arguments
windows = refl

-- The text of the command is `a  'b c'"d" ''`.
add_split_args-command_example :
    add_split_args [] (some (codes "a  'b c'\"d\" ''")) ≡ codes "a" ∷ codes "b cd" ∷ []
unfolding is_quote is_blank
add_split_args-command_example =
    add_split_args-command []
      ((plain (codes "a") ∷ [], codes "  ")
        ∷ (quoted b'\'' (codes "b c") ∷ quoted b'"' (codes "d") ∷ [], codes " ")
        ∷ [])
      (quoted b'\'' [] ∷ [])
      (
        (((((refl, refl), tt), tt), omega arith, (refl, (refl, tt)))),
        (
          (((refl, (refl, (refl, (refl, tt)))), ((refl, (refl, tt)), tt)), omega arith, (refl, tt)),
          tt,
        ),
      )
      ((refl, tt), tt)
