-- ===== src/Link/Joined.antt =====
-- What the buffer holds: the arguments with blanks between them, as long as they fit.
use vix_lang.Common.Text.{Bytes, codes}
use vix_lang.Common.{
  ℕ, ◌+◌, ◌≤◌, ◌<◌, ◌≡◌, refl, ap, sym, ◌∙◌, Bool, true, false, Option, none, some, List, [], ◌∷◌,
  ◌++◌, length, arith, length-append, append_assoc, append-nil,
}
use vix_lang.Link.{
  append_text, append_arg, append_args, link_arguments, link_command, buffer_size, crt_paths,
  crti_paths, find_first_file, find_in_gcc_dir, library_arguments,
}

-- The arguments that are not empty.
abbrev pub words : List (Option Bytes) → List Bytes
words [] = []
words (none ∷ args) = words args
words (some [] ∷ args) = words args
words (some (c ∷ s) ∷ args) = (c ∷ s) ∷ words args

abbrev pub spaced : List Bytes → Bytes
spaced [] = []
spaced (w ∷ ws) = b' ' ∷ (w ++ spaced ws)

-- The words with one blank between each two.
abbrev pub joined : List Bytes → Bytes
joined [] = []
joined (w ∷ ws) = w ++ spaced ws

append_args_behind :
    (size : ℕ) (buf : Bytes) (args : List (Option Bytes))
    → 0 < length buf
    → length buf + length (spaced (words args)) + 1 < size
    → append_args size buf args ≡ buf ++ spaced (words args)
unfolding append_args append_arg append_text
append_args_behind size buf [] h room = sym (append-nil buf)
append_args_behind size buf (none ∷ args) h room = append_args_behind size buf args h room
append_args_behind size buf (some [] ∷ args) h room = append_args_behind size buf args h room
append_args_behind size buf (some (c ∷ s) ∷ args) h room =
    let rest = length-append (c ∷ s) (spaced (words args)) in
    let size' = length-append buf (b' ' ∷ c ∷ s) in
    let appended : append_text size buf (c ∷ s) ≡ buf ++ b' ' ∷ c ∷ s = ground (arith, rest) in
    rw appended (
      append_args_behind size (buf ++ b' ' ∷ c ∷ s) args (omega (arith, size'))
        (omega (arith, rest, size'))
      ∙ append_assoc buf (b' ' ∷ c ∷ s) (spaced (words args)))

-- From an empty buffer, the arguments come out in order, those that are missing or empty left out,
-- with one blank between each two, if they and two more bytes fit the buffer.
pub append_args-joined :
    (size : ℕ) (args : List (Option Bytes))
    → length (joined (words args)) + 2 < size
    → append_args size [] args ≡ joined (words args)
unfolding append_args append_arg append_text
append_args-joined size [] room = refl
append_args-joined size (none ∷ args) room = append_args-joined size args room
append_args-joined size (some [] ∷ args) room = append_args-joined size args room
append_args-joined size (some (c ∷ s) ∷ args) room =
    let rest = length-append (c ∷ s) (spaced (words args)) in
    let appended : append_text size [] (c ∷ s) ≡ c ∷ s = ground (arith, rest) in
    rw appended (append_args_behind size (c ∷ s) args (omega arith) (omega (arith, rest)))

append_text_long :
    (size : ℕ) (buf arg : Bytes) → size ≤ length arg + 2 → append_text size buf arg ≡ buf
unfolding append_text
append_text_long size buf [] h = refl
append_text_long size buf (c ∷ s) h = ground arith

-- An argument that is too long for the buffer is the same as none.
append_args_long :
    (size : ℕ) (buf arg : Bytes) (before after : List (Option Bytes))
    → size ≤ length arg + 2
    → append_args size buf (before ++ some arg ∷ after)
      ≡ append_args size buf (before ++ none ∷ after)
unfolding append_args append_arg
append_args_long size buf arg [] after h =
    ap (λ b. append_args size b after) (append_text_long size buf arg h)
append_args_long size buf arg (o ∷ before) after h =
    append_args_long size (append_arg size buf o) arg before after h

-- The command of the linker, for an object and an output with names, is its arguments that are
-- not empty, in order and with one blank between each two, if these and two more bytes fit the
-- buffer.
pub link_command-joined :
    (readable : Bytes → Bool) (object output : Bytes) (runtime args : Option Bytes) (no_std : Bool)
    → 0 < length object
    → 0 < length output
    → length (joined (words (link_arguments readable object runtime output args no_std))) + 2
      < buffer_size
    → link_command readable (some object) runtime (some output) args no_std
      ≡ some (joined (words (link_arguments readable object runtime output args no_std)))
unfolding link_command
link_command-joined readable [] output runtime args no_std h k room = elim h [ ]
link_command-joined readable (c ∷ object) [] runtime args no_std h k room = elim k [ ]
link_command-joined readable (c ∷ object) (d ∷ output) runtime args no_std h k room = ap some (
    append_args-joined buffer_size
      (link_arguments readable (c ∷ object) runtime (d ∷ output) args no_std) room)

-- Link arguments that fill the buffer but for two bytes, or more, are left out without an error:
-- the linker gets the command that it gets with no link arguments.
pub link_command_long :
    (readable : Bytes → Bool) (object output : Bytes) (runtime : Option Bytes) (args : Bytes)
    (no_std : Bool)
    → buffer_size ≤ length args + 2
    → link_command readable (some object) runtime (some output) (some args) no_std
      ≡ link_command readable (some object) runtime (some output) none no_std
unfolding link_command link_arguments
link_command_long readable [] output runtime args no_std h = refl
link_command_long readable (c ∷ object) [] runtime args no_std h = refl
link_command_long readable (c ∷ object) (d ∷ output) runtime args true h =
    let before = some (codes "-o") ∷ some (d ∷ output) ∷ some (c ∷ object) ∷ [] in
    ap some (append_args_long buffer_size [] args before [] h)
link_command_long readable (c ∷ object) (d ∷ output) runtime args false h =
    let before =
      some (codes "-o")
      ∷ some (d ∷ output)
      ∷ find_first_file readable crt_paths
      ∷ find_first_file readable crti_paths
      ∷ find_in_gcc_dir readable (codes "crtbeginS.o")
      ∷ some (c ∷ object)
      ∷ runtime
      ∷ [] in
    ap some (append_args_long buffer_size [] args before (library_arguments readable) h)
