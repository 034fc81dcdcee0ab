-- ===== src/Link/Bounds.antt =====
-- The argument buffer of `vix_api_link_executable` is never overrun.
use vix_lang.Common.Text.{Bytes}
use vix_lang.Common.{
  ℕ, ◌<◌, ◌≡◌, refl, Bool, Option, none, some, List, [], ◌∷◌, length, arith, length-append,
}
use vix_lang.Link.{append_text, append_arg, append_args, link_arguments, link_command, buffer_size}

append_text_fits :
    (size : ℕ) (buf arg : Bytes) → length buf < size → length (append_text size buf arg) < size
unfolding append_text
append_text_fits size buf [] h = h
append_text_fits size buf (c ∷ s) h =
    ground (arith, length-append buf (c ∷ s), length-append buf (b' ' ∷ c ∷ s))

-- The text in a buffer leaves room for the terminating null, whatever is appended.
pub append_args_fits :
    (size : ℕ) (buf : Bytes) (args : List (Option Bytes))
    → length buf < size
    → length (append_args size buf args) < size
unfolding append_args append_arg
append_args_fits size buf [] h = h
append_args_fits size buf (none ∷ args) h = append_args_fits size buf args h
append_args_fits size buf (some arg ∷ args) h =
    append_args_fits size (append_text size buf arg) args (append_text_fits size buf arg h)

-- There is a command whenever the object and the output have names, and with its terminating null
-- it fits the buffer, whatever the paths and the arguments.
pub link_command_fits :
    (readable : Bytes → Bool) (object output : Bytes) (runtime args : Option Bytes) (no_std : Bool)
    → 0 < length object
    → 0 < length output
    → (command : Bytes) × (link_command readable (some object) runtime (some output) args no_std
        ≡ some command)
      × (length command < buffer_size)
unfolding link_command
link_command_fits readable [] output runtime args no_std h k = elim h [ ]
link_command_fits readable (c ∷ object) [] runtime args no_std h k = elim k [ ]
link_command_fits readable (c ∷ object) (d ∷ output) runtime args no_std h k = (
  append_args buffer_size []
      (link_arguments readable (c ∷ object) runtime (d ∷ output) args no_std),
  refl,
  append_args_fits buffer_size []
      (link_arguments readable (c ∷ object) runtime (d ∷ output) args no_std) (omega arith),
)
