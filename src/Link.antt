-- ===== src/Link.antt =====
-- The arguments of the linker, from `lib/api.c`: `append_arg`, `append_opt_path`, the search for
-- the start files, and `vix_api_link_executable` on ELF. Whether a file can be read, `access` with
-- `R_OK`, is the parameter `readable`. The modules below have the calls of the linker.
pub mod Bounds
pub mod Joined
pub mod Linker
pub mod Coff
use vix_lang.Common.Text.{Bytes, codes}
use vix_lang.Common.{
  ℕ, ◌+◌, Bool, true, false, not, ◌&&◌, Option, none, some, List, [], ◌∷◌, ◌++◌, length, leb, ltb,
  if◌then◌else◌, map, take,
}

-- `append_arg` with an argument that is no null pointer.
unfoldable pub append_text : ℕ → Bytes → Bytes → Bytes
append_text size buf [] = buf
append_text size buf (c ∷ s) =
    let arg = c ∷ s in
    if leb size (length buf + length arg + 2)
    then buf
    else if ltb 0 (length buf)
    then buf ++ b' ' ∷ arg
    else buf ++ arg

unfoldable pub append_arg : ℕ → Bytes → Option Bytes → Bytes
unfolding append_text
append_arg size buf none = buf
append_arg size buf (some arg) = append_text size buf arg

-- Calls of `append_arg` on the same buffer, one after the other.
unfoldable pub append_args : ℕ → Bytes → List (Option Bytes) → Bytes
unfolding append_arg
append_args size buf [] = buf
append_args size buf (arg ∷ args) = append_args size (append_arg size buf arg) args

-- What `append_opt_path` appends.
abbrev pub opt_path : Bytes → Option Bytes → List (Option Bytes)
opt_path opt none = []
opt_path opt (some []) = []
opt_path opt (some (c ∷ s)) = some opt ∷ some (c ∷ s) ∷ []

abbrev pub crt_paths : List Bytes
crt_paths =
    codes "/usr/lib/Scrt1.o"
    ∷ codes "/usr/lib/x86_64-linux-gnu/Scrt1.o"
    ∷ codes "/usr/lib/crt1.o"
    ∷ codes "/usr/lib/x86_64-linux-gnu/crt1.o"
    ∷ []

abbrev pub crti_paths : List Bytes
crti_paths = codes "/usr/lib/crti.o" ∷ codes "/usr/lib/x86_64-linux-gnu/crti.o" ∷ []

abbrev pub crtn_paths : List Bytes
crtn_paths = codes "/usr/lib/crtn.o" ∷ codes "/usr/lib/x86_64-linux-gnu/crtn.o" ∷ []

abbrev pub interp_paths : List Bytes
interp_paths =
    codes "/usr/lib/ld-linux-x86-64.so.2"
    ∷ codes "/lib64/ld-linux-x86-64.so.2"
    ∷ codes "/lib/x86_64-linux-gnu/ld-linux-x86-64.so.2"
    ∷ []

abbrev pub search_dirs : List Bytes
search_dirs =
    codes "/usr/lib"
    ∷ codes "/usr/lib64"
    ∷ codes "/lib"
    ∷ codes "/lib64"
    ∷ codes "/usr/lib/x86_64-linux-gnu"
    ∷ codes "/lib/x86_64-linux-gnu"
    ∷ []

-- The loops of `find_in_gcc_dir`; the version numbers are printed as these.
abbrev pub gcc_dirs : List Bytes
gcc_dirs =
    codes "/usr/lib/gcc/x86_64-pc-linux-gnu/"
    ∷ codes "/usr/lib/gcc/x86_64-linux-gnu/"
    ∷ codes "/usr/lib64/gcc/x86_64-pc-linux-gnu/"
    ∷ codes "/usr/lib64/gcc/x86_64-linux-gnu/"
    ∷ []

abbrev pub majors : List Bytes
majors =
    map codes
      ("20" ∷ "19" ∷ "18" ∷ "17" ∷ "16" ∷ "15" ∷ "14" ∷ "13" ∷ "12" ∷ "11" ∷ "10" ∷ "9" ∷ [])

abbrev in_dir : Bytes → Bytes → List Bytes → List Bytes
in_dir name dir [] = []
in_dir name dir (major ∷ ms) = (dir ++ (major ++ b'/' ∷ name)) ∷ in_dir name dir ms

-- The candidates in the order in which they are tried.
abbrev pub gcc_paths : Bytes → List Bytes → List Bytes
gcc_paths name [] = []
gcc_paths name (dir ∷ dirs) = in_dir name dir majors ++ gcc_paths name dirs

-- `sizeof(args)`
abbrev pub buffer_size : ℕ
buffer_size = 65536

-- An optional list of arguments.
abbrev pub when : Bool → List (Option Bytes) → List (Option Bytes)
when true args = args
when false args = []

module _ (readable : Bytes → Bool) where
  unfoldable pub find_first_file : List Bytes → Option Bytes
  find_first_file [] = none
  find_first_file (path ∷ paths) =
      let rest = find_first_file paths in if readable path then some path else rest

  unfoldable pub find_in_gcc_dir : Bytes → Option Bytes
  unfolding find_first_file
  find_in_gcc_dir name = find_first_file (gcc_paths name gcc_dirs)

  -- What `append_default_search_dirs` appends.
  unfoldable pub default_search_dirs : List Bytes → List (Option Bytes)
  default_search_dirs [] = []
  default_search_dirs (dir ∷ dirs) =
      let rest = default_search_dirs dirs in
      if readable dir then some (codes "-L" ++ dir) ∷ rest else rest

  -- What is appended behind the link arguments, for a program with the standard library.
  unfoldable pub library_arguments : List (Option Bytes)
  unfolding find_first_file find_in_gcc_dir default_search_dirs
  library_arguments =
      default_search_dirs search_dirs
      ++ (opt_path (codes "-dynamic-linker") (find_first_file interp_paths)
          ++ (some (codes "-lm")
              ∷ some (codes "-lc")
              ∷ find_in_gcc_dir (codes "crtendS.o")
              ∷ find_first_file crtn_paths
              ∷ []))

  -- The arguments in the order in which they are appended. A null pointer appends nothing, as an
  -- empty text does.
  unfoldable pub link_arguments :
      Bytes → Option Bytes → Bytes → Option Bytes → Bool → List (Option Bytes)
  unfolding find_first_file find_in_gcc_dir library_arguments
  link_arguments object runtime output args no_std =
      some (codes "-o")
        ∷ some output
        ∷ when (not no_std) (
            find_first_file crt_paths
            ∷ find_first_file crti_paths
            ∷ find_in_gcc_dir (codes "crtbeginS.o")
            ∷ [])
      ++ (some object ∷ when (not no_std) (runtime ∷ [])
          ++ (args ∷ when (not no_std) library_arguments))

  -- What the linker is called with; `none` where the call is refused with the result 1.
  unfoldable pub link_command :
      Option Bytes → Option Bytes → Option Bytes → Option Bytes → Bool → Option Bytes
  unfolding append_args link_arguments
  link_command (some (c ∷ object)) runtime (some (d ∷ output)) args no_std =
      some
        (append_args buffer_size [] (link_arguments (c ∷ object) runtime (d ∷ output) args no_std))
  link_command _ runtime _ args no_std = none
