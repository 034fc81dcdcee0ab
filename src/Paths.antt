-- ===== src/Paths.antt =====
-- The search for the runtime's object file in `src/helper.c`, on systems with `/` in paths. The file
-- system and the environment are the parameter `System`; `can_alloc` says for which sizes `malloc`
-- gives a block.
pub mod Candidates
use vix_lang.Common.Text.{Bytes, codes}
use vix_lang.Common.{
  ℕ, ◌+◌, Bool, true, false, ◌||◌, Option, none, some, List, [], ◌∷◌, ◌++◌, length, ◌==◌,
  if◌then◌else◌, ◌>>=◌,
}

-- `realpath`, `getenv("PATH")`, and `access` with `X_OK` and `R_OK`.
pub record System : Type 0 where
  pub can_alloc : ℕ → Bool
  pub realpath : Bytes → Option Bytes
  pub path_env : Option Bytes
  pub executable : Bytes → Bool
  pub readable : Bytes → Bool

-- `strrchr(path, '/')`: the text in front of the last slash.
abbrev pub in_front : ℕ → Option Bytes → Option Bytes
in_front c (some dir) = some (c ∷ dir)
in_front c none = if c == b'/' then some [] else none

unfoldable pub directory : Bytes → Option Bytes
directory [] = none
directory (c ∷ s) = in_front c (directory s)

unfoldable pub has_slash : Bytes → Bool
has_slash [] = false
has_slash (c ∷ s) = c == b'/' || has_slash s

-- `strtok_r(paths, ":", &save)`: the texts between colons that are not empty.
abbrev pub push_token : Bytes → List Bytes → List Bytes
push_token [] tokens = tokens
push_token (c ∷ s) tokens = (c ∷ s) ∷ tokens

unfoldable pub tokens_from : Bytes → Bytes → List Bytes
tokens_from token [] = push_token token []
tokens_from token (c ∷ s) =
    let next = if c == b':' then [] else token ++ c ∷ [] in
    let rest = tokens_from next s in if c == b':' then push_token token rest else rest

-- `dir[0] == '\0' ? "." : dir`
abbrev pub usable_dir : Bytes → Bytes
usable_dir [] = codes "."
usable_dir (c ∷ s) = c ∷ s

module _ (sys : System) where
  open sys use {can_alloc, realpath, path_env, executable, readable}

  unfoldable pub join_object : Bytes → Bytes → Option Bytes
  join_object dir name =
      if can_alloc (length dir + 1 + length name + 1) then some (dir ++ b'/' ∷ name) else none

  abbrev pub resolved : Option Bytes → Bytes → Option Bytes
  resolved (some path') path = some path'
  resolved none path = if can_alloc (length path + 1) then some path else none

  -- The three cases of the last slash: none, at the front, and behind a directory.
  abbrev pub object_beside : Option Bytes → Bytes → Option Bytes
  object_beside none name = join_object (codes ".") name
  object_beside (some []) name = join_object [] name
  object_beside (some (c ∷ dir)) name =
      if can_alloc (length (c ∷ dir) + 1) then join_object (c ∷ dir) name else none

  unfoldable pub object_from_executable_path : Bytes → Bytes → Option Bytes
  unfolding directory join_object
  object_from_executable_path path name =
      resolved (realpath path) path >>= (λ usable. object_beside (directory usable) name)

  -- The loop over the directories of `PATH`; `none` where none has the program. The outer option
  -- is whether the loop returns.
  unfoldable pub search_path : Bytes → Bytes → List Bytes → Option (Option Bytes)
  unfolding object_from_executable_path
  search_path argv0 name [] = none
  search_path argv0 name (dir ∷ dirs) =
      let candidate = usable_dir dir ++ b'/' ∷ argv0 in
      let rest = search_path argv0 name dirs in
      if can_alloc (length (usable_dir dir) + 1 + length argv0 + 1)
      then (if executable candidate
          then some (object_from_executable_path candidate name)
          else rest)
      else rest

  abbrev pub found_or : Option (Option Bytes) → Bytes → Option Bytes
  found_or (some path) name = path
  found_or none name = join_object (codes ".") name

  abbrev pub in_path : Option Bytes → Bytes → Bytes → Option Bytes
  in_path none argv0 name = join_object (codes ".") name
  in_path (some paths) argv0 name =
      if can_alloc (length paths + 1)
      then found_or (search_path argv0 name (tokens_from [] paths)) name
      else join_object (codes ".") name

  unfoldable pub compiler_object_path : Option Bytes → Bytes → Option Bytes
  unfolding has_slash tokens_from search_path
  compiler_object_path none name = join_object (codes ".") name
  compiler_object_path (some []) name = join_object (codes ".") name
  compiler_object_path (some (c ∷ argv0)) name =
      if has_slash (c ∷ argv0)
      then object_from_executable_path (c ∷ argv0) name
      else in_path path_env (c ∷ argv0) name

  abbrev pub if_readable : Option Bytes → Option Bytes
  if_readable none = none
  if_readable (some path) = if readable path then some path else none

  unfoldable pub readable_compiler_object_path : Option Bytes → Bytes → Option Bytes
  unfolding compiler_object_path
  readable_compiler_object_path argv0 name = if_readable (compiler_object_path argv0 name)

  abbrev pub above : Bytes → Option Bytes
  above path =
      let out = path ++ codes "/../runtime/runtime.o" in
      if can_alloc (length out + 1) then some out else none

  unfoldable pub parent_runtime_object_path : Option Bytes → Option Bytes
  unfolding compiler_object_path
  parent_runtime_object_path argv0 = compiler_object_path argv0 (codes ".") >>= above

  abbrev pub first_of : Option Bytes → Option Bytes → Option Bytes
  first_of (some path) other = some path
  first_of none other = other

  -- `vix_compiler_runtime_object_path`
  unfoldable pub runtime_object_path : Option Bytes → Option Bytes
  unfolding readable_compiler_object_path parent_runtime_object_path
  runtime_object_path argv0 = first_of (readable_compiler_object_path argv0 (codes "runtime.o")) (
      first_of (readable_compiler_object_path argv0 (codes "runtime/runtime.o")) (
        first_of (if_readable (parent_runtime_object_path argv0)) (
          first_of (compiler_object_path argv0 (codes "runtime/runtime.o"))
            (join_object (codes "runtime") (codes "runtime.o")))))
