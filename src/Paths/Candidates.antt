-- ===== src/Paths/Candidates.antt =====
-- Where the runtime's object file is looked for.
use vix_lang.Common.Text.{Bytes, codes}
use vix_lang.Common.{
  ℕ, ◌+◌, ◌≡◌, ◌<◌, refl, true, Option, none, some, List, [], ◌∷◌, ◌++◌, length, ◌==◌,
  if◌then◌else◌, All, Bool-cases, Option-cases, inl, inr, arith,
}
use vix_lang.Paths.{
  System, directory, has_slash, push_token, tokens_from, join_object, object_beside,
  object_from_executable_path, search_path, found_or, in_path, compiler_object_path,
  readable_compiler_object_path, parent_runtime_object_path, runtime_object_path,
}

-- The directory of the compiler, described without allocations: that of its resolved path.
abbrev dir_or_dot : Option Bytes → Bytes
dir_or_dot none = codes "."
dir_or_dot (some dir) = dir

abbrev path_or : Option Bytes → Bytes → Bytes
path_or none path = path
path_or (some path') path = path'

tokens_from-All : (token s : Bytes) → All (λ d. 0 < length d) (tokens_from token s)
unfolding tokens_from
tokens_from-All [] [] = tt
tokens_from-All (t ∷ token) [] = (omega arith, tt)
tokens_from-All token (c ∷ s) = elim (Bool-cases (c == b':')) [
  | inl e ↦ rw e (pushed token (tokens_from [] s) (tokens_from-All [] s))
  | inr e ↦ rw e (tokens_from-All (token ++ c ∷ []) s)
]
  where
    pushed :
        (token : Bytes) (ds : List Bytes)
        → All (λ d. 0 < length d) ds
        → All (λ d. 0 < length d) (push_token token ds)
    pushed [] ds h = h
    pushed (t ∷ ts) ds h = (omega arith, h)

-- The paths that are tried, in their order.
abbrev pub candidates : Bytes → List Bytes
candidates dir =
    (dir ++ codes "/runtime.o")
    ∷ (dir ++ codes "/runtime/runtime.o")
    ∷ ((dir ++ codes "/.") ++ codes "/../runtime/runtime.o")
    ∷ []

module _ (sys : System) where
  open sys use {can_alloc, realpath, path_env, executable, readable}

  abbrev pub executable_dir : Bytes → Bytes
  executable_dir path = dir_or_dot (directory (path_or (realpath path) path))

  -- The first directory of a list that has the program.
  pub program_dir : Bytes → List Bytes → Bytes
  program_dir argv0 [] = codes "."
  program_dir argv0 (dir ∷ dirs) =
      let rest = program_dir argv0 dirs in
      if executable (dir ++ b'/' ∷ argv0) then executable_dir (dir ++ b'/' ∷ argv0) else rest

  abbrev searched_dir : Bytes → Option Bytes → Bytes
  searched_dir argv0 none = codes "."
  searched_dir argv0 (some paths) = program_dir argv0 (tokens_from [] paths)

  abbrev pub compiler_dir : Option Bytes → Bytes
  compiler_dir none = codes "."
  compiler_dir (some []) = codes "."
  compiler_dir (some (c ∷ argv0)) =
      if has_slash (c ∷ argv0)
      then executable_dir (c ∷ argv0)
      else searched_dir (c ∷ argv0) path_env

  -- The first path that can be read, or the last one given.
  pub first_readable : List Bytes → Bytes → Bytes
  first_readable [] path = path
  first_readable (p ∷ ps) path = let rest = first_readable ps path in if readable p then p else rest

  module _ (alloc : (n : ℕ) → can_alloc n ≡ true) where
    object_from-dir :
        (path name : Bytes)
        → object_from_executable_path sys path name ≡ some (executable_dir path ++ b'/' ∷ name)
    unfolding object_from_executable_path join_object
    object_from-dir path name = elim (Option-cases (realpath path)) [
      | inl e ↦ rw (e, alloc (length path + 1)) (beside (directory path))
      | inr (path', e) ↦ rw e (beside (directory path'))
    ]
      where
        beside :
            (dir : Option Bytes) → object_beside sys dir name ≡ some (dir_or_dot dir ++ b'/' ∷ name)
        beside none = rw alloc refl
        beside (some []) = rw alloc refl
        beside (some (c ∷ dir)) =
            ground
              (arith, alloc (length (c ∷ dir) + 1), alloc (length (c ∷ dir) + 1 + length name + 1))

    search_path-program :
        (argv0 name : Bytes) (dirs : List Bytes)
        → All (λ d. 0 < length d) dirs
        → found_or sys (search_path sys argv0 name dirs) name
          ≡ some (program_dir argv0 dirs ++ b'/' ∷ name)
    unfolding search_path program_dir join_object
    search_path-program argv0 name [] h = rw (alloc (length (codes ".") + 1 + length name + 1)) refl
    search_path-program argv0 name ([] ∷ dirs) h = elim h.0 [ ]
    search_path-program argv0 name ((c ∷ dir) ∷ dirs) h =
        let candidate = (c ∷ dir) ++ b'/' ∷ argv0 in
        let room = alloc (length (c ∷ dir) + 1 + length argv0 + 1) in
        elim (Bool-cases (executable candidate)) [
          | inl e ↦ rw (room, e) (object_from-dir candidate name)
          | inr e ↦ rw (room, e) (search_path-program argv0 name dirs h.1)
        ]

    -- With every allocation granted, the path of an object is its name in the directory of the
    -- compiler, whatever the name.
    compiler_object_path-dir :
        (argv0 : Option Bytes) (name : Bytes)
        → compiler_object_path sys argv0 name ≡ some (compiler_dir argv0 ++ b'/' ∷ name)
    unfolding compiler_object_path join_object
    compiler_object_path-dir none name = rw (alloc (length (codes ".") + 1 + length name + 1)) refl
    compiler_object_path-dir (some []) name =
        rw (alloc (length (codes ".") + 1 + length name + 1)) refl
    compiler_object_path-dir (some (c ∷ argv0)) name = elim (Bool-cases (has_slash (c ∷ argv0))) [
      | inl e ↦ rw e (object_from-dir (c ∷ argv0) name)
      | inr e ↦ rw e (searched path_env)
    ]
      where
        searched :
            (paths : Option Bytes)
            → in_path sys paths (c ∷ argv0) name
              ≡ some (searched_dir (c ∷ argv0) paths ++ b'/' ∷ name)
        searched none = rw (alloc (length (codes ".") + 1 + length name + 1)) refl
        searched (some paths) =
            rw (alloc (length paths + 1)) (
              search_path-program (c ∷ argv0) name (tokens_from [] paths)
                (tokens_from-All [] paths))

    -- With every allocation granted, the runtime's object file is the first of three candidates in
    -- and beside the directory of the compiler that can be read. If none can be read it is the
    -- second of them; there is always an answer.
    pub runtime_object_path-first :
        (argv0 : Option Bytes)
        → runtime_object_path sys argv0
          ≡ some (
              first_readable
                (candidates (compiler_dir argv0))
                (compiler_dir argv0 ++ codes "/runtime/runtime.o"))
    unfolding runtime_object_path readable_compiler_object_path parent_runtime_object_path
        first_readable
    runtime_object_path-first argv0 =
        let dir = compiler_dir argv0 in
        let at = compiler_object_path-dir argv0 in
        let up = (dir ++ codes "/.") ++ codes "/../runtime/runtime.o" in
        rw
          (
            at (codes "runtime.o"),
            at (codes "runtime/runtime.o"),
            at (codes "."),
            alloc (length up + 1),
          )
          (ground arith)
