-- ===== src/Tests/Paths.antt =====
-- The search for the runtime at concrete inputs.
use vix_lang.Common.Text.{codes, str_eq}
use vix_lang.Common.{◌≡◌, refl, true, none, some, ◌++◌}
use vix_lang.Paths.Candidates.{compiler_dir, candidates, first_readable, runtime_object_path-first}
use vix_lang.Paths.{System, runtime_object_path}

-- The compiler is in `/opt/bin`, and the runtime beside that directory.
abbrev installed : System
installed = record {
  can_alloc = λ n. true;
  realpath = λ path. none;
  path_env = some (codes "/bin::/opt/bin");
  executable = λ path. str_eq path (codes "/opt/bin/vixc");
  readable = λ path. str_eq path (codes "/opt/bin/./../runtime/runtime.o");
}

found :
    runtime_object_path installed (some (codes "vixc"))
    ≡ some (codes "/opt/bin/./../runtime/runtime.o")
unfolding runtime_object_path str_eq
found = refl

runtime_object_path-first_example :
    runtime_object_path installed (some (codes "vixc"))
    ≡ some (
        first_readable installed
          (candidates (compiler_dir installed (some (codes "vixc"))))
          (compiler_dir installed (some (codes "vixc")) ++ codes "/runtime/runtime.o"))
runtime_object_path-first_example =
    runtime_object_path-first installed (λ n. refl) (some (codes "vixc"))
