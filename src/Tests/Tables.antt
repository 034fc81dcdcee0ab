-- ===== src/Tests/Tables.antt =====
-- The symbol tables at concrete inputs.
use vix_lang.Common.Int.{pos}
use vix_lang.Common.Text.{Bytes, codes, has_prefix, str_eq}
use vix_lang.Common.{
  ltb, length, if◌then◌else◌, ℕ, ◌+◌, ◌≡◌, refl, arith, true, false, none, some, List, [], ◌∷◌, ◌*◌,
}
use vix_lang.Tables.Functions.Runs.{Registration, register_all, lookups-register_all}
use vix_lang.Tables.Functions.{
  function_return_type, function_param_type, function_param_count, function_is_var_arg,
}
use vix_lang.Tables.Search.{entry, max_entries}
use vix_lang.Tables.Structs.Fields.{bodies-register}
use vix_lang.Tables.Structs.{Llvm, Structs, register_struct_sig_abi, is_struct_type}
use vix_lang.Tables.Structs.Find.{
  struct_field_index, struct_field_type, field_index, field_name, type_or_unknown,
}
use vix_lang.Tables.Structs.Runs.{no_entries, none_known, lookups-perform}
use vix_lang.Tables.Structs.Known.{
  Change, declare, register, perform, meant_by, is_known, type_of, fields_of,
}
use vix_lang.Tables.Structs.{llvm_type_for_struct}
use vix_lang.Tables.Vars.Lookup
use vix_lang.Tables.Vars.Lookup.{set_var-IsTable}
use vix_lang.Tables.Vars.Refinement.{lookups-run}
use vix_lang.Tables.Vars.Scope.{value_in, type_in, replay}
use vix_lang.Tables.Vars.Runs.{Operation, set, set_type, run, get_var_long}
use vix_lang.Tables.Vars.{get_var, get_var_type, set_var}

empty_vars : Lookup.IsTable {V = ℕ} []
empty_vars = record { newest = tt; short = tt; size = omega arith }

abbrev x : Bytes
x = codes "x"

abbrev y : Bytes
y = codes "y"

abbrev operations : List (Operation ℕ)
operations = set_type x (codes "i64") ∷ set x (some 3) ∷ set x none ∷ []

abbrev long : Bytes
long = codes "a_name_of_more_than_sixty_three_bytes_that_a_generic_instance_can_have"

-- The variable has a value and a type, and is not found.
abbrev long_operations : List (Operation ℕ)
long_operations = set long (some 3) ∷ set_type long (codes "i64") ∷ []

get_var_long_example :
    let s = run long_operations [] in
    (get_var long s ≡ none)
    × (get_var_type long s ≡ codes "i32")
    × (length (set_var long (some 4) s)
        ≡ (if ltb (length s) max_entries then length s + 1 else length s))
get_var_long_example = get_var_long long_operations long (some 4) (omega arith)

abbrev main_params : List Bytes
main_params = codes "i32" ∷ codes "ptr:ptr:i8" ∷ []

-- The second registration of the name counts.
abbrev registrations : List Registration
registrations =
    record { name = codes "main"; ret = codes "void"; params = []; va = pos 0 }
    ∷ record { name = codes "puts"; ret = codes "i32"; params = codes "ptr" ∷ []; va = pos 1 }
    ∷ record { name = codes "main"; ret = codes "i32"; params = main_params; va = pos 0 }
    ∷ []

lookups-register_all_example :
    (function_return_type (codes "main") (register_all registrations []) ≡ codes "i32")
    × (function_param_count (codes "main") (register_all registrations []) ≡ 2)
    × (function_is_var_arg (codes "main") (register_all registrations []) ≡ pos 0)
    × (function_param_type (codes "main") (pos 1) (register_all registrations [])
        ≡ codes "ptr:ptr:i8")
unfolding str_eq
lookups-register_all_example =
    lookups-register_all registrations (codes "main") 1
      (omega arith, (omega arith, (omega arith, tt))) (omega arith)

-- Types as numbers.
abbrev types : Llvm ℕ
types = record {
  void_type = 0;
  int64_type = 64;
  int32_type = 32;
  int16_type = 16;
  int8_type = 8;
  float_type = 33;
  double_type = 65;
  pointer_type = 1;
  array_type = λ t n. 1000 + t * 100 + n;
  struct_named = λ n name. 100000 + n;
}

abbrev no_structs : Structs ℕ
no_structs = record { entries = []; created = 0; bodies = [] }

abbrev point : List (Bytes × Bytes)
point = (codes "x", codes "i32") ∷ (codes "y", codes "f64") ∷ []

bodies-register_example :
    let s' = register_struct_sig_abi types (codes "Point") point false no_structs in
    (register_struct_sig_abi types (codes "Point") [] true s').bodies ≡ s'.bodies
bodies-register_example =
    bodies-register types (codes "Point") point [] false true no_structs (omega arith) (omega arith)

lookups-run_example :
    (get_var {V = ℕ} x (run operations []) ≡ value_in (replay operations (λ other. none) x))
    × (get_var_type {V = ℕ} x (run operations []) ≡ type_in (replay operations (λ other. none) x))
lookups-run_example = lookups-run operations x (omega arith) (omega arith)

-- A second value starts a new entry, without a type.
shadowed :
    get_var_type {V = ℕ} x
      (run (set_type x (codes "i64") ∷ set x (some 3) ∷ set x (some 4) ∷ []) [])
    ≡ codes "i32"
unfolding run get_var_type
shadowed = refl

-- The second registration replaces the fields.
abbrev changes : List Change
changes =
    declare (codes "Line")
    ∷ register (codes "Point") [] false
    ∷ register (codes "Point") point true
    ∷ []

lookups-perform_example :
    let s = perform types changes (no_entries types) in
    let l = (meant_by types changes (none_known types)).find (codes "Point") in
    (is_struct_type (codes "Point") s ≡ is_known l)
    × (llvm_type_for_struct types (codes "Point") s ≡ type_of types l)
    × (struct_field_index (codes "Point") (codes "y") s ≡ field_index (codes "y") (fields_of l))
    × (struct_field_type (codes "Point") (codes "y") s
        ≡ type_or_unknown (entry field_name (codes "y") (fields_of l)))
unfolding has_prefix
lookups-perform_example =
    lookups-perform types changes (codes "Point") (codes "y")
      (omega arith, (omega arith, (omega arith, tt))) refl refl
