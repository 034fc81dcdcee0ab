-- ===== src/Tables/Functions.antt =====
-- The table of function signatures: `vix_reset_function_sigs`,
-- `vix_register_function_sig_vararg` and the four lookups.
pub mod Lookup
pub mod Runs
use vix_lang.Common.Int.{ℤ, pos, pos_part, ltb_ℤ}
use vix_lang.Common.Text.{Bytes, codes}
use vix_lang.Common.{
  ℕ, Bool, true, false, ◌&&◌, not, Option, none, some, List, [], ◌∷◌, map, if◌then◌else◌, length,
  ltb, take, get_or, min,
}
use vix_lang.Tables.Search.{max_entries, clip, entry, update_oldest}

-- The parameter types are the ones within the count, which is at most 16.
pub record FunctionEntry : Type 0 where
  pub name : Bytes
  pub return_type : Bytes
  pub param_types : List Bytes
  pub is_var_arg : ℤ

abbrev pub Functions : Type 0
Functions = List FunctionEntry

abbrev pub fn_name : FunctionEntry → Bytes
fn_name f = f.name

abbrev pub max_params : ℕ
max_params = 16

unfoldable pub reset_function_sigs : Functions → Functions
reset_function_sigs s = []

-- What a registration writes into an entry; `param_types` has `param_count` elements.
abbrev pub signature : Bytes → Bytes → List Bytes → ℤ → FunctionEntry
signature name return_type param_types is_var_arg = record {
  name = clip name;
  return_type = clip return_type;
  param_types = map clip (take max_params param_types);
  is_var_arg = is_var_arg;
}

abbrev push_or_keep : Option Functions → FunctionEntry → Functions → Functions
push_or_keep (some s) f old = s
push_or_keep none f old = if ltb (length old) max_entries then f ∷ old else old

-- A full table is left as it is, with a message on the standard error.
unfoldable pub register_function_sig : Bytes → Bytes → List Bytes → ℤ → Functions → Functions
unfolding update_oldest
register_function_sig name return_type param_types is_var_arg s =
    let f = signature name return_type param_types is_var_arg in
    push_or_keep (update_oldest fn_name name f s) f s

abbrev pub return_type_of : Option FunctionEntry → Bytes
return_type_of none = codes "i32"
return_type_of (some f) = f.return_type

unfoldable pub function_return_type : Bytes → Functions → Bytes
unfolding entry
function_return_type name s = return_type_of (entry fn_name name s)

abbrev pub param_type_of : Option FunctionEntry → ℤ → Bytes
param_type_of none index = codes "i32"
param_type_of (some f) index =
    if not (ltb_ℤ index (pos 0)) && ltb_ℤ index (pos (length f.param_types))
    then get_or f.param_types (pos_part index) []
    else codes "i32"

unfoldable pub function_param_type : Bytes → ℤ → Functions → Bytes
unfolding entry
function_param_type name index s = param_type_of (entry fn_name name s) index

abbrev pub param_count_of : Option FunctionEntry → ℕ
param_count_of none = 0
param_count_of (some f) = length f.param_types

unfoldable pub function_param_count : Bytes → Functions → ℕ
unfolding entry
function_param_count name s = param_count_of (entry fn_name name s)

abbrev pub is_var_arg_of : Option FunctionEntry → ℤ
is_var_arg_of none = pos 0
is_var_arg_of (some f) = f.is_var_arg

unfoldable pub function_is_var_arg : Bytes → Functions → ℤ
unfolding entry
function_is_var_arg name s = is_var_arg_of (entry fn_name name s)
