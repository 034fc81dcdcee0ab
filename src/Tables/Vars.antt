-- ===== src/Tables/Vars.antt =====
-- The table of variables: `vix_reset_vars`, `vix_set_var`, `vix_set_var_type`,
-- `vix_get_var_type` and `vix_get_var`. A value is a reference of the LLVM library, `none` for
-- `NULL`.
pub mod Lookup
pub mod Pending
pub mod Retype
pub mod Runs
pub mod Scope
pub mod Refinement
use vix_lang.Common.Text.{Bytes, codes, str_eq}
use vix_lang.Common.{
  ℕ, Bool, true, false, ◌&&◌, Option, none, some, List, [], ◌∷◌, if◌then◌else◌, length, ltb,
}
use vix_lang.Tables.Search.{max_entries, clip, entry}

pub record VarEntry (V : Type 0) : Type 0 where
  pub name : Bytes
  pub value : Option V
  pub type : Bytes

abbrev pub Vars : Type 0 → Type 0
Vars V = List (VarEntry V)

abbrev pub type_or_i32 : Bytes → Bytes
type_or_i32 [] = codes "i32"
type_or_i32 (c ∷ s) = c ∷ s

module _ {V : Type 0} where
  abbrev pub var_name : VarEntry V → Bytes
  var_name e = e.name

  abbrev pub is_null : Option V → Bool
  is_null none = true
  is_null (some _) = false

  abbrev pub keep : VarEntry V → Option (Vars V) → Option (Vars V)
  keep e none = none
  keep e (some es) = some (e ∷ es)

  -- The loop of `vix_set_var`: the newest entry of the name that has no value gets one.
  unfoldable pub fill : Bytes → Option V → Vars V → Option (Vars V)
  unfolding str_eq
  fill name value [] = none
  fill name value (e ∷ es) =
      if str_eq e.name name && is_null e.value
      then some (record e { value = value } ∷ es)
      else keep e (fill name value es)

  -- The loop of `vix_set_var_type`.
  unfoldable pub retype : Bytes → Bytes → Vars V → Option (Vars V)
  unfolding str_eq
  retype name type [] = none
  retype name type (e ∷ es) =
      if str_eq e.name name
      then some (record e { type = clip type } ∷ es)
      else keep e (retype name type es)

  -- A new entry, if there is room.
  abbrev pub push_or_keep : Option (Vars V) → VarEntry V → Vars V → Vars V
  push_or_keep (some s) e old = s
  push_or_keep none e old = if ltb (length old) max_entries then e ∷ old else old

  unfoldable pub reset_vars : Vars V → Vars V
  reset_vars s = []

  unfoldable pub set_var : Bytes → Option V → Vars V → Vars V
  unfolding fill
  set_var name value s =
      push_or_keep (fill name value s) (record { name = clip name; value = value; type = [] }) s

  unfoldable pub set_var_type : Bytes → Bytes → Vars V → Vars V
  unfolding retype
  set_var_type name type s =
      push_or_keep (retype name type s)
        (record { name = clip name; value = none; type = clip type }) s

  abbrev pub type_of : Option (VarEntry V) → Bytes
  type_of none = codes "i32"
  type_of (some e) = type_or_i32 e.type

  unfoldable pub get_var_type : Bytes → Vars V → Bytes
  unfolding entry
  get_var_type name s = type_of (entry var_name name s)

  abbrev pub value_of : Option (VarEntry V) → Option V
  value_of none = none
  value_of (some e) = e.value

  unfoldable pub get_var : Bytes → Vars V → Option V
  unfolding entry
  get_var name s = value_of (entry var_name name s)
