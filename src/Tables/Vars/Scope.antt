-- ===== src/Tables/Vars/Scope.antt =====
-- The map from names to values and types that the table of variables stands for, and the
-- operations on it.
use vix_lang.Common.Text.{Bytes, codes, str_eq}
use vix_lang.Common.{Option, none, some, List, [], ◌∷◌, if◌then◌else◌}
use vix_lang.Tables.Search.{clip, entry}
use vix_lang.Tables.Vars.{VarEntry, Vars, var_name, type_or_i32}
use vix_lang.Tables.Vars.Runs.{Operation, reset, set, set_type}

-- A value, perhaps none yet, and a type, perhaps empty.
abbrev pub Binding : Type 0 → Type 0
Binding V = Option V × Bytes

abbrev pub Scope : Type 0 → Type 0
Scope V = Bytes → Option (Binding V)

module _ {V : Type 0} where
  abbrev pub binding : Option (VarEntry V) → Option (Binding V)
  binding none = none
  binding (some e) = some (e.value, e.type)

  -- What the table stands for.
  abbrev pub view : Vars V → Scope V
  view s name = binding (entry var_name name s)

  -- Setting a name that has no value yet keeps its type; otherwise it starts anew.
  abbrev pub with_value : Option V → Option (Binding V) → Binding V
  with_value v none = (v, [])
  with_value v (some (none, type)) = (v, type)
  with_value v (some (some w, type)) = (v, [])

  -- Giving a type keeps the value.
  abbrev pub with_type : Bytes → Option (Binding V) → Binding V
  with_type type none = (none, clip type)
  with_type type (some (v, old)) = (v, clip type)

  abbrev pub bind : Bytes → Binding V → Scope V → Scope V
  bind name b scope other = if str_eq other name then some b else scope other

  -- The operations on the map.
  abbrev pub interpret : Operation V → Scope V → Scope V
  interpret reset scope = λ name. none
  interpret (set name v) scope = bind name (with_value v (scope name)) scope
  interpret (set_type name type) scope = bind name (with_type type (scope name)) scope

  abbrev pub replay : List (Operation V) → Scope V → Scope V
  replay [] scope = scope
  replay (o ∷ os) scope = replay os (interpret o scope)

  -- The value and the type of a name in a map.
  abbrev pub value_in : Option (Binding V) → Option V
  value_in none = none
  value_in (some (v, type)) = v

  abbrev pub type_in : Option (Binding V) → Bytes
  type_in none = codes "i32"
  type_in (some (v, type)) = type_or_i32 type
