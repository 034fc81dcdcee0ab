-- ===== src/Tables/Structs/Find.antt =====
-- The lookups of fields: `vix_get_struct_field_index`, `vix_get_struct_field_type` and
-- `vix_find_field_in_any_struct`.
use vix_lang.Common.Text.{Bytes, codes, str_eq, has_prefix}
use vix_lang.Common.{
  ℕ, suc, Bool, true, false, ◌||◌, Option, none, some, List, [], ◌∷◌, if◌then◌else◌, drop,
}
use vix_lang.Tables.Search.{entry}
use vix_lang.Tables.Structs.{StructEntry, Structs, st_name}

-- The position and the type of the first field of the name.
abbrev pub field_name : Bytes × Bytes → Bytes
field_name f = f.0

abbrev later : Option ℕ → Option ℕ
later none = none
later (some i) = some (suc i)

unfoldable pub field_index : Bytes → List (Bytes × Bytes) → Option ℕ
unfolding str_eq
field_index name [] = none
field_index name (f ∷ fs) =
    let rest = later (field_index name fs) in if str_eq f.0 name then some 0 else rest

abbrev pub type_or_unknown : Option (Bytes × Bytes) → Bytes
type_or_unknown none = codes "unknown"
type_or_unknown (some f) = f.1

abbrev pub is_ptr : Bytes → Bool
is_ptr name = has_prefix name (codes "ptr:")

abbrev pub is_angle_ptr : Bytes → Bool
is_angle_ptr name = has_prefix name (codes "ptr<")

abbrev pub has_field : Option ℕ → Bool
has_field none = false
has_field (some i) = true

module _ {T : Type 0} where
  abbrev first_with : Bool → StructEntry T → Option (StructEntry T) → Option (StructEntry T)
  first_with match e (some older) = some older
  first_with match e none = if match then some e else none

  -- `vix_find_field_in_any_struct`: the oldest struct that has the field.
  unfoldable pub find_field_in_any : Bytes → List (StructEntry T) → Option (StructEntry T)
  unfolding field_index
  find_field_in_any field [] = none
  find_field_in_any field (e ∷ es) =
      first_with (has_field (field_index field e.fields)) e (find_field_in_any field es)

  abbrev index_of : Option (StructEntry T) → Bytes → Option ℕ
  index_of none field = none
  index_of (some e) field = field_index field e.fields

  abbrev index_or : Option (StructEntry T) → Option ℕ → Bytes → Option ℕ
  index_or none otherwise field = otherwise
  index_or (some e) otherwise field = field_index field e.fields

  -- `vix_get_struct_field_index`, with `none` for -1.
  unfoldable pub struct_field_index : Bytes → Bytes → Structs T → Option ℕ
  unfolding field_index find_field_in_any entry
  struct_field_index name field s =
      let actual = if is_ptr name then drop 4 name else name in
      let fallback =
        if is_ptr name then index_of (find_field_in_any field s.entries) field else none in
      index_or (entry st_name actual s.entries) fallback field

  abbrev pub field_type : Bytes → StructEntry T → Bytes
  field_type field e = type_or_unknown (entry field_name field e.fields)

  abbrev type_in : Option (StructEntry T) → Bytes → Bytes
  type_in none field = codes "unknown"
  type_in (some e) field = field_type field e

  abbrev type_or : Option (StructEntry T) → Bytes → Bytes → Bytes
  type_or none otherwise field = otherwise
  type_or (some e) otherwise field = field_type field e

  -- `vix_get_struct_field_type`. Behind `ptr<` the closing `>` stays in the name looked up.
  unfoldable pub struct_field_type : Bytes → Bytes → Structs T → Bytes
  unfolding find_field_in_any entry
  struct_field_type name field s =
      let actual = if is_ptr name || is_angle_ptr name then drop 4 name else name in
      let fallback =
        if is_ptr name || is_angle_ptr name
        then type_in (find_field_in_any field s.entries) field
        else codes "unknown" in
      type_or (entry st_name actual s.entries) fallback field
