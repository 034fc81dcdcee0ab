-- ===== src/Tables/Structs.antt =====
-- The table of struct layouts: `vix_declare_struct_sig`, `vix_register_struct_sig_abi`,
-- `vix_llvm_type_for_name` and the lookups of structs. The LLVM library's types and
-- the calls that make them are the parameter `Llvm`; the calls that change its state, the
-- creation of a named struct and the setting of its body, are counted and logged.
pub mod Find
pub mod Types
pub mod Fields
pub mod Known
pub mod Runs
use vix_lang.Common.Text.{Bytes, codes, str_eq, has_prefix, split_at, skip_white}
use vix_lang.Common.{
  ℕ, zero, suc, ◌+◌, ◌-◌, ◌*◌, ◌%◌, Bool, true, false, ◌&&◌, ◌||◌, not, Option, none, some, List,
  [], ◌∷◌, map, if◌then◌else◌, length, ltb, leb, take, drop, min, ◌==◌, ◌>>=◌,
}
use vix_lang.Tables.Search.{max_entries, clip, entry}

pub record Llvm (T : Type 0) : Type 0 where
  pub void_type : T
  pub int64_type : T
  pub int32_type : T
  pub int16_type : T
  pub int8_type : T
  pub float_type : T
  pub double_type : T
  pub pointer_type : T
  pub array_type : T → ℕ → T
  -- the named struct that a call of `LLVMStructCreateNamed` makes, by the number of calls before
  pub struct_named : ℕ → Bytes → T

-- The names and the types of the fields in use, at most 32.
pub record StructEntry (T : Type 0) : Type 0 where
  pub name : Bytes
  pub fields : List (Bytes × Bytes)
  pub llvm_type : T
  pub body_set : Bool

pub record Structs (T : Type 0) : Type 0 where
  pub entries : List (StructEntry T)
  pub created : ℕ
  pub bodies : List (T × List T)

abbrev pub st_name : {T : Type 0} → StructEntry T → Bytes
st_name e = e.name

abbrev pub max_fields : ℕ
max_fields = 32

abbrev pub uint_max : ℕ
uint_max = 4294967295

-- The decimal number at the front of a text.
unfoldable pub digits : ℕ → Bytes → ℕ
digits n [] = n
digits n (c ∷ s) =
    let rest = digits (n * 10 + (c - b'0')) s in if leb b'0' c && leb c b'9' then rest else n

abbrev ulong_max : ℕ
ulong_max = 18446744073709551615

-- `strtoul(s, NULL, 10)`: a number that is out of range is `ULONG_MAX`, and a sign negates modulo
-- 2 ^ 64.
unfoldable pub signed_digits : Bytes → ℕ
unfolding digits
signed_digits [] = 0
signed_digits (c ∷ s) =
    if c == b'-'
    then (if leb (digits 0 s) ulong_max
        then (ulong_max + 1 - digits 0 s) % (ulong_max + 1)
        else ulong_max)
    else min (digits 0 (if c == b'+' then s else c ∷ s)) ulong_max

unfoldable pub strtoul : Bytes → ℕ
unfolding signed_digits
strtoul s = signed_digits (skip_white s)

abbrev pub clip_field : Bytes × Bytes → Bytes × Bytes
clip_field (name, type) = (clip name, clip type)

module _ {T : Type 0} where
  unfoldable pub reset_struct_sigs : Structs T → Structs T
  reset_struct_sigs s = record s { entries = [] }

  -- What a registration writes into an entry.
  abbrev pub laid_out : List (Bytes × Bytes) → StructEntry T → StructEntry T
  laid_out fields e = record e { fields = map clip_field (take max_fields fields); body_set = true }

  -- `structs[idx] = e` at the newest entry of the name.
  unfoldable pub write_entry :
      Bytes → (StructEntry T → StructEntry T) → List (StructEntry T) → List (StructEntry T)
  unfolding str_eq
  write_entry name f [] = []
  write_entry name f (e ∷ es) = if str_eq e.name name then f e ∷ es else e ∷ write_entry name f es

  abbrev is_some : Option (StructEntry T) → Bool
  is_some none = false
  is_some (some e) = true

  unfoldable pub is_struct_type : Bytes → Structs T → Bool
  unfolding entry
  is_struct_type name s = is_some (entry st_name name s.entries)

module _ {T : Type 0} (llvm : Llvm T) where
  open llvm use {
    void_type, int64_type, int32_type, int16_type, int8_type, float_type, double_type, pointer_type,
    array_type, struct_named,
  }

  -- The element and the count of an array type, on the two parts around its first `*`.
  unfoldable pub array_or_pointer : Bool → (Bytes → T) → Option (Bytes × Bytes) → T
  array_or_pointer c_abi rec none = pointer_type
  array_or_pointer c_abi rec (some (before, after)) =
      let count = strtoul after in
      if ltb 1 (length before) && ltb 0 count && leb count uint_max && c_abi
      then array_type (rec (clip (drop 1 before))) count
      else pointer_type

  abbrev struct_or_i32 : Option (StructEntry T) → T
  struct_or_i32 none = int32_type
  struct_or_i32 (some e) = e.llvm_type

  -- The body of `vix_llvm_type_for_name`, with its recursive call as an argument.
  unfoldable pub type_step : Bool → List (StructEntry T) → (Bytes → T) → Bytes → T
  unfolding array_or_pointer str_eq entry
  type_step c_abi entries rec type =
      if str_eq type (codes "void")
      then void_type
      else if str_eq type (codes "bool")
      then int32_type
      else if str_eq type (codes "i64")
      then int64_type
      else if str_eq type (codes "u64") || str_eq type (codes "usize")
      then int64_type
      else if str_eq type (codes "i32") || str_eq type (codes "u32")
      then int32_type
      else if str_eq type (codes "i16") || str_eq type (codes "u16")
      then int16_type
      else if str_eq type (codes "i8") || str_eq type (codes "u8") || str_eq type (codes "char")
      then int8_type
      else if str_eq type (codes "f32")
      then float_type
      else if str_eq type (codes "f64")
      then double_type
      else if has_prefix type (codes "[")
      then array_or_pointer c_abi rec (split_at b'*' type)
      else if has_prefix type (codes "Option[")
      then pointer_type
      else if str_eq type (codes "string")
          || str_eq type (codes "ptr")
          || has_prefix type (codes "ptr:")
      then pointer_type
      else struct_or_i32 (entry st_name type entries)

  -- The recursion: a call on an element makes no further call, since no `*` is left in it.
  unfoldable pub type_for_name : Bool → List (StructEntry T) → Bytes → T
  unfolding type_step
  type_for_name c_abi entries =
      type_step c_abi entries (type_step c_abi entries (λ _. pointer_type))

  abbrev declare_if : Option (StructEntry T) → Bytes → Structs T → Structs T
  declare_if (some e) name s = s
  declare_if none name s =
      if ltb (length s.entries) max_entries
      then record {
        entries =
            record {
              name = clip name;
              fields = [];
              llvm_type = struct_named s.created name;
              body_set = false;
            }
            ∷ s.entries;
        created = s.created + 1;
        bodies = s.bodies;
      }
      else s

  unfoldable pub declare_struct_sig : Bytes → Structs T → Structs T
  unfolding entry
  declare_struct_sig name s = declare_if (entry st_name name s.entries) name s

  abbrev set_body : StructEntry T → List T → List (T × List T) → List (T × List T)
  set_body e types bodies = if e.body_set then bodies else (e.llvm_type, types) ∷ bodies

  abbrev register_at :
      Bool → Bytes → List (Bytes × Bytes) → Structs T → Option (StructEntry T) → Structs T
  register_at c_abi name fields s none = s
  register_at c_abi name fields s (some e) = record {
    entries = write_entry name (laid_out fields) s.entries;
    created = s.created;
    bodies =
        set_body e (map (λ f. type_for_name c_abi s.entries f.1) (take max_fields fields)) s.bodies;
  }

  -- `vix_register_struct_sig_abi`; the layout flag is set for the call only.
  unfoldable pub register_struct_sig_abi :
      Bytes → List (Bytes × Bytes) → Bool → Structs T → Structs T
  unfolding declare_struct_sig type_for_name write_entry
  register_struct_sig_abi name fields c_abi s =
      let s' = declare_struct_sig name s in
      register_at c_abi name fields s' (entry st_name name s'.entries)

  unfoldable pub register_struct_sig : Bytes → List (Bytes × Bytes) → Structs T → Structs T
  unfolding register_struct_sig_abi
  register_struct_sig name fields = register_struct_sig_abi name fields false

  unfoldable pub llvm_type_for_struct : Bytes → Structs T → T
  unfolding entry
  llvm_type_for_struct name s = struct_or_i32 (entry st_name name s.entries)
