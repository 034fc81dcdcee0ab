-- ===== src/Tables/Structs/Fields.antt =====
-- Structs and their fields after declarations and registrations.
use vix_lang.Common.Text.{Bytes, codes, str_eq_iff, str_eq_refl, has_prefix}
use vix_lang.Common.{
  ◌<◌, ◌≡◌, ◌≢◌, refl, inl, inr, Bool, true, false, some, List, [], ◌∷◌, ◌++◌, arith, map, take,
  length, Option-cases,
}
use vix_lang.Tables.Search.{max_entries, clip, clip_short, IsShort, entry}
use vix_lang.Tables.Structs.{
  Llvm, StructEntry, Structs, st_name, max_fields, clip_field, laid_out, write_entry,
  declare_struct_sig, register_struct_sig_abi, is_struct_type,
}
use vix_lang.Tables.Structs.Find.{
  struct_field_index, struct_field_type, field_index, field_name, type_or_unknown, is_ptr,
  is_angle_ptr,
}

module _ {T : Type 0} (llvm : Llvm T) where
  -- Whether a struct of the name is there or can be added.
  abbrev pub HasRoom : Structs T → Type 0
  HasRoom s = length s.entries < max_entries

  -- A struct with a short name is known once it is declared.
  declared :
      (name : Bytes) (s : Structs T)
      → IsShort name
      → HasRoom s
      → (e : StructEntry T) × (entry st_name name (declare_struct_sig llvm name s).entries ≡ some e)
  unfolding declare_struct_sig entry
  declared name s h room = elim (Option-cases (entry st_name name s.entries)) [
    | inl e ↦ (
      record {
        name = clip name;
        fields = [];
        llvm_type = llvm.struct_named s.created name;
        body_set = false;
      },
      rw e (ground (arith, clip_short name h, str_eq_refl name)),
    )
    | inr (x, e) ↦ (x, rw (e, e))
  ]

  pub entry-write :
      (name : Bytes) (fields : List (Bytes × Bytes)) (es : List (StructEntry T)) (e : StructEntry T)
      → entry st_name name es ≡ some e
      → entry st_name name (write_entry name (laid_out fields) es) ≡ some (laid_out fields e)
  unfolding entry write_entry
  entry-write name fields [] e h = cc
  entry-write name fields (x ∷ xs) e h = ground (arith, entry-write name fields xs e)

  pub entry-write_other :
      (name other : Bytes) (fields : List (Bytes × Bytes)) (es : List (StructEntry T))
      → other ≢ name
      → entry st_name other (write_entry name (laid_out fields) es) ≡ entry st_name other es
  unfolding entry write_entry
  entry-write_other name other fields [] ne = refl
  entry-write_other name other fields (x ∷ xs) ne = ground (
    arith,
    entry-write_other name other fields xs ne,
    str_eq_iff x.name name,
    str_eq_iff x.name other,
  )

  -- The entry of a registered struct has the registered fields, cut to size, and a body.
  pub struct-register :
      (name : Bytes) (fields : List (Bytes × Bytes)) (c_abi : Bool) (s : Structs T)
      → IsShort name
      → HasRoom s
      → (e : StructEntry T) × (entry st_name name
            (register_struct_sig_abi llvm name fields c_abi s).entries
          ≡ some (laid_out fields e))
  unfolding register_struct_sig_abi
  struct-register name fields c_abi s h room =
      let (e, found) = declared name s h room in
      (e, rw found (entry-write name fields (declare_struct_sig llvm name s).entries e found))

  -- A registration of a struct that has a body sets none.
  register_again :
      (name : Bytes) (fields : List (Bytes × Bytes)) (c_abi : Bool) (s : Structs T)
      (e : StructEntry T)
      → entry st_name name s.entries ≡ some e
      → e.body_set ≡ true
      → (register_struct_sig_abi llvm name fields c_abi s).bodies ≡ s.bodies
  unfolding register_struct_sig_abi declare_struct_sig
  register_again name fields c_abi s e found set = ground arith

  -- With room for an entry, the field lookups of a registered struct, by its name and through
  -- `ptr:` in front of it, answer from the registered fields: the first 32, with names and types
  -- cut to 63 bytes. The name has at most 63 bytes and does not itself begin as a pointer type.
  fields-register :
      (name field : Bytes) (fields : List (Bytes × Bytes)) (c_abi : Bool) (s : Structs T)
      → IsShort name
      → is_ptr name ≡ false
      → is_angle_ptr name ≡ false
      → HasRoom s
      → let s' = register_struct_sig_abi llvm name fields c_abi s in
        let kept = map clip_field (take max_fields fields) in
        (is_struct_type name s' ≡ true)
        × (struct_field_index name field s' ≡ field_index field kept)
        × (struct_field_index (codes "ptr:" ++ name) field s' ≡ field_index field kept)
        × (struct_field_type name field s' ≡ type_or_unknown (entry field_name field kept))
        × (struct_field_type (codes "ptr:" ++ name) field s'
            ≡ type_or_unknown (entry field_name field kept))
  unfolding is_struct_type struct_field_index struct_field_type has_prefix
  fields-register name field fields c_abi s h plain angle room =
      let (e, found) = struct-register name fields c_abi s h room in
      rw found (refl, rw plain (rw found), refl, rw (plain, angle) (rw found), refl)

  -- With room for an entry and a name of at most 63 bytes, a body is set once: a second
  -- registration of a struct leaves the bodies as they are, whatever its fields.
  pub bodies-register :
      (name : Bytes) (fields fields' : List (Bytes × Bytes)) (c_abi c_abi' : Bool) (s : Structs T)
      → IsShort name
      → HasRoom s
      → let s' = register_struct_sig_abi llvm name fields c_abi s in
        (register_struct_sig_abi llvm name fields' c_abi' s').bodies ≡ s'.bodies
  bodies-register name fields fields' c_abi c_abi' s h room =
      let (e, found) = struct-register name fields c_abi s h room in
      register_again name fields' c_abi' (register_struct_sig_abi llvm name fields c_abi s)
        (laid_out fields e) found refl
