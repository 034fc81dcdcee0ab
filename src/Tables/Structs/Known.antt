-- ===== src/Tables/Structs/Known.antt =====
-- What declarations and registrations of structs mean: a map from names to layouts.
use vix_lang.Common.Text.{Bytes, str_eq}
use vix_lang.Common.{
  ℕ, ◌+◌, Bool, true, false, Option, none, some, List, [], ◌∷◌, map, take, if◌then◌else◌, ltb,
}
use vix_lang.Tables.Search.{max_entries, IsShort}
use vix_lang.Tables.Structs.{
  Llvm, StructEntry, Structs, max_fields, clip_field, declare_struct_sig, register_struct_sig_abi,
  reset_struct_sigs,
}

pub data Change : Type 0 where
  declare : Bytes → Change
  register : Bytes → List (Bytes × Bytes) → Bool → Change
  reset : Change

-- The name that an operation stores fits its place.
abbrev pub IsFit : Change → Type 0
IsFit (declare name) = IsShort name
IsFit (register name fields c_abi) = IsShort name
IsFit reset = Unit

pub record Layout (T : Type 0) : Type 0 where
  pub fields : List (Bytes × Bytes)
  pub llvm_type : T

-- The map, the number of its names, and the number of structs made so far.
pub record Known (T : Type 0) : Type 0 where
  pub find : Bytes → Option (Layout T)
  pub count : ℕ
  pub created : ℕ

module _ {T : Type 0} where
  abbrev pub put : Bytes → Layout T → (Bytes → Option (Layout T)) → Bytes → Option (Layout T)
  put name l find n = if str_eq name n then some l else find n

  abbrev pub layout : Option (StructEntry T) → Option (Layout T)
  layout none = none
  layout (some e) = some (record { fields = e.fields; llvm_type = e.llvm_type })

  abbrev pub is_known : Option (Layout T) → Bool
  is_known none = false
  is_known (some l) = true

  abbrev pub type_of : Llvm T → Option (Layout T) → T
  type_of llvm none = llvm.int32_type
  type_of llvm (some l) = l.llvm_type

  abbrev pub fields_of : Option (Layout T) → List (Bytes × Bytes)
  fields_of none = []
  fields_of (some l) = l.fields

module _ {T : Type 0} (llvm : Llvm T) where
  unfoldable pub act : Change → Structs T → Structs T
  unfolding declare_struct_sig register_struct_sig_abi reset_struct_sigs
  act (declare name) s = declare_struct_sig llvm name s
  act (register name fields c_abi) s = register_struct_sig_abi llvm name fields c_abi s
  act reset s = reset_struct_sigs s

  unfoldable pub perform : List Change → Structs T → Structs T
  unfolding act
  perform [] s = s
  perform (o ∷ os) s = perform os (act o s)

  -- A new name gets a new struct without fields, if there is room.
  abbrev declare_at : Option (Layout T) → Bytes → Known T → Known T
  declare_at (some l) name k = k
  declare_at none name k =
      if ltb k.count max_entries
      then record {
        find =
            put name (record { fields = []; llvm_type = llvm.struct_named k.created name }) k.find;
        count = k.count + 1;
        created = k.created + 1;
      }
      else k

  abbrev pub declared_in : Bytes → Known T → Known T
  declared_in name k = declare_at (k.find name) name k

  abbrev lay_at : Option (Layout T) → Bytes → List (Bytes × Bytes) → Known T → Known T
  lay_at none name fields k = k
  lay_at (some l) name fields k = record k {
    find = put name (record l { fields = map clip_field (take max_fields fields) }) k.find;
  }

  -- The fields of a name are those of its last registration, its struct that of the first.
  abbrev pub meant : Change → Known T → Known T
  meant (declare name) k = declared_in name k
  meant (register name fields c_abi) k =
      lay_at ((declared_in name k).find name) name fields (declared_in name k)
  meant reset k = record { find = λ n. none; count = 0; created = k.created }

  unfoldable pub meant_by : List Change → Known T → Known T
  meant_by [] k = k
  meant_by (o ∷ os) k = meant_by os (meant o k)
