-- ===== src/Tables/Structs/Runs.antt =====
-- The table of structs is the map from names to layouts that its operations mean.
use vix_lang.Common.Text.{Bytes, str_eq, str_eq_iff}
use vix_lang.Common.{
  ℕ, ◌≡◌, ◌≢◌, refl, ap, sym, ◌∙◌, inl, inr, Bool, false, none, some, List, [], ◌∷◌, map, take,
  length, ltb, arith, All, Option-cases, Bool-cases,
}
use vix_lang.Tables.Search.{max_entries, clip, clip_short, IsShort, entry}
use vix_lang.Tables.Structs.{
  Llvm, StructEntry, Structs, st_name, max_fields, clip_field, laid_out, write_entry,
  declare_struct_sig, register_struct_sig_abi, reset_struct_sigs, is_struct_type,
  llvm_type_for_struct,
}
use vix_lang.Tables.Structs.Fields.{entry-write, entry-write_other}
use vix_lang.Tables.Structs.Find.{
  struct_field_index, struct_field_type, field_index, field_name, type_or_unknown, is_ptr,
  is_angle_ptr,
}
use vix_lang.Tables.Structs.Known.{
  Change, declare, register, reset, IsFit, Known, put, layout, is_known, type_of, fields_of, act,
  perform, declared_in, meant, meant_by,
}

module _ {T : Type 0} (llvm : Llvm T) where
  abbrev pub IsView : Structs T → Known T → Type 0
  IsView s k =
      ((n : Bytes) → layout (entry st_name n s.entries) ≡ k.find n)
      × (length s.entries ≡ k.count)
      × (s.created ≡ k.created)

  entry-first :
      (name : Bytes) (made : ℕ) (s : Structs T) (k : Known T)
      → IsShort name
      → ((n : Bytes) → layout (entry st_name n s.entries) ≡ k.find n)
      → (n : Bytes)
      → layout (
          entry st_name n (
            record {
              name = clip name;
              fields = [];
              llvm_type = llvm.struct_named made name;
              body_set = false;
            }
            ∷ s.entries))
        ≡ put name (record { fields = []; llvm_type = llvm.struct_named made name }) k.find n
  unfolding entry
  entry-first name made s k h finds n = elim (Bool-cases (str_eq name n)) [
    | inl e ↦ rw (clip_short name h, e) refl
    | inr e ↦ rw (clip_short name h, e) (finds n)
  ]

  declare-IsView :
      (name : Bytes) (s : Structs T) (k : Known T)
      → IsShort name
      → IsView s k
      → IsView (declare_struct_sig llvm name s) (declared_in llvm name k)
  unfolding declare_struct_sig
  declare-IsView name s k h (finds, counts, made) =
      elim (Option-cases (entry st_name name s.entries)) [
        | inr (e, there) ↦
            let known : k.find name ≡ layout (some e) = sym (finds name) ∙ ap layout there in
            rw (there, known) (finds, counts, made)
        | inl absent ↦
            let unknown : k.find name ≡ none = sym (finds name) ∙ ap layout absent in
            elim (Bool-cases (ltb k.count max_entries)) [
              | inl room ↦
                  rw (absent, unknown, counts, room, made)
                    (entry-first name k.created s k h finds, omega (arith, counts), refl)
              | inr full ↦ rw (absent, unknown, counts, full) (finds, counts, made)
            ]
      ]

  -- A registration lays out the entry of its name.
  entry-lay :
      (name n : Bytes) (fields : List (Bytes × Bytes)) (es : List (StructEntry T))
      (e : StructEntry T) (k : Known T)
      → ((n : Bytes) → layout (entry st_name n es) ≡ k.find n)
      → entry st_name name es ≡ some e
      → layout (entry st_name n (write_entry name (laid_out fields) es))
        ≡ put name
            (record { fields = map clip_field (take max_fields fields); llvm_type = e.llvm_type })
            k.find
            n
  entry-lay name n fields es e k finds found = elim (Bool-cases (str_eq name n)) [
    | inl same ↦
        let is = (str_eq_iff name n).0 same in
        rw (same, ← is, entry-write llvm name fields es e found) refl
    | inr other ↦
        let ne : n ≢ name = λ is. cc (other, (str_eq_iff name n).1 (sym is)) in
        rw (other, entry-write_other llvm name n fields es ne) (finds n)
  ]

  length-write :
      (name : Bytes) (f : StructEntry T → StructEntry T) (es : List (StructEntry T))
      → length (write_entry name f es) ≡ length es
  unfolding write_entry
  length-write name f [] = refl
  length-write name f (e ∷ es) = ground (arith, length-write name f es)

  register-IsView :
      (name : Bytes) (fields : List (Bytes × Bytes)) (c_abi : Bool) (s : Structs T) (k : Known T)
      → IsShort name
      → IsView s k
      → IsView
          (register_struct_sig_abi llvm name fields c_abi s)
          (meant llvm (register name fields c_abi) k)
  unfolding register_struct_sig_abi
  register-IsView name fields c_abi s k h view =
      let s' = declare_struct_sig llvm name s in
      let k' = declared_in llvm name k in
      let (finds, counts, made) = declare-IsView name s k h view in
      elim (Option-cases (entry st_name name s'.entries)) [
        | inl absent ↦
            let unknown : k'.find name ≡ none = sym (finds name) ∙ ap layout absent in
            rw (absent, unknown) (finds, counts, made)
        | inr (e, there) ↦
            let known : k'.find name ≡ layout (some e) = sym (finds name) ∙ ap layout there in
            rw (there, known)
              (
                (λ n. entry-lay name n fields s'.entries e k' finds there),
                length-write name (laid_out fields) s'.entries ∙ counts,
                made,
              )
      ]

  perform-IsView :
      (os : List Change) (s : Structs T) (k : Known T)
      → All IsFit os
      → IsView s k
      → IsView (perform llvm os s) (meant_by llvm os k)
  unfolding perform act meant_by reset_struct_sigs
  perform-IsView [] s k fit view = view
  perform-IsView (declare name ∷ os) s k fit view =
      perform-IsView os _ _ fit.1 (declare-IsView name s k fit.0 view)
  perform-IsView (register name fields c_abi ∷ os) s k fit view =
      perform-IsView os _ _ fit.1 (register-IsView name fields c_abi s k fit.0 view)
  perform-IsView (reset ∷ os) s k fit (finds, counts, made) =
      perform-IsView os _ _ fit.1 (unfold entry in ((λ n. refl), refl, made))

  -- The table and the map, both empty.
  abbrev pub no_entries : Structs T
  no_entries = record { entries = []; created = 0; bodies = [] }

  abbrev pub none_known : Known T
  none_known = record { find = λ n. none; count = 0; created = 0 }

  -- After any declarations, registrations and resets of structs whose names have at most 63 bytes,
  -- the lookups of a name answer as the map does that these operations mean: whether it is a
  -- struct, its LLVM type, and the position and the type of a field. The name asked for does not
  -- begin as a pointer type.
  pub lookups-perform :
      (os : List Change) (name field : Bytes)
      → All IsFit os
      → is_ptr name ≡ false
      → is_angle_ptr name ≡ false
      → let s = perform llvm os no_entries in
        let l = (meant_by llvm os none_known).find name in
        (is_struct_type name s ≡ is_known l)
        × (llvm_type_for_struct llvm name s ≡ type_of llvm l)
        × (struct_field_index name field s ≡ field_index field (fields_of l))
        × (struct_field_type name field s ≡ type_or_unknown (entry field_name field (fields_of l)))
  unfolding is_struct_type llvm_type_for_struct struct_field_index struct_field_type
  lookups-perform os name field fit plain angle =
      let empty : IsView no_entries none_known = unfold entry in ((λ n. refl), refl, refl) in
      let (finds, _, _) = perform-IsView os no_entries none_known fit empty in
      elim (Option-cases (entry st_name name (perform llvm os no_entries).entries)) [
        | inl absent ↦
            rw (← finds name, absent)
              (
                refl,
                refl,
                rw plain (rw absent (unfold field_index in refl)),
                rw (plain, angle) (rw absent (unfold entry in refl)),
              )
        | inr (e, there) ↦
            rw (← finds name, there)
              (refl, refl, rw plain (rw there refl), rw (plain, angle) (rw there refl))
      ]
