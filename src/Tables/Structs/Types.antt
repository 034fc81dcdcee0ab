-- ===== src/Tables/Structs/Types.antt =====
-- The recursion of `vix_llvm_type_for_name`.
use vix_lang.Common.Text.{Bytes, split_at}
use vix_lang.Common.{ℕ, zero, suc, ◌≡◌, refl, Bool, Option, none, some, List, [], ◌∷◌, drop, take}
use vix_lang.Mir.Line.Split.{Lacks, split_at-some, split_at-none}
use vix_lang.Tables.Search.{clip}
use vix_lang.Tables.Structs.{Llvm, StructEntry, array_or_pointer, type_step, type_for_name}

Lacks-take : (mark n : ℕ) (s : Bytes) → Lacks mark s → Lacks mark (take n s)
Lacks-take mark zero s h = tt
Lacks-take mark (suc n) [] h = tt
Lacks-take mark (suc n) (c ∷ s) h = (h.0, Lacks-take mark n s h.1)

Lacks-drop : (mark n : ℕ) (s : Bytes) → Lacks mark s → Lacks mark (drop n s)
Lacks-drop mark zero s h = h
Lacks-drop mark (suc n) [] h = tt
Lacks-drop mark (suc n) (c ∷ s) h = Lacks-drop mark n s h.1

module _ {T : Type 0} (llvm : Llvm T) (c_abi : Bool) (entries : List (StructEntry T)) where
  -- A name without `*` is resolved with no recursive call.
  type_step_flat :
      (rec rec' : Bytes → T) (type : Bytes)
      → Lacks b'*' type
      → type_step llvm c_abi entries rec type ≡ type_step llvm c_abi entries rec' type
  unfolding type_step
  type_step_flat rec rec' type h = rw (split_at-none b'*' type h) refl

  array_or_pointer_eq :
      (rec rec' : Bytes → T) (type : Bytes) (o : Option (Bytes × Bytes))
      → split_at b'*' type ≡ o
      → ((elem : Bytes) → Lacks b'*' elem → rec elem ≡ rec' elem)
      → array_or_pointer llvm c_abi rec o ≡ array_or_pointer llvm c_abi rec' o
  unfolding array_or_pointer
  array_or_pointer_eq rec rec' type none e k = refl
  array_or_pointer_eq rec rec' type (some (before, after)) e k =
      let (_, lacks) = split_at-some b'*' type before after e in
      rw (
        k (clip (drop 1 before))
          (Lacks-take b'*' 63 (drop 1 before) (Lacks-drop b'*' 1 before lacks)))

  type_step_eq :
      (rec rec' : Bytes → T) (type : Bytes)
      → ((elem : Bytes) → Lacks b'*' elem → rec elem ≡ rec' elem)
      → type_step llvm c_abi entries rec type ≡ type_step llvm c_abi entries rec' type
  unfolding type_step
  type_step_eq rec rec' type k =
      rw (array_or_pointer_eq rec rec' type (split_at b'*' type) refl k) refl

  -- The recursion ends: the type of a name is what the body of the function gives with the
  -- function itself for its recursive call.
  type_for_name_lem :
      (type : Bytes)
      → type_for_name llvm c_abi entries type
        ≡ type_step llvm c_abi entries (type_for_name llvm c_abi entries) type
  unfolding type_for_name
  type_for_name_lem type =
      let one = type_step llvm c_abi entries (λ _. llvm.pointer_type) in
      type_step_eq one (type_for_name llvm c_abi entries) type
        (λ elem flat. type_step_flat (λ _. llvm.pointer_type) one elem flat)
