-- ===== src/Wrappers/Accesses.antt =====
-- Calls, addresses and loads: the functions of `src/helper.c` from
-- `vix_LLVMBuildCall2` to `vix_LLVMBuildLoad2`, which pass
-- their arguments on to the LLVM library.
use vix_lang.Common.Text.{Bytes, codes}
use vix_lang.Common.{ℕ, Option, List, [], ◌∷◌}
use vix_lang.Wrappers.Call.{handle, handles, text, number, Call}

-- A call of one of the functions, with its arguments.
pub data Access : Type 0 where
  build_call2 : ℕ → ℕ → ℕ → List ℕ → ℕ → Option Bytes → Access
  build_gep2 : ℕ → ℕ → ℕ → List ℕ → ℕ → Option Bytes → Access
  build_load2 : ℕ → ℕ → ℕ → Option Bytes → Access

-- The call of the library.
unfoldable pub forward_access : Access → Call
forward_access (build_call2 builder ty fn args num_args name) = record {
  function = codes "LLVMBuildCall2";
  args = handle builder ∷ handle ty ∷ handle fn ∷ handles args ∷ number num_args ∷ text name ∷ [];
}
forward_access (build_gep2 builder ty pointer indices num_indices name) = record {
  function = codes "LLVMBuildGEP2";
  args =
      handle builder
      ∷ handle ty
      ∷ handle pointer
      ∷ handles indices
      ∷ number num_indices
      ∷ text name
      ∷ [];
}
forward_access (build_load2 builder ty ptr name) = record {
  function = codes "LLVMBuildLoad2";
  args = handle builder ∷ handle ty ∷ handle ptr ∷ text name ∷ [];
}
