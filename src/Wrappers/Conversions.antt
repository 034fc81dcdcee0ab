-- ===== src/Wrappers/Conversions.antt =====
-- Comparisons, conversions and phi nodes: the functions of `src/helper.c` from
-- `vix_LLVMBuildICmp` to `vix_LLVMBuildPHI`, which pass
-- their arguments on to the LLVM library.
use vix_lang.Common.Text.{Bytes, codes}
use vix_lang.Common.{ℕ, Option, [], ◌∷◌}
use vix_lang.Wrappers.Call.{handle, text, number, Call}

-- A call of one of the functions, with its arguments.
pub data Conversion : Type 0 where
  build_icmp : ℕ → ℕ → ℕ → ℕ → Option Bytes → Conversion
  build_fcmp : ℕ → ℕ → ℕ → ℕ → Option Bytes → Conversion
  build_zext : ℕ → ℕ → ℕ → Option Bytes → Conversion
  build_sext : ℕ → ℕ → ℕ → Option Bytes → Conversion
  build_trunc : ℕ → ℕ → ℕ → Option Bytes → Conversion
  build_ptr_to_int : ℕ → ℕ → ℕ → Option Bytes → Conversion
  size_of : ℕ → Conversion
  build_int_to_ptr : ℕ → ℕ → ℕ → Option Bytes → Conversion
  build_si_to_fp : ℕ → ℕ → ℕ → Option Bytes → Conversion
  build_ui_to_fp : ℕ → ℕ → ℕ → Option Bytes → Conversion
  build_fp_to_si : ℕ → ℕ → ℕ → Option Bytes → Conversion
  build_fp_to_ui : ℕ → ℕ → ℕ → Option Bytes → Conversion
  build_fp_ext : ℕ → ℕ → ℕ → Option Bytes → Conversion
  build_fp_trunc : ℕ → ℕ → ℕ → Option Bytes → Conversion
  build_bit_cast : ℕ → ℕ → ℕ → Option Bytes → Conversion
  build_phi : ℕ → ℕ → Option Bytes → Conversion

-- The call of the library.
unfoldable pub forward_conversion : Conversion → Call
forward_conversion (build_icmp builder op l r name) = record {
  function = codes "LLVMBuildICmp";
  args = handle builder ∷ number op ∷ handle l ∷ handle r ∷ text name ∷ [];
}
forward_conversion (build_fcmp builder op l r name) = record {
  function = codes "LLVMBuildFCmp";
  args = handle builder ∷ number op ∷ handle l ∷ handle r ∷ text name ∷ [];
}
forward_conversion (build_zext builder val dest_ty name) = record {
  function = codes "LLVMBuildZExt";
  args = handle builder ∷ handle val ∷ handle dest_ty ∷ text name ∷ [];
}
forward_conversion (build_sext builder val dest_ty name) = record {
  function = codes "LLVMBuildSExt";
  args = handle builder ∷ handle val ∷ handle dest_ty ∷ text name ∷ [];
}
forward_conversion (build_trunc builder val dest_ty name) = record {
  function = codes "LLVMBuildTrunc";
  args = handle builder ∷ handle val ∷ handle dest_ty ∷ text name ∷ [];
}
forward_conversion (build_ptr_to_int builder val dest_ty name) = record {
  function = codes "LLVMBuildPtrToInt";
  args = handle builder ∷ handle val ∷ handle dest_ty ∷ text name ∷ [];
}
forward_conversion (size_of ty) = record { function = codes "LLVMSizeOf"; args = handle ty ∷ [] }
forward_conversion (build_int_to_ptr builder val dest_ty name) = record {
  function = codes "LLVMBuildIntToPtr";
  args = handle builder ∷ handle val ∷ handle dest_ty ∷ text name ∷ [];
}
forward_conversion (build_si_to_fp builder val dest_ty name) = record {
  function = codes "LLVMBuildSIToFP";
  args = handle builder ∷ handle val ∷ handle dest_ty ∷ text name ∷ [];
}
forward_conversion (build_ui_to_fp builder val dest_ty name) = record {
  function = codes "LLVMBuildUIToFP";
  args = handle builder ∷ handle val ∷ handle dest_ty ∷ text name ∷ [];
}
forward_conversion (build_fp_to_si builder val dest_ty name) = record {
  function = codes "LLVMBuildFPToSI";
  args = handle builder ∷ handle val ∷ handle dest_ty ∷ text name ∷ [];
}
forward_conversion (build_fp_to_ui builder val dest_ty name) = record {
  function = codes "LLVMBuildFPToUI";
  args = handle builder ∷ handle val ∷ handle dest_ty ∷ text name ∷ [];
}
forward_conversion (build_fp_ext builder val dest_ty name) = record {
  function = codes "LLVMBuildFPExt";
  args = handle builder ∷ handle val ∷ handle dest_ty ∷ text name ∷ [];
}
forward_conversion (build_fp_trunc builder val dest_ty name) = record {
  function = codes "LLVMBuildFPTrunc";
  args = handle builder ∷ handle val ∷ handle dest_ty ∷ text name ∷ [];
}
forward_conversion (build_bit_cast builder val dest_ty name) = record {
  function = codes "LLVMBuildBitCast";
  args = handle builder ∷ handle val ∷ handle dest_ty ∷ text name ∷ [];
}
forward_conversion (build_phi builder ty name) = record {
  function = codes "LLVMBuildPhi";
  args = handle builder ∷ handle ty ∷ text name ∷ [];
}
