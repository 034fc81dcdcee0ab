-- ===== src/Wrappers/Operations.antt =====
-- Stores, aggregates, arithmetic and returns: the functions of `src/helper.c` from
-- `vix_LLVMBuildStore` to `vix_LLVMBuildRetVoid`, which pass
-- their arguments on to the LLVM library.
use vix_lang.Common.Text.{Bytes, codes}
use vix_lang.Common.{ℕ, Option, [], ◌∷◌}
use vix_lang.Wrappers.Call.{handle, text, number, Call}

-- A call of one of the functions, with its arguments.
pub data Operation : Type 0 where
  build_store : ℕ → ℕ → ℕ → Operation
  build_insert_value : ℕ → ℕ → ℕ → ℕ → Option Bytes → Operation
  build_extract_value : ℕ → ℕ → ℕ → Option Bytes → Operation
  build_add : ℕ → ℕ → ℕ → Option Bytes → Operation
  build_sub : ℕ → ℕ → ℕ → Option Bytes → Operation
  build_mul : ℕ → ℕ → ℕ → Option Bytes → Operation
  build_sdiv : ℕ → ℕ → ℕ → Option Bytes → Operation
  build_srem : ℕ → ℕ → ℕ → Option Bytes → Operation
  build_and : ℕ → ℕ → ℕ → Option Bytes → Operation
  build_or : ℕ → ℕ → ℕ → Option Bytes → Operation
  build_shl : ℕ → ℕ → ℕ → Option Bytes → Operation
  build_ashr : ℕ → ℕ → ℕ → Option Bytes → Operation
  build_fadd : ℕ → ℕ → ℕ → Option Bytes → Operation
  build_fsub : ℕ → ℕ → ℕ → Option Bytes → Operation
  build_fmul : ℕ → ℕ → ℕ → Option Bytes → Operation
  build_fdiv : ℕ → ℕ → ℕ → Option Bytes → Operation
  build_frem : ℕ → ℕ → ℕ → Option Bytes → Operation
  build_neg : ℕ → ℕ → Option Bytes → Operation
  build_fneg : ℕ → ℕ → Option Bytes → Operation
  build_ret : ℕ → ℕ → Operation
  build_ret_void : ℕ → Operation

-- The call of the library.
unfoldable pub forward_operation : Operation → Call
forward_operation (build_store builder val ptr) = record {
  function = codes "LLVMBuildStore";
  args = handle builder ∷ handle val ∷ handle ptr ∷ [];
}
forward_operation (build_insert_value builder agg val index name) = record {
  function = codes "LLVMBuildInsertValue";
  args = handle builder ∷ handle agg ∷ handle val ∷ number index ∷ text name ∷ [];
}
forward_operation (build_extract_value builder agg index name) = record {
  function = codes "LLVMBuildExtractValue";
  args = handle builder ∷ handle agg ∷ number index ∷ text name ∷ [];
}
forward_operation (build_add builder l r name) = record {
  function = codes "LLVMBuildAdd";
  args = handle builder ∷ handle l ∷ handle r ∷ text name ∷ [];
}
forward_operation (build_sub builder l r name) = record {
  function = codes "LLVMBuildSub";
  args = handle builder ∷ handle l ∷ handle r ∷ text name ∷ [];
}
forward_operation (build_mul builder l r name) = record {
  function = codes "LLVMBuildMul";
  args = handle builder ∷ handle l ∷ handle r ∷ text name ∷ [];
}
forward_operation (build_sdiv builder l r name) = record {
  function = codes "LLVMBuildSDiv";
  args = handle builder ∷ handle l ∷ handle r ∷ text name ∷ [];
}
forward_operation (build_srem builder l r name) = record {
  function = codes "LLVMBuildSRem";
  args = handle builder ∷ handle l ∷ handle r ∷ text name ∷ [];
}
forward_operation (build_and builder l r name) = record {
  function = codes "LLVMBuildAnd";
  args = handle builder ∷ handle l ∷ handle r ∷ text name ∷ [];
}
forward_operation (build_or builder l r name) = record {
  function = codes "LLVMBuildOr";
  args = handle builder ∷ handle l ∷ handle r ∷ text name ∷ [];
}
forward_operation (build_shl builder l r name) = record {
  function = codes "LLVMBuildShl";
  args = handle builder ∷ handle l ∷ handle r ∷ text name ∷ [];
}
forward_operation (build_ashr builder l r name) = record {
  function = codes "LLVMBuildAShr";
  args = handle builder ∷ handle l ∷ handle r ∷ text name ∷ [];
}
forward_operation (build_fadd builder l r name) = record {
  function = codes "LLVMBuildFAdd";
  args = handle builder ∷ handle l ∷ handle r ∷ text name ∷ [];
}
forward_operation (build_fsub builder l r name) = record {
  function = codes "LLVMBuildFSub";
  args = handle builder ∷ handle l ∷ handle r ∷ text name ∷ [];
}
forward_operation (build_fmul builder l r name) = record {
  function = codes "LLVMBuildFMul";
  args = handle builder ∷ handle l ∷ handle r ∷ text name ∷ [];
}
forward_operation (build_fdiv builder l r name) = record {
  function = codes "LLVMBuildFDiv";
  args = handle builder ∷ handle l ∷ handle r ∷ text name ∷ [];
}
forward_operation (build_frem builder l r name) = record {
  function = codes "LLVMBuildFRem";
  args = handle builder ∷ handle l ∷ handle r ∷ text name ∷ [];
}
forward_operation (build_neg builder val name) = record {
  function = codes "LLVMBuildNeg";
  args = handle builder ∷ handle val ∷ text name ∷ [];
}
forward_operation (build_fneg builder val name) = record {
  function = codes "LLVMBuildFNeg";
  args = handle builder ∷ handle val ∷ text name ∷ [];
}
forward_operation (build_ret builder val) = record {
  function = codes "LLVMBuildRet";
  args = handle builder ∷ handle val ∷ [];
}
forward_operation (build_ret_void builder) = record {
  function = codes "LLVMBuildRetVoid";
  args = handle builder ∷ [];
}
