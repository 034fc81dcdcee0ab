-- ===== src/Wrappers/Controls.antt =====
-- Branches, the position of the builder, and globals: the functions of `src/helper.c` from
-- `vix_LLVMBuildBr` to `vix_LLVMSetLinkage`, which pass
-- their arguments on to the LLVM library.
use vix_lang.Common.Int.{ℤ}
use vix_lang.Common.Text.{codes}
use vix_lang.Common.{ℕ, [], ◌∷◌}
use vix_lang.Wrappers.Call.{handle, integer, Call}

-- A call of one of the functions, with its arguments.
pub data Control : Type 0 where
  build_br : ℕ → ℕ → Control
  build_cond_br : ℕ → ℕ → ℕ → ℕ → Control
  position_builder_at_end : ℕ → ℕ → Control
  get_basic_block_terminator : ℕ → Control
  set_initializer : ℕ → ℕ → Control
  set_global_constant : ℕ → ℤ → Control
  set_linkage : ℕ → ℤ → Control

-- The call of the library.
unfoldable pub forward_control : Control → Call
forward_control (build_br builder dest) = record {
  function = codes "LLVMBuildBr";
  args = handle builder ∷ handle dest ∷ [];
}
forward_control (build_cond_br builder cond then_block else_block) = record {
  function = codes "LLVMBuildCondBr";
  args = handle builder ∷ handle cond ∷ handle then_block ∷ handle else_block ∷ [];
}
forward_control (position_builder_at_end builder block) = record {
  function = codes "LLVMPositionBuilderAtEnd";
  args = handle builder ∷ handle block ∷ [];
}
forward_control (get_basic_block_terminator block) = record {
  function = codes "LLVMGetBasicBlockTerminator";
  args = handle block ∷ [];
}
forward_control (set_initializer global val) = record {
  function = codes "LLVMSetInitializer";
  args = handle global ∷ handle val ∷ [];
}
forward_control (set_global_constant global is_constant) = record {
  function = codes "LLVMSetGlobalConstant";
  args = handle global ∷ integer is_constant ∷ [];
}
forward_control (set_linkage global linkage) = record {
  function = codes "LLVMSetLinkage";
  args = handle global ∷ integer linkage ∷ [];
}
