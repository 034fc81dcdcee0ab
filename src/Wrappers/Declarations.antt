-- ===== src/Wrappers/Declarations.antt =====
-- Constants, functions, globals and blocks: the functions of `src/helper.c` from
-- `vix_LLVMConstPointerNull` to `vix_LLVMGetInsertBlock`, which pass
-- their arguments on to the LLVM library.
use vix_lang.Common.Int.{ℤ}
use vix_lang.Common.Text.{Bytes, codes}
use vix_lang.Common.{ℕ, Option, [], ◌∷◌}
use vix_lang.Wrappers.Call.{handle, text, number, integer, Call}

-- A call of one of the functions, with its arguments.
pub data Declaration : Type 0 where
  const_pointer_null : ℕ → Declaration
  get_undef : ℕ → Declaration
  add_function : ℕ → Option Bytes → ℕ → Declaration
  get_param : ℕ → ℕ → Declaration
  get_named_function : ℕ → Option Bytes → Declaration
  get_named_global : ℕ → Option Bytes → Declaration
  add_global : ℕ → ℕ → Option Bytes → Declaration
  const_string : Option Bytes → ℕ → ℤ → Declaration
  array_type : ℕ → ℕ → Declaration
  append_basic_block : ℕ → Option Bytes → Declaration
  get_insert_block : ℕ → Declaration

-- The call of the library.
unfoldable pub forward_declaration : Declaration → Call
forward_declaration (const_pointer_null ty) = record {
  function = codes "LLVMConstPointerNull";
  args = handle ty ∷ [];
}
forward_declaration (get_undef ty) = record {
  function = codes "LLVMGetUndef";
  args = handle ty ∷ [];
}
forward_declaration (add_function m name ty) = record {
  function = codes "LLVMAddFunction";
  args = handle m ∷ text name ∷ handle ty ∷ [];
}
forward_declaration (get_param fn index) = record {
  function = codes "LLVMGetParam";
  args = handle fn ∷ number index ∷ [];
}
forward_declaration (get_named_function m name) = record {
  function = codes "LLVMGetNamedFunction";
  args = handle m ∷ text name ∷ [];
}
forward_declaration (get_named_global m name) = record {
  function = codes "LLVMGetNamedGlobal";
  args = handle m ∷ text name ∷ [];
}
forward_declaration (add_global m ty name) = record {
  function = codes "LLVMAddGlobal";
  args = handle m ∷ handle ty ∷ text name ∷ [];
}
forward_declaration (const_string str length dont_null_terminate) = record {
  function = codes "LLVMConstString";
  args = text str ∷ number length ∷ integer dont_null_terminate ∷ [];
}
forward_declaration (array_type element_type element_count) = record {
  function = codes "LLVMArrayType";
  args = handle element_type ∷ number element_count ∷ [];
}
forward_declaration (append_basic_block fn name) = record {
  function = codes "LLVMAppendBasicBlock";
  args = handle fn ∷ text name ∷ [];
}
forward_declaration (get_insert_block builder) = record {
  function = codes "LLVMGetInsertBlock";
  args = handle builder ∷ [];
}
