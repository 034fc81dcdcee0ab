-- ===== src/Wrappers/Types.antt =====
-- Function types, integer constants and the operands of phi nodes: `vix_LLVMFunctionType1`, `2` and
-- `TypedN`, `vix_LLVMConstInt`, `vix_LLVMConstReal` and `vix_LLVMAddIncoming`. A `double` is its 64
-- bits.
use vix_lang.Common.Int.{ℤ, pos, negsuc}
use vix_lang.Common.Text.{codes}
use vix_lang.Common.{
  ℕ, suc, ◌-◌, ◌≡◌, refl, List, [], ◌∷◌, if◌then◌else◌, ltb, length, take, take_of_length-le, arith,
  Bool-cases, inl, inr, sym, ◌∙◌,
}
use vix_lang.Wrappers.Call.{Arg, handle, handles, number, integer, Call}

-- `LLVMFunctionType`
abbrev pub function_type : ℕ → List ℕ → ℕ → ℤ → Call
function_type ret params count is_var_arg = record {
  function = codes "LLVMFunctionType";
  args = handle ret ∷ handles params ∷ number count ∷ integer is_var_arg ∷ [];
}

unfoldable pub function_type1 : ℕ → ℕ → ℤ → Call
function_type1 ret p0 is_var_arg = function_type ret (p0 ∷ []) 1 is_var_arg

unfoldable pub function_type2 : ℕ → ℕ → ℕ → ℤ → Call
function_type2 ret p0 p1 is_var_arg = function_type ret (p0 ∷ p1 ∷ []) 2 is_var_arg

unfoldable pub function_type_typed_n : ℕ → List ℕ → ℕ → ℤ → Call
function_type_typed_n ret params count is_var_arg =
    function_type ret params (if ltb 256 count then 256 else count) is_var_arg

-- `(unsigned long long)val`
abbrev pub to_unsigned : ℤ → ℕ
to_unsigned (pos n) = n
to_unsigned (negsuc n) = 18446744073709551616 - suc n

unfoldable pub const_int : ℕ → ℤ → ℤ → Call
const_int ty val sign_extend = record {
  function = codes "LLVMConstInt";
  args = handle ty ∷ number (to_unsigned val) ∷ integer sign_extend ∷ [];
}

unfoldable pub const_real : ℕ → ℕ → Call
const_real ty val = record { function = codes "LLVMConstReal"; args = handle ty ∷ number val ∷ [] }

unfoldable pub add_incoming : ℕ → ℕ → ℕ → Call
add_incoming phi value block = record {
  function = codes "LLVMAddIncoming";
  args = handle phi ∷ handles (value ∷ []) ∷ handles (block ∷ []) ∷ number 1 ∷ [];
}

-- The handles that the library reads: as many as it is told, of those that it is passed.
abbrev pub read_params : List Arg → List ℕ
read_params (handle ret ∷ handles params ∷ number count ∷ _) = take count params
read_params _ = []

-- The library reads what it is told to, or all of it.
take_min :
    (params : List ℕ)
    → take (if ltb 256 (length params) then 256 else length params) params ≡ take 256 params
take_min params = elim (Bool-cases (ltb 256 (length params))) [
  | inl more ↦ rw more refl
  | inr few ↦ rw few (
      take_of_length-le (length params) params (omega arith)
      ∙ sym (take_of_length-le 256 params (ground arith)))
]

-- A function type gets the parameters that it is given, the first 256 of them if there are more,
-- and those with one and with two parameters are the same call as with a list.
function_type_typed_n_lem :
    (ret p0 p1 : ℕ) (params : List ℕ) (is_var_arg : ℤ)
    → (read_params (function_type_typed_n ret params (length params) is_var_arg).args
        ≡ take 256 params)
      × (function_type_typed_n ret (p0 ∷ []) 1 is_var_arg ≡ function_type1 ret p0 is_var_arg)
      × (function_type_typed_n ret (p0 ∷ p1 ∷ []) 2 is_var_arg
          ≡ function_type2 ret p0 p1 is_var_arg)
unfolding function_type_typed_n function_type1 function_type2
function_type_typed_n_lem ret p0 p1 params is_var_arg = (take_min params, refl, refl)
