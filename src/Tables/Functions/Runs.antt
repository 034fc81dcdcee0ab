-- ===== src/Tables/Functions/Runs.antt =====
-- The table of function signatures behind any sequence of registrations.
use vix_lang.Common.Int.{ℤ, pos}
use vix_lang.Common.Text.{Bytes, codes, str_eq, str_eq_iff}
use vix_lang.Common.{
  ℕ, ◌+◌, ◌≤◌, ◌≡◌, refl, sym, ap, ◌∙◌, inl, inr, false, Option, none, some, List, [], ◌∷◌, length,
  arith, All, Bool-cases, if◌then◌else◌, ltb, get_or, min,
}
use vix_lang.Tables.Functions.{
  Functions, FunctionEntry, fn_name, max_params, signature, register_function_sig,
  function_return_type, function_param_type, function_param_count, function_is_var_arg,
  return_type_of, param_type_of, param_count_of, is_var_arg_of,
}
use vix_lang.Tables.Functions.Lookup.{
  IsTable, register-IsTable, entry-register, length-register, get_or-map, length-params,
}
use vix_lang.Tables.Search.{max_entries, clip, IsShort, entry}

-- The arguments of `vix_register_function_sig_vararg`.
pub record Registration : Type 0 where
  pub name : Bytes
  pub ret : Bytes
  pub params : List Bytes
  pub va : ℤ

unfoldable pub register_all : List Registration → Functions → Functions
unfolding register_function_sig
register_all [] s = s
register_all (r ∷ rs) s = register_all rs (register_function_sig r.name r.ret r.params r.va s)

-- The last registration of the name, or the one found before.
abbrev pub last_of : Bytes → Option Registration → List Registration → Option Registration
last_of name found [] = found
last_of name found (r ∷ rs) = last_of name (if str_eq r.name name then some r else found) rs

abbrev pub ret_in : Option Registration → Bytes
ret_in none = codes "i32"
ret_in (some r) = clip r.ret

abbrev pub count_in : Option Registration → ℕ
count_in none = 0
count_in (some r) = min max_params (length r.params)

abbrev pub va_in : Option Registration → ℤ
va_in none = pos 0
va_in (some r) = r.va

abbrev pub param_in : Option Registration → ℕ → Bytes
param_in none i = codes "i32"
param_in (some r) i =
    if ltb i (min max_params (length r.params)) then clip (get_or r.params i []) else codes "i32"

abbrev entry_of : Option Registration → Option FunctionEntry
entry_of none = none
entry_of (some r) = some (signature r.name r.ret r.params r.va)

abbrev pub AreShort : List Registration → Type 0
AreShort = All (λ r. IsShort r.name)

entry-register_all :
    (rs : List Registration) (s : Functions) (name : Bytes) (found : Option Registration)
    → AreShort rs
    → IsTable s
    → length s + length rs ≤ max_entries
    → entry fn_name name s ≡ entry_of found
    → entry fn_name name (register_all rs s) ≡ entry_of (last_of name found rs)
unfolding register_all
entry-register_all [] s name found h t room e = e
entry-register_all (r ∷ rs) s name found h t room e =
    let s' = register_function_sig r.name r.ret r.params r.va s in
    let (own, others) = entry-register r.name r.ret name r.params r.va s h.0 t (omega arith) in
    let rest : (f : Option Registration)
        → entry fn_name name s' ≡ entry_of f
        → entry fn_name name (register_all rs s') ≡ entry_of (last_of name f rs) =
      λ f.
        entry-register_all rs s' name f h.1 (register-IsTable r.name r.ret r.params r.va s h.0 t)
          (omega (arith, length-register r.name r.ret r.params r.va s h.0)) in
    elim (Bool-cases (str_eq r.name name)) [
      | inl same ↦
          let is = (str_eq_iff r.name name).0 same in
          rw same (rest (some r) (ap (λ n. entry fn_name n s') (sym is) ∙ own))
      | inr off ↦ rw off (rest found (others (λ is. different is off) ∙ e))
    ]
  where
    different : name ≡ r.name → str_eq r.name name ≡ false → ⊥
    different is off = ground (arith, str_eq_iff r.name name)

-- What the four lookups return after a sequence of registrations in the empty table, of names of at
-- most 63 bytes and no more of them than entries: what the last registration of the name says, with
-- types cut to 63 bytes and the first 16 parameters, and the defaults for a name without one.
pub lookups-register_all :
    (rs : List Registration) (name : Bytes) (i : ℕ)
    → AreShort rs
    → length rs ≤ max_entries
    → (function_return_type name (register_all rs []) ≡ ret_in (last_of name none rs))
      × (function_param_count name (register_all rs []) ≡ count_in (last_of name none rs))
      × (function_is_var_arg name (register_all rs []) ≡ va_in (last_of name none rs))
      × (function_param_type name (pos i) (register_all rs []) ≡ param_in (last_of name none rs) i)
unfolding function_return_type function_param_count function_is_var_arg function_param_type
lookups-register_all rs name i h room =
    let empty : IsTable [] = record { unique = tt; short = tt; size = omega arith } in
    let found : entry fn_name name (register_all rs []) ≡ entry_of (last_of name none rs) =
      entry-register_all rs [] name none h empty (omega arith) (unfold entry in refl) in
    rw found (answers (last_of name none rs))
  where
    answers :
        (o : Option Registration)
        → (return_type_of (entry_of o) ≡ ret_in o)
          × (param_count_of (entry_of o) ≡ count_in o)
          × (is_var_arg_of (entry_of o) ≡ va_in o)
          × (param_type_of (entry_of o) (pos i) ≡ param_in o i)
    answers none = (refl, refl, refl, refl)
    answers (some r) =
        let size = length-params r.params max_params in
        (refl, size, refl, ground (arith, size, get_or-map r.params max_params i))
