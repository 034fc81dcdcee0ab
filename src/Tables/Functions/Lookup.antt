-- ===== src/Tables/Functions/Lookup.antt =====
-- What the lookups of function signatures return after a registration.
use vix_lang.Common.Int.{ℤ, pos}
use vix_lang.Common.Text.{Bytes, codes, str_eq_iff}
use vix_lang.Common.{
  ℕ, suc, ◌+◌, ◌≤◌, ◌<◌, ◌≡◌, ◌≢◌, refl, sym, inl, inr, some, List, [], ◌∷◌, map, length, arith,
  All, Bool-cases, Option-cases, if◌then◌else◌, subst, ltb, take, get_or, min, zero,
}
use vix_lang.Tables.Functions.{
  Functions, fn_name, max_params, signature, register_function_sig, function_return_type,
  function_param_type, function_param_count, function_is_var_arg,
}
use vix_lang.Tables.Search.{
  max_entries, clip, clip_short, clip-IsShort, IsShort, entry, IsUnique, update_oldest,
}
use vix_lang.Tables.Update.{
  update_none_inv, length-update, update-All, update-IsUnique, entry-update, entry-update_other,
}

pub record IsTable (s : Functions) : Type 0 where
  pub unique : IsUnique fn_name s
  pub short : All (λ f. IsShort f.name) s
  pub size : length s ≤ max_entries

All-ne :
    (name name' : Bytes) (s : Functions)
    → name ≡ name'
    → All (λ f. f.name ≢ name) s
    → All (λ f. f.name ≢ name') s
All-ne name name' s e h = subst (λ n. All (λ f. f.name ≢ n) s) e h

-- Registering a function with a short name keeps the table well formed: no name has two entries.
pub register-IsTable :
    (name ret : Bytes) (params : List Bytes) (va : ℤ) (s : Functions)
    → IsShort name
    → IsTable s
    → IsTable (register_function_sig name ret params va s)
unfolding register_function_sig
register-IsTable name ret params va s h t =
    let f = signature name ret params va in
    let k = clip_short name h in
    elim (Option-cases (update_oldest fn_name name f s)) [
      | inl e ↦ elim (Bool-cases (ltb (length s) max_entries)) [
        | inl room ↦
            let absent = update_none_inv fn_name name f k s e in
            rw (e, room)
              (record {
                unique = (All-ne name (clip name) s (sym k) absent, t.unique);
                short = (clip-IsShort name, t.short);
                size = ground arith;
              })
        | inr full ↦ rw (e, full) t
      ]
      | inr (s', e) ↦ rw e (record {
        unique = update-IsUnique fn_name name f k s s' t.unique e;
        short = update-All fn_name name f k IsShort s s' t.short e;
        size = rw (length-update fn_name name f k s s' e) t.size;
      })
    ]

-- A registration adds one entry at most.
pub length-register :
    (name ret : Bytes) (params : List Bytes) (va : ℤ) (s : Functions)
    → IsShort name
    → length (register_function_sig name ret params va s) ≤ length s + 1
unfolding register_function_sig
length-register name ret params va s h =
    let f = signature name ret params va in
    elim (Option-cases (update_oldest fn_name name f s)) [
      | inl e ↦ rw e (ground arith)
      | inr (s', e) ↦ rw e (omega (arith, length-update fn_name name f (clip_short name h) s s' e))
    ]

-- The entry of a registered name is what was registered, and no other entry changes.
pub entry-register :
    (name ret other : Bytes) (params : List Bytes) (va : ℤ) (s : Functions)
    → IsShort name
    → IsTable s
    → length s < max_entries
    → (entry fn_name name (register_function_sig name ret params va s)
        ≡ some (signature name ret params va))
      × (other ≢ name
          → entry fn_name other (register_function_sig name ret params va s)
            ≡ entry fn_name other s)
unfolding register_function_sig
entry-register name ret other params va s h t room =
    let f = signature name ret params va in
    let k = clip_short name h in
    elim (Option-cases (update_oldest fn_name name f s)) [
      | inl e ↦ rw e (
        unfold entry in ground (arith, str_eq_iff (clip name) name),
        λ ne. unfold entry in ground (arith, str_eq_iff (clip name) other),
      )
      | inr (s', e) ↦ rw e (
        entry-update fn_name name f k s s' t.unique e,
        λ ne. entry-update_other fn_name name f k other s s' ne e,
      )
    ]

pub get_or-map :
    (params : List Bytes) (n i : ℕ)
    → i < n
    → i < length params
    → get_or (map clip (take n params)) i [] ≡ clip (get_or params i [])
get_or-map [] n i h k = elim k [ ]
get_or-map (p ∷ ps) (suc n) zero h k = refl
get_or-map (p ∷ ps) (suc n) (suc i) h k = get_or-map ps n i (omega arith) (omega arith)
get_or-map (p ∷ ps) zero i h k = elim h [ ]

pub length-params :
    (params : List Bytes) (n : ℕ) → length (map clip (take n params)) ≡ min n (length params)
length-params params zero = omega arith
length-params [] (suc n) = omega arith
length-params (p ∷ ps) (suc n) = omega (arith, length-params ps n)

-- In a well formed table with room for an entry, the lookups of a name of at most 63 bytes return
-- the signature that was registered last: the types cut to 63 bytes, the first 16 parameters, and
-- `i32` for the type of a parameter behind them.
lookups-register :
    (name ret : Bytes) (params : List Bytes) (va : ℤ) (s : Functions) (i : ℕ)
    → IsShort name
    → IsTable s
    → length s < max_entries
    → let s' = register_function_sig name ret params va s in
      (function_return_type name s' ≡ clip ret)
      × (function_param_count name s' ≡ min max_params (length params))
      × (function_is_var_arg name s' ≡ va)
      × (function_param_type name (pos i) s' ≡ (
          if ltb i (min max_params (length params))
          then clip (get_or params i [])
          else codes "i32"))
unfolding function_return_type function_param_count function_is_var_arg function_param_type
lookups-register name ret params va s i h t room =
    let (found, _) = entry-register name ret name params va s h t room in
    let size = length-params params max_params in
    rw found (refl, size, refl, ground (arith, size, get_or-map params max_params i))
