-- ===== src/Tables/Vars/Lookup.antt =====
-- What the lookups return after the operations, on every table that the operations can build.
use vix_lang.Common.Text.{Bytes, str_eq, str_eq_iff}
use vix_lang.Common.{
  ◌≤◌, ◌<◌, ◌≡◌, ◌≢◌, inl, inr, false, Option, none, some, [], ◌∷◌, length, arith, All, Bool-cases,
  Option-cases, if◌then◌else◌, ltb, ◌&&◌,
}
use vix_lang.Tables.Search.{max_entries, clip, clip_short, clip-IsShort, IsShort, entry_absent}
use vix_lang.Tables.Vars.{
  VarEntry, Vars, is_null, var_name, fill, retype, push_or_keep, set_var, set_var_type, get_var,
  get_var_type, type_or_i32,
}
use vix_lang.Tables.Vars.Pending.{
  keep-none, IsNewest, fill-All, length-fill, fill-IsNewest, fill-value, fill_other,
}
use vix_lang.Tables.Vars.Retype.{
  retype-All, length-retype, retype-IsNewest, retype-type, retype_values,
}

module _ {V : Type 0} where
  pub record IsTable (s : Vars V) : Type 0 where
    pub newest : IsNewest s
    pub short : All (λ e. IsShort e.name) s
    pub size : length s ≤ max_entries

  abbrev HasRoom : Vars V → Type 0
  HasRoom s = length s < max_entries

  -- No entry of the name waits, if none can be filled.
  pub fill-none_inv :
      (name : Bytes) (v : Option V) (s : Vars V)
      → fill name v s ≡ none
      → All (λ f. f.name ≡ name → is_null f.value ≡ false) s
  unfolding fill
  fill-none_inv name v [] h = tt
  fill-none_inv name v (x ∷ xs) h = elim (Bool-cases (str_eq x.name name && is_null x.value)) [
    | inl t ↦ absurd (let e : some (record x { value = v } ∷ xs) ≡ none = rw t at h in cc (e))
    | inr f ↦ (
      λ same. ground (arith, str_eq_iff x.name name),
      fill-none_inv name v xs (keep-none x (fill name v xs) (rw f at h)),
    )
  ]

  pub retype-none_inv :
      (name type : Bytes) (s : Vars V) → retype name type s ≡ none → All (λ f. f.name ≢ name) s
  unfolding retype
  retype-none_inv name type [] h = tt
  retype-none_inv name type (x ∷ xs) h = elim (Bool-cases (str_eq x.name name)) [
    | inl t ↦
        absurd (let e : some (record x { type = clip type } ∷ xs) ≡ none = rw t at h in cc (e))
    | inr f ↦ (
      λ same. cc ((str_eq_iff x.name name).1 same, f),
      retype-none_inv name type xs (keep-none x (retype name type xs) (rw f at h)),
    )
  ]

  All-imp :
      (P Q : VarEntry V → Type 0) (s : Vars V) → ((e : VarEntry V) → P e → Q e) → All P s → All Q s
  All-imp P Q [] k h = tt
  All-imp P Q (x ∷ xs) k h = (k x h.0, All-imp P Q xs k h.1)

  push-IsTable :
      (e : VarEntry V) (s : Vars V)
      → IsTable s
      → IsShort e.name
      → All (λ f. f.name ≡ e.name → is_null f.value ≡ false) s
      → IsTable (push_or_keep none e s)
  push-IsTable e s t h k = elim (Bool-cases (ltb (length s) max_entries)) [
    | inl room ↦
        rw room (record { newest = (k, t.newest); short = (h, t.short); size = ground arith })
    | inr full ↦ rw full t
  ]

  -- Setting a variable with a short name keeps the table well formed.
  pub set_var-IsTable :
      (name : Bytes) (v : Option V) (s : Vars V)
      → IsShort name
      → IsTable s
      → IsTable (set_var name v s)
  unfolding set_var
  set_var-IsTable name v s h t = elim (Option-cases (fill name v s)) [
    | inl e ↦
        rw e (
          push-IsTable _ s t (clip-IsShort name)
            (rw (clip_short name h) (fill-none_inv name v s e)))
    | inr (s', e) ↦ rw e (record {
      newest = fill-IsNewest name v s s' t.newest e;
      short = fill-All (λ f. IsShort f.name) name v s s' (λ f n p. p) t.short e;
      size = rw (length-fill name v s s' e) t.size;
    })
  ]

  -- So does giving it a type.
  pub set_var_type-IsTable :
      (name type : Bytes) (s : Vars V)
      → IsShort name
      → IsTable s
      → IsTable (set_var_type name type s)
  unfolding set_var_type
  set_var_type-IsTable name type s h t = elim (Option-cases (retype name type s)) [
    | inl e ↦
        let absent =
          All-imp (λ f. f.name ≢ name) (λ f. f.name ≡ name → is_null f.value ≡ false) s
            (λ f ne m. absurd (ne m)) (retype-none_inv name type s e) in
        rw e (push-IsTable _ s t (clip-IsShort name) (rw (clip_short name h) absent))
    | inr (s', e) ↦ rw e (record {
      newest = retype-IsNewest name type s s' t.newest e;
      short = retype-All (λ f. IsShort f.name) name type s s' (λ f p. p) t.short e;
      size = rw (length-retype name type s s' e) t.size;
    })
  ]

  -- In a well formed table with room for an entry, setting a variable with a name of at most 63
  -- bytes changes what a lookup of that name returns to the value that is set, and what a lookup
  -- of any other name returns not at all.
  get_var-set_var :
      (name other : Bytes) (v : Option V) (s : Vars V)
      → IsTable s
      → IsShort name
      → HasRoom s
      → get_var other (set_var name v s) ≡ (if str_eq other name then v else get_var other s)
  unfolding get_var set_var
  get_var-set_var name other v s t h room = elim (Option-cases (fill name v s)) [
    | inl e ↦
        rw (e, clip_short name h) (ground (arith, str_eq_iff name other, str_eq_iff other name))
    | inr (s', e) ↦ rw e (
        ground (
          arith,
          str_eq_iff other name,
          fill-value name v s s' t.newest e,
          fill_other name other v s s',
          e,
        ))
  ]

  -- In a table with room for an entry, setting the type of a name of at most 63 bytes makes a
  -- lookup of its type return that type, cut to 63 bytes, or `i32` for the empty one. The type of
  -- any other name stays, and so does the value of every name.
  get_var_type-set_var_type :
      (name other type : Bytes) (s : Vars V)
      → IsShort name
      → HasRoom s
      → (get_var_type other (set_var_type name type s)
          ≡ (if str_eq other name then type_or_i32 (clip type) else get_var_type other s))
        × (get_var other (set_var_type name type s) ≡ get_var other s)
  unfolding get_var get_var_type set_var_type
  get_var_type-set_var_type name other type s h room = elim (Option-cases (retype name type s)) [
    | inl e ↦
        let absent = entry_absent var_name name s (retype-none_inv name type s e) in
        rw (e, clip_short name h)
          (
            ground (arith, str_eq_iff name other, str_eq_iff other name),
            ground (arith, str_eq_iff name other, absent),
          )
    | inr (s', e) ↦
        let (values, types) = retype_values name type other s s' e in
        rw e (ground (arith, str_eq_iff other name, retype-type name type s s' e, types), values)
  ]
