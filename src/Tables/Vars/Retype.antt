-- ===== src/Tables/Vars/Retype.antt =====
-- Giving an entry of the table of variables a type.
use vix_lang.Common.Text.{Bytes, str_eq, str_eq_iff}
use vix_lang.Common.{
  suc, ◌≡◌, ◌≢◌, sym, ap, ◌∙◌, inl, inr, false, some, [], ◌∷◌, length, arith, All, Bool-cases,
  subst, ◌⊎◌,
}
use vix_lang.Tables.Search.{clip, entry}
use vix_lang.Tables.Vars.{VarEntry, Vars, is_null, var_name, retype, value_of, type_of, type_or_i32}
use vix_lang.Tables.Vars.Pending.{IsNewest, keep-some}

module _ {V : Type 0} where
  pub retype_inv :
      (name type : Bytes) (x : VarEntry V) (xs s' : Vars V)
      → retype name type (x ∷ xs) ≡ some s'
      → ((x.name ≡ name) × (s' ≡ record x { type = clip type } ∷ xs))
        ⊎ ((x.name ≢ name) × ((xs' : Vars V) × (retype name type xs ≡ some xs') × (s' ≡ x ∷ xs')))
  unfolding retype
  retype_inv name type x xs s' e = elim (Bool-cases (str_eq x.name name)) [
    | inl t ↦
        let same : some (record x { type = clip type } ∷ xs) ≡ some s' = rw t at e in
        inl ((str_eq_iff x.name name).0 t, cc)
    | inr f ↦
        let (xs', e', same) = keep-some x (retype name type xs) s' (rw f at e) in
        inr (λ eq. cc ((str_eq_iff x.name name).1 eq, f), (xs', e', sym same))
  ]

  -- What giving a type leaves of a property of all entries.
  pub retype-All :
      (P : VarEntry V → Type 0) (name type : Bytes) (s s' : Vars V)
      → ((e : VarEntry V) → P e → P (record e { type = clip type }))
      → All P s
      → retype name type s ≡ some s'
      → All P s'
  retype-All P name type [] s' k h e = unfold retype in cc
  retype-All P name type (x ∷ xs) s' k h e = elim (retype_inv name type x xs s' e) [
    | inl (here, same) ↦ subst (All P) (sym same) (k x h.0, h.1)
    | inr (_, (xs', e', same)) ↦
        subst (All P) (sym same) (h.0, retype-All P name type xs xs' k h.1 e')
  ]

  pub length-retype :
      (name type : Bytes) (s s' : Vars V) → retype name type s ≡ some s' → length s' ≡ length s
  length-retype name type [] s' e = unfold retype in cc
  length-retype name type (x ∷ xs) s' e = elim (retype_inv name type x xs s' e) [
    | inl (here, same) ↦ ap length same
    | inr (_, (xs', e', same)) ↦ ap length same ∙ ap suc (length-retype name type xs xs' e')
  ]

  pub retype-IsNewest :
      (name type : Bytes) (s s' : Vars V) → IsNewest s → retype name type s ≡ some s' → IsNewest s'
  retype-IsNewest name type [] s' h e = unfold retype in cc
  retype-IsNewest name type (x ∷ xs) s' h e = elim (retype_inv name type x xs s' e) [
    | inl (here, same) ↦ subst IsNewest (sym same) h
    | inr (_, (xs', e', same)) ↦
        let older =
          retype-All (λ f. f.name ≡ x.name → is_null f.value ≡ false) name type xs xs' (λ f p. p)
            h.0 e' in
        subst IsNewest (sym same) (older, retype-IsNewest name type xs xs' h.1 e')
  ]

  -- The typed entry is the one that a lookup of its name finds.
  pub retype-type :
      (name type : Bytes) (s s' : Vars V)
      → retype name type s ≡ some s'
      → type_of (entry var_name name s') ≡ type_or_i32 (clip type)
  unfolding entry
  retype-type name type [] s' e = unfold retype in cc
  retype-type name type (x ∷ xs) s' e = elim (retype_inv name type x xs s' e) [
    | inl (here, same) ↦ rw (same, (str_eq_iff x.name name).1 here)
    | inr (other, (xs', e', same)) ↦
        rw same (ground (arith, str_eq_iff x.name name, retype-type name type xs xs' e'))
  ]

  -- No lookup sees a difference in a value, nor another name in its type.
  pub retype_values :
      (name type other : Bytes) (s s' : Vars V)
      → retype name type s ≡ some s'
      → (value_of (entry var_name other s') ≡ value_of (entry var_name other s))
        × (other ≢ name → type_of (entry var_name other s') ≡ type_of (entry var_name other s))
  unfolding entry
  retype_values name type other [] s' e = unfold retype in cc
  retype_values name type other (x ∷ xs) s' e = elim (retype_inv name type x xs s' e) [
    | inl (here, same) ↦ rw same (ground arith, λ ne. ground (arith, str_eq_iff x.name other))
    | inr (_, (xs', e', same)) ↦
        let ih = retype_values name type other xs xs' e' in
        rw same (ground (arith, ih.0), λ ne. ground (arith, ih.1 ne))
  ]
