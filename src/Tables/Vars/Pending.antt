-- ===== src/Tables/Vars/Pending.antt =====
-- The invariant of the table of variables: an entry that waits for its value is the newest of its
-- name. Every operation keeps it.
use vix_lang.Common.Text.{Bytes, str_eq, str_eq_iff}
use vix_lang.Common.{
  suc, ◌≡◌, ◌≢◌, refl, sym, ap, ◌∙◌, inl, inr, false, ◌&&◌, Option, none, some, [], ◌∷◌, length,
  arith, All, Bool-cases, subst, ◌⊎◌,
}
use vix_lang.Tables.Search.{entry}
use vix_lang.Tables.Vars.{VarEntry, Vars, is_null, var_name, keep, fill, value_of}

module _ {V : Type 0} where
  abbrev pub IsNewest : Vars V → Type 0
  IsNewest [] = Unit
  IsNewest (e ∷ es) = All (λ f. f.name ≡ e.name → is_null f.value ≡ false) es × IsNewest es

  pub keep-some :
      (e : VarEntry V) (o : Option (Vars V)) (s' : Vars V)
      → keep e o ≡ some s'
      → (es' : Vars V) × (o ≡ some es') × (e ∷ es' ≡ s')
  keep-some e none s' h = cc
  keep-some e (some es') s' h = (es', refl, cc)

  pub keep-none : (e : VarEntry V) (o : Option (Vars V)) → keep e o ≡ none → o ≡ none
  keep-none e none h = refl
  keep-none e (some es) h = cc

  -- A name none of whose entries waits is not filled.
  fill-none :
      (name : Bytes) (v : Option V) (s : Vars V)
      → All (λ f. f.name ≡ name → is_null f.value ≡ false) s
      → fill name v s ≡ none
  unfolding fill
  fill-none name v [] h = refl
  fill-none name v (e ∷ es) h = ground (arith, fill-none name v es h.1, str_eq_iff e.name name, h.0)

  -- How filling succeeds: at the newest entry, or behind it.
  pub fill_inv :
      (name : Bytes) (v : Option V) (x : VarEntry V) (xs s' : Vars V)
      → fill name v (x ∷ xs) ≡ some s'
      → ((x.name ≡ name) × (s' ≡ record x { value = v } ∷ xs))
        ⊎ ((xs' : Vars V) × (fill name v xs ≡ some xs') × (s' ≡ x ∷ xs'))
  unfolding fill
  fill_inv name v x xs s' e = elim (Bool-cases (str_eq x.name name && is_null x.value)) [
    | inl t ↦
        let same : some (record x { value = v } ∷ xs) ≡ some s' = rw t at e in
        inl ((str_eq_iff x.name name).0 (ground arith), cc)
    | inr f ↦
        let (xs', e', same) = keep-some x (fill name v xs) s' (rw f at e) in inr (xs', e', sym same)
  ]

  -- What filling leaves of a property of all entries.
  pub fill-All :
      (P : VarEntry V → Type 0) (name : Bytes) (v : Option V) (s s' : Vars V)
      → ((e : VarEntry V) → e.name ≡ name → P e → P (record e { value = v }))
      → All P s
      → fill name v s ≡ some s'
      → All P s'
  fill-All P name v [] s' k h e = unfold fill in cc
  fill-All P name v (x ∷ xs) s' k h e = elim (fill_inv name v x xs s' e) [
    | inl (here, same) ↦ subst (All P) (sym same) (k x here h.0, h.1)
    | inr (xs', e', same) ↦ subst (All P) (sym same) (h.0, fill-All P name v xs xs' k h.1 e')
  ]

  pub length-fill :
      (name : Bytes) (v : Option V) (s s' : Vars V) → fill name v s ≡ some s' → length s' ≡ length s
  length-fill name v [] s' e = unfold fill in cc
  length-fill name v (x ∷ xs) s' e = elim (fill_inv name v x xs s' e) [
    | inl (here, same) ↦ ap length same
    | inr (xs', e', same) ↦ ap length same ∙ ap suc (length-fill name v xs xs' e')
  ]

  -- Behind an entry that is not the one to fill, its name is another.
  pub fill_behind :
      (name : Bytes) (v : Option V) (x : VarEntry V) (xs xs' : Vars V)
      → IsNewest (x ∷ xs)
      → fill name v xs ≡ some xs'
      → x.name ≢ name
  fill_behind name v x xs xs' h e eq =
      let free = subst (λ n. All (λ f. f.name ≡ n → is_null f.value ≡ false) xs) eq h.0 in
      cc (fill-none name v xs free, e)

  pub fill-IsNewest :
      (name : Bytes) (v : Option V) (s s' : Vars V)
      → IsNewest s
      → fill name v s ≡ some s'
      → IsNewest s'
  fill-IsNewest name v [] s' h e = unfold fill in cc
  fill-IsNewest name v (x ∷ xs) s' h e = elim (fill_inv name v x xs s' e) [
    | inl (here, same) ↦ subst IsNewest (sym same) h
    | inr (xs', e', same) ↦
        let other = fill_behind name v x xs xs' h e' in
        let older =
          fill-All (λ f. f.name ≡ x.name → is_null f.value ≡ false) name v xs xs'
            (λ f n p m. absurd (other (sym m ∙ n))) h.0 e' in
        subst IsNewest (sym same) (older, fill-IsNewest name v xs xs' h.1 e')
  ]

  -- The filled entry is the one that a lookup finds.
  pub fill-value :
      (name : Bytes) (v : Option V) (s s' : Vars V)
      → IsNewest s
      → fill name v s ≡ some s'
      → value_of (entry var_name name s') ≡ v
  unfolding entry
  fill-value name v [] s' h e = unfold fill in cc
  fill-value name v (x ∷ xs) s' h e = elim (fill_inv name v x xs s' e) [
    | inl (here, same) ↦ rw (same, (str_eq_iff x.name name).1 here)
    | inr (xs', e', same) ↦
        let other = fill_behind name v x xs xs' h e' in
        rw same (ground (arith, str_eq_iff x.name name, fill-value name v xs xs' h.1 e'))
  ]

  -- A lookup of another name sees no difference.
  pub fill_other :
      (name other : Bytes) (v : Option V) (s s' : Vars V)
      → other ≢ name
      → fill name v s ≡ some s'
      → value_of (entry var_name other s') ≡ value_of (entry var_name other s)
  unfolding entry
  fill_other name other v [] s' ne e = unfold fill in cc
  fill_other name other v (x ∷ xs) s' ne e = elim (fill_inv name v x xs s' e) [
    | inl (here, same) ↦ rw same (ground (arith, str_eq_iff x.name other))
    | inr (xs', e', same) ↦ rw same (ground (arith, fill_other name other v xs xs' ne e'))
  ]
