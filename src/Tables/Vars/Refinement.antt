-- ===== src/Tables/Vars/Refinement.antt =====
-- The table of variables implements a map from names to values and types.
use mathlib.Core.Path.{fun_ext}
use vix_lang.Common.Text.{Bytes, str_eq, str_eq_iff}
use vix_lang.Common.{
  ◌+◌, ◌≤◌, ◌<◌, ◌≡◌, ◌≢◌, refl, ap, ◌∙◌, inl, inr, true, false, Option, none, some, List, [], ◌∷◌,
  length, arith, All, Bool-cases, Option-cases, ◌&&◌,
}
use vix_lang.Tables.Search.{max_entries, clip_short, entry, entry_absent}
use vix_lang.Tables.Vars.{
  VarEntry, Vars, is_null, var_name, fill, retype, reset_vars, set_var, set_var_type, get_var,
  get_var_type, value_of, type_of,
}
use vix_lang.Tables.Vars.Pending.{keep-some, IsNewest, fill_behind, fill_inv, length-fill}
use vix_lang.Tables.Vars.Retype.{retype_inv, length-retype}
use vix_lang.Tables.Vars.Lookup.{IsTable, fill-none_inv, retype-none_inv}
use vix_lang.Tables.Vars.Runs.{
  Operation, reset, set, set_type, apply, run, NamesShort, apply-IsTable,
}
use vix_lang.Tables.Vars.Scope.{
  binding, view, with_value, with_type, interpret, replay, value_in, type_in,
}

module _ {V : Type 0} where
  is_null-none : (v : Option V) → is_null v ≡ true → v ≡ none
  is_null-none none h = refl
  is_null-none (some v) h = cc

  -- The entry that is filled is the one found, and had no value.
  fill-view :
      (name : Bytes) (v : Option V) (s s' : Vars V)
      → IsNewest s
      → fill name v s ≡ some s'
      → (type : Bytes) × (view s name ≡ some (none, type)) × (view s' name ≡ some (v, type))
  unfolding fill entry
  fill-view name v [] s' h e = cc
  fill-view name v (x ∷ xs) s' h e = elim (Bool-cases (str_eq x.name name && is_null x.value)) [
    | inl t ↦
        let same : some (record x { value = v } ∷ xs) ≡ some s' = rw t at e in
        let is : s' ≡ record x { value = v } ∷ xs = cc in
        let null = is_null-none x.value (ground arith) in
        let here : str_eq x.name name ≡ true = ground arith in
        (x.type, rw here (ap (λ w. some (w, x.type)) null), rw (is, here) refl)
    | inr f ↦
        let (xs', e', same) = keep-some x (fill name v xs) s' (rw f at e) in
        let other = fill_behind name v x xs xs' h e' in
        let (type, before, after) = fill-view name v xs xs' h.1 e' in
        (
          type,
          ground (arith, str_eq_iff x.name name, before),
          rw (← same) (ground (arith, str_eq_iff x.name name, after)),
        )
  ]

  fill-view_other :
      (name other : Bytes) (v : Option V) (s s' : Vars V)
      → other ≢ name
      → fill name v s ≡ some s'
      → view s' other ≡ view s other
  unfolding entry
  fill-view_other name other v [] s' ne e = unfold fill in cc
  fill-view_other name other v (x ∷ xs) s' ne e = elim (fill_inv name v x xs s' e) [
    | inl (here, same) ↦ rw same (ground (arith, str_eq_iff x.name other))
    | inr (xs', e', same) ↦ rw same (ground (arith, fill-view_other name other v xs xs' ne e'))
  ]

  -- Where none can be filled, the name starts anew.
  with_value_new :
      (name : Bytes) (v : Option V) (s : Vars V)
      → All (λ f. f.name ≡ name → is_null f.value ≡ false) s
      → with_value v (view s name) ≡ (v, [])
  unfolding entry
  with_value_new name v [] h = refl
  with_value_new name v (x ∷ xs) h =
      ground (arith, str_eq_iff x.name name, h.0, with_value_new name v xs h.1)

  retype-view :
      (name type : Bytes) (s s' : Vars V)
      → retype name type s ≡ some s'
      → view s' name ≡ some (with_type type (view s name))
  unfolding entry
  retype-view name type [] s' e = unfold retype in cc
  retype-view name type (x ∷ xs) s' e = elim (retype_inv name type x xs s' e) [
    | inl (here, same) ↦ rw same (rw ((str_eq_iff x.name name).1 here) refl)
    | inr (other, (xs', e', same)) ↦
        rw same (ground (arith, str_eq_iff x.name name, retype-view name type xs xs' e'))
  ]

  retype-view_other :
      (name type other : Bytes) (s s' : Vars V)
      → other ≢ name
      → retype name type s ≡ some s'
      → view s' other ≡ view s other
  unfolding entry
  retype-view_other name type other [] s' ne e = unfold retype in cc
  retype-view_other name type other (x ∷ xs) s' ne e = elim (retype_inv name type x xs s' e) [
    | inl (here, same) ↦ rw same (ground (arith, str_eq_iff x.name other))
    | inr (_, (xs', e', same)) ↦
        rw same (ground (arith, retype-view_other name type other xs xs' ne e'))
  ]

  -- One operation on the table is the operation on the map.
  apply-view :
      (o : Operation V) (s : Vars V) (other : Bytes)
      → NamesShort o
      → IsTable s
      → length s < max_entries
      → view (apply o s) other ≡ interpret o (view s) other
  unfolding apply reset_vars set_var set_var_type
  apply-view reset s other h t room = unfold entry in refl
  apply-view (set name v) s other h t room = elim (Option-cases (fill name v s)) [
    | inl e ↦
        let new = with_value_new name v s (fill-none_inv name v s e) in
        rw (e, new, clip_short name h)
          (unfold entry in ground (arith, str_eq_iff name other, str_eq_iff other name))
    | inr (s', e) ↦
        let (type, before, after) = fill-view name v s s' t.newest e in
        rw (e, before)
          (ground (arith, str_eq_iff other name, after, fill-view_other name other v s s', e))
  ]
  apply-view (set_type name type) s other h t room = elim (Option-cases (retype name type s)) [
    | inl e ↦
        let absent = entry_absent var_name name s (retype-none_inv name type s e) in
        rw (e, absent, clip_short name h)
          (unfold entry in ground (arith, str_eq_iff name other, str_eq_iff other name))
    | inr (s', e) ↦ rw e (
        ground (
          arith,
          str_eq_iff other name,
          retype-view name type s s' e,
          retype-view_other name type other s s',
          e,
        ))
  ]

  length-apply : (o : Operation V) (s : Vars V) → length (apply o s) ≤ length s + 1
  unfolding apply reset_vars set_var set_var_type
  length-apply reset s = omega arith
  length-apply (set name v) s = elim (Option-cases (fill name v s)) [
    | inl e ↦ rw e (ground arith)
    | inr (s', e) ↦ rw e (omega (arith, length-fill name v s s' e))
  ]
  length-apply (set_type name type) s = elim (Option-cases (retype name type s)) [
    | inl e ↦ rw e (ground arith)
    | inr (s', e) ↦ rw e (omega (arith, length-retype name type s s' e))
  ]

  -- On names of at most 63 bytes, and as long as there are no more operations than free entries,
  -- the table stands for the map that the same operations give: it stays well formed, and both
  -- lookups answer from that map.
  pub run-replay :
      (os : List (Operation V)) (s : Vars V)
      → All NamesShort os
      → IsTable s
      → length s + length os ≤ max_entries
      → IsTable (run os s) × (view (run os s) ≡ replay os (view s))
  unfolding run
  run-replay [] s h t room = (t, refl)
  run-replay (o ∷ os) s h t room =
      let step : view (apply o s) ≡ interpret o (view s) =
        fun_ext (λ other. apply-view o s other h.0 t (omega arith)) in
      let (t', rest) =
        run-replay os (apply o s) h.1 (apply-IsTable o s h.0 t) (omega (arith, length-apply o s)) in
      (t', rest ∙ ap (replay os) step)

  lookups-view :
      (o : Option (VarEntry V))
      → (value_of o ≡ value_in (binding o)) × (type_of o ≡ type_in (binding o))
  lookups-view none = (refl, refl)
  lookups-view (some e) = (refl, refl)

  -- What the two lookups return after a sequence of operations on the empty table, on names of at
  -- most 63 bytes and with no more operations than entries: the value and the type in the map that
  -- the same operations give.
  pub lookups-run :
      (os : List (Operation V)) (name : Bytes)
      → All NamesShort os
      → length os ≤ max_entries
      → (get_var name (run os []) ≡ value_in (replay os (λ other. none) name))
        × (get_var_type name (run os []) ≡ type_in (replay os (λ other. none) name))
  unfolding get_var get_var_type
  lookups-run os name h room =
      let empty : IsTable {V = V} [] = record { newest = tt; short = tt; size = omega arith } in
      let (t, same) = run-replay os [] h empty (omega arith) in
      let start : view [] ≡ (λ other. none) = unfold entry in refl in
      let there : view (run os []) name ≡ replay os (λ other. none) name =
        ap (λ f. f name) (same ∙ ap (replay os) start) in
      let (v, ty) = lookups-view (entry var_name name (run os [])) in
      (v ∙ ap value_in there, ty ∙ ap type_in there)
