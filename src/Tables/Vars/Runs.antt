-- ===== src/Tables/Vars/Runs.antt =====
-- The tables that sequences of operations build.
use vix_lang.Common.Text.{Bytes, codes, str_eq_iff}
use vix_lang.Common.{
  ◌<◌, ◌+◌, ◌≡◌, ◌≢◌, refl, ap, inl, inr, if◌then◌else◌, ltb, Bool-cases, Option, none, some, List,
  [], ◌∷◌, length, arith, All,
}
use vix_lang.Tables.Search.{name_length, max_entries, clip, clip-IsShort, IsShort, entry_absent}
use vix_lang.Tables.Vars.Pending.{fill-All}
use vix_lang.Tables.Vars.Retype.{retype-All}
use vix_lang.Tables.Vars.Lookup.{IsTable, set_var-IsTable, set_var_type-IsTable}
use vix_lang.Tables.Vars.{
  VarEntry, Vars, fill, retype, push_or_keep, var_name, reset_vars, set_var, set_var_type, get_var,
  get_var_type,
}

pub data Operation (V : Type 0) : Type 0 where
  reset : Operation V
  set : Bytes → Option V → Operation V
  set_type : Bytes → Bytes → Operation V

module _ {V : Type 0} where
  unfoldable pub apply : Operation V → Vars V → Vars V
  unfolding reset_vars set_var set_var_type
  apply reset s = reset_vars s
  apply (set name v) s = set_var name v s
  apply (set_type name type) s = set_var_type name type s

  unfoldable pub run : List (Operation V) → Vars V → Vars V
  unfolding apply
  run [] s = s
  run (o ∷ os) s = run os (apply o s)

  abbrev pub NamesShort : Operation V → Type 0
  NamesShort reset = Unit
  NamesShort (set name v) = IsShort name
  NamesShort (set_type name type) = IsShort name

  pub apply-IsTable :
      (o : Operation V) (s : Vars V) → NamesShort o → IsTable s → IsTable (apply o s)
  unfolding apply reset_vars
  apply-IsTable reset s h t = record { newest = tt; short = tt; size = omega arith }
  apply-IsTable (set name v) s h t = set_var-IsTable name v s h t
  apply-IsTable (set_type name type) s h t = set_var_type-IsTable name type s h t

  -- Every sequence of operations whose names have at most 63 bytes keeps the table well formed.
  run-IsTable :
      (os : List (Operation V)) (s : Vars V) → All NamesShort os → IsTable s → IsTable (run os s)
  unfolding run
  run-IsTable [] s h t = t
  run-IsTable (o ∷ os) s h t = run-IsTable os (apply o s) h.1 (apply-IsTable o s h.0 t)

  -- The names in a table fit their places, whatever is stored.
  abbrev AllShort : Vars V → Type 0
  AllShort s = All (λ e. IsShort (var_name e)) s

  push-AllShort :
      (found : Option (Vars V)) (e : VarEntry V) (s : Vars V)
      → ((s' : Vars V) → found ≡ some s' → AllShort s')
      → IsShort e.name
      → AllShort s
      → AllShort (push_or_keep found e s)
  push-AllShort (some s') e s k h t = k s' refl
  push-AllShort none e s k h t = elim (Bool-cases (ltb (length s) max_entries)) [
    | inl room ↦ rw room (h, t)
    | inr full ↦ rw full t
  ]

  run-AllShort : (os : List (Operation V)) (s : Vars V) → AllShort s → AllShort (run os s)
  unfolding run apply reset_vars set_var set_var_type
  run-AllShort [] s t = t
  run-AllShort (reset ∷ os) s t = run-AllShort os [] tt
  run-AllShort (set name v ∷ os) s t = run-AllShort os (set_var name v s) (
      push-AllShort (fill name v s) _ s
        (λ s' e. fill-All (λ x. IsShort x.name) name v s s' (λ x same h. h) t e) (clip-IsShort name)
        t)
  run-AllShort (set_type name type ∷ os) s t = run-AllShort os (set_var_type name type s) (
      push-AllShort (retype name type s) _ s
        (λ s' e. retype-All (λ x. IsShort x.name) name type s s' (λ x h. h) t e) (clip-IsShort name)
        t)

  fill-absent :
      (name : Bytes) (v : Option V) (s : Vars V)
      → All (λ e. var_name e ≢ name) s
      → fill name v s ≡ none
  unfolding fill
  fill-absent name v [] h = refl
  fill-absent name v (x ∷ xs) h = ground (arith, str_eq_iff x.name name, fill-absent name v xs h.1)

  AllShort-absent :
      (name : Bytes) (s : Vars V)
      → AllShort s
      → name_length < length name
      → All (λ e. var_name e ≢ name) s
  AllShort-absent name [] t long = tt
  AllShort-absent name (x ∷ xs) t long =
      (λ same. omega (arith, ap length same), AllShort-absent name xs t.1 long)

  -- A variable whose name has more than 63 bytes is never found, also where it has been set:
  -- whatever operations the empty table has seen, its value is `NULL` and its type the default. A
  -- set of it takes another entry each time, while there is room.
  pub get_var_long :
      (os : List (Operation V)) (name : Bytes) (v : Option V)
      → name_length < length name
      → let s = run os [] in
        (get_var name s ≡ none)
        × (get_var_type name s ≡ codes "i32")
        × (length (set_var name v s)
            ≡ (if ltb (length s) max_entries then length s + 1 else length s))
  unfolding get_var get_var_type set_var
  get_var_long os name v long =
      let t = run-AllShort os [] tt in
      let absent = AllShort-absent name (run os []) t long in
      let size : length
            (push_or_keep none (record { name = clip name; value = v; type = [] }) (run os []))
          ≡ (if ltb (length (run os [])) max_entries
              then length (run os []) + 1
              else length (run os [])) =
        ground arith in
      rw (entry_absent var_name name (run os []) absent, fill-absent name v (run os []) absent)
        (refl, refl, size)
