-- ===== src/Mir/Function/Copies.antt =====
-- What copy propagation and branch folding keep: the behaviour of a block of lines.
use vix_lang.Common.Text.{Bytes}
use vix_lang.Common.{◌≡◌, refl, inl, inr, [], ◌∷◌, All, All-append, Option-cases}
use vix_lang.Mir.Function.{Aliases, note_alias}
use vix_lang.Mir.Function.Meaning.{Meaning}
use vix_lang.Mir.Function.Operands.{Operands, IsSound, IsNoted}
use vix_lang.Mir.Line.{assignment_dest}
use vix_lang.Mir.Line.Shapes.{assignment_dest-assigning}
use vix_lang.Mir.Line.Shapes.Noted.{IsNoAlias, alias_value-AliasOf, alias_value-IsNoAlias}
use vix_lang.Mir.Function.Rewriting.{IsRegister-IsName}

module _ (m : Meaning) (o : Operands m) where
  open m use {Value, World, exec}

  note_alias_other :
      (aliases : Aliases) (text : Bytes) → IsNoAlias text → note_alias aliases text ≡ aliases
  unfolding note_alias
  note_alias_other aliases text other =
      let a = alias_value-IsNoAlias text other in
      elim (Option-cases (assignment_dest text)) [
        | inl n ↦ rw n refl
        | inr (dest, d) ↦ rw (d, a) refl
      ]

  pub note_alias-IsSound :
      (aliases : Aliases) (text : Bytes)
      → IsNoted m o text
      → All (IsSound m o) aliases
      → All (IsSound m o) (note_alias aliases text)
  unfolding note_alias
  note_alias-IsSound aliases text (inl other) sound = rw (note_alias_other aliases text other) sound
  note_alias-IsSound aliases text
        (inr (indent, dest, value, right, is, blank, alias, is_sound, unread)) sound =
      let k = IsRegister-IsName dest (is_sound.0) in
      let d = assignment_dest-assigning indent dest right blank k in
      let a = alias_value-AliasOf indent dest value right blank k alias in
      rw (is, d, a) (All-append (IsSound m o) aliases ((dest, value) ∷ []) sound (is_sound, tt))
