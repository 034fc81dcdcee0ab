-- ===== src/Mir/Pass/Outside.antt =====
-- Text outside functions.
use vix_lang.Common.Text.{Bytes}
use vix_lang.Common.{
  ◌≡◌, refl, ap, false, none, some, List, [], ◌∷◌, ◌++◌, ◌==◌, append_assoc, All, map, Bool-cases,
  inl, inr, ==_iff,
}
use vix_lang.Mir.Function.{MirLine}
use vix_lang.Mir.Pass.{
  split_from, split_lines, living_line, opens, opt_lines, write_lines, opt_scalar,
}

-- Writing the lines of a text gives the text, with a newline behind it.
write_lines-split_from :
    (line s : Bytes) → write_lines (map living_line (split_from line s)) ≡ line ++ (s ++ b'\n' ∷ [])
unfolding split_from write_lines
write_lines-split_from line [] = refl
write_lines-split_from line (c ∷ s) = elim (Bool-cases (c == b'\n')) [
  | inl e ↦ rw (e, (==_iff c b'\n').0 e, write_lines-split_from [] s)
  | inr e ↦
      rw (e, write_lines-split_from (line ++ c ∷ []) s)
        (append_assoc line (c ∷ []) (s ++ b'\n' ∷ []))
]

opt_lines_outside :
    (lines : List MirLine) → All (λ l. opens l ≡ false) lines → opt_lines none lines ≡ some lines
unfolding opt_lines
opt_lines_outside [] h = refl
opt_lines_outside (l ∷ lines) h = rw (h.0, opt_lines_outside lines h.1)

-- A text in which no line opens a function comes back with a newline behind it.
opt_scalar_outside :
    (text : Bytes)
    → All (λ l. opens l ≡ false) (map living_line (split_lines text))
    → opt_scalar (some text) ≡ some (text ++ b'\n' ∷ [])
unfolding opt_scalar
opt_scalar_outside text h = rw (opt_lines_outside _ h) (ap some (write_lines-split_from [] text))
