-- ===== src/Mir/Line/Split.antt =====
-- Cutting a line at its first `=` or comma.
use vix_lang.Common.Text.{Bytes, split_at}
use vix_lang.Common.{
  ℕ, ◌≡◌, ◌≢◌, refl, false, none, some, [], ◌∷◌, ◌++◌, arith, All, Option-cases, inl, inr,
}
use vix_lang.Mir.Tokens.{skip_space, is_space}
use vix_lang.Mir.Tokens.Trim.{IsBlank, first_or}

abbrev pub Lacks : ℕ → Bytes → Type 0
Lacks mark = All (λ c. c ≢ mark)

-- The text in front of the first mark and the text behind it.
pub split_at_mark :
    (mark : ℕ) (before after : Bytes)
    → Lacks mark before
    → split_at mark (before ++ mark ∷ after) ≡ some (before, after)
unfolding split_at
split_at_mark mark [] after h = ground arith
split_at_mark mark (c ∷ before) after h = ground (arith, split_at_mark mark before after h.1)

pub split_at-none : (mark : ℕ) (s : Bytes) → Lacks mark s → split_at mark s ≡ none
unfolding split_at
split_at-none mark [] h = refl
split_at-none mark (c ∷ s) h = ground (arith, split_at-none mark s h.1)

-- A text that is cut is the two parts with the mark between them, and the first part lacks it.
pub split_at-some :
    (mark : ℕ) (s before after : Bytes)
    → split_at mark s ≡ some (before, after)
    → (s ≡ before ++ mark ∷ after) × Lacks mark before
unfolding split_at
split_at-some mark [] before after h = cc
split_at-some mark (c ∷ s) before after h = elim (Option-cases (split_at mark s)) [
  | inl e ↦ ground arith
  | inr ((b, a), e) ↦ ground (arith, split_at-some mark s b a e)
]

-- Blanks in front of a text that begins with none.
pub skip_space-append :
    (w s : Bytes) → IsBlank w → is_space (first_or s) ≡ false → skip_space (w ++ s) ≡ s
unfolding skip_space is_space
skip_space-append [] [] b h = refl
skip_space-append [] (c ∷ s) b h = ground arith
skip_space-append (c ∷ w) s b h = ground (arith, skip_space-append w s b.1 h)

pub split_at-none_inv : (mark : ℕ) (s : Bytes) → split_at mark s ≡ none → Lacks mark s
unfolding split_at
split_at-none_inv mark [] h = tt
split_at-none_inv mark (c ∷ s) h = elim (Option-cases (split_at mark s)) [
  | inl e ↦ (ground arith, split_at-none_inv mark s e)
  | inr (p, e) ↦ ground arith
]
