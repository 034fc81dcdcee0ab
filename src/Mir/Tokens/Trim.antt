-- ===== src/Mir/Tokens/Trim.antt =====
-- Trimming: `mir_trim_copy`.
use vix_lang.Common.Text.{Bytes}
use vix_lang.Common.{
  ℕ, zero, suc, ◌≤◌, ◌<◌, ◌≡◌, refl, ap, sym, ◌∙◌, inl, inr, true, false, [], ◌∷◌, ◌++◌, length,
  take, get_or, arith, append_assoc, append-nil, Bool-cases, All, All-append, take_of_length-le,
}
use vix_lang.Mir.Tokens.{is_space, skip_space, trim_end, trim_copy}

abbrev pub IsBlank : Bytes → Type 0
IsBlank = All (λ c. is_space c ≡ true)

abbrev pub first_or : Bytes → ℕ
first_or [] = 0
first_or (c ∷ s) = c

abbrev pub final_or : Bytes → ℕ
final_or [] = 0
final_or (c ∷ []) = c
final_or (c ∷ d ∷ s) = final_or (d ∷ s)

-- What is skipped is blank, and what is left begins with no blank.
pub skip_space_lem :
    (s : Bytes)
    → (w : Bytes) × (s ≡ w ++ skip_space s)
      × IsBlank w
      × (is_space (first_or (skip_space s)) ≡ false)
unfolding skip_space is_space
skip_space_lem [] = ([], refl, tt, refl)
skip_space_lem (c ∷ s) = elim (Bool-cases (is_space c)) [
  | inl blank ↦
      let (w, e, b, f) = skip_space_lem s in
      (c ∷ w, rw blank (ap (◌∷◌ c) e), (blank, b), rw blank f)
  | inr other ↦ ([], rw other, tt, rw other other)
]

take-suc : (n : ℕ) (s : Bytes) → n < length s → take (suc n) s ≡ take n s ++ get_or s n 0 ∷ []
take-suc n [] h = elim h [ ]
take-suc zero (c ∷ s) h = refl
take-suc (suc n) (c ∷ s) h = ap (◌∷◌ c) (take-suc n s (omega arith))

final_or-concat : (s : Bytes) (c : ℕ) → final_or (s ++ c ∷ []) ≡ c
final_or-concat [] c = refl
final_or-concat (d ∷ []) c = refl
final_or-concat (d ∷ e ∷ s) c = final_or-concat (e ∷ s) c

trim_end_lem :
    (n : ℕ) (s : Bytes)
    → n ≤ length s
    → (w : Bytes) × (take n s ≡ trim_end n s ++ w)
      × IsBlank w
      × (is_space (final_or (trim_end n s)) ≡ false)
unfolding trim_end
trim_end_lem zero s h = ([], refl, tt, unfold is_space in refl)
trim_end_lem (suc n) s h = elim (Bool-cases (is_space (get_or s n 0))) [
  | inl blank ↦
      let (w, e, b, f) = trim_end_lem n s (omega arith) in
      (
        w ++ get_or s n 0 ∷ [],
        rw (blank, take-suc n s h, e) (append_assoc (trim_end n s) w (get_or s n 0 ∷ [])),
        All-append _ w (get_or s n 0 ∷ []) b (blank, tt),
        rw blank f,
      )
  | inr other ↦ (
    [],
    rw other (sym (append-nil (take (suc n) s))),
    tt,
    rw (other, take-suc n s h, final_or-concat (take n s) (get_or s n 0)) other,
  )
]

first_of_prefix :
    (n : ℕ) (s p w : Bytes)
    → take n s ≡ p ++ w
    → is_space (first_or s) ≡ false
    → is_space (first_or p) ≡ false
first_of_prefix n s [] w e h = unfold is_space in refl
first_of_prefix zero s (c ∷ p) w e h = cc
first_of_prefix (suc n) [] (c ∷ p) w e h = cc
first_of_prefix (suc n) (d ∷ s) (c ∷ p) w e h = ground arith

-- The copy is the text without the blanks at its two ends, and neither begins nor ends with a
-- blank.
pub trim_copy_lem :
    (s : Bytes)
    → (v w : Bytes) × (s ≡ v ++ (trim_copy s ++ w))
      × IsBlank v
      × IsBlank w
      × (is_space (first_or (trim_copy s)) ≡ false)
      × (is_space (final_or (trim_copy s)) ≡ false)
unfolding trim_copy
trim_copy_lem s =
    let (v, e, b, f) = skip_space_lem s in
    let (w, e', b', f') = trim_end_lem (length (skip_space s)) (skip_space s) (omega arith) in
    let whole = take_of_length-le (length (skip_space s)) (skip_space s) (omega arith) in
    (v, w, e ∙ ap (◌++◌ v) (sym whole ∙ e'), b, b', first_of_prefix _ _ _ w e' f, f')
