-- ===== src/Mir/Line/Shapes/Noted.antt =====
-- The aliases that are read off copies and constants, and off no other lines.
use vix_lang.Mir.Line.Shapes.{
  assigning, copy_of, const_of, IsWord, IsInteger, assignment_uses-assigning,
}
use vix_lang.Common.Text.{Bytes, codes, str_eq, str_eq_iff, has_prefix, is_white, skip_white}
use vix_lang.Common.{
  ℕ, zero, suc, ◌≤◌, ◌≡◌, ◌≢◌, ◌⊎◌, inl, inr, refl, true, false, none, some, [], ◌∷◌, ◌++◌, length,
  arith, All, Bool-cases, Option-cases,
}
use vix_lang.Mir.Line.{
  assignment_uses, alias_value, const_value, integer_type, word_bytes, scan_word, scan_two,
  none_left,
}
use vix_lang.Mir.Tokens.{skip_space, is_space}
use vix_lang.Mir.Tokens.Trim.{IsBlank}
use vix_lang.Mir.Tokens.Words.{IsName}

skip_white-word : (s rest : Bytes) (width : ℕ) → IsWord width s → skip_white (s ++ rest) ≡ s ++ rest
unfolding skip_white
skip_white-word [] rest width h = elim h.0 [ ]
skip_white-word (c ∷ s) rest width h = rw (h.2.0) refl

word_bytes-word :
    (width : ℕ) (s rest : Bytes)
    → length s ≤ width
    → All (λ c. is_white c ≡ false) s
    → word_bytes width (s ++ b' ' ∷ rest) ≡ (s, b' ' ∷ rest)
unfolding word_bytes is_white
word_bytes-word zero [] rest h k = refl
word_bytes-word (suc width) [] rest h k = refl
word_bytes-word zero (c ∷ s) rest h k = elim h [ ]
word_bytes-word (suc width) (c ∷ s) rest h k =
    let next = word_bytes-word width s rest (omega arith) k.1 in
    let white : is_white c ≡ false = k.0 in rw (next, white) refl

word_bytes-final :
    (width : ℕ) (s : Bytes)
    → length s ≤ width
    → All (λ c. is_white c ≡ false) s
    → word_bytes width s ≡ (s, [])
unfolding word_bytes
word_bytes-final zero [] h k = refl
word_bytes-final (suc width) [] h k = refl
word_bytes-final zero (c ∷ s) h k = elim h [ ]
word_bytes-final (suc width) (c ∷ s) h k = rw (word_bytes-final width s (omega arith) k.1, k.0) refl

scan_word-word :
    (width : ℕ) (s rest : Bytes)
    → IsWord width s
    → scan_word width (s ++ b' ' ∷ rest) ≡ some (s, b' ' ∷ rest)
unfolding scan_word
scan_word-word width [] rest h = elim h.0 [ ]
scan_word-word width (c ∷ s) rest h =
    rw (skip_white-word (c ∷ s) (b' ' ∷ rest) width h, word_bytes-word width (c ∷ s) rest h.1 h.2)
      refl

-- The alias of a copy and of a constant of an integer type.
scan_two-words :
    (ty value : Bytes)
    → IsWord 31 ty
    → IsWord 127 value
    → scan_two (ty ++ b' ' ∷ value) ≡ some (ty, value)
unfolding scan_two
scan_two-words ty value h k =
    let second : scan_word 127 (b' ' ∷ value) ≡ some (value, []) = last value k in
    rw (scan_word-word 31 ty value h, second) (unfold scan_word in refl)
  where
    last : (value : Bytes) → IsWord 127 value → scan_word 127 (b' ' ∷ value) ≡ some (value, [])
    last [] k = elim k.0 [ ]
    last (c ∷ s) k =
        unfold scan_word in
        unfold skip_white in
        unfold is_white in rw (skip_first c s k, word_bytes-final 127 (c ∷ s) k.1 k.2) refl
      where
        skip_first : (c : ℕ) (s : Bytes) → IsWord 127 (c ∷ s) → skip_white (c ∷ s) ≡ c ∷ s
        skip_first c s k = unfold skip_white in rw (k.2.0) refl

integer_type-IsInteger : (ty : Bytes) → IsInteger ty → integer_type ty ≡ true
unfolding integer_type str_eq
integer_type-IsInteger ty (inl e) = rw e refl
integer_type-IsInteger ty (inr (inl e)) = rw e refl
integer_type-IsInteger ty (inr (inr (inl e))) = rw e refl
integer_type-IsInteger ty (inr (inr (inr (inl e)))) = rw e refl
integer_type-IsInteger ty (inr (inr (inr (inr (inl e))))) = rw e refl
integer_type-IsInteger ty (inr (inr (inr (inr (inr (inl e)))))) = rw e refl
integer_type-IsInteger ty (inr (inr (inr (inr (inr (inr (inl e))))))) = rw e refl
integer_type-IsInteger ty (inr (inr (inr (inr (inr (inr (inr (inl e)))))))) = rw e refl
integer_type-IsInteger ty (inr (inr (inr (inr (inr (inr (inr (inr (inl e))))))))) = rw e refl
integer_type-IsInteger ty (inr (inr (inr (inr (inr (inr (inr (inr (inr e))))))))) = rw e refl

-- The operand that an alias stands for: of a copy, or of a constant of an integer type.
pub data AliasOf (value : Bytes) : Bytes → Type 0 where
  copied :
      (ty : Bytes) → IsName ty → IsWord 31 ty → IsWord 127 value → AliasOf value (copy_of ty value)
  constant :
      (ty : Bytes)
      → IsInteger ty
      → IsName ty
      → IsWord 31 ty
      → IsWord 127 value
      → AliasOf value (const_of ty value)

pub alias_value-AliasOf :
    (indent dest value right : Bytes)
    → IsBlank indent
    → IsName dest
    → AliasOf value right
    → alias_value (assigning indent dest right) ≡ some value
unfolding alias_value skip_space is_space has_prefix
alias_value-AliasOf indent dest value _ h k (copied ty _ t v) =
    rw (assignment_uses-assigning indent dest (copy_of ty value) h k, scan_two-words ty value t v)
      refl
alias_value-AliasOf indent dest value _ h k (constant ty i _ t v) =
    rw (assignment_uses-assigning indent dest (const_of ty value) h k, scan_two-words ty value t v)
      (unfold const_value in rw (integer_type-IsInteger ty i) refl)

abbrev pub IsOther : Bytes → Type 0
IsOther ty =
    (ty ≢ codes "i1")
    × (ty ≢ codes "i8")
    × (ty ≢ codes "i16")
    × (ty ≢ codes "i32")
    × (ty ≢ codes "i64")
    × (ty ≢ codes "u8")
    × (ty ≢ codes "u16")
    × (ty ≢ codes "u32")
    × (ty ≢ codes "u64")
    × (ty ≢ codes "usize")

str_eq-ne : (s t : Bytes) → s ≢ t → str_eq s t ≡ false
str_eq-ne s t ne = elim (Bool-cases (str_eq s t)) [
  | inl e ↦ absurd (ne ((str_eq_iff s t).0 e))
  | inr e ↦ e
]

integer_type-IsOther : (ty : Bytes) → IsOther ty → integer_type ty ≡ false
unfolding integer_type
integer_type-IsOther ty (n0, n1, n2, n3, n4, n5, n6, n7, n8, n9) =
    rw
      (
        str_eq-ne ty (codes "i1") n0,
        str_eq-ne ty (codes "i8") n1,
        str_eq-ne ty (codes "i16") n2,
        str_eq-ne ty (codes "i32") n3,
        str_eq-ne ty (codes "i64") n4,
        str_eq-ne ty (codes "u8") n5,
        str_eq-ne ty (codes "u16") n6,
        str_eq-ne ty (codes "u32") n7,
        str_eq-ne ty (codes "u64") n8,
        str_eq-ne ty (codes "usize") n9,
      )
      refl

-- Every other line makes no alias: its right side begins with neither of the two words, or it is a
-- constant of another type.
abbrev pub IsNoAlias : Bytes → Type 0
IsNoAlias text =
    ((has_prefix (skip_space (assignment_uses text)) (codes "copy ") ≡ false)
      × (has_prefix (skip_space (assignment_uses text)) (codes "const ") ≡ false))
    ⊎ ((indent dest ty rest : Bytes) × (text ≡ assigning indent dest (const_of ty rest))
        × IsBlank indent
        × IsName dest
        × IsOther ty
        × IsWord 31 ty)

scan_two-type :
    (ty rest : Bytes)
    → IsWord 31 ty
    → IsOther ty
    → const_value (scan_two (ty ++ b' ' ∷ rest)) ≡ none
unfolding scan_two
scan_two-type ty rest h other =
    rw (scan_word-word 31 ty rest h) (elim (Option-cases (scan_word 127 (b' ' ∷ rest))) [
      | inl n ↦ rw n (unfold const_value in refl)
      | inr ((v, r), e) ↦ elim (Bool-cases (none_left (scan_word 1 r))) [
        | inl t ↦ rw (e, t) (unfold const_value in rw (integer_type-IsOther ty other) refl)
        | inr t ↦ rw (e, t) (unfold const_value in refl)
      ]
    ])

pub alias_value-IsNoAlias : (text : Bytes) → IsNoAlias text → alias_value text ≡ none
unfolding alias_value skip_space is_space has_prefix
alias_value-IsNoAlias text (inl (c, k)) = rw (c, k) refl
alias_value-IsNoAlias text (inr (indent, dest, ty, rest, e, h, k, other, t)) =
    rw (e, assignment_uses-assigning indent dest (const_of ty rest) h k)
      (scan_two-type ty rest t other)
