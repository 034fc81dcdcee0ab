-- ===== src/Helper/Symbol.antt =====
-- Cleaning of symbol names.
use vix_lang.Common.Text.{Bytes}
use vix_lang.Common.{
  ℕ, ◌+◌, ◌≡◌, refl, sym, ◌∙◌, Bool, true, Option, none, some, [], ◌∷◌, map, length, arith, All,
  Bool-cases, inl, inr,
}
use vix_lang.Helper.{is_symbol, clean_byte, without_sigil, clean_symbol_name}

abbrev pub IsSymbol : Bytes → Type 0
IsSymbol = All (λ c. is_symbol c ≡ true)

is_symbol-clean_byte : (c : ℕ) → is_symbol (clean_byte c) ≡ true
unfolding clean_byte
is_symbol-clean_byte c = elim (Bool-cases (is_symbol c)) [
  | inl e ↦ rw e e
  | inr e ↦ rw e (unfold is_symbol in refl)
]

map-IsSymbol : (s : Bytes) → IsSymbol (map clean_byte s)
map-IsSymbol [] = tt
map-IsSymbol (c ∷ s) = (is_symbol-clean_byte c, map-IsSymbol s)

map_same : (s : Bytes) → IsSymbol s → map clean_byte s ≡ s
unfolding clean_byte
map_same [] h = refl
map_same (c ∷ s) h = rw (h.0, map_same s h.1) refl

without_sigil-IsSymbol : (s : Bytes) → IsSymbol s → without_sigil s ≡ s
unfolding without_sigil is_symbol
without_sigil-IsSymbol [] h = refl
without_sigil-IsSymbol (c ∷ s) h = ground (arith, h.0)

-- A cleaned name has only letters, digits and underscores, and cleaning it again gives the same
-- name.
clean_symbol_name-IsSymbol :
    (can_alloc : ℕ → Bool) (name t : Bytes)
    → clean_symbol_name can_alloc (some name) ≡ some t
    → IsSymbol t × (clean_symbol_name can_alloc (some t) ≡ some t)
unfolding clean_symbol_name
clean_symbol_name-IsSymbol can_alloc name t h =
    let text = map clean_byte (without_sigil name) in
    elim (Bool-cases (can_alloc (length text + 1))) [
      | inl e ↦
          let same : some text ≡ some t = sym (rw e refl) ∙ h in
          let is : text ≡ t = cc in
          let symbol : IsSymbol t = rw is at (map-IsSymbol (without_sigil name)) in
          let size : can_alloc (length t + 1) ≡ true = rw is at e in
          (symbol, rw (without_sigil-IsSymbol t symbol, map_same t symbol, size) refl)
      | inr e ↦ let bad : ◌≡◌ {A = Option Bytes} none (some t) = sym (rw e refl) ∙ h in cc
    ]
