-- ===== src/Mir/Tokens/Absent.antt =====
-- Replacing a token in a text that does not hold it, and the replacement of the empty name.
use vix_lang.Common.Text.{Bytes, has_prefix}
use vix_lang.Common.{
  ℕ, zero, suc, ◌<◌, ◌≡◌, ◌≢◌, refl, sym, ◌∙◌, false, not, ◌&&◌, Option, none, some, [], ◌∷◌, ◌++◌,
  ◌==◌, length, arith, append_assoc, append-nil,
}
use vix_lang.Mir.Tokens.{
  token_at, Quote, outside, advance, contains_from, contains_token, Buffer, write, replace_from,
  replace_token, name_char,
}

-- A name that a line can assign begins with a byte that is no quote.
abbrev pub IsPlain : Bytes → Type 0
IsPlain [] = ⊥
IsPlain (n ∷ ns) = n ≢ b'"'

-- A position that `mir_contains_token` passes over is one that `mir_replace_token` copies.
no_match :
    (prev : Option ℕ) (q : Quote) (c : ℕ) (s name : Bytes)
    → IsPlain name
    → (not q.quoted && not (c == b'"') && token_at prev (c ∷ s) name) ≡ false
    → (not q.quoted && token_at prev (c ∷ s) name) ≡ false
unfolding token_at has_prefix
no_match prev q c s [] h e = absurd h
no_match prev q c s (n ∷ ns) h e = ground arith

replace_from_absent :
    (fuel : ℕ) (prev : Option ℕ) (q : Quote) (s name value : Bytes) (b : Buffer)
    → IsPlain name
    → contains_from prev q s name ≡ false
    → length s < fuel
    → (r : Buffer) × (replace_from fuel prev q s name value b ≡ some r) × (r.out ≡ b.out ++ s)
unfolding replace_from contains_from
replace_from_absent zero prev q s name value b h e lt = elim lt [ ]
replace_from_absent (suc fuel) prev q [] name value b h e lt = (b, refl, sym (append-nil b.out))
replace_from_absent (suc fuel) prev q (c ∷ s) name value b h e lt =
    let here : (not q.quoted && not (c == b'"') && token_at prev (c ∷ s) name) ≡ false =
      ground arith in
    let copy = no_match prev q c s name h here in
    let later : contains_from (some c) (advance q c) s name ≡ false = ground arith in
    let (r, done, out) =
      replace_from_absent fuel (some c) (advance q c) s name value (write b (c ∷ [])) h later
        (omega arith) in
    (r, rw copy done, out ∙ append_assoc b.out (c ∷ []) s)

-- A text that does not contain the token is left as it is, for a name that is not empty and does
-- not begin with a quote.
pub replace_token_absent :
    (s name value : Bytes)
    → IsPlain name
    → contains_token s name ≡ false
    → (r : Buffer) × (replace_token s name value ≡ some r) × (r.out ≡ s)
unfolding replace_token contains_token
replace_token_absent s name value h e =
    replace_from_absent (suc (length s)) none outside s name value _ h e (omega arith)

-- In front of a byte that is no name byte, at the start of a text, the empty name is replaced
-- again and again: no number of rounds finishes the replacement.
pub replace_from_empty_name :
    (fuel : ℕ) (c : ℕ) (s value : Bytes) (b : Buffer)
    → name_char c ≡ false
    → replace_from fuel none outside (c ∷ s) [] value b ≡ none
unfolding replace_from has_prefix
replace_from_empty_name zero c s value b h = refl
replace_from_empty_name (suc fuel) c s value b h =
    ground (arith, replace_from_empty_name fuel c s value (write b value) h)
