-- ===== src/Mir/Tokens/Renamed.antt =====
-- The tokens of a text in which a word is replaced by another.
use vix_lang.Common.Text.{Bytes, str_eq, byte_at}
use vix_lang.Common.{
  ℕ, zero, suc, ◌≤◌, ◌≡◌, refl, ap, ◌∙◌, inl, inr, true, false, not, ◌&&◌, List, [], ◌∷◌, ◌++◌,
  if◌then◌else◌, length, arith, All, Bool-cases,
}
use vix_lang.Mir.Tokens.{name_char, Quote, outside, advance}
use vix_lang.Mir.Tokens.Words.{
  Token, word, mark, tokens_from, tokens, substituted, front, behind, behind-not, IsName,
  tokens_from-word, tokens_from-mark,
}

-- A name in front of what begins no word is a word.
pub front-name :
    (s t : Bytes)
    → All (λ c. name_char c ≡ true) s
    → name_char (byte_at t) ≡ false
    → (front (s ++ t) ≡ s) × (behind (s ++ t) ≡ t)
unfolding front behind
front-name [] [] h e = (refl, refl)
front-name [] (c ∷ t) h e = rw e (refl, refl)
front-name (c ∷ s) t h e = let (f, b) = front-name s t h.1 e in rw (h.0, f, b) (refl, refl)

pub tokens_from-name :
    (q : Quote) (s t : Bytes)
    → q.quoted ≡ false
    → IsName s
    → name_char (byte_at t) ≡ false
    → tokens_from q [] (s ++ t) ≡ word s ∷ tokens_from q [] t
tokens_from-name q [] t e h n = elim h.0 [ ]
tokens_from-name q (c ∷ s) t e h n =
    let (f, b) = front-name (c ∷ s) t h.1 n in
    tokens_from-word q c (s ++ t) e (h.1.0)
    ∙ ap (λ w. word w ∷ tokens_from q [] (behind (c ∷ (s ++ t)))) f
    ∙ ap (λ r. word (c ∷ s) ∷ tokens_from q [] r) b

front-All : (s : Bytes) → All (λ c. name_char c ≡ true) (front s)
unfolding front
front-All [] = tt
front-All (c ∷ s) = elim (Bool-cases (name_char c)) [
  | inl e ↦ rw e (e, front-All s)
  | inr e ↦ rw e tt
]

length-behind : (s : Bytes) → length (behind s) ≤ length s
unfolding behind
length-behind [] = omega arith
length-behind (c ∷ s) = ground (arith, length-behind s)

-- The tokens with another word for each that is the name.
unfoldable pub renamed : Bytes → Bytes → List Token → List Token
renamed name value [] = []
renamed name value (word w ∷ ts) = word (if str_eq w name then value else w) ∷ renamed name value ts
renamed name value (mark c ∷ ts) = mark c ∷ renamed name value ts

-- What is behind a word still begins no word.
mark_first :
    (q : Quote) (name value s : Bytes)
    → q.quoted ≡ false
    → name_char (byte_at s) ≡ false
    → name_char (byte_at (substituted name value (tokens_from q [] s))) ≡ false
mark_first q name value [] e n = unfold tokens_from in unfold substituted in n
mark_first q name value (c ∷ s) e n =
    let cut = tokens_from-mark q c s (rw (e, n) refl) in rw cut (unfold substituted in n)

tokens_from-substituted :
    (fuel : ℕ) (q : Quote) (name value s : Bytes)
    → IsName value
    → length s ≤ fuel
    → tokens_from q [] (substituted name value (tokens_from q [] s))
      ≡ renamed name value (tokens_from q [] s)
unfolding substituted renamed
tokens_from-substituted fuel q name value [] h lt = unfold tokens_from in refl
tokens_from-substituted zero q name value (c ∷ s) h lt = elim lt [ ]
tokens_from-substituted (suc fuel) q name value (c ∷ s) h lt =
    elim (Bool-cases (not q.quoted && name_char c)) [
      | inr e ↦
          let next = tokens_from-substituted fuel (advance q c) name value s h (omega arith) in
          let cut = tokens_from-mark q c s e in
          let text = substituted name value (tokens_from (advance q c) [] s) in
          rw cut (tokens_from-mark q c text e ∙ ap (λ ts. mark c ∷ ts) next)
      | inl e ↦
          let plain : q.quoted ≡ false = ground arith in
          let named : name_char c ≡ true = ground arith in
          let rest = behind (c ∷ s) in
          let short : length rest ≤ length s = shorter named in
          let next = tokens_from-substituted fuel q name value rest h (omega arith) in
          let cut = tokens_from-word q c s plain named in
          let text = substituted name value (tokens_from q [] rest) in
          let edge = mark_first q name value rest plain (behind-not (c ∷ s)) in
          rw cut (
            tokens_from-name q (if str_eq (front (c ∷ s)) name then value else front (c ∷ s)) text
              plain (is_name named) edge
            ∙ ap (λ ts. word (if str_eq (front (c ∷ s)) name then value else front (c ∷ s)) ∷ ts)
                next)
    ]
  where
    shorter : name_char c ≡ true → length (behind (c ∷ s)) ≤ length s
    shorter e = unfold behind in rw e (length-behind s)

    own : name_char c ≡ true → IsName (front (c ∷ s))
    own e =
        let all = front-All (c ∷ s) in
        let is : front (c ∷ s) ≡ c ∷ front s = unfold front in rw e refl in
        rw is (omega arith, rw is at all)

    is_name :
        name_char c ≡ true → IsName (if str_eq (front (c ∷ s)) name then value else front (c ∷ s))
    is_name e = elim (Bool-cases (str_eq (front (c ∷ s)) name)) [
      | inl t ↦ rw t h
      | inr t ↦ rw t (own e)
    ]

-- Replacing a word by a name replaces it among the tokens.
pub tokens-substituted :
    (name value s : Bytes)
    → IsName value
    → tokens (substituted name value (tokens s)) ≡ renamed name value (tokens s)
unfolding tokens
tokens-substituted name value s h =
    tokens_from-substituted (length s) outside name value s h (omega arith)
