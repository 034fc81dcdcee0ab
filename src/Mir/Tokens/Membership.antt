-- ===== src/Mir/Tokens/Membership.antt =====
-- The search for a token is the search among the words.
use vix_lang.Common.Text.{Bytes}
use vix_lang.Common.{
  ℕ, ◌≡◌, refl, ap, ◌∙◌, inl, inr, Bool, true, false, not, ◌&&◌, ◌||◌, Option, none, some, [], ◌∷◌,
  ◌==◌, if◌then◌else◌, arith, Bool-cases,
}
use vix_lang.Mir.Tokens.{
  name_char, Quote, outside, advance, is_boundary, token_at, contains_from, contains_token,
}
use vix_lang.Mir.Tokens.Words.{
  tokens_from, tokens, has_word, behind, IsName, token_at-front, token_at-inside, token_at-mark,
  tokens_from-word, tokens_from-mark, front_of_mark,
}
use vix_lang.Mir.Tokens.Substitution.{advance-name, advance-quoted}

module _ (name : Bytes) (h : IsName name) where
  -- The words from a place on, or behind the rest of a word.
  abbrev found_from : Option ℕ → Quote → Bytes → Bool
  found_from prev q s =
      has_word name (tokens_from q [] (if q.quoted || is_boundary prev then s else behind s))

  found_from-mark :
      (prev : Option ℕ) (q : Quote) (c : ℕ) (s : Bytes)
      → (not q.quoted && name_char c) ≡ false
      → found_from prev q (c ∷ s) ≡ found_from (some c) (advance q c) s
  found_from-mark prev q c s e =
      let bound : ((advance q c).quoted || is_boundary (some c)) ≡ true =
        elim (Bool-cases q.quoted) [
          | inl quoted ↦ advance-quoted q c quoted
          | inr plain ↦ unfold is_boundary in ground arith
        ] in
      start ∙ ap (has_word name) (tokens_from-mark q c s e) ∙ rw bound (unfold has_word in refl)
    where
      start : found_from prev q (c ∷ s) ≡ has_word name (tokens_from q [] (c ∷ s))
      start = elim (Bool-cases (q.quoted || is_boundary prev)) [
        | inl t ↦ rw t refl
        | inr f ↦ let (_, behinds) = front_of_mark (c ∷ s) (ground arith) in rw (f, behinds) refl
      ]

  found_from-word :
      (prev : Option ℕ) (q : Quote) (c : ℕ) (s : Bytes)
      → q.quoted ≡ false
      → name_char c ≡ true
      → found_from prev q (c ∷ s)
        ≡ (token_at prev (c ∷ s) name || found_from (some c) (advance q c) s)
  found_from-word prev q c s e t =
      let same : behind (c ∷ s) ≡ behind s = unfold behind in rw t refl in
      elim (Bool-cases (is_boundary prev)) [
        | inl b ↦
            let start : (q.quoted || is_boundary prev) ≡ true = ground arith in
            rw
              (
                start,
                advance-name q c e t,
                tokens_from-word q c s e t,
                token_at-front prev (c ∷ s) name h b,
                same,
              )
              (unfold has_word in unfold is_boundary in ground arith)
        | inr b ↦ inside prev b same
      ]
    where
      inside :
          (prev : Option ℕ)
          → is_boundary prev ≡ false
          → behind (c ∷ s) ≡ behind s
          → found_from prev q (c ∷ s)
            ≡ (token_at prev (c ∷ s) name || found_from (some c) (advance q c) s)
      inside none b same = absurd (unfold is_boundary in cc)
      inside (some p) b same =
          rw
            (
              token_at-inside p (c ∷ s) name (unfold is_boundary in ground arith),
              advance-name q c e t,
              b,
              same,
            )
            (unfold is_boundary in ground arith)

  contains_from-found_from :
      (prev : Option ℕ) (q : Quote) (s : Bytes) → contains_from prev q s name ≡ found_from prev q s
  unfolding contains_from
  contains_from-found_from prev q [] =
      unfold tokens_from in unfold has_word in unfold behind in ground arith
  contains_from-found_from prev q (c ∷ s) =
      let rest = contains_from-found_from (some c) (advance q c) s in
      elim (Bool-cases (not q.quoted && name_char c)) [
        | inl t ↦
            let mark : (c == b'"') ≡ false = unfold name_char in ground arith in
            rw (rest, mark) (ground (arith, found_from-word prev q c s))
        | inr e ↦
            rw rest (ground (arith, found_from-mark prev q c s e, token_at-mark prev c s name h))
      ]

-- The optimiser finds a name in a text if and only if it is one of its words: whole, and outside
-- quotes. A name has only name bytes, and at least one.
pub contains_token-has_word :
    (s name : Bytes) → IsName name → contains_token s name ≡ has_word name (tokens s)
unfolding contains_token tokens is_boundary
contains_token-has_word s name h = contains_from-found_from name h none outside s
