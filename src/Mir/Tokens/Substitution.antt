-- ===== src/Mir/Tokens/Substitution.antt =====
-- The scanners do what the tokens say.
use vix_lang.Common.Text.{Bytes, str_eq, byte_at}
use vix_lang.Common.{
  ℕ, zero, suc, ◌<◌, ◌≡◌, refl, sym, ap, ◌∙◌, inl, inr, true, false, not, ◌&&◌, ◌||◌, Option, none,
  some, [], ◌∷◌, ◌++◌, if◌then◌else◌, length, drop, arith, Bool-cases, append_assoc, append-nil,
  length-drop,
}
use vix_lang.Mir.Tokens.{
  name_char, Quote, outside, advance, is_boundary, token_at, last_or, Buffer, write, replace_from,
  replace_token,
}
use vix_lang.Mir.Tokens.Words.{
  tokens_from, tokens, substituted, front, behind, behind-not, IsName, token_at-front,
  token_at-mark, drop-behind, tokens_from-word, tokens_from-mark, front_of_mark,
}

-- A name byte does not change the flags outside quotes, and no quote ends in a word.
pub advance-name : (q : Quote) (c : ℕ) → q.quoted ≡ false → name_char c ≡ true → advance q c ≡ q
unfolding advance name_char
advance-name q c e t = ground arith

pub advance-quoted :
    (q : Quote) (c : ℕ) → q.quoted ≡ true → ((advance q c).quoted || is_boundary (some c)) ≡ true
unfolding advance name_char is_boundary
advance-quoted q c e = ground arith

last_or-name :
    (prev : Option ℕ) (name : Bytes) → IsName name → is_boundary (last_or prev name) ≡ false
unfolding is_boundary
last_or-name prev [] h = elim h.0 [ ]
last_or-name prev (c ∷ []) h = rw h.1.0 refl
last_or-name prev (c ∷ d ∷ s) h = last_or-name (some c) (d ∷ s) (omega arith, h.1.1)

module _ (name value : Bytes) (h : IsName name) where
  -- The replacement from a place on: of the tokens from there, or behind the rest of a word.
  abbrev rest_of : Option ℕ → Quote → Bytes → Bytes
  rest_of prev q s =
      if q.quoted || is_boundary prev
      then substituted name value (tokens_from q [] s)
      else front s ++ substituted name value (tokens_from q [] (behind s))

  -- In front of a byte that belongs to no word it is the tokens from there.
  rest_of-start :
      (prev : Option ℕ) (q : Quote) (s : Bytes)
      → (q.quoted || not (name_char (byte_at s))) ≡ true
      → rest_of prev q s ≡ substituted name value (tokens_from q [] s)
  rest_of-start prev q s e = elim (Bool-cases (q.quoted || is_boundary prev)) [
    | inl t ↦ rw t refl
    | inr f ↦ let (fronts, behinds) = front_of_mark s (ground arith) in rw (f, fronts, behinds) refl
  ]

  -- A byte that belongs to no word is copied.
  rest_of-mark :
      (prev : Option ℕ) (q : Quote) (c : ℕ) (s : Bytes)
      → (not q.quoted && name_char c) ≡ false
      → rest_of prev q (c ∷ s) ≡ c ∷ rest_of (some c) (advance q c) s
  rest_of-mark prev q c s e =
      let start = rest_of-start prev q (c ∷ s) (ground arith) in
      let bound : ((advance q c).quoted || is_boundary (some c)) ≡ true =
        elim (Bool-cases q.quoted) [
          | inl quoted ↦ advance-quoted q c quoted
          | inr plain ↦ unfold is_boundary in ground arith
        ] in
      start
      ∙ ap (substituted name value) (tokens_from-mark q c s e)
      ∙ rw bound (unfold substituted in refl)

  -- So is a byte inside of a word.
  rest_of-inside :
      (p : ℕ) (q : Quote) (c : ℕ) (s : Bytes)
      → q.quoted ≡ false
      → name_char p ≡ true
      → name_char c ≡ true
      → rest_of (some p) q (c ∷ s) ≡ c ∷ rest_of (some c) (advance q c) s
  unfolding is_boundary front behind
  rest_of-inside p q c s e t u = rw (advance-name q c e u) (ground arith)

  -- The front of a text that begins in a word.
  rest_of-word :
      (prev : Option ℕ) (q : Quote) (c : ℕ) (s : Bytes)
      → q.quoted ≡ false
      → is_boundary prev ≡ true
      → name_char c ≡ true
      → rest_of prev q (c ∷ s)
        ≡ (if str_eq (front (c ∷ s)) name then value else front (c ∷ s))
          ++ substituted name value (tokens_from q [] (behind (c ∷ s)))
  rest_of-word prev q c s e b t =
      rw (b, tokens_from-word q c s e t) (unfold substituted in ground arith)

  rest_of-copy_plain :
      (prev : Option ℕ) (q : Quote) (c : ℕ) (s : Bytes)
      → q.quoted ≡ false
      → name_char c ≡ true
      → token_at prev (c ∷ s) name ≡ false
      → rest_of prev q (c ∷ s) ≡ c ∷ rest_of (some c) (advance q c) s
  rest_of-copy_plain prev q c s e t f = elim (Bool-cases (is_boundary prev)) [
    | inl b ↦
        let other : str_eq (front (c ∷ s)) name ≡ false =
          sym (token_at-front prev (c ∷ s) name h b) ∙ f in
        rest_of-word prev q c s e b t
        ∙ rw (other, advance-name q c e t)
            (unfold front in unfold behind in unfold is_boundary in ground arith)
    | inr b ↦ inside prev b
  ]
    where
      inside :
          (prev : Option ℕ)
          → is_boundary prev ≡ false
          → rest_of prev q (c ∷ s) ≡ c ∷ rest_of (some c) (advance q c) s
      inside none b = absurd (unfold is_boundary in cc)
      inside (some p) b = rest_of-inside p q c s e (unfold is_boundary in ground arith) t

  rest_of-copy :
      (prev : Option ℕ) (q : Quote) (c : ℕ) (s : Bytes)
      → (not q.quoted && token_at prev (c ∷ s) name) ≡ false
      → rest_of prev q (c ∷ s) ≡ c ∷ rest_of (some c) (advance q c) s
  rest_of-copy prev q c s f = elim (Bool-cases (not q.quoted && name_char c)) [
    | inl t ↦ rest_of-copy_plain prev q c s (ground arith) (ground arith) (ground arith)
    | inr e ↦ rest_of-mark prev q c s e
  ]

  rest_of-match :
      (prev : Option ℕ) (q : Quote) (c : ℕ) (s : Bytes)
      → (not q.quoted && token_at prev (c ∷ s) name) ≡ true
      → rest_of prev q (c ∷ s) ≡ value ++ rest_of (last_or prev name) q (drop (length name) (c ∷ s))
  rest_of-match prev q c s t = elim (Bool-cases (name_char c)) [
    | inr e ↦ let out = token_at-mark prev c s name h e in absurd (ground arith)
    | inl u ↦
        let plain : q.quoted ≡ false = ground arith in
        let found : token_at prev (c ∷ s) name ≡ true = ground arith in
        let bound : is_boundary prev ≡ true = unfold token_at in ground arith in
        let same : str_eq (front (c ∷ s)) name ≡ true =
          sym (token_at-front prev (c ∷ s) name h bound) ∙ found in
        let next =
          rest_of-start (last_or prev name) q (behind (c ∷ s))
            (ground (arith, behind-not (c ∷ s))) in
        rest_of-word prev q c s plain bound u
        ∙ rw (same, drop-behind (c ∷ s) name same) (ap (λ r. value ++ r) (sym next))
  ]

  replace_from-rest_of :
      (fuel : ℕ) (prev : Option ℕ) (q : Quote) (s : Bytes) (b : Buffer)
      → length s < fuel
      → (r : Buffer) × (replace_from fuel prev q s name value b ≡ some r)
        × (r.out ≡ b.out ++ rest_of prev q s)
  unfolding replace_from
  replace_from-rest_of zero prev q s b lt = elim lt [ ]
  replace_from-rest_of (suc fuel) prev q [] b lt = (
    b,
    refl,
    unfold tokens_from in
        unfold substituted in
        unfold front in unfold behind in sym (append-nil b.out) ∙ ground arith,
  )
  replace_from-rest_of (suc fuel) prev q (c ∷ s) b lt =
      elim (Bool-cases (not q.quoted && token_at prev (c ∷ s) name)) [
        | inl t ↦
            let (r, done, out) =
              replace_from-rest_of fuel (last_or prev name) q (drop (length name) (c ∷ s))
                (write b value) (omega (arith, length-drop (length name) (c ∷ s), h.0)) in
            (
              r,
              rw t done,
              out
                  ∙ append_assoc b.out value _
                  ∙ ap (λ e. b.out ++ e) (sym (rest_of-match prev q c s t)),
            )
        | inr f ↦
            let (r, done, out) =
              replace_from-rest_of fuel (some c) (advance q c) s (write b (c ∷ [])) (omega arith) in
            (
              r,
              rw f done,
              out
                  ∙ append_assoc b.out (c ∷ []) _
                  ∙ ap (λ e. b.out ++ e) (sym (rest_of-copy prev q c s f)),
            )
      ]

-- The replacement of a name, which has only name bytes and at least one, is substitution on the
-- tokens: each word that is the name becomes the value, and every other byte stays.
pub replace_token-substituted :
    (s name value : Bytes)
    → IsName name
    → (r : Buffer) × (replace_token s name value ≡ some r)
      × (r.out ≡ substituted name value (tokens s))
unfolding replace_token tokens is_boundary
replace_token-substituted s name value h =
    replace_from-rest_of name value h (suc (length s)) none outside s _ (omega arith)
