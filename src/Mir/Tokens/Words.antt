-- ===== src/Mir/Tokens/Words.antt =====
-- The tokens of a line, described apart from the scanners: the words outside quotes, each a run of
-- name bytes as long as it can be, and all other bytes one by one.
use vix_lang.Common.Text.{Bytes, str_eq, str_eq_iff, has_prefix, byte_at}
use vix_lang.Common.{
  ℕ, ◌<◌, ◌≡◌, refl, sym, ap, ◌∙◌, inl, inr, Bool, true, false, not, ◌&&◌, ◌||◌, Option, some, List,
  [], ◌∷◌, ◌++◌, if◌then◌else◌, length, drop, arith, All, Bool-cases, append_assoc, drop-append,
  append-nil,
}
use vix_lang.Mir.Tokens.{name_char, Quote, outside, advance, is_boundary, token_at}

pub data Token : Type 0 where
  word : Bytes → Token
  mark : ℕ → Token

abbrev pub flush : Bytes → List Token → List Token
flush [] ts = ts
flush (c ∷ w) ts = word (c ∷ w) ∷ ts

-- With the word read so far.
unfoldable pub tokens_from : Quote → Bytes → Bytes → List Token
tokens_from q w [] = flush w []
tokens_from q w (c ∷ s) =
    let longer = tokens_from q (w ++ c ∷ []) s in
    let ended = flush w (mark c ∷ tokens_from (advance q c) [] s) in
    if not q.quoted && name_char c then longer else ended

unfoldable pub tokens : Bytes → List Token
unfolding tokens_from
tokens s = tokens_from outside [] s

-- The text of the tokens, with a value for each word of the name.
unfoldable pub substituted : Bytes → Bytes → List Token → Bytes
substituted name value [] = []
substituted name value (word w ∷ ts) =
    (if str_eq w name then value else w) ++ substituted name value ts
substituted name value (mark c ∷ ts) = c ∷ substituted name value ts

-- Whether the name is one of the words.
unfoldable pub has_word : Bytes → List Token → Bool
has_word name [] = false
has_word name (word w ∷ ts) = str_eq w name || has_word name ts
has_word name (mark c ∷ ts) = has_word name ts

-- The name bytes at the front of a text, and what is behind them.
unfoldable pub front : Bytes → Bytes
front [] = []
front (c ∷ s) = let rest = front s in if name_char c then c ∷ rest else []

unfoldable pub behind : Bytes → Bytes
behind [] = []
behind (c ∷ s) = let rest = behind s in if name_char c then rest else c ∷ s

front-behind : (s : Bytes) → front s ++ behind s ≡ s
unfolding front behind
front-behind [] = refl
front-behind (c ∷ s) = ground (arith, front-behind s)

pub behind-not : (s : Bytes) → name_char (byte_at (behind s)) ≡ false
unfolding behind
behind-not [] = unfold name_char in refl
behind-not (c ∷ s) = ground (arith, behind-not s)

-- A name has only name bytes, and at least one.
abbrev pub IsName : Bytes → Type 0
IsName name = (0 < length name) × All (λ c. name_char c ≡ true) name

-- What `mir_token_at` tests behind a boundary: the front of the text is the name.
front-eq :
    (s name : Bytes)
    → All (λ c. name_char c ≡ true) name
    → (has_prefix s name && not (name_char (byte_at (drop (length name) s))))
      ≡ str_eq (front s) name
unfolding has_prefix front str_eq
front-eq [] [] h = unfold name_char in refl
front-eq [] (n ∷ ns) h = refl
front-eq (c ∷ s) [] h = ground arith
front-eq (c ∷ s) (n ∷ ns) h = ground (arith, front-eq s ns h.1)

pub token_at-front :
    (prev : Option ℕ) (s name : Bytes)
    → IsName name
    → is_boundary prev ≡ true
    → token_at prev s name ≡ str_eq (front s) name
unfolding token_at
token_at-front prev s name h e = ground (arith, front-eq s name h.1)

pub token_at-inside :
    (p : ℕ) (s name : Bytes) → name_char p ≡ true → token_at (some p) s name ≡ false
unfolding token_at
token_at-inside p s name e = ground arith

-- No word begins with a byte that is no name byte.
pub token_at-mark :
    (prev : Option ℕ) (c : ℕ) (s name : Bytes)
    → IsName name
    → name_char c ≡ false
    → token_at prev (c ∷ s) name ≡ false
unfolding token_at has_prefix
token_at-mark prev c s [] h e = elim h.0 [ ]
token_at-mark prev c s (n ∷ ns) h e = ground (arith, h.1.0)

-- A match moves to what is behind the word.
pub drop-behind : (s name : Bytes) → str_eq (front s) name ≡ true → drop (length name) s ≡ behind s
drop-behind s name e =
    let is = (str_eq_iff (front s) name).0 e in
    ap (λ n. drop (length n) s) (sym is)
    ∙ ap (λ t. drop (length (front s)) t) (sym (front-behind s))
    ∙ drop-append (front s) (behind s)

-- The tokens of a text that begins in a word.
pub tokens_from-front :
    (q : Quote) (c : ℕ) (w s : Bytes)
    → q.quoted ≡ false
    → tokens_from q (c ∷ w) s ≡ word (c ∷ (w ++ front s)) ∷ tokens_from q [] (behind s)
unfolding tokens_from front behind
tokens_from-front q c w [] e = ap (λ v. word (c ∷ v) ∷ []) (sym (append-nil w))
tokens_from-front q c w (d ∷ s) e = elim (Bool-cases (name_char d)) [
  | inl t ↦
      let step : tokens_from q (c ∷ w) (d ∷ s) ≡ tokens_from q (c ∷ (w ++ d ∷ [])) s =
        ground (arith, t) in
      let whole = append_assoc w (d ∷ []) (front s) in
      let fronts : front (d ∷ s) ≡ d ∷ front s = rw t refl in
      let behinds : behind (d ∷ s) ≡ behind s = rw t refl in
      step
      ∙ tokens_from-front q c (w ++ d ∷ []) s e
      ∙ ap (λ v. word (c ∷ v) ∷ tokens_from q [] (behind s)) whole
      ∙ rw (fronts, behinds) refl
  | inr f ↦
      let step : tokens_from q (c ∷ w) (d ∷ s) ≡ word (c ∷ w) ∷ tokens_from q [] (d ∷ s) =
        ground (arith, f) in
      let fronts : front (d ∷ s) ≡ [] = rw f refl in
      let behinds : behind (d ∷ s) ≡ d ∷ s = rw f refl in
      step
      ∙ ap (λ v. word (c ∷ v) ∷ tokens_from q [] (d ∷ s)) (sym (append-nil w))
      ∙ rw (fronts, behinds) refl
]

pub tokens_from-word :
    (q : Quote) (c : ℕ) (s : Bytes)
    → q.quoted ≡ false
    → name_char c ≡ true
    → tokens_from q [] (c ∷ s) ≡ word (front (c ∷ s)) ∷ tokens_from q [] (behind (c ∷ s))
tokens_from-word q c s e t =
    let step : tokens_from q [] (c ∷ s) ≡ tokens_from q (c ∷ []) s =
      unfold tokens_from in ground (arith, t) in
    let fronts : front (c ∷ s) ≡ c ∷ front s = unfold front in rw t refl in
    let behinds : behind (c ∷ s) ≡ behind s = unfold behind in rw t refl in
    step ∙ tokens_from-front q c [] s e ∙ rw (fronts, behinds) refl

pub tokens_from-mark :
    (q : Quote) (c : ℕ) (s : Bytes)
    → (not q.quoted && name_char c) ≡ false
    → tokens_from q [] (c ∷ s) ≡ mark c ∷ tokens_from (advance q c) [] s
unfolding tokens_from
tokens_from-mark q c s e = rw e refl

-- What is behind a word begins no word.
pub front_of_mark : (s : Bytes) → name_char (byte_at s) ≡ false → (front s ≡ []) × (behind s ≡ s)
unfolding front behind
front_of_mark [] e = (refl, refl)
front_of_mark (c ∷ s) e = rw e (refl, refl)
