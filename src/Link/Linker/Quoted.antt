-- ===== src/Link/Linker/Quoted.antt =====
-- The splitting of a command with quotes in it: `addSplitArgs`.
use vix_lang.Common.Text.{Bytes, is_blank}
use vix_lang.Common.{
  ℕ, ◌<◌, ◌≡◌, refl, ap, sym, ◌∙◌, true, false, none, some, List, [], ◌∷◌, ◌++◌, ◌==◌, length,
  arith, append_assoc, append-nil, All,
}
use vix_lang.Link.Linker.{is_quote, push_word, split_from, add_split_args}
use vix_lang.Link.Linker.Split.{IsPlain, split_from-plain}

-- A piece of an argument: as it stands, or between two quotes of one kind.
pub data Piece : Type 0 where
  plain : Bytes → Piece
  quoted : ℕ → Bytes → Piece

abbrev pub IsPiece : Piece → Type 0
IsPiece (plain s) = IsPlain s
IsPiece (quoted q s) = (is_quote q ≡ true) × All (λ c. (c == q) ≡ false) s

abbrev pub spelled : List Piece → Bytes
spelled [] = []
spelled (plain s ∷ ps) = s ++ spelled ps
spelled (quoted q s ∷ ps) = q ∷ (s ++ q ∷ spelled ps)

abbrev pub value : List Piece → Bytes
value [] = []
value (plain s ∷ ps) = s ++ value ps
value (quoted q s ∷ ps) = s ++ value ps

-- Arguments with blanks behind each, and a last one.
abbrev pub command : List (List Piece × Bytes) → List Piece → Bytes
command [] final = spelled final
command ((argument, blanks) ∷ rest) final = spelled argument ++ (blanks ++ command rest final)

abbrev pub IsSpaced : List Piece × Bytes → Type 0
IsSpaced (argument, blanks) =
    All IsPiece argument × (0 < length blanks) × All (λ c. is_blank c ≡ true) blanks

-- The values that are not empty.
abbrev pub values : List (List Piece × Bytes) → List Piece → List Bytes
values [] final = push_word true (value final) []
values ((argument, blanks) ∷ rest) final = push_word true (value argument) (values rest final)

split_from-inside :
    (q : ℕ) (current s t : Bytes)
    → All (λ c. (c == q) ≡ false) s
    → split_from (some q) current (s ++ q ∷ t) ≡ split_from none (current ++ s) t
unfolding split_from
split_from-inside q current [] t h = rw (append-nil current) (ground arith)
split_from-inside q current (c ∷ s) t h =
    let step : split_from (some q) current (c ∷ (s ++ q ∷ t))
        ≡ split_from (some q) (current ++ c ∷ []) (s ++ q ∷ t) =
      ground (arith, h.0) in
    step
    ∙ split_from-inside q (current ++ c ∷ []) s t h.1
    ∙ ap (λ p. split_from none p t) (append_assoc current (c ∷ []) s)

split_from-quoted :
    (q : ℕ) (current s t : Bytes)
    → is_quote q ≡ true
    → All (λ c. (c == q) ≡ false) s
    → split_from none current (q ∷ (s ++ q ∷ t)) ≡ split_from none (current ++ s) t
split_from-quoted q current s t e h =
    let step : split_from none current (q ∷ (s ++ q ∷ t))
        ≡ split_from (some q) current (s ++ q ∷ t) =
      unfold split_from in ground (arith, e) in
    step ∙ split_from-inside q current s t h

split_from-spelled :
    (argument : List Piece) (current t : Bytes)
    → All IsPiece argument
    → split_from none current (spelled argument ++ t)
      ≡ split_from none (current ++ value argument) t
split_from-spelled [] current t h = rw (append-nil current) refl
split_from-spelled (plain s ∷ ps) current t h =
    ap (split_from none current) (append_assoc s (spelled ps) t)
    ∙ split_from-plain s current (spelled ps ++ t) h.0
    ∙ split_from-spelled ps (current ++ s) t h.1
    ∙ ap (λ p. split_from none p t) (append_assoc current s (value ps))
split_from-spelled (quoted q s ∷ ps) current t h =
    ap (λ r. split_from none current (q ∷ r)) (append_assoc s (q ∷ spelled ps) t)
    ∙ split_from-quoted q current s (spelled ps ++ t) h.0.0 h.0.1
    ∙ split_from-spelled ps (current ++ s) t h.1
    ∙ ap (λ p. split_from none p t) (append_assoc current s (value ps))

split_from-blank :
    (c : ℕ) (current t : Bytes)
    → is_blank c ≡ true
    → split_from none current (c ∷ t) ≡ push_word true current (split_from none [] t)
unfolding split_from is_blank is_quote
split_from-blank c current t e = ground arith

split_from-blanks :
    (blanks t : Bytes)
    → All (λ c. is_blank c ≡ true) blanks
    → split_from none [] (blanks ++ t) ≡ split_from none [] t
split_from-blanks [] t h = refl
split_from-blanks (c ∷ blanks) t h =
    split_from-blank c [] (blanks ++ t) h.0 ∙ split_from-blanks blanks t h.1

split_from-command :
    (arguments : List (List Piece × Bytes)) (final : List Piece)
    → All IsSpaced arguments
    → All IsPiece final
    → split_from none [] (command arguments final) ≡ values arguments final
split_from-command [] final h k =
    ap (split_from none []) (sym (append-nil (spelled final)))
    ∙ split_from-spelled final [] [] k
    ∙ unfold split_from in refl
split_from-command ((argument, []) ∷ rest) final h k = elim h.0.1 [ ]
split_from-command ((argument, c ∷ blanks) ∷ rest) final h k =
    split_from-spelled argument [] (c ∷ (blanks ++ command rest final)) h.0.0
    ∙ split_from-blank c (value argument) (blanks ++ command rest final) h.0.2.0
    ∙ ap (push_word true (value argument)) (
        split_from-blanks blanks (command rest final) h.0.2.1 ∙ split_from-command rest final h.1 k)

-- A command is split into the values of its arguments: quotes hold an argument together, blanks
-- and the other kind of quote included, and are left out of it; blanks outside of quotes end it;
-- and an argument without a byte, also a quoted one, is dropped. Quotes are closed.
pub add_split_args-command :
    (storage : List Bytes) (arguments : List (List Piece × Bytes)) (final : List Piece)
    → All IsSpaced arguments
    → All IsPiece final
    → add_split_args storage (some (command arguments final)) ≡ storage ++ values arguments final
unfolding add_split_args
add_split_args-command storage arguments final h k =
    ap (λ r. storage ++ r) (split_from-command arguments final h k)
