-- ===== src/Tests/Scanner.antt =====
-- The lexer's peeks at concrete inputs.
use vix_lang.Common.Int.{pos, negsuc}
use vix_lang.Common.Text.{is_blank, codes}
use vix_lang.Common.{◌≡◌, ◌+◌, refl, none, some, List, [], ◌∷◌, ◌++◌}
use vix_lang.Scanner.Trivia.{
  Trivia, blank, line, block, put_all, next_non_space_char-put_all, next_non_space_char_open,
}
use vix_lang.Scanner.{first_plus_one, peek_char, next_non_space_char}

peeked :
    (peek_char (some (codes "abc")) (pos 1) ≡ some 99)
    × (peek_char (some (codes "abc")) (pos 3) ≡ none)
    × (peek_char (some (codes "abc")) (negsuc 0) ≡ none)
unfolding peek_char
peeked = (refl, refl, refl)

abbrev trivia : List Trivia
trivia = blank b' ' ∷ line (codes " note") ∷ block (codes " a * b ") ∷ blank b'\t' ∷ []

next_non_space_char-put_all_example :
    next_non_space_char (some (put_all trivia (codes "fn"))) (pos 0)
    ≡ some (first_plus_one (codes "fn"))
unfolding is_blank
next_non_space_char-put_all_example =
    next_non_space_char-put_all trivia (codes "fn")
      (refl, ((refl, (refl, (refl, (refl, (refl, tt))))), (refl, (refl, tt)))) (refl, refl)

next_non_space_char_open_example :
    next_non_space_char (some (b'/' ∷ b'*' ∷ (codes " ab" ++ b'c' ∷ []))) (pos 0)
    ≡ some (some (b'c' + 1))
unfolding is_blank
next_non_space_char_open_example = next_non_space_char_open (codes " ab") b'c' refl refl
