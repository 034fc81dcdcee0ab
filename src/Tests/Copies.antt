-- ===== src/Tests/Copies.antt =====
-- Copy propagation at a concrete input, for the meaning in which values are terms.
use vix_lang.Common.Text.{Bytes, codes, str_eq, split_at}
use vix_lang.Common.{◌≡◌, refl, none, List, [], ◌∷◌, true}
use vix_lang.Mir.Function.Meaning.{State, texts_of}
use vix_lang.Mir.Function.Operands.{run_block}
use vix_lang.Mir.Function.Terms.{terms, place, value_of, resolved, performed, settled}
use vix_lang.Mir.Function.{MirLine}
use vix_lang.Mir.Line.{assignment_dest, assignment_uses}
use vix_lang.Mir.Tokens.{name_char, advance, is_space}
use vix_lang.Mir.Tokens.Words.{tokens}

abbrev living : Bytes → MirLine
living text = record { text = text; alive = true }

abbrev lines : List MirLine
lines =
    living (codes "%x = const i32 5")
    ∷ living (codes "%y = copy i32 %x")
    ∷ living (codes "br_cond 0, label a, label b")
    ∷ living (codes "a:")
    ∷ living (codes "ret %x")
    ∷ living (codes "b:")
    ∷ living (codes "ret %y")
    ∷ []

-- Literals and labels are told apart.
apart :
    (run_block terms (living (codes "ret 5") ∷ []) (λ name. []) []
      ≡ ((λ name. []), (codes "ret" ∷ codes "5" ∷ []) ∷ [], none))
    × (place (codes "a") (texts_of lines) ≡ 3)
    × (place (codes "b") (texts_of lines) ≡ 5)
unfolding run_block place resolved settled performed value_of tokens assignment_dest assignment_uses
    is_space name_char str_eq split_at advance
apart = (refl, refl, refl)

abbrev rewritten : List MirLine
rewritten =
    living (codes "%x = const i32 5")
    ∷ living (codes "%y = copy i32 5")
    ∷ living (codes "br label b")
    ∷ living (codes "a:")
    ∷ living (codes "ret 5")
    ∷ living (codes "b:")
    ∷ living (codes "ret 5")
    ∷ []

abbrev start : State terms
start = record { pc = 0; env = λ name. []; world = [] }
