-- ===== src/Mir/Pass/Functions.antt =====
-- The pass on a text with several functions: each is optimised by itself.
use vix_lang.Common.Text.{Bytes}
use vix_lang.Common.{
  ◌≡◌, refl, ap, sym, ◌∙◌, inl, inr, true, false, Option, none, some, List, [], ◌∷◌, ◌++◌, ◌>>=◌,
  append_assoc, append-nil, All, All-append, map, Bool-cases,
}
use vix_lang.Mir.Function.{MirLine, opt_function}
use vix_lang.Mir.Pass.{split_lines, living_line, opens, closes, opt_lines, write_lines, opt_scalar}

-- A line outside of functions, or a function with its first and its last line.
pub data Segment : Type 0 where
  outside : MirLine → Segment
  function : MirLine → List MirLine → MirLine → Segment

abbrev pub IsSegment : Segment → Type 0
IsSegment (outside line) = opens line ≡ false
IsSegment (function first body final) =
    (opens first ≡ true) × All (λ l. closes l ≡ false) body × (closes final ≡ true)

-- A function at the end of the text that is not closed.
abbrev pub IsOpen : List MirLine → Type 0
IsOpen [] = Unit
IsOpen (first ∷ body) = (opens first ≡ true) × All (λ l. closes l ≡ false) body

abbrev pub lines_of : List Segment → List MirLine
lines_of [] = []
lines_of (outside line ∷ segments) = line ∷ lines_of segments
lines_of (function first body final ∷ segments) =
    (first ∷ (body ++ final ∷ [])) ++ lines_of segments

-- Each function optimised.
abbrev pub pass_of : List Segment → Option (List MirLine)
pass_of [] = some []
pass_of (outside line ∷ segments) = pass_of segments >>= (λ lines. some (line ∷ lines))
pass_of (function first body final ∷ segments) =
    opt_function (first ∷ (body ++ final ∷ []))
    >>= (λ body'. pass_of segments >>= (λ lines. some (body' ++ lines)))

abbrev followed_by : List MirLine → Option (List MirLine) → Option (List MirLine)
followed_by tail lines = lines >>= (λ ks. some (ks ++ tail))

followed_by-outside :
    (line : MirLine) (tail : List MirLine) (lines : Option (List MirLine))
    → (followed_by tail lines >>= (λ rest. some (line ∷ rest)))
      ≡ followed_by tail (lines >>= (λ rest. some (line ∷ rest)))
followed_by-outside line tail none = refl
followed_by-outside line tail (some lines) = refl

followed_by-function :
    (body lines : Option (List MirLine)) (tail : List MirLine)
    → (body >>= (λ body'. followed_by tail lines >>= (λ rest. some (body' ++ rest))))
      ≡ followed_by tail (body >>= (λ body'. lines >>= (λ rest. some (body' ++ rest))))
followed_by-function none lines tail = refl
followed_by-function (some body) none tail = refl
followed_by-function (some body) (some lines) tail = ap some (sym (append_assoc body lines tail))

-- The function that is open.
abbrev Opened : Type 0
Opened = Option (MirLine × List MirLine)

abbrev body_of : Opened → Option (List MirLine)
body_of none = none
body_of (some (first, body)) = some (first ∷ body)

abbrev opened_lines : Opened → List MirLine
opened_lines none = []
opened_lines (some (first, body)) = first ∷ body

-- How the lines fall into segments, and what the loop makes of them.
abbrev IsCut : Opened → List MirLine → List Segment → List MirLine → Type 0
IsCut opened lines segments tail =
    (opened_lines opened ++ lines ≡ lines_of segments ++ tail)
    × All IsSegment segments
    × IsOpen tail
    × (opt_lines (body_of opened) lines ≡ followed_by tail (pass_of segments))

cut :
    (opened : Opened) (lines : List MirLine)
    → IsOpen (opened_lines opened)
    → (segments : List Segment) × (tail : List MirLine) × IsCut opened lines segments tail
unfolding opt_lines
cut none [] h = ([], [], (refl, tt, tt, refl))
cut (some (first, body)) [] h = ([], first ∷ body, (append-nil (first ∷ body), tt, h, refl))
cut none (line ∷ lines) h = elim (Bool-cases (opens line)) [
  | inl e ↦
      let (segments, tail, (whole, proper, unclosed, done)) = cut (some (line, [])) lines (e, tt) in
      (segments, tail, (whole, proper, unclosed, rw e done))
  | inr e ↦
      let (segments, tail, (whole, proper, unclosed, done)) = cut none lines tt in
      (
        outside line ∷ segments,
        tail,
        (
          ap (λ ls. line ∷ ls) whole,
          (e, proper),
          unclosed,
          rw (e, done) (followed_by-outside line tail (pass_of segments)),
        ),
      )
]
cut (some (first, body)) (line ∷ lines) h = elim (Bool-cases (closes line)) [
  | inl e ↦
      let (segments, tail, (whole, proper, unclosed, done)) = cut none lines tt in
      let all : first ∷ (body ++ line ∷ lines)
          ≡ ((first ∷ (body ++ line ∷ [])) ++ lines_of segments) ++ tail =
        ap (λ ls. first ∷ (body ++ line ∷ ls)) whole
        ∙ ap (λ ls. first ∷ ls) (sym (append_assoc body (line ∷ []) (lines_of segments ++ tail)))
        ∙ sym (append_assoc (first ∷ (body ++ line ∷ [])) (lines_of segments) tail) in
      (
        function first body line ∷ segments,
        tail,
        (
          all,
          ((h.0, h.1, e), proper),
          unclosed,
          rw (e, done)
              (followed_by-function (opt_function (first ∷ (body ++ line ∷ []))) (pass_of segments)
                tail),
        ),
      )
  | inr e ↦
      let longer = All-append (λ l. closes l ≡ false) body (line ∷ []) h.1 (e, tt) in
      let (segments, tail, (whole, proper, unclosed, done)) =
        cut (some (first, body ++ line ∷ [])) lines (h.0, longer) in
      (
        segments,
        tail,
        (
          ap (λ ls. first ∷ ls) (sym (append_assoc body (line ∷ []) lines)) ∙ whole,
          proper,
          unclosed,
          rw e done,
        ),
      )
]

-- Every text is cut into functions, lines outside of them, and at its end perhaps a function that
-- is not closed. Each function is optimised by itself, and all else stays as it is and in its
-- place; the pass ends if the optimiser ends on each function.
pub opt_scalar-segments :
    (text : Bytes)
    → (segments : List Segment) × (tail : List MirLine) × (map living_line (split_lines text)
        ≡ lines_of segments ++ tail)
      × All IsSegment segments
      × IsOpen tail
      × (opt_scalar (some text)
          ≡ (pass_of segments >>= (λ lines. some (write_lines (lines ++ tail)))))
unfolding opt_scalar
opt_scalar-segments text =
    let (segments, tail, (whole, proper, unclosed, done)) =
      cut none (map living_line (split_lines text)) tt in
    (segments, tail, whole, proper, unclosed, rw done (written (pass_of segments) tail))
  where
    written :
        (lines : Option (List MirLine)) (tail : List MirLine)
        → (followed_by tail lines >>= (λ lines. some (write_lines lines)))
          ≡ (lines >>= (λ lines. some (write_lines (lines ++ tail))))
    written none tail = refl
    written (some lines) tail = refl
