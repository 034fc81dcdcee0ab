-- ===== src/Mir/Pass/Total.antt =====
-- The pass ends on every text whose assignments have a destination.
use vix_lang.Common.Text.{Bytes}
use vix_lang.Common.{
  suc, ◌+◌, ◌≡◌, refl, ap, Option, none, some, List, [], ◌∷◌, ◌++◌, length, arith, All, All-append,
  map, Bool-cases, inl, inr, length-append,
}
use vix_lang.Mir.Function.Justified.{Weaker}
use vix_lang.Mir.Function.Propagation.{IsAssign, IsAlive, opt_function_total}
use vix_lang.Mir.Function.{MirLine, opt_function}
use vix_lang.Mir.Pass.{split_lines, living_line, opens, closes, opt_lines, write_lines, opt_scalar}

-- A living line whose destination, if it has an `=`, is not empty.
abbrev pub IsProper : MirLine → Type 0
IsProper l = IsAssign l.text × IsAlive l

length-Weaker : (ls ks : List MirLine) → Weaker ls ks → length ks ≡ length ls
length-Weaker [] [] w = refl
length-Weaker (l ∷ ls) (k ∷ ks) w = ap suc (length-Weaker ls ks w.2)
length-Weaker [] (k ∷ ks) w = elim w [ ]
length-Weaker (l ∷ ls) [] w = elim w [ ]

-- The optimiser keeps the number of lines.
function_length :
    (body : List MirLine)
    → All IsProper body
    → (ks : List MirLine) × (opt_function body ≡ some ks) × (length ks ≡ length body)
function_length body h =
    let (ls, ks, _, ended, size, w, _, _) = opt_function_total body h in
    (ks, ended, omega (arith, length-Weaker ls ks w, size))

-- The lines of the function that is open.
abbrev pub open_lines : Option (List MirLine) → List MirLine
open_lines none = []
open_lines (some body) = body

opt_lines_total :
    (body : Option (List MirLine)) (lines : List MirLine)
    → All IsProper (open_lines body)
    → All IsProper lines
    → (ks : List MirLine) × (opt_lines body lines ≡ some ks)
      × (length ks ≡ length (open_lines body) + length lines)
unfolding opt_lines
opt_lines_total none [] p h = ([], refl, refl)
opt_lines_total (some body) [] p h = (body, refl, omega arith)
opt_lines_total none (l ∷ lines) p h = elim (Bool-cases (opens l)) [
  | inl e ↦
      let (ks, done, size) = opt_lines_total (some (l ∷ [])) lines (h.0, tt) h.1 in
      (ks, rw e done, omega (arith, size))
  | inr e ↦
      let (ks, done, size) = opt_lines_total none lines tt h.1 in
      (l ∷ ks, rw (e, done), omega (arith, size))
]
opt_lines_total (some body) (l ∷ lines) p h =
    let longer = All-append IsProper body (l ∷ []) p (h.0, tt) in
    elim (Bool-cases (closes l)) [
      | inl e ↦
          let (body', ended, size') = function_length (body ++ l ∷ []) longer in
          let (ks, done, size) = opt_lines_total none lines tt h.1 in
          (
            body' ++ ks,
            rw (e, ended, done),
            omega (arith, size, size', length-append body' ks, length-append body (l ∷ [])),
          )
      | inr e ↦
          let (ks, done, size) = opt_lines_total (some (body ++ l ∷ [])) lines longer h.1 in
          (ks, rw e done, omega (arith, size, length-append body (l ∷ [])))
    ]

-- The pass ends on every text in which each line with an `=` has a destination in front of it and
-- no second `=`. It ends with as many lines as the text has, and writes them out as `write_lines`
-- does.
pub opt_scalar_total :
    (text : Bytes)
    → All IsProper (map living_line (split_lines text))
    → (ks : List MirLine) × (opt_lines none (map living_line (split_lines text)) ≡ some ks)
      × (length ks ≡ length (split_lines text))
      × (opt_scalar (some text) ≡ some (write_lines ks))
unfolding opt_scalar
opt_scalar_total text h =
    let (ks, done, size) = opt_lines_total none (map living_line (split_lines text)) tt h in
    (ks, done, omega (arith, size, length-map (split_lines text)), rw done)
  where
    length-map : (xs : List Bytes) → length (map living_line xs) ≡ length xs
    length-map [] = refl
    length-map (x ∷ xs) = ap suc (length-map xs)
