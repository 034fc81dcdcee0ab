-- ===== src/Helper/Trim.antt =====
-- Trimming removes the blanks at the two ends.
use vix_lang.Common.Int.{pos, int_max}
use vix_lang.Common.Text.{Bytes, is_blank}
use Prim.Native.Nat.{max}
use vix_lang.Common.{
  min, ℕ, zero, suc, ◌+◌, ◌-◌, ◌≤◌, ◌<◌, ◌≡◌, refl, ap, ◌∙◌, Bool, true, false, some, [], ◌∷◌, ◌++◌,
  length, length-append, get_or, arith, All, append_assoc, take-append, drop-append,
}
use vix_lang.Helper.Substring.{substr-string_slice}
use vix_lang.Helper.{blanks_in_front, end_from, trim_ascii, substr}

abbrev pub IsBlank : Bytes → Type 0
IsBlank = All (λ c. is_blank c ≡ true)

blanks_in_front-append :
    (v s : Bytes) → IsBlank v → blanks_in_front (v ++ s) ≡ length v + blanks_in_front s
unfolding blanks_in_front
blanks_in_front-append [] s h = omega arith
blanks_in_front-append (c ∷ v) s h = rw h.0 (omega (arith, blanks_in_front-append v s h.1))

pub get_or-append : (x w : Bytes) (k : ℕ) → get_or (x ++ w) (length x + k) 0 ≡ get_or w k 0
get_or-append [] w k = let e : 0 + k ≡ k = omega arith in rw e
get_or-append (c ∷ x) w k =
    let e : suc (length x) + k ≡ suc (length x + k) = omega arith in rw e (get_or-append x w k)

get_or-IsBlank : (w : Bytes) (k : ℕ) → IsBlank w → k < length w → is_blank (get_or w k 0) ≡ true
get_or-IsBlank [] k h lt = elim lt [ ]
get_or-IsBlank (c ∷ w) zero h lt = h.0
get_or-IsBlank (c ∷ w) (suc k) h lt = get_or-IsBlank w k h.1 (omega arith)

-- The blanks at the end are passed, as far as the start.
end_from-append :
    (start : ℕ) (x w : Bytes) (k : ℕ)
    → IsBlank w
    → k ≤ length w
    → start ≤ length x
    → end_from start (x ++ w) (length x + k) ≡ end_from start (x ++ w) (length x)
end_from-append start x w zero h le room = let e : length x + 0 ≡ length x = omega arith in rw e
end_from-append start x w (suc k) h le room =
    let last = get_or-append x w k in
    let blank = get_or-IsBlank w k h (omega arith) in
    let step : end_from start (x ++ w) (suc (length x + k))
        ≡ end_from start (x ++ w) (length x + k) =
      unfold end_from in rw last (ground (arith, blank)) in
    let e : length x + suc k ≡ suc (length x + k) = omega arith in
    ap (end_from start (x ++ w)) e ∙ (step ∙ end_from-append start x w k h (omega arith) room)

-- A text that begins and ends with bytes that are no blanks, or is empty.
abbrev pub IsTrimmed : Bytes → Type 0
IsTrimmed [] = Unit
IsTrimmed (c ∷ s) = (is_blank c ≡ false) × (is_blank (get_or (c ∷ s) (length s) 0) ≡ false)

end_from_start : (start : ℕ) (s : Bytes) → end_from start s start ≡ start
unfolding end_from
end_from_start zero s = refl
end_from_start (suc start) s = ground arith

last-kept :
    (start end : ℕ) (s : Bytes)
    → is_blank (get_or s end 0) ≡ false
    → end_from start s (suc end) ≡ suc end
unfolding end_from
last-kept start end s h = ground (arith, h)

pub get_or-front : (x w : Bytes) (k : ℕ) → k < length x → get_or (x ++ w) k 0 ≡ get_or x k 0
get_or-front [] w k h = elim h [ ]
get_or-front (c ∷ x) w zero h = refl
get_or-front (c ∷ x) w (suc k) h = get_or-front x w k (omega arith)

-- The end of a trimmed text between blanks.
end_from-trimmed :
    (v t w : Bytes)
    → IsBlank w
    → IsTrimmed t
    → end_from (length v) (v ++ (t ++ w)) (length (v ++ (t ++ w))) ≡ length v + length t
end_from-trimmed v t w h trimmed =
    let regroup = append_assoc v t w in
    let size = length-append v t in
    let size' = length-append (v ++ t) w in
    let passed =
      end_from-append (length v) (v ++ t) w (length w) h (omega arith) (omega (arith, size)) in
    rw (← regroup, size')
      (passed ∙ (ap (end_from (length v) ((v ++ t) ++ w)) size ∙ stop t trimmed))
  where
    stop :
        (t : Bytes)
        → IsTrimmed t
        → end_from (length v) ((v ++ t) ++ w) (length v + length t) ≡ length v + length t
    stop [] k =
        let e : length v + 0 ≡ length v = omega arith in
        rw e (end_from_start (length v) ((v ++ []) ++ w))
    stop (c ∷ s) (front, back) =
        let e : length v + suc (length s) ≡ suc (length v + length s) = omega arith in
        let regroup' = append_assoc v (c ∷ s) w in
        let at = get_or-append v ((c ∷ s) ++ w) (length s) in
        rw (e, regroup')
          (last-kept (length v) (length v + length s) (v ++ ((c ∷ s) ++ w))
            (ap is_blank (at ∙ get_or-front (c ∷ s) w (length s) (omega arith)) ∙ back))

blanks_in_front-trimmed :
    (v t w : Bytes)
    → IsBlank v
    → IsTrimmed t
    → 0 < length t
    → blanks_in_front (v ++ (t ++ w)) ≡ length v
blanks_in_front-trimmed v [] w h k lt = elim lt [ ]
blanks_in_front-trimmed v (c ∷ t) w h k lt =
    let first : blanks_in_front (c ∷ (t ++ w)) ≡ 0 = unfold blanks_in_front in rw (k.0) in
    omega (arith, blanks_in_front-append v (c ∷ (t ++ w)) h, first)

-- The part of a text that stands between two others.
part :
    (can_alloc : ℕ → Bool) (v t w : Bytes)
    → ((n : ℕ) → can_alloc n ≡ true)
    → length (v ++ (t ++ w)) ≤ int_max
    → substr can_alloc (some (v ++ (t ++ w))) (pos (length v)) (pos (length v + length t)) ≡ some t
part can_alloc v t w alloc small =
    let text = v ++ (t ++ w) in
    let size = length-append v (t ++ w) in
    let size' = length-append t w in
    let lo : min (length v) (length text) ≡ length v = omega (arith, size) in
    let hi : min (max (length v) (length v + length t)) (length text) - min (length v) (length text)
        ≡ length t =
      omega (arith, size, size') in
    (substr-string_slice can_alloc text (pos (length v)) (pos (length v + length t)) small
      (omega (arith, size)) (omega (arith, size, size'))).0
    ∙ (rw (hi, lo, alloc (length t + 1), drop-append v (t ++ w), take-append t w (length t) refl)
        refl)

-- A text that is not empty and neither begins nor ends with a blank is what is left of it when
-- there are blanks around it, if the whole has at most `INT_MAX` bytes and every allocation
-- succeeds.
pub trim_ascii-trimmed :
    (can_alloc : ℕ → Bool) (v t w : Bytes)
    → ((n : ℕ) → can_alloc n ≡ true)
    → IsBlank v
    → IsBlank w
    → IsTrimmed t
    → 0 < length t
    → length (v ++ (t ++ w)) ≤ int_max
    → trim_ascii can_alloc (some (v ++ (t ++ w))) ≡ some t
unfolding trim_ascii
trim_ascii-trimmed can_alloc v t w alloc bv bw trimmed lt small =
    let text = v ++ (t ++ w) in
    let start = blanks_in_front-trimmed v t w bv trimmed lt in
    let end = end_from-trimmed v t w bw trimmed in
    rw (start, end) (part can_alloc v t w alloc small)
