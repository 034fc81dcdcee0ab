-- ===== src/Mir/Line/Alias.antt =====
-- The value of an alias is made of bytes of the line.
use vix_lang.Common.Text.{Bytes, codes, has_prefix, skip_white}
use vix_lang.Common.{
  ℕ, zero, suc, ◌≡◌, refl, ap, true, false, Bool, Option, none, some, [], ◌∷◌, arith, All, drop,
  if◌then◌else◌, Bool-cases, inl, inr, >>=-eq-some, guarded_some,
}
use vix_lang.Mir.Line.{
  assignment_uses, alias_value, const_value, integer_type, scan_two, scan_word, word_bytes,
  copy_value, as_word, none_left,
}
use vix_lang.Mir.Tokens.{skip_space}

-- A property of the bytes of a text passes to the parts that the reader takes of it.
module _ (P : ℕ → Type 0) where
  All-skip_space : (s : Bytes) → All P s → All P (skip_space s)
  unfolding skip_space
  All-skip_space [] h = tt
  All-skip_space (c ∷ s) h = ground (arith, All-skip_space s h.1)

  All-skip_white : (s : Bytes) → All P s → All P (skip_white s)
  unfolding skip_white
  All-skip_white [] h = tt
  All-skip_white (c ∷ s) h = ground (arith, All-skip_white s h.1)

  pub All-drop : (n : ℕ) (s : Bytes) → All P s → All P (drop n s)
  All-drop zero s h = h
  All-drop (suc n) [] h = tt
  All-drop (suc n) (c ∷ s) h = All-drop n s h.1

  All-word_bytes :
      (n : ℕ) (s : Bytes) → All P s → All P (word_bytes n s).0 × All P (word_bytes n s).1
  unfolding word_bytes
  All-word_bytes zero s h = (tt, h)
  All-word_bytes (suc n) [] h = (tt, tt)
  All-word_bytes (suc n) (c ∷ s) h = ground (arith, All-word_bytes n s h.1)

  All-as_word :
      (p : Bytes × Bytes) (w r : Bytes)
      → All P p.0 × All P p.1
      → as_word p ≡ some (w, r)
      → All P w × All P r
  All-as_word ([], rest) w r h e = cc
  All-as_word (c ∷ word, rest) w r h e = ground arith

  All-scan_word :
      (n : ℕ) (s w r : Bytes) → All P s → scan_word n s ≡ some (w, r) → All P w × All P r
  unfolding scan_word
  All-scan_word n s w r h =
      All-as_word (word_bytes n (skip_white s)) w r (All-word_bytes n _ (All-skip_white s h))

  All-scan_two : (s t v : Bytes) → All P s → scan_two s ≡ some (t, v) → All P v
  unfolding scan_two
  All-scan_two s t v h e =
      let ((t', s'), m, e') = >>=-eq-some (scan_word 31 s) _ e in
      let ((v', r), m', e'') = >>=-eq-some (scan_word 127 s') _ e' in
      let (_, same) = guarded_some (none_left (scan_word 1 r)) (t', v') e'' in
      let (_, hs) = All-scan_word 31 s t' s' h m in
      let (hv, _) = All-scan_word 127 s' v' r hs m' in
      let value : v' ≡ v = ap (λ (p : Bytes × Bytes). p.1) same in rw value at hv

  All-const_value :
      (s : Bytes) (o : Option (Bytes × Bytes)) (v : Bytes)
      → All P s
      → scan_two s ≡ o
      → const_value o ≡ some v
      → All P v
  unfolding const_value
  All-const_value s none v h m e = cc
  All-const_value s (some (t, w)) v h m e =
      let (_, same) = guarded_some (integer_type t) w e in rw same at (All-scan_two s t w h m)

  All-const_if :
      (t : Bool) (s : Bytes) (v : Bytes)
      → All P s
      → (if t then const_value (scan_two s) else none) ≡ some v
      → All P v
  All-const_if true s v h e = All-const_value s (scan_two s) v h refl e
  All-const_if false s v h e = cc

  All-copy_value :
      (s : Bytes) (o : Option (Bytes × Bytes)) (c : Option Bytes) (v : Bytes)
      → All P s
      → (c ≡ some v → All P v)
      → scan_two s ≡ o
      → copy_value o c ≡ some v
      → All P v
  All-copy_value s none c v h k m e = k e
  All-copy_value s (some (t, w)) c v h k m e =
      let same : w ≡ v = cc in rw same at (All-scan_two s t w h m)

  pub All-alias_value :
      (line v : Bytes) → All P (assignment_uses line) → alias_value line ≡ some v → All P v
  unfolding alias_value
  All-alias_value line v h e =
      let rhs = skip_space (assignment_uses line) in
      let part = λ (n : ℕ). All-drop n rhs (All-skip_space (assignment_uses line) h) in
      let in_const = All-const_if (has_prefix rhs (codes "const ")) (drop 6 rhs) v (part 6) in
      elim (Bool-cases (has_prefix rhs (codes "copy "))) [
        | inl t ↦
            All-copy_value (drop 5 rhs) (scan_two (drop 5 rhs)) _ v (part 5) in_const refl
              (rw t at e)
        | inr f ↦ in_const (rw f at e)
      ]
