-- ===== src/Mir/Function/Justified.antt =====
-- Rounds of dead code removal: what they leave, and why each removed line may go.
use vix_lang.Common.Text.{Bytes}
use vix_lang.Common.{
  ◌≡◌, refl, ◌∙◌, inl, inr, Bool, true, false, ◌||◌, some, List, [], ◌∷◌, ◌++◌, arith, append_assoc,
  append-nil, All, All-append, All-append_left, All-append_right, Bool-cases, Option-cases,
}
use vix_lang.Mir.Function.{MirLine, kill, candidate, used_in, removes, sweep}

-- The same lines, with some of the living ones removed.
abbrev pub Weaker : List MirLine → List MirLine → Type 0
Weaker [] [] = Unit
Weaker (l ∷ ls) (k ∷ ks) = (k.text ≡ l.text) × (k.alive ≡ true → l.alive ≡ true) × Weaker ls ks
Weaker _ _ = ⊥

pub Weaker-refl : (ls : List MirLine) → Weaker ls ls
Weaker-refl [] = tt
Weaker-refl (l ∷ ls) = (refl, λ h. h, Weaker-refl ls)

pub Weaker-trans : (ls ks js : List MirLine) → Weaker ls ks → Weaker ks js → Weaker ls js
Weaker-trans [] [] [] h k = tt
Weaker-trans (a ∷ ls) (b ∷ ks) (c ∷ js) h k =
    (k.0 ∙ h.0, λ e. h.1 (k.1 e), Weaker-trans ls ks js h.2 k.2)
Weaker-trans [] (b ∷ ks) js h k = absurd h
Weaker-trans (a ∷ ls) [] js h k = absurd h
Weaker-trans [] [] (c ∷ js) h k = absurd k
Weaker-trans (a ∷ ls) (b ∷ ks) [] h k = absurd k

Weaker-kill :
    (before : List MirLine) (dead : Bool) (l : MirLine) (after : List MirLine)
    → Weaker (before ++ l ∷ after) (before ++ kill dead l ∷ after)
Weaker-kill [] true l after = (refl, λ h. cc, Weaker-refl after)
Weaker-kill [] false l after = Weaker-refl (l ∷ after)
Weaker-kill (b ∷ before) dead l after = (refl, λ h. h, Weaker-kill before dead l after)

-- A name that is not used stays so.
used_in-Weaker :
    (dest : Bytes) (ls ks : List MirLine)
    → Weaker ls ks
    → used_in dest ls ≡ false
    → used_in dest ks ≡ false
unfolding used_in
used_in-Weaker dest [] [] h e = refl
used_in-Weaker dest (l ∷ ls) (k ∷ ks) h e =
    let rest = used_in-Weaker dest ls ks h.2 (ground arith) in rw h.0 (ground (arith, h.1))
used_in-Weaker dest [] (k ∷ ks) h e = absurd h
used_in-Weaker dest (l ∷ ls) [] h e = absurd h

used_in-append :
    (dest : Bytes) (xs ys : List MirLine)
    → used_in dest (xs ++ ys) ≡ (used_in dest xs || used_in dest ys)
unfolding used_in
used_in-append dest [] ys = refl
used_in-append dest (x ∷ xs) ys = ground (arith, used_in-append dest xs ys)

-- A line that is no longer alive was one that may be removed, and no living line uses what it
-- assigns.
abbrev pub IsJustified : List MirLine → MirLine → Type 0
IsJustified all l =
    l.alive ≡ false → (dest : Bytes) × (candidate l.text ≡ some dest) × (used_in dest all ≡ false)

Justified-Weaker :
    (all all' ls : List MirLine)
    → Weaker all all'
    → All (IsJustified all) ls
    → All (IsJustified all') ls
Justified-Weaker all all' [] w h = tt
Justified-Weaker all all' (l ∷ ls) w h = (
  λ dead. let (d, c, u) = h.0 dead in (d, c, used_in-Weaker d all all' w u),
  Justified-Weaker all all' ls w h.1,
)

-- What a round finds before it removes a line.
removes_inv :
    (before : List MirLine) (l : MirLine) (after : List MirLine)
    → removes before l after ≡ true
    → (dest : Bytes) × (candidate l.text ≡ some dest)
      × (used_in dest (before ++ kill true l ∷ after) ≡ false)
unfolding removes used_in
removes_inv before l after h = elim (Option-cases (candidate l.text)) [
  | inl e ↦ ground arith
  | inr (d, e) ↦ (d, e, ground (arith, used_in-append d before (kill true l ∷ after)))
]

-- One removal keeps the justification of all lines.
kill-Justified :
    (before : List MirLine) (l : MirLine) (after : List MirLine)
    → let dead = removes before l after in
      All (IsJustified (before ++ l ∷ after)) (before ++ l ∷ after)
      → All (IsJustified (before ++ kill dead l ∷ after)) (before ++ kill dead l ∷ after)
kill-Justified before l after h = elim (Bool-cases (removes before l after)) [
  | inl e ↦
      let all' = before ++ kill true l ∷ after in
      let others =
        Justified-Weaker (before ++ l ∷ after) all' (before ++ l ∷ after)
          (Weaker-kill before true l after) h in
      rw e (
        All-append (IsJustified all') before (kill true l ∷ after)
          (All-append_left (IsJustified all') before (l ∷ after) others)
          (
            (λ _. removes_inv before l after e),
            (All-append_right (IsJustified all') before (l ∷ after) others).1,
          ))
  | inr e ↦ rw e h
]

-- A round keeps the lines but for removals, and every removal is justified at its end.
pub sweep-Justified :
    (before after : List MirLine)
    → All (IsJustified (before ++ after)) (before ++ after)
    → Weaker (before ++ after) (sweep before after).0
      × All (IsJustified (sweep before after).0) (sweep before after).0
unfolding sweep
sweep-Justified before [] h =
    (rw (append-nil before) (Weaker-refl before), rw (append-nil before) at h)
sweep-Justified before (l ∷ after) h =
    let dead = removes before l after in
    let h' = kill-Justified before l after h in
    let regroup = append_assoc before (kill dead l ∷ []) after in
    let (w, j) = sweep-Justified (before ++ kill dead l ∷ []) after (rw regroup h') in
    (
      Weaker-trans (before ++ l ∷ after) (before ++ kill dead l ∷ after) _
          (Weaker-kill before dead l after) (rw regroup at w),
      j,
    )
