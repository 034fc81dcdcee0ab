-- ===== src/Mir/Function/DeadCode.antt =====
-- Dead code removal: it ends, it removes only lines that no living line needs, and it leaves no
-- line that it could remove.
use vix_lang.Common.Text.{codes, has_prefix}
use vix_lang.Common.{
  ℕ, zero, suc, ◌+◌, ◌≤◌, ◌<◌, ◌≡◌, ◌≢◌, sym, ◌∙◌, inl, inr, true, false, not, ◌||◌, none, some,
  List, [], ◌∷◌, ◌++◌, if◌then◌else◌, length, arith, append_assoc, append-nil, All, Bool-cases,
  Option-cases,
}
use vix_lang.Mir.Line.{assignment_uses}
use vix_lang.Mir.Tokens.{skip_space}
use vix_lang.Mir.Function.{MirLine, is_call, kill, candidate, removes, sweep, eliminate}
use vix_lang.Mir.Function.Justified.{
  Weaker, Weaker-refl, Weaker-trans, IsJustified, sweep-Justified,
}

-- How many lines are alive.
abbrev living : List MirLine → ℕ
living [] = 0
living (l ∷ ls) = (if l.alive then 1 else 0) + living ls

living-append : (xs ys : List MirLine) → living (xs ++ ys) ≡ living xs + living ys
living-append [] ys = omega arith
living-append (x ∷ xs) ys = omega (arith, living-append xs ys)

living-le-length : (ls : List MirLine) → living ls ≤ length ls
living-le-length [] = omega arith
living-le-length (l ∷ ls) = ground (arith, living-le-length ls)

removes_alive :
    (before : List MirLine) (l : MirLine) (after : List MirLine)
    → removes before l after ≡ true
    → l.alive ≡ true
unfolding removes
removes_alive before l after h = ground arith

-- A round that says so removes a line, and one that does not changes nothing.
sweep-living :
    (before after : List MirLine)
    → ((sweep before after).1 ≡ true → living (sweep before after).0 < living (before ++ after))
      × (living (sweep before after).0 ≤ living (before ++ after))
      × ((sweep before after).1 ≡ false → (sweep before after).0 ≡ before ++ after)
unfolding sweep
sweep-living before [] =
    (λ e. cc, omega (arith, living-append before []), λ _. sym (append-nil before))
sweep-living before (l ∷ after) = elim (Bool-cases (removes before l after)) [
  | inl e ↦
      let next = before ++ kill true l ∷ [] in
      let ih = sweep-living next after in
      let less : living (next ++ after) < living (before ++ l ∷ after) = ground (
        arith,
        removes_alive before l after e,
        living-append next after,
        living-append before (kill true l ∷ []),
        living-append before (l ∷ after),
      ) in
      rw e (λ _. omega (arith, ih.1), omega (arith, ih.1), λ h. cc)
  | inr e ↦
      let ih = sweep-living (before ++ l ∷ []) after in
      let same = append_assoc before (l ∷ []) after in rw e (rw same at ih)
]

-- The rounds end.
eliminate-ne-none : (fuel : ℕ) (ls : List MirLine) → living ls < fuel → eliminate fuel ls ≢ none
unfolding eliminate
eliminate-ne-none zero ls h = elim h [ ]
eliminate-ne-none (suc fuel) ls h =
    ground (arith, sweep-living [] ls, eliminate-ne-none fuel (sweep [] ls).0)

-- No line can be removed.
abbrev pub IsLive : List MirLine → List MirLine → Type 0
IsLive before [] = Unit
IsLive before (l ∷ after) = (removes before l after ≡ false) × IsLive (before ++ l ∷ []) after

sweep-IsLive : (before after : List MirLine) → (sweep before after).1 ≡ false → IsLive before after
unfolding sweep
sweep-IsLive before [] h = tt
sweep-IsLive before (l ∷ after) h = elim (Bool-cases (removes before l after)) [
  | inl e ↦ ground arith
  | inr e ↦ (e, sweep-IsLive (before ++ l ∷ []) after (rw e at h))
]

-- What dead code removal does: the lines keep their texts and their order, each that it removes
-- may be removed and is used by none of the lines that stay, and of the lines that stay none
-- could be removed.
pub eliminate_lem :
    (fuel : ℕ) (ls ks : List MirLine)
    → All (IsJustified ls) ls
    → eliminate fuel ls ≡ some ks
    → Weaker ls ks × All (IsJustified ks) ks × IsLive [] ks
unfolding eliminate
eliminate_lem zero ls ks j h = cc
eliminate_lem (suc fuel) ls ks j h = elim (Bool-cases (sweep [] ls).1) [
  | inl e ↦
      let (w, j') = sweep-Justified [] ls j in
      let (w', j'', live) = eliminate_lem fuel (sweep [] ls).0 ks j' (rw e at h) in
      (Weaker-trans ls (sweep [] ls).0 ks w w', j'', live)
  | inr e ↦
      let last : some (sweep [] ls).0 ≡ some ks = rw e at h in
      let result : (sweep [] ls).0 ≡ ks = cc in
      let same : ls ≡ ks = sym ((sweep-living [] ls).2 e) ∙ result in
      rw (← same) (Weaker-refl ls, j, sweep-IsLive [] ls e)
]

pub alive_Justified :
    (all ls : List MirLine) → All (λ l. l.alive ≡ true) ls → All (IsJustified all) ls
alive_Justified all [] h = tt
alive_Justified all (l ∷ ls) h = (λ dead. cc (h.0), alive_Justified all ls h.1)

-- From living lines dead code removal always ends, within one round more than there are lines. It
-- keeps the lines in order, with their texts; every line that it removes is no `call` or
-- `syscall`, assigns a name, and no line that stays uses that name; and of the lines that stay
-- none could be removed.
pub eliminate_total :
    (ls : List MirLine)
    → All (λ l. l.alive ≡ true) ls
    → (ks : List MirLine) × (eliminate (length ls + 1) ls ≡ some ks)
      × Weaker ls ks
      × All (IsJustified ks) ks
      × IsLive [] ks
eliminate_total ls h = elim (Option-cases (eliminate (length ls + 1) ls)) [
  | inl e ↦ absurd (eliminate-ne-none (length ls + 1) ls (omega (arith, living-le-length ls)) e)
  | inr (ks, e) ↦
      let (w, j, live) = eliminate_lem (length ls + 1) ls ks (alive_Justified ls ls h) e in
      (ks, e, w, j, live)
]

-- Whether a line with an effect is alive: a line whose right side is a call or a system call.
abbrev pub IsKept : MirLine → Type 0
IsKept l =
    let rhs = skip_space (assignment_uses l.text) in
    (not (has_prefix rhs (codes "call ") || has_prefix rhs (codes "syscall ")) || l.alive) ≡ true

Justified-Kept : (all ls : List MirLine) → All (IsJustified all) ls → All IsKept ls
Justified-Kept all [] j = tt
Justified-Kept all (l ∷ ls) j = (stays j.0, Justified-Kept all ls j.1)
  where
    stays : IsJustified all l → IsKept l
    stays k = elim (Bool-cases l.alive) [
      | inl alive ↦ ground (arith, alive)
      | inr dead ↦ let (d, c, _) = k dead in unfold candidate in unfold is_call in ground (arith, c)
    ]

-- From living lines, dead code removal removes no line whose right side starts with `call ` or
-- `syscall `.
pub eliminate-calls :
    (fuel : ℕ) (ls ks : List MirLine)
    → All (λ l. l.alive ≡ true) ls
    → eliminate fuel ls ≡ some ks
    → All IsKept ks
eliminate-calls fuel ls ks h e =
    let (w, j, live) = eliminate_lem fuel ls ks (alive_Justified ls ls h) e in
    Justified-Kept ks ks j
