-- ===== src/Mir/Function/Behaviour.antt =====
-- What dead code removal keeps: the behaviour of a function.
use vix_lang.Common.Text.{Bytes, str_eq, str_eq_iff}
use vix_lang.Common.{
  ℕ, zero, suc, ◌+◌, ◌≡◌, ◌⊎◌, inl, inr, refl, ap, ◌∙◌, true, false, Option, none, some, List, [],
  ◌∷◌, get_elem?, length, arith, All, Bool-cases, Option-cases,
}
use vix_lang.Mir.Line.{fold_branch, assignment_dest, assignment_uses}
use vix_lang.Mir.Tokens.{contains_token}
use vix_lang.Mir.Function.{
  MirLine, candidate, used_in, propagate, rewrite_line, note_alias, opt_function,
}
use vix_lang.Mir.Function.Justified.{Weaker, IsJustified}
use vix_lang.Mir.Function.DeadCode.{eliminate_lem, alive_Justified}
use vix_lang.Mir.Function.Meaning.{
  Meaning, IsHarmless, State, texts_of, assigned, finish, step, run, Agrees,
}

-- Propagation revives and removes no line.
pub propagate-alive :
    (aliases : List (Bytes × Bytes)) (ls ks : List MirLine)
    → All (λ l. l.alive ≡ true) ls
    → propagate aliases ls ≡ some ks
    → All (λ l. l.alive ≡ true) ks
unfolding propagate
propagate-alive aliases [] ks h e = let same : [] ≡ ks = cc in rw (← same) tt
propagate-alive aliases (l ∷ ls) ks h e = elim (Option-cases (rewrite_line aliases l.text)) [
  | inl f ↦ let out : none ≡ some ks = rw f at e in cc
  | inr (text', f) ↦ elim (Option-cases (propagate (note_alias aliases text') ls)) [
    | inl g ↦ let out : none ≡ some ks = rw (f, g) at e in cc
    | inr (ls', g) ↦
        let out : some (record l { text = fold_branch text' } ∷ ls') ≡ some ks = rw (f, g) at e in
        let same : record l { text = fold_branch text' } ∷ ls' ≡ ks = cc in
        rw (← same) (h.0, propagate-alive (note_alias aliases text') ls ls' h.1 g)
  ]
]

module _ (m : Meaning) where
  open m use {Value, World, exec}

  texts_of-Weaker : (ls ks : List MirLine) → Weaker ls ks → texts_of ks ≡ texts_of ls
  texts_of-Weaker [] [] w = refl
  texts_of-Weaker (l ∷ ls) (k ∷ ks) w =
      ap (λ t. t ∷ texts_of ks) w.0 ∙ ap (λ ts. l.text ∷ ts) (texts_of-Weaker ls ks w.2)
  texts_of-Weaker [] (k ∷ ks) w = absurd w
  texts_of-Weaker (l ∷ ls) [] w = absurd w

  -- The two lines at a place: neither, or both with the same text.
  line_at :
      (ls ks : List MirLine) (i : ℕ)
      → Weaker ls ks
      → ((get_elem? ls i ≡ none) × (get_elem? ks i ≡ none))
        ⊎ ((l k : MirLine) × (get_elem? ls i ≡ some l)
            × (get_elem? ks i ≡ some k)
            × (k.text ≡ l.text))
  line_at [] [] i w = inl (refl, refl)
  line_at (l ∷ ls) (k ∷ ks) zero w = inr (l, k, refl, refl, w.0)
  line_at (l ∷ ls) (k ∷ ks) (suc i) w = line_at ls ks i w.2
  line_at [] (k ∷ ks) i w = absurd w
  line_at (l ∷ ls) [] i w = absurd w

  All-get_elem? :
      (P : MirLine → Type 0) (ls : List MirLine) (i : ℕ) (l : MirLine)
      → All P ls
      → get_elem? ls i ≡ some l
      → P l
  All-get_elem? P [] i l h e = cc
  All-get_elem? P (x ∷ xs) zero l h e = let same : x ≡ l = cc in rw same at (h.0)
  All-get_elem? P (x ∷ xs) (suc i) l h e = All-get_elem? P xs i l h.1 e

  -- What a living line uses is used.
  used_in-get_elem? :
      (name : Bytes) (ls : List MirLine) (i : ℕ) (l : MirLine)
      → get_elem? ls i ≡ some l
      → l.alive ≡ true
      → contains_token (assignment_uses l.text) name ≡ true
      → used_in name ls ≡ true
  unfolding used_in
  used_in-get_elem? name [] i l e a u = cc
  used_in-get_elem? name (x ∷ xs) zero l e a u = let same : x ≡ l = cc in rw same (ground arith)
  used_in-get_elem? name (x ∷ xs) (suc i) l e a u =
      ground (arith, used_in-get_elem? name xs i l e a u)

  abbrev AgreesOn : List MirLine → (Bytes → Value) → (Bytes → Value) → Type 0
  AgreesOn ks env env' = (name : Bytes) → (used_in name ks ≡ false) ⊎ (env name ≡ env' name)

  abbrev at : ℕ → (Bytes → Value) → World → State m
  at pc env w = record { pc = pc; env = env; world = w }

  -- The same assignment on both sides.
  assigned-AgreesOn :
      (ks : List MirLine) (dest : Option Bytes) (v : Value) (env env' : Bytes → Value)
      → AgreesOn ks env env'
      → AgreesOn ks (assigned m dest v env) (assigned m dest v env')
  assigned-AgreesOn ks none v env env' h name = h name
  assigned-AgreesOn ks (some dest) v env env' h name = elim (Bool-cases (str_eq name dest)) [
    | inl e ↦ inr (rw e refl)
    | inr e ↦ rw e (h name)
  ]

  -- The assignment of a name that no line uses, on one side.
  unused-AgreesOn :
      (ks : List MirLine) (dest : Bytes) (v : Value) (env env' : Bytes → Value)
      → used_in dest ks ≡ false
      → AgreesOn ks env env'
      → AgreesOn ks (assigned m (some dest) v env) env'
  unused-AgreesOn ks dest v env env' u h name = elim (Bool-cases (str_eq name dest)) [
    | inl e ↦ inl (rw ((str_eq_iff name dest).0 e) u)
    | inr e ↦ rw e (h name)
  ]

  module _ (ls ks : List MirLine) (w : Weaker ls ks) where
    -- A line that stays reads the same values on both sides.
    kept-Agrees :
        (pc : ℕ) (k : MirLine) (env env' : Bytes → Value) (world : World)
        → get_elem? ks pc ≡ some k
        → k.alive ≡ true
        → AgreesOn ks env env'
        → Agrees m ks
            (finish m k.text (texts_of ls) (exec k.text env world) (at pc env world))
            (finish m k.text (texts_of ls) (exec k.text env' world) (at pc env' world))
    kept-Agrees pc k env env' world e alive h =
        let same : exec k.text env world ≡ exec k.text env' world =
          m.reads k.text env env' world (λ name reads. agreed name reads (h name)) in
        rw same (
          refl,
          refl,
          assigned-AgreesOn ks (assignment_dest k.text) (exec k.text env' world).0 env env' h,
        )
      where
        agreed :
            (name : Bytes)
            → contains_token (assignment_uses k.text) name ≡ true
            → (used_in name ks ≡ false) ⊎ (env name ≡ env' name)
            → env name ≡ env' name
        agreed name reads (inr same) = same
        agreed name reads (inl unused) = cc (used_in-get_elem? name ks pc k e alive reads, unused)

    -- A line that is removed has no effect but the assignment of a name that no line uses.
    removed-Agrees :
        (pc : ℕ) (k : MirLine) (env env' : Bytes → Value) (world : World)
        → IsJustified ks k
        → IsHarmless m k
        → k.alive ≡ false
        → AgreesOn ks env env'
        → Agrees m ks
            (finish m k.text (texts_of ls) (exec k.text env world) (at pc env world))
            (at (pc + 1) env' world)
    removed-Agrees pc k env env' world j harmless dead h =
        let (dest, c, unused) = j dead in
        let (v, is) = m.pure k.text dest env world c (harmless_effectless dest c harmless) in
        rw (is, candidate-dest k.text dest c)
          (refl, refl, unused-AgreesOn ks dest v env env' unused h)
      where
        harmless_effectless :
            (dest : Bytes)
            → candidate k.text ≡ some dest
            → IsHarmless m k
            → m.effectless k.text ≡ true
        harmless_effectless dest c (inl none_there) = cc
        harmless_effectless dest c (inr e) = e

        candidate-dest :
            (text dest : Bytes) → candidate text ≡ some dest → assignment_dest text ≡ some dest
        candidate-dest text dest c = unfold candidate in ground arith

    step-Agrees :
        (s s' : State m)
        → All (λ l. l.alive ≡ true) ls
        → All (IsHarmless m) ls
        → All (IsJustified ks) ks
        → Agrees m ks s s'
        → Agrees m ks (step m ls s) (step m ks s')
    unfolding step
    step-Agrees s s' alive harmless j (pcs, worlds, envs) =
        rw (← pcs, ← worlds, texts_of-Weaker ls ks w)
          (elim (line_at ls ks s.pc w) [
            | inl (e, e') ↦ rw (e, e') (refl, refl, envs)
            | inr (l, k, e, e', same) ↦
                let living = All-get_elem? (λ l. l.alive ≡ true) ls s.pc l alive e in
                elim (Bool-cases k.alive) [
                  | inl stays ↦
                      rw (e, e', living, stays, ← same)
                        (kept-Agrees s.pc k s.env s'.env s.world e' stays envs)
                  | inr dead ↦
                      rw (e, e', living, dead, ← same)
                        (removed-Agrees s.pc k s.env s'.env s.world
                          (All-get_elem? (IsJustified ks) ks s.pc k j e')
                          (rw same (All-get_elem? (IsHarmless m) ls s.pc l harmless e)) dead envs)
                ]
          ])

    run-Agrees :
        (n : ℕ) (s s' : State m)
        → All (λ l. l.alive ≡ true) ls
        → All (IsHarmless m) ls
        → All (IsJustified ks) ks
        → Agrees m ks s s'
        → Agrees m ks (run m n ls s) (run m n ks s')
    unfolding run
    run-Agrees zero s s' alive harmless j h = h
    run-Agrees (suc n) s s' alive harmless j h =
        run-Agrees n (step m ls s) (step m ks s') alive harmless j
          (step-Agrees s s' alive harmless j h)

  -- Dead code removal keeps the behaviour of a function: as it stands behind propagation, and with
  -- the removed lines passed over, it goes through the same places, does the same to the machine,
  -- and gives the same values to the names that its lines use, in every number of steps and from
  -- every start. The lines are alive at first, those that may be removed do nothing but assign, and
  -- the optimiser ends.
  pub opt_function-Agrees :
      (n : ℕ) (lines ls ks : List MirLine) (s : State m)
      → All (λ l. l.alive ≡ true) lines
      → propagate [] lines ≡ some ls
      → All (IsHarmless m) ls
      → opt_function lines ≡ some ks
      → Agrees m ks (run m n ls s) (run m n ks s)
  unfolding opt_function
  opt_function-Agrees n lines ls ks s h p harmless e =
      let alive = propagate-alive [] lines ls h p in
      let (w, j, _) =
        eliminate_lem (length ls + 1) ls ks (alive_Justified ls ls alive) (rw p at e) in
      run-Agrees ls ks w n s s alive harmless j (refl, refl, λ name. inr refl)
