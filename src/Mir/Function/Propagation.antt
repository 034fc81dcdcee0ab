-- ===== src/Mir/Function/Propagation.antt =====
-- Copy propagation ends on every function whose assignments have a destination.
use vix_lang.Common.Text.{Bytes, split_at}
use vix_lang.Common.{
  ℕ, zero, suc, ◌+◌, ◌<◌, ◌≡◌, ◌≢◌, refl, sym, ap, ◌∙◌, inl, inr, true, not, ◌&&◌, Option, none,
  some, List, [], ◌∷◌, ◌++◌, length, append_assoc, All, All-append, Bool-cases, Option-cases, drop,
}
use vix_lang.Mir.Function.{
  MirLine, Aliases, replace_all, rewrite_line, note_alias, propagate, opt_function,
}
use vix_lang.Mir.Function.Justified.{Weaker, IsJustified}
use vix_lang.Mir.Function.DeadCode.{IsLive, eliminate_total}
use vix_lang.Mir.Line.{assignment_dest, assignment_uses, alias_value, fold_branch}
use vix_lang.Mir.Line.Alias.{All-drop, All-alias_value}
use vix_lang.Mir.Line.Split.{Lacks, split_at_mark, split_at-none, split_at-some, split_at-none_inv}
use vix_lang.Mir.Tokens.{
  Quote, Buffer, write, advance, last_or, token_at, replace_from, replace_token, trim_copy, outside,
}
use vix_lang.Mir.Tokens.Replace.{replace_token-ne-none}

-- A property of the bytes of a text and of a value holds of the bytes of the replacement.
module _ (P : ℕ → Type 0) (name value : Bytes) (v : All P value) where
  All-write : (b : Buffer) (s : Bytes) → All P b.out → All P s → All P (write b s).out
  unfolding write
  All-write b s h k = All-append P b.out s h k

  pub All-replace_from :
      (fuel : ℕ) (prev : Option ℕ) (q : Quote) (s : Bytes) (b r : Buffer)
      → All P s
      → All P b.out
      → replace_from fuel prev q s name value b ≡ some r
      → All P r.out
  unfolding replace_from
  All-replace_from zero prev q s b r h k e = cc
  All-replace_from (suc fuel) prev q [] b r h k e = let same : b ≡ r = cc in rw same at k
  All-replace_from (suc fuel) prev q (c ∷ s) b r h k e =
      elim (Bool-cases (not q.quoted && token_at prev (c ∷ s) name)) [
        | inl t ↦
            All-replace_from fuel (last_or prev name) q (drop (length name) (c ∷ s)) (write b value)
              r (All-drop P (length name) (c ∷ s) h) (All-write b value k v) (rw t at e)
        | inr f ↦
            All-replace_from fuel (some c) (advance q c) s (write b (c ∷ [])) r h.1
              (All-write b (c ∷ []) k (h.0, tt)) (rw f at e)
      ]

-- An alias of a name that is not empty, to a value without `=`.
abbrev pub IsAlias : Bytes × Bytes → Type 0
IsAlias (name, value) = (0 < length name) × Lacks b'=' value

replace_all_total :
    (aliases : Aliases) (s : Bytes)
    → All IsAlias aliases
    → Lacks b'=' s
    → (r : Bytes) × (replace_all aliases s ≡ some r) × Lacks b'=' r
unfolding replace_all
replace_all_total [] s h k = (s, refl, k)
replace_all_total ((name, value) ∷ aliases) s h k =
    elim (Option-cases (replace_token s name value)) [
      | inl e ↦ absurd (replace_token-ne-none s name value h.0.0 e)
      | inr (b, e) ↦
          let kept =
            All-replace_from (λ c. c ≢ b'=') name value h.0.1 (suc (length s)) none outside s
              (record { out = []; cap = length s + 1 }) b k tt (unfold replace_token in e) in
          let (r, done, lacks) = replace_all_total aliases b.out h.1 kept in (r, rw e done, lacks)
    ]

-- If the line assigns, its destination is not empty and there is one `=`.
abbrev pub IsAssign : Bytes → Type 0
IsAssign text =
    (before after : Bytes)
    → split_at b'=' text ≡ some (before, after)
    → (0 < length (trim_copy before)) × Lacks b'=' after

rewrite_line_total :
    (aliases : Aliases) (text : Bytes)
    → All IsAlias aliases
    → IsAssign text
    → (text' : Bytes) × (rewrite_line aliases text ≡ some text') × IsAssign text'
unfolding rewrite_line
rewrite_line_total aliases text h k = elim (Option-cases (split_at b'=' text)) [
  | inl e ↦
      let (r, done, lacks) = replace_all_total aliases text h (split_at-none_inv b'=' text e) in
      (r, rw (e, done), λ before after m. cc (m, split_at-none b'=' r lacks))
  | inr ((b, a), e) ↦
      let (sized, lacks) = k b a e in
      let (_, front) = split_at-some b'=' text b a e in
      let (r, done, lacks') = replace_all_total aliases a h lacks in
      let cut : split_at b'=' ((b ++ b'=' ∷ []) ++ r) ≡ some (b, r) =
        rw append_assoc (split_at_mark b'=' b r front) in
      (
        (b ++ b'=' ∷ []) ++ r,
        rw (e, done),
        λ before after m.
            let same : ◌≡◌ {A = Option (Bytes × Bytes)} (some (b, r)) (some (before, after)) =
              sym cut ∙ m in
            let same_before : b ≡ before = cc in
            let same_after : r ≡ after = cc in (rw same_before at sized, rw same_after at lacks'),
      )
]

note_alias-IsAlias :
    (aliases : Aliases) (text : Bytes)
    → All IsAlias aliases
    → IsAssign text
    → All IsAlias (note_alias aliases text)
unfolding note_alias assignment_dest
note_alias-IsAlias aliases text h k = elim (Option-cases (split_at b'=' text)) [
  | inl e ↦ rw (e, note_alias) h
  | inr ((b, a), e) ↦ elim (Option-cases (alias_value text)) [
    | inl n ↦ rw (e, n) h
    | inr (v, n) ↦
        let (sized, lacks) = k b a e in
        let uses : assignment_uses text ≡ a = unfold assignment_uses in rw e in
        let value = All-alias_value (λ c. c ≢ b'=') text v (rw uses lacks) n in
        rw (e, n) (All-append IsAlias aliases ((trim_copy b, v) ∷ []) h ((sized, value), tt))
  ]
]

-- The texts and the number of lines may change, but all stay alive.
abbrev pub IsAlive : MirLine → Type 0
IsAlive l = l.alive ≡ true

propagate_total :
    (aliases : Aliases) (lines : List MirLine)
    → All IsAlias aliases
    → All (λ l. IsAssign l.text × IsAlive l) lines
    → (ls : List MirLine) × (propagate aliases lines ≡ some ls)
      × All IsAlive ls
      × (length ls ≡ length lines)
unfolding propagate
propagate_total aliases [] h k = ([], refl, tt, refl)
propagate_total aliases (l ∷ lines) h k =
    let (text', done, ok) = rewrite_line_total aliases l.text h k.0.0 in
    let noted = note_alias-IsAlias aliases text' h ok in
    let (ls, done', alive, size) = propagate_total (note_alias aliases text') lines noted k.1 in
    (record l { text = fold_branch text' } ∷ ls, rw (done, done'), (k.0.1, alive), ap suc size)

-- The optimiser ends on every function of living lines in which each line with an `=` has a
-- destination in front of it and no second `=`. Propagation keeps the number of lines. Dead code
-- removal keeps the texts that propagation gives and their order, and revives no line; every line
-- that it has removed is no `call` or `syscall`, assigns a name, and no line that stays uses that
-- name; and of the lines that stay none could be removed.
pub opt_function_total :
    (lines : List MirLine)
    → All (λ l. IsAssign l.text × IsAlive l) lines
    → (ls ks : List MirLine) × (propagate [] lines ≡ some ls)
      × (opt_function lines ≡ some ks)
      × (length ls ≡ length lines)
      × Weaker ls ks
      × All (IsJustified ks) ks
      × IsLive [] ks
unfolding opt_function
opt_function_total lines h =
    let (ls, done, alive, size) = propagate_total [] lines tt h in
    let (ks, ended, w, j, live) = eliminate_total ls alive in
    (ls, ks, done, rw (done, ended), size, w, j, live)

-- To show that a line is well formed it is enough to cut it once.
pub IsAssign-some :
    (text b a : Bytes)
    → split_at b'=' text ≡ some (b, a)
    → 0 < length (trim_copy b)
    → Lacks b'=' a
    → IsAssign text
IsAssign-some text b a e sized lacks = λ before after m.
    let same : ◌≡◌ {A = Option (Bytes × Bytes)} (some (b, a)) (some (before, after)) = sym e ∙ m in
    let same_before : b ≡ before = cc in
    let same_after : a ≡ after = cc in (rw same_before at sized, rw same_after at lacks)

pub IsAssign-none : (text : Bytes) → split_at b'=' text ≡ none → IsAssign text
IsAssign-none text e = λ before after m. cc (e, m)
