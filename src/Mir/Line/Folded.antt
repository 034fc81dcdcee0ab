-- ===== src/Mir/Line/Folded.antt =====
-- The texts that branch folding changes.
use vix_lang.Common.Text.{Bytes, codes, has_prefix, split_at, str_eq, str_eq_iff}
use vix_lang.Common.{
  ℕ, ◌||◌, ◌≡◌, ◌≢◌, ◌⊎◌, inl, inr, refl, ap, ◌∙◌, true, [], ◌∷◌, ◌++◌, arith, All, All-append,
  Bool-cases, Option-cases, length, drop,
}
use vix_lang.Mir.Line.{fold_branch, fold_cond, fold_targets, branch_to, is_true, is_false}
use vix_lang.Mir.Line.Branch.{br_cond, fold_br_cond, fold_branch_other}
use vix_lang.Mir.Line.Split.{Lacks, split_at-some}
use vix_lang.Mir.Tokens.{skip_space, trim_copy}
use vix_lang.Mir.Tokens.Trim.{IsBlank, skip_space_lem, trim_copy_lem}

has_prefix_inv : (s p : Bytes) → has_prefix s p ≡ true → s ≡ p ++ drop (length p) s
unfolding has_prefix
has_prefix_inv s [] e = refl
has_prefix_inv [] (c ∷ p) e = ground arith
has_prefix_inv (d ∷ s) (c ∷ p) e = ground (arith, has_prefix_inv s p)

-- A conditional branch on a constant, and the target that is taken.
pub record Folding (text folded : Bytes) : Type 0 where
  pub indent : Bytes
  pub cond : Bytes
  pub first : Bytes
  pub second : Bytes
  pub target : Bytes
  pub name : Bytes
  pub is_branch : text ≡ br_cond indent cond first second
  pub blank : IsBlank indent
  pub cond_lacks : Lacks b',' cond
  pub first_lacks : Lacks b',' first
  pub choice :
      (((trim_copy cond ≡ codes "1") ⊎ (trim_copy cond ≡ codes "true")) × (target ≡ first))
      ⊎ (((trim_copy cond ≡ codes "0") ⊎ (trim_copy cond ≡ codes "false")) × (target ≡ second))
  pub label : trim_copy target ≡ codes "label " ++ name
  pub is_folded : folded ≡ indent ++ (codes "br label " ++ name)

literals : (s t u : Bytes) → str_eq s t || str_eq s u ≡ true → (s ≡ t) ⊎ (s ≡ u)
literals s t u h = elim (Bool-cases (str_eq s t)) [
  | inl e ↦ inl ((str_eq_iff s t).0 e)
  | inr e ↦ inr ((str_eq_iff s u).0 (rw e at h))
]

branch_to_cases :
    (text indent target : Bytes)
    → (branch_to text indent target ≡ text)
      ⊎ ((name : Bytes) × (trim_copy target ≡ codes "label " ++ name)
          × (branch_to text indent target ≡ indent ++ (codes "br label " ++ name)))
unfolding branch_to
branch_to_cases text indent target =
    elim (Bool-cases (has_prefix (trim_copy target) (codes "label "))) [
      | inl e ↦ inr (
        drop 6 (trim_copy target),
        has_prefix_inv (trim_copy target) (codes "label ") e,
        rw e refl,
      )
      | inr e ↦ inl (rw e refl)
    ]

fold_br_cond_cases :
    (indent cond first second : Bytes)
    → IsBlank indent
    → Lacks b',' cond
    → Lacks b',' first
    → (fold_branch (br_cond indent cond first second) ≡ br_cond indent cond first second)
      ⊎ Folding (br_cond indent cond first second) (fold_branch (br_cond indent cond first second))
fold_br_cond_cases indent cond first second blank c f =
    let folds = fold_br_cond indent cond first second blank c f in
    let text = br_cond indent cond first second in
    elim (Bool-cases (is_true (trim_copy cond))) [
      | inl t ↦
          let same : fold_branch text ≡ branch_to text indent first = folds ∙ rw t refl in
          elim (branch_to_cases text indent first) [
            | inl stays ↦ inl (same ∙ stays)
            | inr (name, label, done) ↦
                inr (folding first name (inl (literals _ _ _ t, refl)) label (same ∙ done))
          ]
      | inr t ↦ elim (Bool-cases (is_false (trim_copy cond))) [
        | inl u ↦
            let same : fold_branch text ≡ branch_to text indent second = folds ∙ rw (t, u) refl in
            elim (branch_to_cases text indent second) [
              | inl stays ↦ inl (same ∙ stays)
              | inr (name, label, done) ↦
                  inr (folding second name (inr (literals _ _ _ u, refl)) label (same ∙ done))
            ]
        | inr u ↦ inl (folds ∙ rw (t, u) refl)
      ]
    ]
  where
    folding :
        (target name : Bytes)
        → (((trim_copy cond ≡ codes "1") ⊎ (trim_copy cond ≡ codes "true")) × (target ≡ first))
          ⊎ (((trim_copy cond ≡ codes "0") ⊎ (trim_copy cond ≡ codes "false")) × (target ≡ second))
        → trim_copy target ≡ codes "label " ++ name
        → fold_branch (br_cond indent cond first second) ≡ indent ++ (codes "br label " ++ name)
        → Folding
            (br_cond indent cond first second)
            (fold_branch (br_cond indent cond first second))
    folding target name choice label done = record {
      indent = indent;
      cond = cond;
      first = first;
      second = second;
      target = target;
      name = name;
      is_branch = refl;
      blank = blank;
      cond_lacks = c;
      first_lacks = f;
      choice = choice;
      label = label;
      is_folded = done;
    }

-- Branch folding leaves a text as it is, or the text is a conditional branch, behind blanks, whose
-- condition is `1` or `true`, or `0` or `false`, up to blanks, and whose target on that side is a
-- label: then it gives the branch to that label, behind the same blanks.
pub fold_branch_cases : (text : Bytes) → (fold_branch text ≡ text) ⊎ Folding text (fold_branch text)
fold_branch_cases text = elim (Bool-cases (has_prefix (skip_space text) (codes "br_cond "))) [
  | inr e ↦ inl (fold_branch_other text e)
  | inl e ↦
      let (indent, is, blank, _) = skip_space_lem text in
      let s = skip_space text in
      let rest = has_prefix_inv s (codes "br_cond ") e in
      elim (Option-cases (split_at b',' (drop 8 s))) [
        | inl n ↦ inl (unfold fold_branch in rw (e, n) (unfold fold_cond in refl))
        | inr ((cond, targets), c) ↦ elim (Option-cases (split_at b',' targets)) [
          | inl n ↦ inl (
              unfold fold_branch in
              rw (e, c) (unfold fold_cond in rw n (unfold fold_targets in refl)))
          | inr ((first, second), f) ↦
              let (cut1, lacks1) = split_at-some b',' (drop 8 s) cond targets c in
              let (cut2, lacks2) = split_at-some b',' targets first second f in
              let whole : text ≡ br_cond indent cond first second =
                is
                ∙ ap (λ r. indent ++ r)
                    (rest
                      ∙ ap (λ r. codes "br_cond " ++ r) (cut1 ∙ ap (λ r. cond ++ b',' ∷ r) cut2)) in
              rw whole (fold_br_cond_cases indent cond first second blank lacks1 lacks2)
        ]
      ]
]

module _ (P : ℕ → Type 0) where
  All-append_inv : (s t : Bytes) → All P (s ++ t) → All P s × All P t
  All-append_inv [] t h = (tt, h)
  All-append_inv (c ∷ s) t h = let (hs, ht) = All-append_inv s t h.1 in ((h.0, hs), ht)

  All-trim_copy : (s : Bytes) → All P s → All P (trim_copy s)
  All-trim_copy s h =
      let (v, w, e, _, _, _, _) = trim_copy_lem s in
      let (_, rest) = All-append_inv v (trim_copy s ++ w) (rw e at h) in
      (All-append_inv (trim_copy s) w rest).0

-- Folding brings no `=` into a line.
pub fold_branch-Lacks : (text : Bytes) → Lacks b'=' text → Lacks b'=' (fold_branch text)
fold_branch-Lacks text h = elim (fold_branch_cases text) [
  | inl same ↦ rw same h
  | inr g ↦
      let P = λ (c : ℕ). c ≢ b'=' in
      let (blank, rest) = All-append_inv P g.indent _ (rw (g.is_branch) at h) in
      let (_, parts) = All-append_inv P (codes "br_cond ") _ rest in
      let (_, targets) = All-append_inv P g.cond _ parts in
      let (first, second) = All-append_inv P g.first _ targets.1 in
      let target : Lacks b'=' g.target = elim g.choice [
        | inl (_, is) ↦ rw is first
        | inr (_, is) ↦ rw is second.1
      ] in
      let (_, name) =
        All-append_inv P (codes "label ") g.name
          (rw (g.label) at (All-trim_copy P g.target target)) in
      let front : Lacks b'=' (codes "br label ") = ground arith in
      rw (g.is_folded)
        (All-append P g.indent _ blank (All-append P (codes "br label ") g.name front name))
]
