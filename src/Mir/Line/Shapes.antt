-- ===== src/Mir/Line/Shapes.antt =====
-- The lines that the printer of the compiler writes for copies, constants and branches, and what
-- they assign and use.
pub mod Noted
pub mod Branching
use vix_lang.Common.Text.{
  Bytes, codes, str_eq, str_eq_iff, has_prefix, is_white, skip_white, split_at,
}
use vix_lang.Common.{
  ℕ, zero, suc, ◌+◌, ◌≤◌, ◌<◌, ◌≡◌, ◌≢◌, ◌⊎◌, inl, inr, refl, ap, sym, ◌∙◌, Bool, true, false,
  Option, none, some, List, [], ◌∷◌, ◌++◌, length, take, drop, get_or, arith, All, All-append,
  Bool-cases, Option-cases, append_assoc, append-nil, take-append, length-append,
}
use vix_lang.Mir.Line.{
  fold_branch, is_true, is_false, assignment_dest, assignment_uses, alias_value, const_value,
  integer_type, word_bytes, scan_word, scan_two, none_left,
}
use vix_lang.Mir.Line.Branch.{br_cond, fold_branch_constant, fold_branch_variable}
use vix_lang.Mir.Line.Split.{Lacks, split_at_mark, skip_space-append}
use vix_lang.Mir.Tokens.{name_char, skip_space, is_space, trim_end, trim_copy}
use vix_lang.Mir.Tokens.Trim.{IsBlank, first_or, final_or}
use vix_lang.Helper.Trim.{get_or-append, get_or-front}
use vix_lang.Mir.Tokens.Words.{IsName}

-- `dest = right`, behind an indentation.
abbrev pub assigning : Bytes → Bytes → Bytes → Bytes
assigning indent dest right = (indent ++ (dest ++ b' ' ∷ [])) ++ b'=' ∷ b' ' ∷ right

abbrev pub copy_of : Bytes → Bytes → Bytes
copy_of ty value = codes "copy " ++ (ty ++ b' ' ∷ value)

abbrev pub const_of : Bytes → Bytes → Bytes
const_of ty value = codes "const " ++ (ty ++ b' ' ∷ value)

abbrev pub jump : Bytes → Bytes → Bytes
jump indent target = indent ++ (codes "br label " ++ target)

abbrev pub branch : Bytes → Bytes → Bytes → Bytes → Bytes
branch indent cond first second =
    br_cond indent cond (codes " label " ++ first) (codes " label " ++ second)

-- A word of at most so many bytes without white space.
abbrev pub IsWord : ℕ → Bytes → Type 0
IsWord width s = (0 < length s) × (length s ≤ width) × All (λ c. is_white c ≡ false) s

abbrev pub IsInteger : Bytes → Type 0
IsInteger ty =
    (ty ≡ codes "i1")
    ⊎ (ty ≡ codes "i8")
    ⊎ (ty ≡ codes "i16")
    ⊎ (ty ≡ codes "i32")
    ⊎ (ty ≡ codes "i64")
    ⊎ (ty ≡ codes "u8")
    ⊎ (ty ≡ codes "u16")
    ⊎ (ty ≡ codes "u32")
    ⊎ (ty ≡ codes "u64")
    ⊎ (ty ≡ codes "usize")

-- What a name has none of.
name_char-space : (c : ℕ) → name_char c ≡ true → is_space c ≡ false
unfolding name_char is_space
name_char-space c h = ground arith

name_char-eq : (c : ℕ) → name_char c ≡ true → c ≢ b'='
unfolding name_char
name_char-eq c h = ground arith

pub name_char-comma : (c : ℕ) → name_char c ≡ true → c ≢ b','
unfolding name_char
name_char-comma c h = ground arith

pub All-names :
    (P : ℕ → Type 0) (s : Bytes)
    → ((c : ℕ) → name_char c ≡ true → P c)
    → All (λ c. name_char c ≡ true) s
    → All P s
All-names P [] k h = tt
All-names P (c ∷ s) k h = (k c h.0, All-names P s k h.1)

pub name-Lacks : (s : Bytes) → IsName s → Lacks b'=' s
name-Lacks s h = All-names _ s name_char-eq h.1

-- The last byte of a text with solid bytes only.
pub get_or-solid :
    (s : Bytes) (k : ℕ)
    → All (λ c. is_space c ≡ false) s
    → k < length s
    → is_space (get_or s k 0) ≡ false
get_or-solid [] k h lt = elim lt [ ]
get_or-solid (c ∷ s) zero h lt = h.0
get_or-solid (c ∷ s) (suc k) h lt = get_or-solid s k h.1 (omega arith)

trim_end-solid :
    (c : ℕ) (s w : Bytes)
    → is_space (get_or (c ∷ s) (length s) 0) ≡ false
    → trim_end (suc (length s)) (c ∷ (s ++ w)) ≡ c ∷ s
unfolding trim_end
trim_end-solid c s w h =
    let same = get_or-front (c ∷ s) w (length s) (omega arith) in
    rw (same, h) (take-append (c ∷ s) w (suc (length s)) refl)

-- Trimming between blanks, of which at most one stands behind.
trim_copy-between :
    (v : Bytes) (c : ℕ) (s : Bytes)
    → IsBlank v
    → is_space c ≡ false
    → is_space (get_or (c ∷ s) (length s) 0) ≡ false
    → (trim_copy (v ++ (c ∷ s)) ≡ c ∷ s) × (trim_copy (v ++ ((c ∷ s) ++ b' ' ∷ [])) ≡ c ∷ s)
unfolding trim_copy
trim_copy-between v c s blank first final = (
  rw (skip_space-append v (c ∷ s) blank first) plain,
  rw (skip_space-append v ((c ∷ s) ++ b' ' ∷ []) blank first) spaced,
)
  where
    plain : trim_end (length (c ∷ s)) (c ∷ s) ≡ c ∷ s
    plain =
        ap (λ r. trim_end (suc (length s)) (c ∷ r)) (sym (append-nil s))
        ∙ trim_end-solid c s [] final

    spaced : trim_end (length ((c ∷ s) ++ b' ' ∷ [])) ((c ∷ s) ++ b' ' ∷ []) ≡ c ∷ s
    spaced =
        let size : length ((c ∷ s) ++ b' ' ∷ []) ≡ suc (suc (length s)) =
          omega (arith, length-append s (b' ' ∷ [])) in
        let place : suc (length s) ≡ length (c ∷ s) + 0 = omega arith in
        let behind : get_or ((c ∷ s) ++ b' ' ∷ []) (suc (length s)) 0 ≡ b' ' =
          ap (λ k. get_or ((c ∷ s) ++ b' ' ∷ []) k 0) place ∙ get_or-append (c ∷ s) (b' ' ∷ []) 0 in
        let blank' : is_space (get_or ((c ∷ s) ++ b' ' ∷ []) (suc (length s)) 0) ≡ true =
          rw behind (unfold is_space in refl) in
        ap (λ n. trim_end n ((c ∷ s) ++ b' ' ∷ [])) size
        ∙ unfold trim_end in rw blank' (trim_end-solid c s (b' ' ∷ []) final)

pub trim_copy-name :
    (v name : Bytes)
    → IsBlank v
    → IsName name
    → (trim_copy (v ++ name) ≡ name) × (trim_copy (v ++ (name ++ b' ' ∷ [])) ≡ name)
trim_copy-name v [] blank h = elim h.0 [ ]
trim_copy-name v (c ∷ s) blank h =
    let solid = All-names _ (c ∷ s) name_char-space h.1 in
    trim_copy-between v c s blank solid.0 (get_or-solid (c ∷ s) (length s) solid (omega arith))

pub trim_copy-label :
    (target : Bytes)
    → IsName target
    → trim_copy (codes " label " ++ target) ≡ codes "label " ++ target
trim_copy-label target h =
    let solid = All-names _ target name_char-space h.1 in
    let last : is_space (get_or (codes "label " ++ target) (length (codes "abel " ++ target)) 0)
        ≡ false =
      at_end target h solid in
    (trim_copy-between (b' ' ∷ []) b'l' (codes "abel " ++ target) (unfold is_space in refl, tt)
      (unfold is_space in refl) last).0
  where
    at_end :
        (target : Bytes)
        → IsName target
        → All (λ c. is_space c ≡ false) target
        → is_space (get_or (codes "label " ++ target) (length (codes "abel " ++ target)) 0) ≡ false
    at_end [] h solid = elim h.0 [ ]
    at_end (c ∷ s) h solid =
        let place : length (codes "abel " ++ (c ∷ s)) ≡ 6 + length s = omega arith in
        ap (λ k. is_space (get_or (codes "label " ++ (c ∷ s)) k 0)) place
        ∙ ap is_space (get_or-append (codes "label ") (c ∷ s) (length s))
        ∙ get_or-solid (c ∷ s) (length s) solid (omega arith)

-- What a line of this form assigns, and what it uses.
pub indent-Lacks : (indent : Bytes) → IsBlank indent → Lacks b'=' indent
unfolding is_space
indent-Lacks [] h = tt
indent-Lacks (c ∷ s) h = (ground arith, indent-Lacks s h.1)

assigning-Lacks :
    (indent dest : Bytes)
    → IsBlank indent
    → IsName dest
    → Lacks b'=' (indent ++ (dest ++ b' ' ∷ []))
assigning-Lacks indent dest h k =
    All-append _ indent (dest ++ b' ' ∷ []) (indent-Lacks indent h)
      (All-append _ dest (b' ' ∷ []) (name-Lacks dest k) (ground arith, tt))

pub assignment_dest-assigning :
    (indent dest right : Bytes)
    → IsBlank indent
    → IsName dest
    → assignment_dest (assigning indent dest right) ≡ some dest
unfolding assignment_dest
assignment_dest-assigning indent dest right h k =
    rw
      (split_at_mark b'=' (indent ++ (dest ++ b' ' ∷ [])) (b' ' ∷ right)
        (assigning-Lacks indent dest h k))
      (ap some (trim_copy-name indent dest h k).1)

pub assignment_uses-assigning :
    (indent dest right : Bytes)
    → IsBlank indent
    → IsName dest
    → assignment_uses (assigning indent dest right) ≡ b' ' ∷ right
unfolding assignment_uses
assignment_uses-assigning indent dest right h k =
    rw
      (split_at_mark b'=' (indent ++ (dest ++ b' ' ∷ [])) (b' ' ∷ right)
        (assigning-Lacks indent dest h k))
      refl
