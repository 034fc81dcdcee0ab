-- ===== src/Link/Linker/Split.antt =====
-- Joining and splitting of arguments: what LLD is called with.
use vix_lang.Common.Text.{Bytes, codes, is_blank}
use vix_lang.Common.{
  ℕ, ◌+◌, ◌<◌, ◌≡◌, refl, ap, sym, ◌∙◌, Bool, true, false, Option, none, some, List, [], ◌∷◌, ◌++◌,
  length, length-append, arith, append_assoc, append-nil, All, All-append,
}
use vix_lang.Link.{link_arguments, buffer_size}
use vix_lang.Link.Joined.{words, spaced, joined, link_command-joined}
use vix_lang.Link.Linker.{
  is_quote, split_from, joined_from, joined_args, LldResult, add_split_args, run_elf_link,
  lld_link_elf, link_executable,
}

-- An argument without quotes and blanks.
abbrev pub IsPlain : Bytes → Type 0
IsPlain = All (λ c. (is_quote c ≡ false) × (is_blank c ≡ false))

pub split_from-plain :
    (w current s : Bytes)
    → IsPlain w
    → split_from none current (w ++ s) ≡ split_from none (current ++ w) s
unfolding split_from
split_from-plain [] current s h = ap (λ p. split_from none p s) (sym (append-nil current))
split_from-plain (c ∷ w) current s ((q, b), h) =
    let step : split_from none current (c ∷ (w ++ s))
        ≡ split_from none (current ++ c ∷ []) (w ++ s) =
      ground (arith, q, b) in
    step
    ∙ (split_from-plain w (current ++ c ∷ []) s h
        ∙ ap (λ p. split_from none p s) (append_assoc current (c ∷ []) w))

-- An argument is plain and not empty.
abbrev pub IsWord : Bytes → Type 0
IsWord w = (0 < length w) × IsPlain w

split_from-spaced :
    (c : ℕ) (current : Bytes) (ws : List Bytes)
    → All IsWord ws
    → split_from none (c ∷ current) (spaced ws) ≡ (c ∷ current) ∷ ws
unfolding split_from
split_from-spaced c current [] h = refl
split_from-spaced c current ((d ∷ w) ∷ ws) ((k, p), h) =
    unfold is_quote in
    unfold is_blank in
    (ap (λ r. (c ∷ current) ∷ r)
      (split_from-plain (d ∷ w) [] (spaced ws) p ∙ split_from-spaced d w ws h))
split_from-spaced c current ([] ∷ ws) ((k, p), h) = elim k [ ]

-- Splitting what was joined gives the arguments back.
pub split_from-joined : (ws : List Bytes) → All IsWord ws → split_from none [] (joined ws) ≡ ws
split_from-joined [] h = unfold split_from in refl
split_from-joined ((d ∷ w) ∷ ws) ((k, p), h) =
    split_from-plain (d ∷ w) [] (spaced ws) p ∙ split_from-spaced d w ws h
split_from-joined ([] ∷ ws) ((k, p), h) = elim k [ ]

joined_from-spaced :
    (c : ℕ) (out : Bytes) (ws : List Bytes) → joined_from (c ∷ out) ws ≡ (c ∷ out) ++ spaced ws
unfolding joined_from
joined_from-spaced c out [] = sym (append-nil (c ∷ out))
joined_from-spaced c out (w ∷ ws) =
    joined_from-spaced c (out ++ b' ' ∷ w) ws ∙ append_assoc (c ∷ out) (b' ' ∷ w) (spaced ws)

-- The arguments in the message of a failed link, split again, are the arguments.
add_split_args-joined_args :
    (storage ws : List Bytes)
    → All IsWord ws
    → add_split_args storage (some (joined_args ws)) ≡ storage ++ ws
unfolding add_split_args joined_args
add_split_args-joined_args storage [] h = unfold joined_from in unfold split_from in refl
add_split_args-joined_args storage ((d ∷ w) ∷ ws) h =
    let same = joined_from-spaced d w ws in
    unfold joined_from in rw same (ap (λ r. storage ++ r) (split_from-joined ((d ∷ w) ∷ ws) h))
add_split_args-joined_args storage ([] ∷ ws) h = elim h.0.0 [ ]

-- The words of the arguments, in their order.
abbrev pub in_order : List (List Bytes) → List Bytes
in_order [] = []
in_order (us ∷ uss) = us ++ in_order uss

-- Each argument is one or more words with one blank between each two.
abbrev pub IsSpelled : List Bytes → List (List Bytes) → Type 0
IsSpelled [] [] = Unit
IsSpelled (w ∷ ws) (us ∷ uss) = (w ≡ joined us) × (0 < length us) × All IsWord us × IsSpelled ws uss
IsSpelled _ _ = ⊥

spaced-append : (us ws : List Bytes) → spaced (us ++ ws) ≡ spaced us ++ spaced ws
spaced-append [] ws = refl
spaced-append (u ∷ us) ws =
    ap (λ r. b' ' ∷ (u ++ r)) (spaced-append us ws)
    ∙ ap (λ r. b' ' ∷ r) (sym (append_assoc u (spaced us) (spaced ws)))

spaced-in_order :
    (ws : List Bytes) (uss : List (List Bytes))
    → IsSpelled ws uss
    → spaced ws ≡ spaced (in_order uss)
spaced-in_order [] [] h = refl
spaced-in_order [] (us ∷ uss) h = elim h [ ]
spaced-in_order (w ∷ ws) [] h = elim h [ ]
spaced-in_order (w ∷ ws) ([] ∷ uss) (e, k, p, h) = elim k [ ]
spaced-in_order (w ∷ ws) ((u ∷ us) ∷ uss) (e, k, p, h) =
    rw (e, spaced-in_order ws uss h) (sym (spaced-append (u ∷ us) (in_order uss)))

pub joined-in_order :
    (ws : List Bytes) (uss : List (List Bytes))
    → IsSpelled ws uss
    → joined ws ≡ joined (in_order uss)
joined-in_order [] [] h = refl
joined-in_order [] (us ∷ uss) h = elim h [ ]
joined-in_order (w ∷ ws) [] h = elim h [ ]
joined-in_order (w ∷ ws) ([] ∷ uss) (e, k, p, h) = elim k [ ]
joined-in_order (w ∷ ws) ((u ∷ us) ∷ uss) (e, k, p, h) =
    rw (e, spaced-in_order ws uss h, spaced-append us (in_order uss))
      (append_assoc u (spaced us) (spaced (in_order uss)))

pub in_order-IsWord :
    (ws : List Bytes) (uss : List (List Bytes)) → IsSpelled ws uss → All IsWord (in_order uss)
in_order-IsWord [] [] h = tt
in_order-IsWord [] (us ∷ uss) h = elim h [ ]
in_order-IsWord (w ∷ ws) [] h = elim h [ ]
in_order-IsWord (w ∷ ws) (us ∷ uss) (e, k, p, h) =
    All-append IsWord us (in_order uss) p (in_order-IsWord ws uss h)

-- LLD is called with exactly the words of the arguments that `vix_api_link_executable` appends, in
-- their order, if the object and the output have names, the arguments fit the buffer with two more
-- bytes, and each argument is one or more words with one blank between each two. A word is not
-- empty, and has no quote and no blank in it.
pub link_executable-words :
    (lld : List Bytes → LldResult) (readable : Bytes → Bool) (object output : Bytes)
    (runtime args : Option Bytes) (no_std : Bool) (last_error : Bytes) (uss : List (List Bytes))
    → 0 < length object
    → 0 < length output
    → length (joined (words (link_arguments readable object runtime output args no_std))) + 2
      < buffer_size
    → IsSpelled (words (link_arguments readable object runtime output args no_std)) uss
    → link_executable lld readable (some object) runtime (some output) args no_std last_error
      ≡ run_elf_link lld (codes "ld.lld" ∷ in_order uss)
unfolding link_executable lld_link_elf add_split_args
link_executable-words lld readable object output runtime args no_std last_error uss h k room
      spelled =
    let ws = words (link_arguments readable object runtime output args no_std) in
    rw
      (
        link_command-joined readable object output runtime args no_std h k room,
        joined-in_order ws uss spelled,
      )
      (ap (λ r. run_elf_link lld (codes "ld.lld" ∷ r))
        (split_from-joined (in_order uss) (in_order-IsWord ws uss spelled)))

words_of :
    (readable : Bytes → Bool) (object path : Bytes) (runtime : Option Bytes)
    → 0 < length object
    → 0 < length path
    → words (link_arguments readable object runtime path none true)
      ≡ codes "-o" ∷ path ∷ object ∷ []
unfolding link_arguments
words_of readable [] path runtime h k = elim h [ ]
words_of readable (c ∷ o) [] runtime h k = elim k [ ]
words_of readable (c ∷ o) (d ∷ p) runtime h k = refl

-- An output path with a blank in it reaches LLD as two arguments: the command is assembled without
-- quotes, and split at blanks. Here the program has no standard library and no link arguments.
pub link_executable-blank :
    (lld : List Bytes → LldResult) (readable : Bytes → Bool) (object a b : Bytes)
    (runtime : Option Bytes) (last_error : Bytes)
    → IsWord a
    → IsWord b
    → IsWord object
    → length a + length b + length object + 8 < buffer_size
    → link_executable lld readable (some object) runtime (some (a ++ b' ' ∷ b)) none true last_error
      ≡ run_elf_link lld (codes "ld.lld" ∷ codes "-o" ∷ a ∷ b ∷ object ∷ [])
link_executable-blank lld readable object a b runtime last_error wa wb wo room =
    let sized = length-append a (b' ' ∷ b) in
    let path = a ++ b' ' ∷ b in
    let long : 0 < length path = omega (arith, sized) in
    let args = words (link_arguments readable object runtime path none true) in
    let listed : args ≡ codes "-o" ∷ path ∷ object ∷ [] =
      words_of readable object path runtime wo.0 long in
    let fits : length (joined args) + 2 < buffer_size =
      rw listed (
        omega (arith, sized, length-append path (spaced (object ∷ [])), length-append object [])) in
    let dash : IsWord (codes "-o") =
      unfold is_quote in unfold is_blank in (omega arith, ((refl, refl), ((refl, refl), tt))) in
    let uss : List (List Bytes) = (codes "-o" ∷ []) ∷ (a ∷ b ∷ []) ∷ (object ∷ []) ∷ [] in
    let spelled : IsSpelled (codes "-o" ∷ path ∷ object ∷ []) uss = (
      refl,
      omega arith,
      (dash, tt),
      (
        ap (λ r. a ++ b' ' ∷ r) (sym (append-nil b)),
        omega arith,
        (wa, (wb, tt)),
        (sym (append-nil object), omega arith, (wo, tt), tt),
      ),
    ) in
    link_executable-words lld readable object path runtime none true last_error uss wo.0 long fits
      (rw listed spelled)
