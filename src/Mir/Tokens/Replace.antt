-- ===== src/Mir/Tokens/Replace.antt =====
-- Replacing a token: termination, the bounds of the buffer, and texts without the token.
use vix_lang.Common.Text.{Bytes}
use vix_lang.Common.{
  ℕ, zero, suc, ◌<◌, ◌≡◌, ◌≢◌, Option, none, some, [], ◌∷◌, length, drop, arith, length-drop,
  length-append,
}
use vix_lang.Mir.Tokens.{
  Quote, outside, advance, last_or, Buffer, write, replace_from, replace_token,
}

-- Every match of a name that is not empty moves the position.
replace_from-ne-none :
    (fuel : ℕ) (prev : Option ℕ) (q : Quote) (s name value : Bytes) (b : Buffer)
    → 0 < length name
    → length s < fuel
    → replace_from fuel prev q s name value b ≢ none
unfolding replace_from
replace_from-ne-none zero prev q s name value b h lt = elim lt [ ]
replace_from-ne-none (suc fuel) prev q [] name value b h lt = ground arith
replace_from-ne-none (suc fuel) prev q (c ∷ s) name value b h lt = ground (
  arith,
  replace_from-ne-none fuel (last_or prev name) q (drop (length name) (c ∷ s)) name value
      (write b value),
  replace_from-ne-none fuel (some c) (advance q c) s name value (write b (c ∷ [])),
  length-drop (length name) (c ∷ s),
)

-- The replacement of a name that is not empty ends, for every text.
pub replace_token-ne-none :
    (s name value : Bytes) → 0 < length name → replace_token s name value ≢ none
unfolding replace_token
replace_token-ne-none s name value h =
    replace_from-ne-none (suc (length s)) none outside s name value _ h (omega arith)

write_fits :
    (b : Buffer) (bytes : Bytes)
    → length b.out < b.cap
    → length (write b bytes).out < (write b bytes).cap
unfolding write
write_fits b bytes h = ground (arith, length-append b.out bytes)

replace_from_fits :
    (fuel : ℕ) (prev : Option ℕ) (q : Quote) (s name value : Bytes) (b r : Buffer)
    → length b.out < b.cap
    → replace_from fuel prev q s name value b ≡ some r
    → length r.out < r.cap
unfolding replace_from
replace_from_fits zero prev q s name value b r h e = cc
replace_from_fits (suc fuel) prev q [] name value b r h e = ground arith
replace_from_fits (suc fuel) prev q (c ∷ s) name value b r h e = ground (
  arith,
  replace_from_fits fuel (last_or prev name) q (drop (length name) (c ∷ s)) name value
      (write b value) r (write_fits b value h),
  replace_from_fits fuel (some c) (advance q c) s name value (write b (c ∷ [])) r
      (write_fits b (c ∷ []) h),
)

-- Whenever the replacement ends, what it has written and the terminating null fit the block.
pub replace_token_fits :
    (s name value : Bytes) (r : Buffer) → replace_token s name value ≡ some r → length r.out < r.cap
unfolding replace_token
replace_token_fits s name value r =
    replace_from_fits (suc (length s)) none outside s name value _ r (omega arith)
