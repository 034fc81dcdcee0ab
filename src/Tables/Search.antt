-- ===== src/Tables/Search.antt =====
-- What the tables share: names cut to the size of their field, and searches by name.
use vix_lang.Common.Text.{Bytes, str_eq, str_eq_iff}
use vix_lang.Common.{
  ℕ, ◌≤◌, ◌<◌, ◌≡◌, ◌≢◌, refl, ap, Bool, Option, none, some, List, [], ◌∷◌, length, take,
  length-take, take_of_length-le, arith, All, if◌then◌else◌,
}

-- `MAX_VARS`, and `NAME_SIZE - 1`, which is `TYPE_SIZE - 1`.
abbrev pub max_entries : ℕ
max_entries = 4096

abbrev pub name_length : ℕ
name_length = 63

-- `strncpy(field, s, NAME_SIZE - 1); field[NAME_SIZE - 1] = '\0';`
abbrev pub clip : Bytes → Bytes
clip = take name_length

abbrev pub IsShort : Bytes → Type 0
IsShort s = length s ≤ name_length

pub clip_short : (s : Bytes) → IsShort s → clip s ≡ s
clip_short s h = take_of_length-le name_length s h

pub clip-IsShort : (s : Bytes) → IsShort (clip s)
clip-IsShort s = omega (arith, length-take name_length s)

module _ {A : Type 0} (key : A → Bytes) where
  -- `for (i = count - 1; i >= 0; i--) if (strcmp(name_i, name) == 0) …`
  unfoldable pub entry : Bytes → List A → Option A
  entry name [] = none
  entry name (e ∷ es) = if str_eq (key e) name then some e else entry name es

  abbrev keep_or : A → Bool → List A → A → Option (List A) → Option (List A)
  keep_or x match xs e (some xs') = some (x ∷ xs')
  keep_or x match xs e none = if match then some (e ∷ xs) else none

  -- `for (i = 0; i < count; i++) if (strcmp(name_i, name) == 0) …`, with the entry written there.
  unfoldable pub update_oldest : Bytes → A → List A → Option (List A)
  update_oldest name e [] = none
  update_oldest name e (x ∷ xs) = keep_or x (str_eq (key x) name) xs e (update_oldest name e xs)

  -- No two entries have one name.
  abbrev pub IsUnique : List A → Type 0
  IsUnique [] = Unit
  IsUnique (e ∷ es) = All (λ f. key f ≢ key e) es × IsUnique es

  pub entry_absent :
      (name : Bytes) (es : List A) → All (λ f. key f ≢ name) es → entry name es ≡ none
  unfolding entry
  entry_absent name [] h = refl
  entry_absent name (e ∷ es) h = ground (arith, entry_absent name es h.1, str_eq_iff (key e) name)

  pub absent_entry :
      (name : Bytes) (es : List A) → entry name es ≡ none → All (λ f. key f ≢ name) es
  unfolding entry
  absent_entry name [] h = tt
  absent_entry name (e ∷ es) h =
      (ground (arith, str_eq_iff (key e) name), absent_entry name es (ground arith))

  -- A table in which every name is short knows no long name.
  pub entry_long :
      (name : Bytes) (es : List A)
      → All (λ e. IsShort (key e)) es
      → name_length < length name
      → entry name es ≡ none
  entry_long name es h long = entry_absent name es (go es h)
    where
      go : (es : List A) → All (λ e. IsShort (key e)) es → All (λ f. key f ≢ name) es
      go [] h = tt
      go (e ∷ es) h = (λ eq. omega (arith, ap length eq), go es h.1)
