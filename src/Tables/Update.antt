-- ===== src/Tables/Update.antt =====
-- Replacing the entry of a name, in a table without two entries of one name.
use vix_lang.Common.Text.{Bytes, str_eq_iff}
use vix_lang.Common.{
  suc, ◌≡◌, ◌≢◌, sym, ap, ◌∙◌, inl, inr, ◌⊎◌, none, some, List, [], ◌∷◌, length, arith, All,
  Option-cases, subst,
}
use vix_lang.Tables.Search.{entry, IsUnique, update_oldest}

module _ {A : Type 0} (key : A → Bytes) (name : Bytes) (e : A) (k : key e ≡ name) where
  update_inv :
      (x : A) (xs s' : List A)
      → update_oldest key name e (x ∷ xs) ≡ some s'
      → ((xs' : List A) × (update_oldest key name e xs ≡ some xs') × (s' ≡ x ∷ xs'))
        ⊎ ((key x ≡ name) × (s' ≡ e ∷ xs))
  unfolding update_oldest
  update_inv x xs s' h = elim (Option-cases (update_oldest key name e xs)) [
    | inl m ↦ inr (ground (arith, str_eq_iff (key x) name), ground arith)
    | inr (xs', m) ↦ inl (xs', m, ground arith)
  ]

  -- An update succeeds only at an entry of the name.
  update_absent : (s s' : List A) → All (λ f. key f ≢ name) s → update_oldest key name e s ≢ some s'
  update_absent [] s' h m = unfold update_oldest in cc
  update_absent (x ∷ xs) s' h m = elim (update_inv x xs s' m) [
    | inl (xs', m', same) ↦ update_absent xs xs' h.1 m'
    | inr (here, same) ↦ h.0 here
  ]

  pub update_none_inv : (s : List A) → update_oldest key name e s ≡ none → All (λ f. key f ≢ name) s
  unfolding update_oldest
  update_none_inv [] h = tt
  update_none_inv (x ∷ xs) h = elim (Option-cases (update_oldest key name e xs)) [
    | inl m ↦ (ground (arith, str_eq_iff (key x) name), update_none_inv xs m)
    | inr (xs', m) ↦ ground arith
  ]

  pub length-update : (s s' : List A) → update_oldest key name e s ≡ some s' → length s' ≡ length s
  length-update [] s' h = unfold update_oldest in cc
  length-update (x ∷ xs) s' h = elim (update_inv x xs s' h) [
    | inl (xs', m, same) ↦ ap length same ∙ ap suc (length-update xs xs' m)
    | inr (here, same) ↦ ap length same
  ]

  -- The names stay.
  pub update-All :
      (P : Bytes → Type 0) (s s' : List A)
      → All (λ f. P (key f)) s
      → update_oldest key name e s ≡ some s'
      → All (λ f. P (key f)) s'
  update-All P [] s' h m = unfold update_oldest in cc
  update-All P (x ∷ xs) s' h m = elim (update_inv x xs s' m) [
    | inl (xs', m', same) ↦
        subst (All (λ f. P (key f))) (sym same) (h.0, update-All P xs xs' h.1 m')
    | inr (here, same) ↦ subst (All (λ f. P (key f))) (sym same) (subst P (here ∙ sym k) h.0, h.1)
  ]

  pub update-IsUnique :
      (s s' : List A) → IsUnique key s → update_oldest key name e s ≡ some s' → IsUnique key s'
  update-IsUnique [] s' h m = unfold update_oldest in cc
  update-IsUnique (x ∷ xs) s' h m = elim (update_inv x xs s' m) [
    | inl (xs', m', same) ↦
        subst (IsUnique key) (sym same)
          (update-All (λ n. n ≢ key x) xs xs' h.0 m', update-IsUnique xs xs' h.1 m')
    | inr (here, same) ↦
        subst (IsUnique key) (sym same)
          (subst (λ n. All (λ f. key f ≢ n) xs) (here ∙ sym k) h.0, h.1)
  ]

  -- The new entry is found under its name.
  pub entry-update :
      (s s' : List A)
      → IsUnique key s
      → update_oldest key name e s ≡ some s'
      → entry key name s' ≡ some e
  unfolding entry
  entry-update [] s' h m = unfold update_oldest in cc
  entry-update (x ∷ xs) s' h m = elim (update_inv x xs s' m) [
    | inl (xs', m', same) ↦
        let other : key x ≢ name =
          λ eq. update_absent xs xs' (subst (λ n. All (λ f. key f ≢ n) xs) eq h.0) m' in
        rw same (ground (arith, str_eq_iff (key x) name, entry-update xs xs' h.1 m'))
    | inr (here, same) ↦ rw (same, (str_eq_iff (key e) name).1 k)
  ]

  -- Every other name finds what it did.
  pub entry-update_other :
      (other : Bytes) (s s' : List A)
      → other ≢ name
      → update_oldest key name e s ≡ some s'
      → entry key other s' ≡ entry key other s
  unfolding entry
  entry-update_other other [] s' ne m = unfold update_oldest in cc
  entry-update_other other (x ∷ xs) s' ne m = elim (update_inv x xs s' m) [
    | inl (xs', m', same) ↦ rw same (ground (arith, entry-update_other other xs xs' ne m'))
    | inr (here, same) ↦
        rw same (ground (arith, str_eq_iff (key x) other, str_eq_iff (key e) other))
  ]
