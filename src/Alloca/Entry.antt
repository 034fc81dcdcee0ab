-- ===== src/Alloca/Entry.antt =====
-- Where a local is placed.
use vix_lang.Common.Text.{Bytes}
use vix_lang.Common.{
  ◌≡◌, ◌≢◌, refl, sym, ap, ◌∙◌, Option, none, some, [], ◌∷◌, ◌++◌, Option-cases, inl, inr,
}
use vix_lang.Alloca.{Ir, IsDocumented, build_alloca, at_front}

module _ (ir : Ir) (doc : IsDocumented ir) where
  open ir use {
    Module, Builder, Block, Function, Value, Ty, parent, entry_block, first_instruction,
    create_builder, llvm_alloca, dispose_builder,
  }
  open doc use {code, position}

  -- The alloca is the first instruction of the block, no other block changes, and no other builder
  -- moves.
  abbrev pub IsInFront : Block → Block → Builder → Module → Option Value × Module → Type 0
  IsInFront entry j b s (result, s') =
      (v : Value) × (result ≡ some v)
      × (code entry s' ≡ v ∷ code entry s)
      × (code j s' ≡ code j s)
      × (position b s' ≡ position b s)

  -- The second builder stands at the front of the entry block.
  front-alloca :
      (entry j : Block) (b t : Builder) (ty : Ty) (name : Bytes) (s : Module)
      → j ≢ entry
      → b ≢ t
      → (code entry (llvm_alloca t ty name (at_front ir (first_instruction entry s) t entry s)).1
          ≡ (llvm_alloca t ty name (at_front ir (first_instruction entry s) t entry s)).0
            ∷ code entry s)
        × (code j (llvm_alloca t ty name (at_front ir (first_instruction entry s) t entry s)).1
            ≡ code j s)
        × (position b (llvm_alloca t ty name (at_front ir (first_instruction entry s) t entry s)).1
            ≡ position b s)
  front-alloca entry j b t ty name s other apart = elim (Option-cases (first_instruction entry s)) [
    | inl e ↦
        let s' = ir.position_at_end t entry s in
        let at = doc.end_position t entry s in
        rw e (
          doc.alloca_end t ty name s' entry at
              ∙ ap (λ is. is ++ (llvm_alloca t ty name s').0 ∷ [])
                  (doc.end_code t entry entry s ∙ doc.first_none entry s e)
              ∙ ap (λ is. (llvm_alloca t ty name s').0 ∷ is) (sym (doc.first_none entry s e)),
          doc.alloca_others t ty name s' j entry none at other ∙ doc.end_code t entry j s,
          doc.alloca_position t b ty name s' ∙ doc.end_others t b entry s apart,
        )
    | inr (i, e) ↦
        let s' = ir.position_before t i s in
        let (rest, is) = doc.first_some entry s i e in
        let at = doc.before_position t i s entry rest is in
        rw e (
          doc.alloca_before t ty name s' entry i rest at (doc.before_code t i s entry ∙ is)
              ∙ ap (λ is'. (llvm_alloca t ty name s').0 ∷ is') (sym is),
          doc.alloca_others t ty name s' j entry (some i) at other ∙ doc.before_code t i s j,
          doc.alloca_position t b ty name s' ∙ doc.before_others t b i s apart,
        )
  ]

  -- A builder that stands in a block of a function with an entry block gets the alloca as the first
  -- instruction of the entry block, wherever it stands itself. No other block changes, and the
  -- builder stays where it is. A second builder can be created.
  pub build_alloca-IsInFront :
      (b t : Builder) (ty : Ty) (name : Bytes) (s s' : Module) (at : Block × Option Value)
      (function : Function) (entry j : Block)
      → position b s ≡ some at
      → parent at.0 s ≡ some function
      → entry_block function s ≡ some entry
      → create_builder s ≡ (some t, s')
      → j ≢ entry
      → IsInFront entry j b s (build_alloca ir (some b) (some ty) name s)
  unfolding build_alloca
  build_alloca-IsInFront b t ty name s s' (k, p) function entry j stands in_function has made
        other =
      let fresh = doc.created_fresh t s s' made in
      let apart : b ≢ t = λ same. cc (same, stands, fresh) in
      let (front, rest, stays) = front-alloca entry j b t ty name s' other apart in
      let r = llvm_alloca t ty name (at_front ir (first_instruction entry s') t entry s') in
      rw (doc.inserts b s k p stands, in_function, has, made)
        (
          r.0,
          refl,
          doc.disposed_code t r.1 entry
              ∙ front
              ∙ ap (λ is. r.0 ∷ is) (doc.created_code t s s' entry made).0,
          doc.disposed_code t r.1 j ∙ rest ∙ (doc.created_code t s s' j made).0,
          doc.disposed_position t b r.1 apart ∙ stays ∙ doc.created_position t b s s' made apart,
        )
