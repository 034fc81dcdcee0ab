-- ===== src/Tests/Alloca.antt =====
-- The placement of a local at a concrete input: a function with an entry block and a body, the
-- builder in the body, and a second builder.
use vix_lang.Common.Text.{codes}
use vix_lang.Common.{
  ℕ, ◌+◌, ◌≡◌, ◌≢◌, refl, ap, sym, Bool, true, false, Option, none, some, List, [], ◌∷◌, ◌++◌, map,
}
use vix_lang.Alloca.{Ir, IsDocumented, build_alloca}
use vix_lang.Alloca.Entry.{IsInFront, build_alloca-IsInFront}

-- The instructions are numbered, and one is its block and its number.
abbrev Value : Type 0
Value = Bool × ℕ

abbrev Place : Type 0
Place = Option (Bool × Option Value)

record Body : Type 0 where
  entry_code : List ℕ
  body_code : List ℕ
  caller : Place
  second : Place
  next : ℕ

abbrev numbers : Bool → Body → List ℕ
numbers false s = s.entry_code
numbers true s = s.body_code

abbrev set_numbers : Bool → List ℕ → Body → Body
set_numbers false ns s = record s { entry_code = ns; next = s.next + 1 }
set_numbers true ns s = record s { body_code = ns; next = s.next + 1 }

abbrev values : Bool → List ℕ → List Value
values k ns = map (λ n. (k, n)) ns

abbrev code : Bool → Body → List Value
code k s = values k (numbers k s)

abbrev place : Bool → Body → Place
place false s = s.caller
place true s = s.second

abbrev set_place : Bool → Place → Body → Body
set_place false p s = record s { caller = p }
set_place true p s = record s { second = p }

abbrev block_of : Place → Option Bool
block_of none = none
block_of (some (k, p)) = some k

abbrev first : Bool → List ℕ → Option Value
first k [] = none
first k (n ∷ ns) = some (k, n)

abbrev created : Place → Option Bool
created none = some true
created (some p) = none

abbrev allocate : Place → Body → Value × Body
allocate none s = ((false, s.next), s)
allocate (some (k, some i)) s = ((k, s.next), set_numbers k (s.next ∷ numbers k s) s)
allocate (some (k, none)) s = ((k, s.next), set_numbers k (numbers k s ++ s.next ∷ []) s)

abbrev body : Ir
body = record {
  Module = Body;
  Builder = Bool;
  Block = Bool;
  Function = Bool;
  Value = Value;
  Ty = ℕ;
  insert_block = λ b s. block_of (place b s);
  parent = λ k s. some true;
  entry_block = λ f s. some false;
  first_instruction = λ k s. first k (numbers k s);
  create_builder = λ s. (created s.second, s);
  position_before = λ b i s. set_place b (some (i.0, some i)) s;
  position_at_end = λ b k s. set_place b (some (k, none)) s;
  llvm_alloca = λ b ty name s. allocate (place b s) s;
  dispose_builder = λ b s. set_place b none s;
}

set_place-code : (b : Bool) (p : Place) (s : Body) (k : Bool) → code k (set_place b p s) ≡ code k s
set_place-code false p s false = refl
set_place-code false p s true = refl
set_place-code true p s false = refl
set_place-code true p s true = refl

set_place-place : (b : Bool) (p : Place) (s : Body) → place b (set_place b p s) ≡ p
set_place-place false p s = refl
set_place-place true p s = refl

set_place-others :
    (b c : Bool) (p : Place) (s : Body) → c ≢ b → place c (set_place b p s) ≡ place c s
set_place-others false false p s h = absurd (h refl)
set_place-others false true p s h = refl
set_place-others true false p s h = refl
set_place-others true true p s h = absurd (h refl)

set_numbers-place : (k c : Bool) (ns : List ℕ) (s : Body) → place c (set_numbers k ns s) ≡ place c s
set_numbers-place false false ns s = refl
set_numbers-place false true ns s = refl
set_numbers-place true false ns s = refl
set_numbers-place true true ns s = refl

set_numbers-numbers : (k : Bool) (ns : List ℕ) (s : Body) → numbers k (set_numbers k ns s) ≡ ns
set_numbers-numbers false ns s = refl
set_numbers-numbers true ns s = refl

set_numbers-others :
    (j k : Bool) (ns : List ℕ) (s : Body) → j ≢ k → code j (set_numbers k ns s) ≡ code j s
set_numbers-others false false ns s h = absurd (h refl)
set_numbers-others false true ns s h = refl
set_numbers-others true false ns s h = refl
set_numbers-others true true ns s h = absurd (h refl)

values-append :
    (k : Bool) (ns : List ℕ) (n : ℕ) → values k (ns ++ n ∷ []) ≡ values k ns ++ (k, n) ∷ []
values-append k [] n = refl
values-append k (m ∷ ns) n = ap (λ vs. (k, m) ∷ vs) (values-append k ns n)

first-none : (k : Bool) (ns : List ℕ) → first k ns ≡ none → values k ns ≡ []
first-none k [] e = refl
first-none k (n ∷ ns) e = cc

first-some :
    (k : Bool) (ns : List ℕ) (i : Value)
    → first k ns ≡ some i
    → (rest : List Value) × (values k ns ≡ i ∷ rest)
first-some k [] i e = cc
first-some k (n ∷ ns) i e = (values k ns, cc)

block_of-head :
    (k : Bool) (ns : List ℕ) (i : Value) (rest : List Value) → values k ns ≡ i ∷ rest → i.0 ≡ k
block_of-head k [] i rest e = cc
block_of-head k (n ∷ ns) i rest e = let same : (k, n) ≡ i = cc in sym (ap (λ v. v.0) same)

created-none : (p : Place) (b : Bool) → created p ≡ some b → (p ≡ none) × (b ≡ true)
created-none none true e = (refl, refl)
created-none none false e = cc
created-none (some p) b e = cc

body-IsDocumented : IsDocumented body
body-IsDocumented = record {
  code = code;
  position = place;
  inserts = λ b s k p e. rw e refl;
  first_none = λ k s e. first-none k (numbers k s) e;
  first_some = λ k s i e. first-some k (numbers k s) i e;
  created_fresh = λ b s s' e. fresh b s (ap (λ r. r.0) e);
  created_code = λ b s s' k e. let same : s ≡ s' = ap (λ r. r.1) e in rw (← same) (refl, refl);
  created_position = λ b c s s' e h. let same : s ≡ s' = ap (λ r. r.1) e in rw (← same) refl;
  before_position = λ b i s k rest e.
      rw (set_place-place b (some (i.0, some i)) s, block_of-head k (numbers k s) i rest e) refl;
  before_others = λ b c i s h. set_place-others b c (some (i.0, some i)) s h;
  before_code = λ b i s k. set_place-code b (some (i.0, some i)) s k;
  end_position = λ b k s. set_place-place b (some (k, none)) s;
  end_others = λ b c k s h. set_place-others b c (some (k, none)) s h;
  end_code = λ b j k s. set_place-code b (some (j, none)) s k;
  alloca_before = λ b ty name s k i rest e is.
      rw (e, set_numbers-numbers k (s.next ∷ numbers k s) s) (ap (λ vs. (k, s.next) ∷ vs) is);
  alloca_end = λ b ty name s k e.
      rw (e, set_numbers-numbers k (numbers k s ++ s.next ∷ []) s)
        (values-append k (numbers k s) s.next);
  alloca_others = λ b ty name s j k p e h. allocate-others j k p (place b s) s e h;
  alloca_position = λ b c ty name s. allocate-place c (place b s) s;
  disposed_code = λ b s k. set_place-code b none s k;
  disposed_position = λ b c s h. set_place-others b c none s h;
}
  where
    fresh : (b : Bool) (s : Body) → created s.second ≡ some b → place b s ≡ none
    fresh b s e = let (free, is) = created-none s.second b e in rw (is, free) refl

    allocate-others :
        (j k : Bool) (p : Option Value) (q : Place) (s : Body)
        → q ≡ some (k, p)
        → j ≢ k
        → code j (allocate q s).1 ≡ code j s
    allocate-others j k (some i) q s e h = rw e (set_numbers-others j k (s.next ∷ numbers k s) s h)
    allocate-others j k none q s e h =
        rw e (set_numbers-others j k (numbers k s ++ s.next ∷ []) s h)

    allocate-place : (c : Bool) (q : Place) (s : Body) → place c (allocate q s).1 ≡ place c s
    allocate-place c none s = refl
    allocate-place c (some (k, some i)) s = set_numbers-place k c (s.next ∷ numbers k s) s
    allocate-place c (some (k, none)) s = set_numbers-place k c (numbers k s ++ s.next ∷ []) s

abbrev start : Body
start = record {
  entry_code = 0 ∷ 1 ∷ [];
  body_code = 2 ∷ [];
  caller = some (true, none);
  second = none;
  next = 3;
}

-- In front of the code of the entry block, not at the end of the body.
placed : (build_alloca body (some false) (some 7) (codes "x") start).1.entry_code ≡ 3 ∷ 0 ∷ 1 ∷ []
unfolding build_alloca
placed = refl

build_alloca-IsInFront_example :
    IsInFront body body-IsDocumented false true false start
      (build_alloca body (some false) (some 7) (codes "x") start)
unfolding body-IsDocumented
build_alloca-IsInFront_example =
    build_alloca-IsInFront body body-IsDocumented false true 7 (codes "x") start start (true, none)
      true false true refl refl refl refl (λ e. cc)
