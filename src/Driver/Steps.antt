-- ===== src/Driver/Steps.antt =====
-- The steps that both files take: how a chain of them succeeds, and what they do to the log.
use vix_lang.Common.Text.{Bytes}
use vix_lang.Common.{
  ℕ, suc, ◌+◌, ◌≡◌, ◌⊎◌, inl, inr, refl, ap, true, false, none, List, [], ◌∷◌, ◌++◌, Option-cases,
  arith, if◌then◌else◌,
}
use vix_lang.Driver.{
  Outcome, ok, fail, ◌>>=◌, Library, Effect, init_targets, opened, wrote, State, initialize_once,
  verified,
}

pub Outcome-cases :
    {A : Type 0} (o : Outcome A) → ((m : Bytes) × (o ≡ fail m)) ⊎ ((a : A) × (o ≡ ok a))
Outcome-cases (ok a) = inr (a, refl)
Outcome-cases (fail m) = inl (m, refl)

-- Inversion of a successful chain.
pub >>=-eq-ok :
    {A B : Type 0} (o : Outcome A) (f : A → Outcome B) (b : B)
    → (o >>= f) ≡ ok b
    → (a : A) × (o ≡ ok a) × (f a ≡ ok b)
>>=-eq-ok (ok a) f b h = (a, refl, h)
>>=-eq-ok (fail m) f b h = cc

module _ (l : Library) where
  open l use {Module, verify}

  pub verified-ok : (m m' : Module) → verified l m ≡ ok m' → (m ≡ m') × (verify m ≡ none)
  unfolding verified
  verified-ok m m' h = elim (Option-cases (verify m)) [
    | inl e ↦ (ground (arith, e), e)
    | inr (x, e) ↦ ground (arith, e)
  ]

-- How often the targets are initialised in a log.
abbrev pub count_inits : List Effect → ℕ
count_inits [] = 0
count_inits (init_targets ∷ es) = suc (count_inits es)
count_inits (opened p ∷ es) = count_inits es
count_inits (wrote p t ∷ es) = count_inits es

pub count_inits-append :
    (es fs : List Effect) → count_inits (es ++ fs) ≡ count_inits es + count_inits fs
count_inits-append [] fs = omega arith
count_inits-append (init_targets ∷ es) fs = omega (arith, count_inits-append es fs)
count_inits-append (opened p ∷ es) fs = count_inits-append es fs
count_inits-append (wrote p t ∷ es) fs = count_inits-append es fs

-- Either nothing has happened, or the targets were initialised first and never again.
abbrev pub IsOnce : State → Type 0
IsOnce s =
    ((s.initialized ≡ false) × (s.effects ≡ []))
    ⊎ ((s.initialized ≡ true)
        × (es : List Effect) × (s.effects ≡ init_targets ∷ es)
        × (count_inits es ≡ 0))

-- The targets are initialised, and only files are touched behind that.
abbrev pub IsReady : State → Type 0
IsReady s =
    (s.initialized ≡ true)
    × (es : List Effect) × (s.effects ≡ init_targets ∷ es)
    × (count_inits es ≡ 0)

pub initialize_once-IsReady : (s : State) → IsOnce s → IsReady (initialize_once s)
unfolding initialize_once
initialize_once-IsReady s (inl (off, quiet)) = rw (off, quiet) (refl, [], refl, refl)
initialize_once-IsReady s (inr (on, es, e, c)) = rw on (refl, es, e, c)

pub append-IsReady :
    (s : State) (fs : List Effect)
    → IsReady s
    → count_inits fs ≡ 0
    → IsReady (record s { effects = s.effects ++ fs })
append-IsReady s fs (on, es, e, none_in) h =
    (on, es ++ fs, ap (λ es'. es' ++ fs) e, omega (arith, count_inits-append es fs, none_in))

-- The log behind the first call of `std::call_once`, or any later one.
abbrev pub log_once : State → List Effect
log_once s = if s.initialized then s.effects else s.effects ++ init_targets ∷ []

pub initialize_once-effects : (s : State) → (initialize_once s).effects ≡ log_once s
unfolding initialize_once
initialize_once-effects s = ground arith

pub initialize_once-last_error : (s : State) → (initialize_once s).last_error ≡ s.last_error
unfolding initialize_once
initialize_once-last_error s = ground arith
