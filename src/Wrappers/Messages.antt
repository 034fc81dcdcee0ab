-- ===== src/Wrappers/Messages.antt =====
-- The functions that get a message from the LLVM library: `vix_LLVMVerifyModule`,
-- `vix_LLVMGetDefaultTargetTripleCopy` and `vix_LLVMPrintModuleToStringCopy`. What the library
-- answers is an argument; a message is a block of the library, which has to be given back.
use vix_lang.Common.Int.{ℤ}
use vix_lang.Common.Text.{Bytes, codes}
use vix_lang.Common.{
  ℕ, ◌+◌, ◌≡◌, refl, ap, Bool, Option, none, some, List, [], ◌∷◌, ◌++◌, length, if◌then◌else◌,
  arith,
}
use vix_lang.Helper.{is_int}

pub record Message : Type 0 where
  pub address : ℕ
  pub content : Bytes

-- `LLVMDisposeMessage`, and the writing to the standard error.
pub data Event : Type 0 where
  disposed : ℕ → Event
  reported : Bytes → Event

abbrev pub report_of : ℤ → Message → List Event
report_of result m =
    if is_int 0 result
    then []
    else reported (codes "LLVM Verify Module FAILED: " ++ (m.content ++ b'\n' ∷ [])) ∷ []

unfoldable pub verify_module : ℤ → Option Message → ℤ × List Event
verify_module result none = (result, [])
verify_module result (some m) = (result, report_of result m ++ disposed m.address ∷ [])

module _ (can_alloc : ℕ → Bool) where
  unfoldable pub default_target_triple_copy : Option Message → Option Bytes × List Event
  default_target_triple_copy none = (none, [])
  default_target_triple_copy (some triple) = (
    if can_alloc (length triple.content + 1) then some triple.content else none,
    disposed triple.address ∷ [],
  )

  unfoldable pub print_module_copy : Option Message → Option Bytes × List Event
  print_module_copy none = (none, [])
  print_module_copy (some printed) = (
    if can_alloc (length printed.content + 1) then some printed.content else none,
    disposed printed.address ∷ [],
  )

  -- One of the three calls, with what the library answers.
  pub data Request : Type 0 where
    verify : ℤ → Option Message → Request
    triple : Option Message → Request
    print : Option Message → Request

  abbrev pub serve : Request → List Event
  serve (verify result m) = (verify_module result m).1
  serve (triple m) = (default_target_triple_copy m).1
  serve (print m) = (print_module_copy m).1

  unfoldable pub serve_all : List Request → List Event
  serve_all [] = []
  serve_all (r ∷ rs) = serve r ++ serve_all rs

  abbrev address_of : Option Message → List ℕ
  address_of none = []
  address_of (some m) = m.address ∷ []

  -- The blocks that the library has given.
  abbrev pub given : List Request → List ℕ
  given [] = []
  given (verify result m ∷ rs) = address_of m ++ given rs
  given (triple m ∷ rs) = address_of m ++ given rs
  given (print m ∷ rs) = address_of m ++ given rs

  -- The blocks that are given back.
  abbrev pub given_back : List Event → List ℕ
  given_back [] = []
  given_back (disposed a ∷ es) = a ∷ given_back es
  given_back (reported t ∷ es) = given_back es

  -- Every message of the library is given back once, in order, and nothing else is, whatever the
  -- results and whether or not the copies can be allocated.
  pub given_back-serve_all : (rs : List Request) → given_back (serve_all rs) ≡ given rs
  unfolding serve_all verify_module default_target_triple_copy print_module_copy
  given_back-serve_all [] = refl
  given_back-serve_all (verify result none ∷ rs) = given_back-serve_all rs
  given_back-serve_all (verify result (some m) ∷ rs) = ground (arith, given_back-serve_all rs)
  given_back-serve_all (triple none ∷ rs) = given_back-serve_all rs
  given_back-serve_all (triple (some m) ∷ rs) =
      ap (λ as'. m.address ∷ as') (given_back-serve_all rs)
  given_back-serve_all (print none ∷ rs) = given_back-serve_all rs
  given_back-serve_all (print (some m) ∷ rs) = ap (λ as'. m.address ∷ as') (given_back-serve_all rs)
