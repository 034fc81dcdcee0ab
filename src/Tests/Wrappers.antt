-- ===== src/Tests/Wrappers.antt =====
-- The calls of the LLVM library at concrete inputs.
use vix_lang.Common.Int.{pos, negsuc}
use vix_lang.Common.Text.{codes}
use vix_lang.Common.{ℕ, ◌≡◌, refl, Bool, none, some, [], ◌∷◌, ltb}
use vix_lang.Wrappers.Messages.{
  Message, verify, triple, print, serve_all, given_back, given_back-serve_all,
}
use vix_lang.Wrappers.Types.{to_unsigned}

minus_one : to_unsigned (negsuc 0) ≡ 18446744073709551615
minus_one = refl

abbrev small : ℕ → Bool
small n = ltb n 4

abbrev message : ℕ → Message
message a = record { address = a; content = codes "text" }

given_back-serve_all_example :
    given_back small (
      serve_all small
        (verify (pos 1) (some (message 8)) ∷ triple none ∷ print (some (message 9)) ∷ []))
    ≡ 8 ∷ 9 ∷ []
given_back-serve_all_example =
    given_back-serve_all small
      (verify (pos 1) (some (message 8)) ∷ triple none ∷ print (some (message 9)) ∷ [])
