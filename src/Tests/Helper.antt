-- ===== src/Tests/Helper.antt =====
-- The string helpers at concrete inputs.
use vix_lang.Common.Int.{pos, negsuc}
use vix_lang.Common.Text.{codes, is_blank}
use vix_lang.Common.{ℕ, ◌≡◌, refl, Bool, true, none, some, [], ◌∷◌, ◌++◌, arith}
use vix_lang.Helper.Trim.{trim_ascii-trimmed}
use vix_lang.Helper.{
  string_byte, diag_configure, diag_color_enabled, substr_range, source_line_copy, trim_ascii,
  join_lines, clean_symbol_name,
}

abbrev always : ℕ → Bool
always n = true

signed :
    (string_byte (codes "a") 0 ≡ pos 97)
    × (string_byte (195 ∷ []) 0 ≡ negsuc 60)
    × (string_byte (codes "a") 1 ≡ pos 0)
unfolding string_byte
signed = (refl, refl, refl)

colors :
    (diag_color_enabled true (
        diag_configure
          (pos 0)
          (pos 0)
          (pos 0)
          (record { format = pos 9; color = pos 9; test_mode = pos 9 }))
      ≡ pos 1)
    × (diag_color_enabled true (
          diag_configure
            (pos 0)
            (pos 1)
            (pos 1)
            (record { format = pos 9; color = pos 9; test_mode = pos 9 }))
        ≡ pos 0)
unfolding diag_color_enabled diag_configure
colors = (refl, refl)

joined_lines : join_lines always (some (some (codes "a") ∷ none ∷ [])) ≡ some (codes "a\n\n")
unfolding join_lines
joined_lines = refl

all_blank : trim_ascii always (some (codes " \n")) ≡ some []
unfolding trim_ascii substr_range
all_blank = refl

copied :
    source_line_copy always (some (codes "a\n" ++ (codes "bc" ++ codes "\nd"))) (pos 2) (pos 2)
    ≡ some (codes "bc")
unfolding source_line_copy
copied = refl

cleaned : clean_symbol_name always (some (codes "%a.b")) ≡ some (codes "a_b")
unfolding clean_symbol_name
cleaned = refl

trim_ascii-trimmed_example :
    trim_ascii always (some (codes " " ++ (codes "a b" ++ codes "\t\n"))) ≡ some (codes "a b")
unfolding is_blank
trim_ascii-trimmed_example =
    trim_ascii-trimmed always (codes " ") (codes "a b") (codes "\t\n") (λ n. refl) (refl, tt)
      (refl, (refl, tt)) (refl, refl) (omega arith) (omega arith)
