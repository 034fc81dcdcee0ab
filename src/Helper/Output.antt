-- ===== src/Helper/Output.antt =====
-- Output of texts: `vix_asm_write_line` and `vix_print_stderr`. The functions of the C library are
-- parameters: each tells whether it could write, and gives the stream behind it.
use vix_lang.Common.Int.{ℤ, pos, negsuc}
use vix_lang.Common.Text.{Bytes}
use vix_lang.Common.{
  ℕ, ◌≡◌, refl, sym, ap, ◌∙◌, Bool, true, false, Option, none, some, List, [], ◌∷◌, ◌++◌,
  append_assoc, append-nil, map,
}
use vix_lang.Helper.{lines_text}

module _ {File : Type 0} (fputs : Bytes → File → Bool × File) (fputc : ℕ → File → Bool × File) where
  abbrev status : Bool × File → ℤ × Option File
  status (true, file) = (pos 0, some file)
  status (false, file) = (negsuc 0, some file)

  abbrev end_line : Bool × File → ℤ × Option File
  end_line (true, file) = status (fputc b'\n' file)
  end_line (false, file) = (negsuc 0, some file)

  unfoldable pub asm_write_line : Option File → Option Bytes → ℤ × Option File
  asm_write_line none text = (negsuc 0, none)
  asm_write_line (some file) none = (negsuc 0, some file)
  asm_write_line (some file) (some text) = end_line (fputs text file)

  unfoldable pub print_stderr : Bytes → File → File
  print_stderr s stderr = (fputs s stderr).1

  -- Line by line.
  unfoldable pub write_all : Option File → List Bytes → Option File
  unfolding asm_write_line
  write_all file [] = file
  write_all file (line ∷ lines) = write_all (asm_write_line file (some line)).1 lines

  -- Lines that are written one by one are the text in which `vix_join_lines` joins them, if the
  -- stream takes every write.
  pub write_all-lines_text :
      (content : File → Bytes) (file : File) (lines : List Bytes)
      → ((text : Bytes) (f : File)
          → (f' : File) × (fputs text f ≡ (true, f')) × (content f' ≡ content f ++ text))
      → ((c : ℕ) (f : File)
          → (f' : File) × (fputc c f ≡ (true, f')) × (content f' ≡ content f ++ c ∷ []))
      → (f' : File) × (write_all (some file) lines ≡ some f')
        × (content f' ≡ content file ++ lines_text (map some lines))
  unfolding write_all lines_text
  write_all-lines_text content file [] puts putc = (file, refl, sym (append-nil (content file)))
  write_all-lines_text content file (line ∷ lines) puts putc =
      let (f, e, c) = puts line file in
      let (g, e', c') = putc b'\n' f in
      let (h, done, c'') = write_all-lines_text content g lines puts putc in
      let front : content g ≡ (content file ++ line) ++ b'\n' ∷ [] =
        c' ∙ ap (λ s. s ++ b'\n' ∷ []) c in
      let whole : content h ≡ content file ++ (line ++ b'\n' ∷ lines_text (map some lines)) =
        c''
        ∙ ap (λ s. s ++ lines_text (map some lines)) front
        ∙ append_assoc (content file ++ line) (b'\n' ∷ []) (lines_text (map some lines))
        ∙ append_assoc (content file) line (b'\n' ∷ lines_text (map some lines)) in
      (h, rw (e, e', done) refl, whole)
