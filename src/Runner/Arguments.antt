-- ===== src/Runner/Arguments.antt =====
-- dart/example/windows/runner/utils.cpp: the command line as UTF-8.
use ob_dump.Base.{
  ◌≤◌, All, take_all, length, ◌≡◌, refl, arith, ◌≢◌, ◌<◌, ap, ◌∙◌, ℕ, zero, suc, List, [], ◌∷◌, map,
  ltb, ◌==◌, ◌||◌, if◌then◌else◌, Option, none, some, Bytes, take, drop,
}

-- A wide string: its 16-bit units, up to a NUL if there is one.
abbrev pub Wide : Type 0
Wide = List ℕ

-- WideCharToMultiByte with CP_UTF8 and WC_ERR_INVALID_CHARS: the length that it returns with no
-- buffer, and what it returns and writes with one. Then what the standard library's string can hold.
pub record Conversion : Type 0 where
  pub utf8_length : Wide → ℕ
  pub utf8_convert : Wide → ℕ → ℕ × Bytes
  pub max_size : ℕ

abbrev pub unicode_string_max_chars : ℕ
unicode_string_max_chars = 32767

abbrev pub wcsnlen : Wide → ℕ → ℕ
wcsnlen text zero = 0
wcsnlen [] (suc bound) = 0
wcsnlen (zero ∷ text) (suc bound) = 0
wcsnlen (suc unit ∷ text) (suc bound) = suc (wcsnlen text bound)

module _ (C : Conversion) where
  -- From the length that the first call returned.
  convert : Wide → ℕ → Bytes
  convert input target_length =
      if (target_length == 0) || ltb C.max_size target_length
      then []
      else let (converted_length, utf8_string) = C.utf8_convert input target_length in
        if converted_length == 0 then [] else utf8_string

  unfoldable pub utf8_from_utf16 : Option Wide → Bytes
  unfolding convert
  utf8_from_utf16 none = []
  utf8_from_utf16 (some utf16_string) =
      let input = take (wcsnlen utf16_string unicode_string_max_chars) utf16_string in
      convert input (C.utf8_length input)

  -- From the arguments that CommandLineToArgvW found, or none when it failed.
  unfoldable pub get_command_line_arguments : Option (List (Option Wide)) → List Bytes
  unfolding utf8_from_utf16
  get_command_line_arguments none = []
  get_command_line_arguments (some argv) = map utf8_from_utf16 (drop 1 argv)

-- What is documented of WideCharToMultiByte: into a buffer of the size that the first call returned,
-- it writes that many bytes.
pub record ConversionLaws (C : Conversion) : Type 0 where
  pub writes : (text : Wide) → (C.utf8_convert text (C.utf8_length text)).0 ≡ C.utf8_length text

wcsnlen_whole :
    (text : Wide) (bound : ℕ)
    → All (λ unit. unit ≢ 0) text
    → length text ≤ bound
    → wcsnlen text bound ≡ length text
wcsnlen_whole [] zero a h = refl
wcsnlen_whole [] (suc bound) a h = refl
wcsnlen_whole (unit ∷ text) zero a h = absurd (omega arith)
wcsnlen_whole (zero ∷ text) (suc bound) a h = absurd (a.0 refl)
wcsnlen_whole (suc unit ∷ text) (suc bound) a h =
    ap suc (wcsnlen_whole text bound a.1 (omega arith))

module _ (C : Conversion) (laws : ConversionLaws C) where
  -- An argument that Utf8FromUtf16 converts: no NUL, at most 32767 units, and valid UTF-16, so that
  -- its length in UTF-8 is not 0.
  abbrev pub IsArgument : Wide → Type 0
  IsArgument text =
      All (λ unit. unit ≢ 0) text
      × (length text ≤ unicode_string_max_chars)
      × (0 < C.utf8_length text)
      × (C.utf8_length text ≤ C.max_size)

  -- The text of an argument in UTF-8.
  abbrev pub utf8 : Wide → Bytes
  utf8 text = (C.utf8_convert text (C.utf8_length text)).1

  convert-utf8 : (text : Wide) → IsArgument text → convert C text (C.utf8_length text) ≡ utf8 text
  unfolding convert
  convert-utf8 text h = ground (arith, laws.writes text)

  utf8_from_utf16-utf8 : (text : Wide) → IsArgument text → utf8_from_utf16 C (some text) ≡ utf8 text
  unfolding utf8_from_utf16
  utf8_from_utf16-utf8 text h =
      ap (λ input. convert C input (C.utf8_length input)) whole ∙ convert-utf8 text h
    where
      whole : take (wcsnlen text unicode_string_max_chars) text ≡ text
      whole =
          rw (wcsnlen_whole text unicode_string_max_chars h.0 h.1)
            (take_all (length text) text (omega arith))

  arguments :
      (args : List Wide)
      → All IsArgument args
      → map (utf8_from_utf16 C) (map some args) ≡ map utf8 args
  arguments [] a = refl
  arguments (text ∷ args) a = rw (utf8_from_utf16-utf8 text a.0, arguments args a.1) refl

  -- The engine gets the UTF-8 texts of all arguments but the binary's name, in their order, if each
  -- can be converted.
  pub get_command_line_arguments-utf8 :
      (binary_name : Option Wide) (args : List Wide)
      → All IsArgument args
      → get_command_line_arguments C (some (binary_name ∷ map some args)) ≡ map utf8 args
  unfolding get_command_line_arguments
  get_command_line_arguments-utf8 binary_name args a = arguments args a
