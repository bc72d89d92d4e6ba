-- ===== src/FastStr/Utf16.antt =====
-- `utf16_code_unit_to_char_idx`: from an offset in UTF-16 units to a character.
use jumprope_rs.Base.{
  ℕ, ◌+◌, ◌≡◌, refl, ◌∙◌, true, some, List, [], ◌∷◌, ◌++◌, arith, length, All, ap,
}
use jumprope_rs.Utf8.{IsScalar, encode, pairs, astral, len_utf16}
use jumprope_rs.Utf8.Laws.{chars-encode}
use jumprope_rs.Build.{Build}
use jumprope_rs.FastStr.{scan_utf16, utf16_code_unit_to_char_idx}

-- The length of a text in UTF-16 units.
abbrev pub units : List ℕ → ℕ
units cs = length cs + pairs cs

scan_utf16-stop : (n : ℕ) (cs : List ℕ) (i : ℕ) → scan_utf16 n cs i n ≡ (i, n)
unfolding scan_utf16
scan_utf16-stop n [] i = refl
scan_utf16-stop n (c ∷ cs) i = ground arith

scan_utf16-append :
    (n : ℕ) (xs ys : List ℕ) (i k : ℕ)
    → n ≡ k + units xs
    → scan_utf16 n (xs ++ ys) i k ≡ (i + length xs, n)
unfolding scan_utf16
scan_utf16-append n [] ys i k h =
    ap (scan_utf16 n ys i) (omega arith) ∙ scan_utf16-stop n ys i ∙ ground arith
scan_utf16-append n (x ∷ xs) ys i k h =
    ground (arith, scan_utf16-append n xs ys (i + 1) (k + len_utf16 x))

-- An offset between the two units of a character stops behind it.
scan_utf16-inside :
    (n : ℕ) (xs ys : List ℕ) (c i k : ℕ)
    → astral c ≡ true
    → n ≡ k + units xs + 1
    → scan_utf16 n (xs ++ c ∷ ys) i k ≡ (i + length xs + 1, n + 1)
unfolding scan_utf16
scan_utf16-inside n [] [] c i k a h = ground arith
scan_utf16-inside n [] (y ∷ ys) c i k a h = ground arith
scan_utf16-inside n (x ∷ xs) ys c i k a h =
    ground (arith, scan_utf16-inside n xs ys c (i + 1) (k + len_utf16 x))

module _ (e : Build) (xs ys : List ℕ) where
  -- On the bytes of a text, `utf16_code_unit_to_char_idx` of the UTF-16 length of its first
  -- characters returns their number.
  pub utf16_code_unit_to_char_idx-encode :
      All IsScalar (xs ++ ys)
      → utf16_code_unit_to_char_idx e (encode (xs ++ ys)) (units xs) ≡ some (length xs)
  unfolding utf16_code_unit_to_char_idx
  utf16_code_unit_to_char_idx-encode h =
      rw (chars-encode (xs ++ ys) h, scan_utf16-append (units xs) xs ys 0 0 (omega arith))
        (ground arith)

  -- An offset inside a surrogate pair gives the character that the pair stands for.
  pub utf16_code_unit_to_char_idx-inside :
      (c : ℕ)
      → astral c ≡ true
      → All IsScalar (xs ++ c ∷ ys)
      → utf16_code_unit_to_char_idx e (encode (xs ++ c ∷ ys)) (units xs + 1) ≡ some (length xs)
  unfolding utf16_code_unit_to_char_idx
  utf16_code_unit_to_char_idx-inside c a h =
      rw
        (
          chars-encode (xs ++ c ∷ ys) h,
          scan_utf16-inside (units xs + 1) xs ys c 0 0 a (omega arith),
        )
        (ground arith)
