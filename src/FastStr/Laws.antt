-- ===== src/FastStr/Laws.antt =====
-- What counting and finding give on the bytes of a text.
use jumprope_rs.Base.{
  ℕ, zero, suc, ◌+◌, ◌≤◌, ◌<◌, ◌≡◌, refl, ◌∙◌, sym, true, some, List, [], ◌∷◌, ◌++◌, arith,
  Bool-cases, inl, inr, count_by, length, length-append, take, All, ap, le→leb, le-or-lt, take_all,
}
use jumprope_rs.Utf8.{IsScalar, encode_char, encode, pairs, is_newline}
use jumprope_rs.Utf8.Laws.{
  count_start-encode, count_wide-encode, count_newline-encode, length-le-encode,
}
use jumprope_rs.Utf8.Shape.{IsTail, encode_char-Shape}
use jumprope_rs.Build.{Build}
use jumprope_rs.FastStr.{
  count_chars_in_bytes, count_chars, scan_chars, char_to_byte_idx, count_utf16_surrogates_in_bytes,
  count_utf16_surrogates, count_lines,
}

short_text :
    (cs : List ℕ) → All IsScalar cs → length (encode cs) ≤ 1 → length (encode cs) ≡ length cs
unfolding encode
short_text [] h k = refl
short_text (c ∷ cs) h k = omega (arith, length-le-encode (c ∷ cs))

module _ (e : Build) (cs : List ℕ) (h : All IsScalar cs) where
  pub count_chars_in_bytes-encode : count_chars_in_bytes e (encode cs) ≡ length cs
  unfolding count_chars_in_bytes
  count_chars_in_bytes-encode =
      ground (arith, short_text cs h, count_start-encode cs h, e.chars_count_lem cs h)

  -- On the bytes of a text, `count_chars` is the number of characters, under Miri, for short
  -- strings and by what `str_indices` documents.
  pub count_chars-encode : count_chars e (encode cs) ≡ length cs
  unfolding count_chars
  count_chars-encode = count_chars_in_bytes-encode

  pub count_utf16_surrogates_in_bytes-encode :
      count_utf16_surrogates_in_bytes e (encode cs) ≡ pairs cs
  unfolding count_utf16_surrogates_in_bytes
  count_utf16_surrogates_in_bytes-encode =
      ground (arith, count_wide-encode cs h, e.utf16_count_surrogates_lem cs h)

  -- On the bytes of a text, `count_utf16_surrogates` is the number of characters that UTF-16
  -- writes as a surrogate pair, under Miri and by what `str_indices` documents.
  pub count_utf16_surrogates-encode : count_utf16_surrogates e (encode cs) ≡ pairs cs
  unfolding count_utf16_surrogates
  count_utf16_surrogates-encode = count_utf16_surrogates_in_bytes-encode

  -- On the bytes of a text, `count_lines` is the number of its newlines.
  pub count_lines-encode : count_lines (encode cs) ≡ count_by is_newline cs
  unfolding count_lines
  count_lines-encode = count_newline-encode cs h

-- The naive loop of `char_to_byte_idx`.
scan_chars-tail :
    (n : ℕ) (t bs : List ℕ) (i k : ℕ)
    → IsTail t
    → k ≤ n
    → scan_chars n (t ++ bs) i k ≡ scan_chars n bs (i + length t) k
unfolding scan_chars
scan_chars-tail n [] bs i k h le = ap (λ j. scan_chars n bs j k) (omega arith)
scan_chars-tail n (b ∷ t) bs i k (out, h) le =
    rw (out, le→leb k n le)
      (scan_chars-tail n t bs (i + 1) k h le ∙ ap (λ j. scan_chars n bs j k) (omega arith))

scan_chars-encode_char :
    (n c : ℕ) (bs : List ℕ) (i k : ℕ)
    → IsScalar c
    → k < n
    → scan_chars n (encode_char c ++ bs) i k ≡ scan_chars n bs (i + length (encode_char c)) (k + 1)
unfolding scan_chars
scan_chars-encode_char n c bs i k s lt =
    rw (shape, starts, le→leb k n (omega arith))
      (scan_chars-tail n tail bs (i + 1) (k + 1) continues (omega arith)
        ∙ ap (λ j. scan_chars n bs j (k + 1)) (omega arith))
  where
    open encode_char-Shape c s use {first, tail, shape, starts, continues}

scan_chars-stop : (n : ℕ) (bs : List ℕ) (i k : ℕ) → n < k → scan_chars n bs i k ≡ (i, k)
unfolding scan_chars
scan_chars-stop n [] i k h = refl
scan_chars-stop n (b ∷ bs) i k h = ground arith

-- The text ends before the character `n`.
scan_chars-short :
    (n : ℕ) (cs : List ℕ) (i k : ℕ)
    → All IsScalar cs
    → k + length cs ≤ n
    → scan_chars n (encode cs) i k ≡ (i + length (encode cs), k + length cs)
unfolding encode
scan_chars-short n [] i k h le = unfold scan_chars in ground arith
scan_chars-short n (c ∷ cs) i k (s, h) le =
    scan_chars-encode_char n c (encode cs) i k s (omega arith)
    ∙ scan_chars-short n cs (i + length (encode_char c)) (k + 1) h (omega arith)
    ∙ ground (arith, length-append (encode_char c) (encode cs))

-- The loop stops behind the first byte of the character `n`.
scan_chars-long :
    (n d : ℕ) (cs : List ℕ) (i k : ℕ)
    → All IsScalar cs
    → k + d ≡ n
    → d < length cs
    → scan_chars n (encode cs) i k ≡ (i + length (encode (take d cs)) + 1, n + 1)
unfolding encode scan_chars
scan_chars-long n zero [] i k h e lt = absurd (omega arith)
scan_chars-long n (suc d) [] i k h e lt = absurd (omega arith)
scan_chars-long n zero (c ∷ cs) i k (s, h) e lt =
    rw (shape, starts, le→leb k n (omega arith))
      (scan_chars-stop n (tail ++ encode cs) (i + 1) (k + 1) (omega arith) ∙ ground arith)
  where
    open encode_char-Shape c s use {first, tail, shape, starts, continues}
scan_chars-long n (suc d) (c ∷ cs) i k (s, h) e lt =
    scan_chars-encode_char n c (encode cs) i k s (omega arith)
    ∙ scan_chars-long n d cs (i + length (encode_char c)) (k + 1) h (omega arith) (omega arith)
    ∙ ground (arith, length-append (encode_char c) (encode (take d cs)))

module _ (e : Build) (cs : List ℕ) (n : ℕ) (h : All IsScalar cs) where
  naive_past_end :
      length cs ≤ n → e.miri ≡ true → char_to_byte_idx e (encode cs) n ≡ some (length (encode cs))
  unfolding char_to_byte_idx
  naive_past_end le m = rw (m, scan_chars-short n cs 0 0 h (omega arith)) (ground arith)

  naive_inside :
      n < length cs
      → e.miri ≡ true
      → char_to_byte_idx e (encode cs) n ≡ some (length (encode (take n cs)))
  unfolding char_to_byte_idx
  naive_inside lt m = rw (m, scan_chars-long n n cs 0 0 h (omega arith) lt) (ground arith)

  -- On the bytes of a text, `char_to_byte_idx` is the number of bytes of the first characters, or
  -- of all if there are fewer: under Miri by its own loop, otherwise by what `str_indices`
  -- documents.
  pub char_to_byte_idx-encode :
      char_to_byte_idx e (encode cs) n ≡ some (length (encode (take n cs)))
  unfolding char_to_byte_idx
  char_to_byte_idx-encode = elim (Bool-cases e.miri) [
    | inl m ↦ elim (le-or-lt (length cs) n) [
      | inl le ↦ naive_past_end le m ∙ ap (λ t. some (length (encode t))) (sym (take_all n cs le))
      | inr lt ↦ naive_inside lt m
    ]
    | inr m ↦ rw m (ap some (e.chars_to_byte_idx_lem cs n h))
  ]
