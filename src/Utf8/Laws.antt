-- ===== src/Utf8/Laws.antt =====
-- The bytes of a text: its characters, surrogate pairs and lines can be counted in them.
use jumprope_rs.Base.{
  ℕ, ◌≤◌, ◌<◌, ◌≡◌, refl, sym, ◌∙◌, true, List, [], ◌∷◌, ◌++◌, arith, ltb, ap, Bool-cases, inl, inr,
  count_by, count_by-append, length, length-append, All, append_assoc,
}
use jumprope_rs.Utf8.{
  IsScalar, encode_char, encode, is_start, is_wide, pairs, is_newline, utf8_from, is_utf8, chars,
  chars_from, decode_byte,
}
use jumprope_rs.Utf8.Bytes.{
  count_start-encode_char, count_wide-encode_char, count_newline-encode_char, utf8_from-encode_char,
}

pub encode-append : (xs ys : List ℕ) → encode (xs ++ ys) ≡ encode xs ++ encode ys
unfolding encode
encode-append [] ys = refl
encode-append (x ∷ xs) ys =
    ap (encode_char x ++◌) (encode-append xs ys) ∙ sym (append_assoc (encode_char x) _ _)

-- As many first bytes as characters.
pub count_start-encode : (cs : List ℕ) → All IsScalar cs → count_by is_start (encode cs) ≡ length cs
unfolding encode
count_start-encode [] h = refl
count_start-encode (c ∷ cs) (s, h) = omega (
  arith,
  count_by-append is_start (encode_char c) (encode cs),
  count_start-encode_char c s,
  count_start-encode cs h,
)

pub count_wide-encode : (cs : List ℕ) → All IsScalar cs → count_by is_wide (encode cs) ≡ pairs cs
unfolding encode
count_wide-encode [] h = refl
count_wide-encode (c ∷ cs) (s, h) = omega (
  arith,
  count_by-append is_wide (encode_char c) (encode cs),
  count_wide-encode_char c s,
  count_wide-encode cs h,
)

pub count_newline-encode :
    (cs : List ℕ) → All IsScalar cs → count_by is_newline (encode cs) ≡ count_by is_newline cs
unfolding encode
count_newline-encode [] h = refl
count_newline-encode (c ∷ cs) (s, h) = omega (
  arith,
  count_by-append is_newline (encode_char c) (encode cs),
  count_newline-encode_char c s,
  count_newline-encode cs h,
)

utf8_from-encode : (cs : List ℕ) → All IsScalar cs → utf8_from 0 0 0 (encode cs) ≡ true
unfolding encode utf8_from
utf8_from-encode [] h = refl
utf8_from-encode (c ∷ cs) (s, h) = utf8_from-encode_char c s (encode cs) ∙ utf8_from-encode cs h

-- The bytes of a text pass the test.
pub is_utf8-encode : (cs : List ℕ) → All IsScalar cs → is_utf8 (encode cs) ≡ true
unfolding is_utf8
is_utf8-encode cs h = utf8_from-encode cs h

abbrev pub IsAscii : ℕ → Type 0
IsAscii c = c < 128

length-encode_char : (c : ℕ) → 1 ≤ length (encode_char c)
unfolding encode_char
length-encode_char c = ground arith

IsAscii-of_length : (c : ℕ) → length (encode_char c) ≤ 1 → IsAscii c
unfolding encode_char
IsAscii-of_length c h = ground arith

length-encode_char_ascii : (c : ℕ) → IsAscii c → length (encode_char c) ≡ 1
unfolding encode_char
length-encode_char_ascii c h = ground arith

pub length-le-encode : (cs : List ℕ) → length cs ≤ length (encode cs)
unfolding encode
length-le-encode [] = omega arith
length-le-encode (c ∷ cs) =
    omega
      (arith, length-append (encode_char c) (encode cs), length-encode_char c, length-le-encode cs)

-- A text with no more bytes than characters is ASCII.
pub IsAscii-of_encode : (cs : List ℕ) → length (encode cs) ≤ length cs → All IsAscii cs
unfolding encode
IsAscii-of_encode [] h = tt
IsAscii-of_encode (c ∷ cs) h =
    let n = length-append (encode_char c) (encode cs) in
    let m = length-encode_char c in
    let k = length-le-encode cs in
    (IsAscii-of_length c (omega arith), IsAscii-of_encode cs (omega arith))

pub length-encode_ascii : (cs : List ℕ) → All IsAscii cs → length (encode cs) ≡ length cs
unfolding encode
length-encode_ascii [] h = refl
length-encode_ascii (c ∷ cs) (a, h) = omega (
  arith,
  length-append (encode_char c) (encode cs),
  length-encode_char_ascii c a,
  length-encode_ascii cs h,
)

pub pairs_ascii : (cs : List ℕ) → All IsAscii cs → pairs cs ≡ 0
pairs_ascii [] h = refl
pairs_ascii (c ∷ cs) (a, h) = ground (arith, pairs_ascii cs h)

chars-encode_char :
    (c : ℕ)
    → IsScalar c
    → (bs : List ℕ) → chars_from 0 0 (encode_char c ++ bs) ≡ c ∷ chars_from 0 0 bs
unfolding encode_char chars_from decode_byte
chars-encode_char c s bs = elim (Bool-cases (ltb c 0x80)) [
  | inl a ↦ rw (a, a) refl
  | inr a ↦ rw a (elim (Bool-cases (ltb c 0x800)) [
    | inl b ↦ rw b (ground arith)
    | inr b ↦ rw b (elim (Bool-cases (ltb c 0x10000)) [
      | inl d ↦ rw d (ground arith)
      | inr d ↦ rw d (ground arith)
    ])
  ])
]

chars_from-encode : (cs : List ℕ) → All IsScalar cs → chars_from 0 0 (encode cs) ≡ cs
unfolding encode chars_from
chars_from-encode [] h = refl
chars_from-encode (c ∷ cs) (s, h) =
    chars-encode_char c s (encode cs) ∙ ap (c ∷◌) (chars_from-encode cs h)

-- Decoding gives the text back.
pub chars-encode : (cs : List ℕ) → All IsScalar cs → chars (encode cs) ≡ cs
unfolding chars
chars-encode cs h = chars_from-encode cs h
