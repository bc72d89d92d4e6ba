-- ===== src/FastStr/Back.antt =====
-- `str_chars_to_bytes_rev`: the bytes of the last characters of a text.
use jumprope_rs.Base.{
  ℕ, ◌+◌, ◌-◌, ◌<◌, ◌≡◌, refl, ◌∙◌, sym, true, false, none, some, List, [], ◌∷◌, ◌++◌, arith, ◌==◌,
  if◌then◌else◌, length, length-append, All, All-append, ap, append_assoc, append-nil,
}
use mathlib.Core.List.{reverse, reverse-append, reverse-cons, reverse-reverse}
use jumprope_rs.Utf8.{IsScalar, encode_char, encode, is_start}
use jumprope_rs.Utf8.Laws.{encode-append}
use jumprope_rs.Utf8.Shape.{IsTail, encode_char-Shape}
use jumprope_rs.FastStr.{scan_back, str_chars_to_bytes_rev}

length-reverse : (xs : List ℕ) → length (reverse xs) ≡ length xs
length-reverse [] = refl
length-reverse (x ∷ xs) =
    ap length (reverse-cons x xs)
    ∙ omega (arith, length-append (reverse xs) (x ∷ []), length-reverse xs)

All-reverse : (P : ℕ → Type 0) (xs : List ℕ) → All P xs → All P (reverse xs)
All-reverse P [] h = tt
All-reverse P (x ∷ xs) (p, h) =
    rw (reverse-cons x xs) (All-append P (reverse xs) (x ∷ []) (All-reverse P xs h) (p, tt))

scan_back-tail :
    (t bs : List ℕ) (r i : ℕ) → IsTail t → scan_back (t ++ bs) r i ≡ scan_back bs r (i + length t)
unfolding scan_back
scan_back-tail [] bs r i h = ap (scan_back bs r) (omega arith)
scan_back-tail (b ∷ t) bs r i (out, h) =
    rw out (scan_back-tail t bs r (i + 1) h ∙ ap (scan_back bs r) (omega arith))

scan_back-first :
    (b : ℕ) (bs : List ℕ) (r i : ℕ)
    → is_start b ≡ true
    → scan_back (b ∷ bs) r i ≡ (if r == 1 then some (i + 1) else scan_back bs (r - 1) (i + 1))
unfolding scan_back
scan_back-first b bs r i h = rw h

scan_back-encode_char :
    (c : ℕ) (bs : List ℕ) (r i : ℕ)
    → IsScalar c
    → scan_back (reverse (encode_char c) ++ bs) r i ≡ (
        if r == 1
        then some (i + length (encode_char c))
        else scan_back bs (r - 1) (i + length (encode_char c)))
scan_back-encode_char c bs r i s =
    rw (shape, reverse-cons first tail, append_assoc)
      (scan_back-tail (reverse tail) (first ∷ bs) r i
          (All-reverse (λ b. is_start b ≡ false) tail continues)
        ∙ scan_back-first first bs r (i + length (reverse tail)) starts
        ∙ ap (λ k. if r == 1 then some k else scan_back bs (r - 1) k)
            (omega (arith, length-reverse tail)))
  where
    open encode_char-Shape c s use {first, tail, shape, starts, continues}

reverse-encode_snoc :
    (cs : List ℕ) (c : ℕ)
    → reverse (encode (cs ++ c ∷ [])) ≡ reverse (encode_char c) ++ reverse (encode cs)
unfolding encode
reverse-encode_snoc cs c =
    ap reverse (encode-append cs (c ∷ []) ∙ ap (encode cs ++◌) (append-nil (encode_char c)))
    ∙ reverse-append (encode cs) (encode_char c)

length-encode_snoc :
    (cs : List ℕ) (c : ℕ)
    → length (encode (cs ++ c ∷ [])) ≡ length (encode cs) + length (encode_char c)
unfolding encode
length-encode_snoc cs c =
    ap length (encode-append cs (c ∷ []) ∙ ap (encode cs ++◌) (append-nil (encode_char c)))
    ∙ length-append (encode cs) (encode_char c)

length-encode_one : (c : ℕ) → length (encode (c ∷ [])) ≡ length (encode_char c)
unfolding encode
length-encode_one c = omega (arith, length-append (encode_char c) [])

-- The last characters are given in reverse.
scan_back-reverse :
    (xs rs : List ℕ) (c i : ℕ)
    → All IsScalar (c ∷ rs)
    → scan_back (reverse (encode (xs ++ reverse (c ∷ rs)))) (length (c ∷ rs)) i
      ≡ some (i + length (encode (reverse (c ∷ rs))))
scan_back-reverse xs [] c i (s, h) = rw (reverse-encode_snoc xs c) (
    scan_back-encode_char c (reverse (encode xs)) 1 i s
    ∙ ap (λ k. some (i + k)) (sym (length-encode_one c)))
scan_back-reverse xs (d ∷ rs) c i (s, h) =
    rw (reverse-cons c (d ∷ rs), ← append_assoc, reverse-encode_snoc)
      (scan_back-encode_char c (reverse (encode (xs ++ reverse (d ∷ rs)))) (length (c ∷ d ∷ rs)) i s
        ∙ ground (
          arith,
          scan_back-reverse xs rs d (i + length (encode_char c)) h,
          length-encode_snoc (reverse (d ∷ rs)) c,
        ))

too_few :
    (rs : List ℕ) (r i : ℕ)
    → All IsScalar rs
    → length rs < r
    → scan_back (reverse (encode (reverse rs))) r i ≡ none
unfolding scan_back encode
too_few [] r i h lt = refl
too_few (c ∷ rs) r i (s, h) lt =
    rw (reverse-cons c rs, reverse-encode_snoc)
      (scan_back-encode_char c (reverse (encode (reverse rs))) r i s
        ∙ ground (arith, too_few rs (r - 1) (i + length (encode_char c)) h))

rev-reverse :
    (xs rs : List ℕ)
    → All IsScalar rs
    → str_chars_to_bytes_rev (encode (xs ++ reverse rs)) (length rs)
      ≡ some (length (encode (reverse rs)))
unfolding str_chars_to_bytes_rev encode
rev-reverse xs [] h = refl
rev-reverse xs (c ∷ rs) h = ground (arith, scan_back-reverse xs rs c 0 h)

-- On the bytes of a text, `str_chars_to_bytes_rev` of the number of its last characters returns
-- the number of bytes of these.
pub str_chars_to_bytes_rev-encode :
    (xs ys : List ℕ)
    → All IsScalar ys
    → str_chars_to_bytes_rev (encode (xs ++ ys)) (length ys) ≡ some (length (encode ys))
str_chars_to_bytes_rev-encode xs ys h =
    rw (reverse-reverse ys, length-reverse ys) at
      (rev-reverse xs (reverse ys) (All-reverse IsScalar ys h))

-- A text with too few characters panics.
pub str_chars_to_bytes_rev-short :
    (cs : List ℕ) (n : ℕ)
    → All IsScalar cs
    → length cs < n
    → str_chars_to_bytes_rev (encode cs) n ≡ none
unfolding str_chars_to_bytes_rev
str_chars_to_bytes_rev-short cs n h lt =
    let none_left : scan_back (reverse (encode cs)) n 0 ≡ none =
      rw (reverse-reverse cs) at
        (too_few (reverse cs) n 0 (All-reverse IsScalar cs h) (omega (arith, length-reverse cs))) in
    ground arith
