-- ===== src/Utf8/Boundary.antt =====
-- Where a text can be cut: between two characters.
use jumprope_rs.Base.{
  ℕ, ◌≡◌, true, List, [], ◌∷◌, ◌++◌, arith, length, length-append, All, get_elem?-append,
}
use jumprope_rs.Utf8.{IsScalar, encode, encode_char, is_char_boundary}
use jumprope_rs.Utf8.Laws.{encode-append}
use jumprope_rs.Utf8.Shape.{encode_char-Shape}

boundary-append :
    (bs cs : List ℕ) → All IsScalar cs → is_char_boundary (bs ++ encode cs) (length bs) ≡ true
unfolding is_char_boundary encode
boundary-append bs [] s = ground (arith, length-append bs [])
boundary-append bs (c ∷ cs) (s, _) =
    rw (get_elem?-append bs (encode_char c ++ encode cs), shape, starts) (ground arith)
  where
    open encode_char-Shape c s use {shape, starts}

pub is_char_boundary-encode :
    (xs ys : List ℕ)
    → All IsScalar ys
    → is_char_boundary (encode (xs ++ ys)) (length (encode xs)) ≡ true
is_char_boundary-encode xs ys s = rw (encode-append xs ys) (boundary-append (encode xs) ys s)
