-- ===== src/JumpRope/Chunks.antt =====
-- `slide_back` of src/jumprope.rs: a text that is too long for one node is cut between two characters.
use jumprope_rs.Base.{
  ℕ, zero, suc, ◌+◌, ◌≤◌, ◌<◌, ◌≡◌, refl, ap, ◌∙◌, subst, true, false, some, List, [], ◌∷◌, ◌++◌,
  arith, inl, inr, le-or-lt, ◌-◌, length, length-append, get_elem?, All, All-append_right,
}
use jumprope_rs.Utf8.{IsScalar, encode, encode_char, is_start}
use jumprope_rs.Utf8.Laws.{encode-append}
use jumprope_rs.Utf8.Shape.{encode_char-Shape, IsTail}
use jumprope_rs.JumpRope.Insert.{slide_back}

get_elem?-behind :
    (xs ys : List ℕ) (i j : ℕ) → i ≡ length xs + j → get_elem? (xs ++ ys) i ≡ get_elem? ys j
get_elem?-behind [] ys i j h = ap (get_elem? ys) (h ∙ omega arith)
get_elem?-behind (x ∷ xs) ys zero j h = absurd (omega arith)
get_elem?-behind (x ∷ xs) ys (suc i) j h = get_elem?-behind xs ys i j (omega arith)

slide_back-here :
    (s : List ℕ) (i b : ℕ) → get_elem? s i ≡ some b → is_start b ≡ true → slide_back s i ≡ some i
unfolding slide_back
slide_back-here s zero b h t = rw (h, t) refl
slide_back-here s (suc i) b h t = rw (h, t) refl

slide_back-further :
    (s : List ℕ) (i b : ℕ)
    → get_elem? s (suc i) ≡ some b
    → is_start b ≡ false
    → slide_back s (suc i) ≡ slide_back s i
unfolding slide_back
slide_back-further s i b h f = rw (h, f) refl

tail_byte :
    (m rest : List ℕ) (j : ℕ)
    → IsTail m
    → j < length m
    → (b : ℕ) × (get_elem? (m ++ rest) j ≡ some b) × (is_start b ≡ false)
tail_byte [] rest j h lt = absurd (omega arith)
tail_byte (b ∷ m) rest zero (h, hs) lt = (b, refl, h)
tail_byte (b ∷ m) rest (suc j) (h, hs) lt = tail_byte m rest j hs (omega arith)

slide_back-char :
    (bs m rest : List ℕ) (first j i : ℕ)
    → is_start first ≡ true
    → IsTail m
    → j ≤ length m
    → i ≡ length bs + j
    → slide_back (bs ++ (first ∷ m ++ rest)) i ≡ some (length bs)
slide_back-char bs m rest first zero i t tail le at =
    slide_back-here _ i first (get_elem?-behind bs (first ∷ m ++ rest) i 0 at) t
    ∙ ap some (at ∙ omega arith)
slide_back-char bs m rest first (suc j) zero t tail le at = absurd (omega arith)
slide_back-char bs m rest first (suc j) (suc i) t tail le at =
    let (b, has, f) = tail_byte m rest j tail (omega arith) in
    slide_back-further _ i b (get_elem?-behind bs (first ∷ m ++ rest) (suc i) (suc j) at ∙ has) f
    ∙ slide_back-char bs m rest first j i t tail (omega arith) (omega arith)

-- The character that a byte belongs to.
record CharAt (cs : List ℕ) (i : ℕ) : Type 0 where
  us : List ℕ
  c : ℕ
  ws : List ℕ
  cs_eq : cs ≡ us ++ c ∷ ws
  from : length (encode us) ≤ i
  to : i < length (encode us) + length (encode_char c)

char_at : (cs : List ℕ) (i : ℕ) → i < length (encode cs) → CharAt cs i
unfolding encode
char_at [] i lt = absurd (omega arith)
char_at (c ∷ cs) i lt = elim (le-or-lt (length (encode_char c)) i) [
  | inr less ↦ record {
    us = [];
    c = c;
    ws = cs;
    cs_eq = refl;
    from = omega arith;
    to = omega (arith, less);
  }
  | inl ge ↦
      let r =
        char_at cs (i - length (encode_char c))
          (omega (arith, lt, ge, length-append (encode_char c) (encode cs))) in
      record {
        us = c ∷ r.us;
        c = r.c;
        ws = r.ws;
        cs_eq = ap (c ∷◌) r.cs_eq;
        from = omega (arith, r.from, ge, length-append (encode_char c) (encode r.us));
        to = omega (arith, r.to, ge, length-append (encode_char c) (encode r.us));
      }
]

encode_char-le : (c : ℕ) → length (encode_char c) ≤ 4
unfolding encode_char
encode_char-le c = ground arith

-- The first chunk is not empty, and it is not all of the text.
pub record Chunk (size : ℕ) (cs : List ℕ) : Type 0 where
  pub us : List ℕ
  pub vs : List ℕ
  pub cs_eq : cs ≡ us ++ vs
  pub slides : slide_back (encode cs) size ≡ some (length (encode us))
  pub short : length (encode us) ≤ size
  pub some_us : 0 < length (encode us)
  pub some_vs : 0 < length vs

pub chunk :
    (size : ℕ) (cs : List ℕ)
    → 4 ≤ size
    → All IsScalar cs
    → size < length (encode cs)
    → Chunk size cs
unfolding encode
chunk size cs big scalars long =
    let r = char_at cs size long in
    let sh =
      encode_char-Shape r.c
        (All-append_right IsScalar r.us (r.c ∷ r.ws) (subst (All IsScalar) r.cs_eq scalars)).0 in
    let bytes : encode cs ≡ encode r.us ++ (sh.first ∷ sh.tail ++ encode r.ws) =
      ap encode r.cs_eq
      ∙ encode-append r.us (r.c ∷ r.ws)
      ∙ ap (λ x. encode r.us ++ (x ++ encode r.ws)) sh.shape in
    record {
      us = r.us;
      vs = r.c ∷ r.ws;
      cs_eq = r.cs_eq;
      slides =
          ap (λ s. slide_back s size) bytes
          ∙ slide_back-char (encode r.us) sh.tail (encode r.ws) sh.first
              (size - length (encode r.us)) size sh.starts sh.continues
              (omega (arith, r.to, r.from, ap length sh.shape)) (omega (arith, r.from));
      short = r.from;
      some_us = omega (arith, r.to, encode_char-le r.c, big);
      some_vs = omega arith;
    }
