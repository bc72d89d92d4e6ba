-- ===== src/JumpRope/InsertNodes.antt =====
-- `insert_nodes` of src/jumprope.rs: a text of any length goes into new nodes behind the cursor's.
use jumprope_rs.Base.{
  ℕ, zero, suc, ◌-◌, ◌^◌, ◌≤◌, ◌<◌, ◌≡◌, refl, sym, ap, ◌∙◌, subst, true, false, not, Option,
  assert, ◌>>=◌, ◌>>◌, Returns-branch, some, List, [], ◌∷◌, ◌++◌, arith, append_assoc, append-nil,
  leb→le, leb, ◌==◌, length, length-append, count_by-append, slice, slice-append, slice-last, All,
  All-append_left, All-append_right, Returns, Returns-bind, Returns-mono,
}
use jumprope_rs.Utf8.{IsScalar, encode, pairs, astral, str_slice, is_char_boundary}
use jumprope_rs.Utf8.Laws.{encode-append, length-le-encode}
use jumprope_rs.Utf8.Boundary.{is_char_boundary-encode}
use jumprope_rs.Build.{Build, sub_usize, sub_usize_lem}
use jumprope_rs.FastStr.{count_chars_in_bytes, count_utf16_surrogates_in_bytes}
use jumprope_rs.FastStr.Laws.{count_chars_in_bytes-encode, count_utf16_surrogates_in_bytes-encode}
use jumprope_rs.Utf8.{Fits}
use jumprope_rs.GapBuffer.Shift.{length-encode-append}
use jumprope_rs.JumpRope.{Rng}
use jumprope_rs.JumpRope.Shape.{Full}
use jumprope_rs.JumpRope.Stands.{Stands}
use jumprope_rs.JumpRope.InsertNode.{insert_node_at-end}
use jumprope_rs.JumpRope.Chunks.{chunk}
use jumprope_rs.JumpRope.Insert.{Editing, insert_nodes, insert_node_at, slide_back}

-- The cursor stands between two texts, at the end of a node.
pub record StandsAtEnd (size : ℕ) {G : Rng} (front back : List ℕ) (c : Editing G) : Type 0 where
  pub xs : List ℕ
  pub stands : Stands (Full size) front xs back c
  pub at_end_of : stands.spot.place.ys ≡ []
  pub some_xs : 0 < length xs

str_slice-encode_left :
    (us vs : List ℕ)
    → All IsScalar (us ++ vs)
    → str_slice 0 (length (encode us)) (encode (us ++ vs)) ≡ some (encode us)
unfolding str_slice
str_slice-encode_left us vs h =
    rw (is_char_boundary-encode us vs (All-append_right IsScalar us vs h)) (
      ap (slice 0 (length (encode us))) (encode-append us vs)
      ∙ slice-append 0 (length (encode us)) [] (encode us) (encode vs) refl (omega arith))

str_slice-encode_right :
    (us vs : List ℕ)
    → All IsScalar (us ++ vs)
    → str_slice (length (encode us)) (length (encode (us ++ vs))) (encode (us ++ vs))
      ≡ some (encode vs)
unfolding str_slice
str_slice-encode_right us vs h =
    rw (is_char_boundary-encode us vs (All-append_right IsScalar us vs h), whole)
      (ap (slice (length (encode us)) (length (encode (us ++ vs)))) (encode-append us vs)
        ∙ slice-last (length (encode us)) (length (encode (us ++ vs))) (encode us) (encode vs) refl
            (length-encode-append us vs))
  where
    whole : is_char_boundary (encode (us ++ vs)) (length (encode (us ++ vs))) ≡ true
    whole =
        subst (λ t. is_char_boundary (encode t) (length (encode (us ++ vs))) ≡ true)
          (append-nil (us ++ vs)) (is_char_boundary-encode (us ++ vs) [] tt)

some_chars : (us : List ℕ) → 0 < length (encode us) → 0 < length us
unfolding encode
some_chars [] h = h
some_chars (u ∷ us) h = omega arith

module _ (e : Build) (size : ℕ) (small : size < 2 ^ 16) (big : 4 ≤ size) {G : Rng}
    (back : List ℕ) where
  -- One chunk, and then the rest.
  chunk_code : ℕ → Editing G → List ℕ → ℕ → ℕ → Option (Editing G)
  chunk_code fuel c remainder chars pairs = do
    byte_pos ← slide_back remainder size
    bytes ← slice 0 byte_pos remainder
    let char_pos = count_chars_in_bytes e bytes
    chars_left ← sub_usize e chars char_pos
    let pairs_here = count_utf16_surrogates_in_bytes e bytes
    pairs_left ← sub_usize e pairs pairs_here
    next ← str_slice 0 byte_pos remainder
    rem ← str_slice byte_pos (length remainder) remainder
    assert (not (length next == 0))
    c' ← insert_node_at e size c next char_pos true pairs_here
    insert_nodes e size fuel c' rem chars_left pairs_left

  chunk_step :
      {P : Editing G → Type 0} (fuel : ℕ) (c : Editing G) (front xs us vs : List ℕ)
      (st : Stands (Full size) front xs back c)
      → st.spot.place.ys ≡ []
      → All IsScalar (us ++ vs)
      → slide_back (encode (us ++ vs)) size ≡ some (length (encode us))
      → length (encode us) ≤ size
      → 0 < length us
      → Fits (front ++ (us ++ back))
      → ((c' : Editing G) (s : Stands (Full size) (front ++ us) us back c')
          → s.spot.place.ys ≡ []
          → Returns P (insert_nodes e size fuel c' (encode vs) (length vs) (pairs vs)))
      → Returns P (chunk_code fuel c (encode (us ++ vs)) (length (us ++ vs)) (pairs (us ++ vs)))
  unfolding chunk_code
  chunk_step fuel c front xs us vs st ends scalars slides short pos fits next =
      let first = All-append_left IsScalar us vs scalars in
      let chars_left : length (us ++ vs) - length us ≡ length vs =
        omega (arith, length-append us vs) in
      let pairs_left : pairs (us ++ vs) - pairs us ≡ pairs vs =
        omega (arith, count_by-append astral us vs) in
      let not_empty : (length (encode us) == 0) ≡ false =
        ground (arith, length-le-encode us, pos) in
      rw
        (
          slides,
          ap (slice 0 (length (encode us))) (encode-append us vs)
              ∙ slice-append 0 (length (encode us)) [] (encode us) (encode vs) refl (omega arith),
          count_chars_in_bytes-encode e us first,
          sub_usize_lem e (length (us ++ vs)) (length us) (omega (arith, length-append us vs))
              ∙ ap some chars_left,
          count_utf16_surrogates_in_bytes-encode e us first,
          sub_usize_lem e (pairs (us ++ vs)) (pairs us)
                (omega (arith, count_by-append astral us vs))
              ∙ ap some pairs_left,
          str_slice-encode_left us vs scalars,
          str_slice-encode_right us vs scalars,
          not_empty,
        )
        (Returns-bind
          (insert_node_at-end e size small c front xs back us st ends first pos short fits)
          λ c' (s, s_end). next c' s s_end)

  -- With an edit cursor that stands between two parts of the text of a well-formed rope
  -- (`Stands`), at the end of a node, and nodes of at least 4 and fewer than 65536 bytes, take an
  -- `insert_nodes` of a text that is not empty and may need several nodes, after which the text
  -- of the rope fits in memory. It does not panic; its fuel, at least the number of bytes, is
  -- enough. The text is cut between characters into nodes that hold it. The rope is well-formed
  -- again and has the text at the place, and the cursor stands behind it, at the end of a node.
  pub insert_nodes_lem :
      (fuel : ℕ) (c : Editing G) (front xs cs : List ℕ) (st : Stands (Full size) front xs back c)
      → st.spot.place.ys ≡ []
      → All IsScalar cs
      → 0 < length cs
      → length (encode cs) ≤ fuel
      → Fits (front ++ (cs ++ back))
      → Returns
          (StandsAtEnd size (front ++ cs) back)
          (insert_nodes e size fuel c (encode cs) (length cs) (pairs cs))
  unfolding insert_nodes chunk_code
  insert_nodes_lem zero c front xs cs st ends scalars pos enough fits =
      absurd (omega (arith, length-le-encode cs, enough))
  insert_nodes_lem (suc fuel) c front xs cs st ends scalars pos enough fits =
      Returns-branch (leb (length (encode cs)) size)
        (λ t.
          Returns-mono
            (insert_node_at-end e size small c front xs back cs st ends scalars pos
              (leb→le (length (encode cs)) size t) fits)
            λ c' (s, s_end). record { xs = cs; stands = s; at_end_of = s_end; some_xs = pos })
        (λ f.
          let k = chunk size cs big scalars (ground (arith, f)) in
          let us = k.us in
          let vs = k.vs in
          let scalars' = subst (All IsScalar) k.cs_eq scalars in
          let fits' : Fits ((front ++ us) ++ (vs ++ back)) =
            subst Fits
              (ap (λ x. front ++ (x ++ back)) k.cs_eq
                ∙ ap (λ x. front ++ x) (append_assoc us vs back)
                ∙ sym (append_assoc front us (vs ++ back)))
              fits in
          let fits_us : Fits (front ++ (us ++ back)) = omega (
            arith,
            fits',
            length-encode-append (front ++ us) (vs ++ back),
            length-encode-append vs back,
            length-encode-append front us,
            length-encode-append front (us ++ back),
            length-encode-append us back,
          ) in
          subst
            (λ x.
              Returns (StandsAtEnd size (front ++ x) back)
                (chunk_code fuel c (encode x) (length x) (pairs x)))
            (sym k.cs_eq)
            (chunk_step fuel c front xs us vs st ends scalars'
              (ap (λ x. slide_back (encode x) size) (sym k.cs_eq) ∙ k.slides) k.short
              (some_chars us k.some_us) fits_us
              λ c' s s_end.
                subst
                  (λ x.
                    Returns (StandsAtEnd size x back)
                      (insert_nodes e size fuel c' (encode vs) (length vs) (pairs vs)))
                  (append_assoc front us vs)
                  (insert_nodes_lem fuel c' (front ++ us) us vs s s_end
                    (All-append_right IsScalar us vs scalars') k.some_vs
                    (omega (
                      arith,
                      enough,
                      ap (λ x. length (encode x)) k.cs_eq,
                      length-encode-append us vs,
                      k.some_us,
                    ))
                    fits')))
