-- ===== src/JumpRope/AppendText.antt =====
-- `insert` of src/jumprope.rs at the end of the text and in a short rope, and the rope of a given text.
use jumprope_rs.Base.{
  ℕ, ◌+◌, ◌^◌, ◌≤◌, ◌<◌, ◌≡◌, refl, sym, ap, ◌∙◌, subst, inl, inr, some, false, Bool-cases, List,
  [], ◌∷◌, ◌++◌, arith, ◌==◌, length, length-append, append-nil, append_assoc, min, All, Returns,
  returns, Returns-bind,
}
use jumprope_rs.Utf8.{IsScalar, encode, Fits}
use jumprope_rs.Utf8.Laws.{length-le-encode}
use jumprope_rs.Build.{Build}
use jumprope_rs.FastStr.Laws.{count_chars-encode}
use jumprope_rs.JumpRope.{Rng, SkipEntry, JumpRope, new_from_seed}
use jumprope_rs.GapBuffer.Shift.{length-encode-append}
use jumprope_rs.JumpRope.Cells.{Cell, texts}
use jumprope_rs.JumpRope.Shape.{HasText, Full}
use jumprope_rs.JumpRope.Rebuild.{on_after}
use jumprope_rs.JumpRope.Reach.{len_chars-IsRope}
use jumprope_rs.JumpRope.Empty.{new_with_rng_lem}
use jumprope_rs.JumpRope.Stands.{Stands}
use jumprope_rs.JumpRope.Top.{mut_cursor_at_char_lem, HasText-Stands, global_char_pos-Place}
use jumprope_rs.JumpRope.Insert.{Editing, insert_at_cursor}
use jumprope_rs.JumpRope.InsertAtEnd.{StandsBehind, insert_at_cursor-last, insert_at_cursor-room}
use jumprope_rs.JumpRope.Edit.{insert, check_char_pos, new_from_str}

-- Cells that are not empty and have no text are none.
no_cells : (cs : List Cell) → All (λ c. 0 < length c.text) cs → texts cs ≡ [] → cs ≡ []
no_cells [] h e = refl
no_cells (c ∷ cs) (h, hs) e =
    absurd (omega (arith, h, ap length e, length-append c.text (texts cs)))

both_nil : (xs ys : List ℕ) → xs ++ ys ≡ [] → (xs ≡ []) × (ys ≡ [])
both_nil [] ys h = (refl, h)
both_nil (x ∷ xs) ys h = cc

min_left : (n len : ℕ) → n ≤ len → min n len ≡ n
min_left n len h = ground arith

min_past : (pos len : ℕ) → len ≤ pos → min pos len ≡ len
min_past pos len h = ground arith

module _ (e : Build) (size : ℕ) (small : size < 2 ^ 16) {G : Rng} where
  -- The check of a debug build holds behind the text.
  check_lem :
      (c : Editing G) (front back : List ℕ)
      → StandsBehind size front back c
      → check_char_pos e size c (length front) ≡ some tt
  unfolding check_char_pos
  check_lem c front back (xs, _, st) = elim (Bool-cases e.debug) [
    | inl t ↦
        rw
          (
            t,
            global_char_pos-Place (Full size) c.rope st.levels st.top st.rest st.shape c.inner
                st.spot.place,
            ap length st.spot.front_eq,
          )
          (ground arith)
    | inr f ↦ rw f refl
  ]

  -- `insert`, by what `insert_at_cursor` does behind `front`.
  insert-by :
      (r : JumpRope G) (front cs back : List ℕ) (pos : ℕ)
      → HasText size r (front ++ back)
      → min pos (length (front ++ back)) ≡ length front
      → All IsScalar cs
      → 0 < length cs
      → ((inner : List SkipEntry) (xs : List ℕ)
          → Stands (Full size) front xs back (record { rope = r; inner = inner })
          → Returns
              (StandsBehind size (front ++ cs) back)
              (insert_at_cursor e size (record { rope = r; inner = inner }) (encode cs)))
      → Returns (λ r'. HasText size r' ((front ++ cs) ++ back)) (insert e size r pos (encode cs))
  unfolding insert
  insert-by r front cs back pos h at s some_text inserts =
      let not_empty : (length (encode cs) == 0) ≡ false =
        ground (arith, length-le-encode cs, some_text) in
      rw
        (
          not_empty,
          len_chars-IsRope e size small r h.levels h.top h.rest h.shape
              ∙ ap (λ x. some (length x)) h.text_eq,
          at,
        )
        (Returns-bind (mut_cursor_at_char_lem e size small r front back h) λ inner (_, (xs, st)).
          Returns-bind (inserts inner xs st) λ done behind.
            rw
              (
                count_chars-encode e cs s,
                sym (length-append front cs),
                check_lem done (front ++ cs) back behind,
              )
              (returns (HasText-Stands size done (front ++ cs) behind.0 back behind.2)))

  -- In a well-formed rope, of nodes of fewer than 65536 bytes, that has a text (`HasText`),
  -- `insert` at any place in the text, of a text after which the whole has no more bytes than a
  -- node, does not panic and puts it there; the rope is well-formed again. The checks of a debug
  -- build hold.
  pub insert-short :
      (r : JumpRope G) (front cs back : List ℕ)
      → HasText size r (front ++ back)
      → All IsScalar cs
      → length (encode (front ++ (cs ++ back))) ≤ size
      → Returns
          (λ r'. HasText size r' (front ++ (cs ++ back)))
          (insert e size r (length front) (encode cs))
  unfolding insert encode
  insert-short r front [] back h s short = returns h
  insert-short r front (x ∷ cs') back h s short =
      let cs : List ℕ = x ∷ cs' in
      let same : (front ++ cs) ++ back ≡ front ++ (cs ++ back) = append_assoc front cs back in
      let fits : Fits (front ++ (cs ++ back)) = omega (arith, small, short) in
      subst (λ t. Returns (λ r'. HasText size r' t) (insert e size r (length front) (encode cs)))
        same
        (insert-by r front cs back (length front) h
          (min_left (length front) (length (front ++ back))
            (omega (arith, length-append front back)))
          s (omega arith)
          λ inner xs st.
            insert_at_cursor-room e size small (record { rope = r; inner = inner }) front xs back cs
              st s (omega arith) fits (room front cs back inner st short))
    where
      room :
          (front cs back : List ℕ) {r : JumpRope G} {xs : List ℕ} (inner : List SkipEntry)
          (st : Stands (Full size) front xs back (record { rope = r; inner = inner }))
          → length (encode (front ++ (cs ++ back))) ≤ size
          → length (encode st.spot.place.here.text) + length (encode cs) ≤ size
      room front cs back inner st short =
          let p = st.spot.place in
          omega (
            arith,
            short,
            length-encode-append front (cs ++ back),
            length-encode-append cs back,
            ap (λ x. length (encode x)) st.spot.front_eq,
            ap (λ x. length (encode x)) st.spot.back_eq,
            ap (λ x. length (encode x)) p.text_eq,
            length-encode-append p.xs p.ys,
            length-encode-append (texts p.before) p.xs,
            length-encode-append p.ys (texts p.after),
          )

  module _ (big : 4 ≤ size) where
    -- In a well-formed rope, of nodes of fewer than 65536 bytes, that has a text (`HasText`),
    -- `insert` at the end of the text, or at any place past it, of a text after which the whole
    -- fits in memory does not panic and appends it, provided that nodes have at least 4 bytes. It
    -- may go into the gap, into the last node or into new nodes. The checks of a debug build
    -- hold.
    pub insert-past_end :
        (r : JumpRope G) (t cs : List ℕ) (pos : ℕ)
        → HasText size r t
        → length t ≤ pos
        → All IsScalar cs
        → Fits (t ++ cs)
        → Returns (λ r'. HasText size r' (t ++ cs)) (insert e size r pos (encode cs))
    unfolding insert encode
    insert-past_end r t [] pos h past s fits =
        returns (subst (HasText size r) (sym (append-nil t)) h)
    insert-past_end r t (x ∷ xs) pos h past s fits =
        let cs : List ℕ = x ∷ xs in
        let h' : HasText size r (t ++ []) = subst (HasText size r) (sym (append-nil t)) h in
        let at : min pos (length (t ++ [])) ≡ length t =
          ap (λ y. min pos (length y)) (append-nil t) ∙ min_past pos (length t) past in
        subst (λ y. Returns (λ r'. HasText size r' y) (insert e size r pos (encode cs)))
          (append-nil (t ++ cs))
          (insert-by r t cs [] pos h' at s (omega arith) λ inner xs' st.
            let p = st.spot.place in
            let (ys_nil, after_nil) = both_nil p.ys (texts p.after) st.spot.back_eq in
            let last =
              no_cells p.after
                (on_after st.top st.rest p.before p.here p.after p.cells_eq _ st.shape.filled)
                after_nil in
            insert_at_cursor-last e size small big (record { rope = r; inner = inner }) t xs' [] cs
              st s (omega arith) (subst (λ y. Fits (t ++ y)) (sym (append-nil cs)) fits) ys_nil
              last)

    -- With nodes of at least 4 and fewer than 65536 bytes, `new_from_str` of a text that fits in
    -- memory, with any generator, does not panic and is a well-formed rope that has the text
    -- (`HasText`).
    pub new_from_str_text :
        (seed : ℕ) (cs : List ℕ)
        → All IsScalar cs
        → Fits cs
        → Returns (λ r. HasText size r cs) (new_from_str e size {G = G} seed (encode cs))
    unfolding new_from_str new_from_seed
    new_from_str_text seed cs s fits =
        Returns-bind (new_with_rng_lem e size small G (G.seed_from seed))
          λ r h. insert-past_end r [] cs 0 h (omega arith) s fits
