-- ===== src/JumpRope/Reach.antt =====
-- `mut_cursor_at_char` and the counts of src/jumprope.rs, on a rope that has a text.
use jumprope_rs.Base.{
  ℕ, zero, suc, ◌+◌, ◌-◌, ◌^◌, ◌≤◌, ◌<◌, ◌≡◌, refl, sym, ap, ◌∙◌, subst, inl, true, some, List, [],
  ◌∷◌, arith, count_by-le-length, length, length-append, get_elem?, replicate, le→leb, leb, Returns,
}
use jumprope_rs.Utf8.{pairs, astral}
use jumprope_rs.Utf8.Laws.{length-le-encode}
use jumprope_rs.FastStr.Utf16.{units}
use jumprope_rs.Build.{Build, add_usize_lem}
use jumprope_rs.JumpRope.{Rng, SkipEntry, JumpRope, max_height, whole, len_chars, len_wchars}
use jumprope_rs.JumpRope.Cells.{Cell, texts, entry_end, grown, reach-Low, grown-append}
use jumprope_rs.JumpRope.Store.{next_of_node}
use jumprope_rs.JumpRope.Shape.{IsRope, Full}
use jumprope_rs.JumpRope.Place.{Reached}
use jumprope_rs.JumpRope.Cursor.{cursor_at_start, mut_cursor_at_char, mut_from, walk_fuel}
use jumprope_rs.JumpRope.Walk.{At, walk, lower→Low}

module _ (e : Build) (size : ℕ) (small : size < 2 ^ 16) {G : Rng} (r : JumpRope G) (levels : ℕ)
    (top : Cell) (rest : List Cell) (shape : IsRope (Full size) r levels top rest) where
  -- The head's last entry skips the whole rope.
  pub whole_lem : whole r ≡ some (grown (texts (top ∷ rest)) entry_end)
  unfolding whole
  whole_lem =
      let n = shape.top_at in
      let high : levels - 1 < levels = omega (arith, shape.levels_pos) in
      let entry =
        (shape.links (levels - 1) high).0
          (omega (arith, shape.top_height, shape.levels_le, high)) in
      let low =
        lower→Low e size small r levels top rest shape [] (levels - 1) rest (omega arith)
          shape.lower in
      rw
        (
          ap r.nodes (sym shape.head_eq) ∙ n.found,
          ap (leb 1) n.height_eq ∙ le→leb 1 levels shape.levels_pos,
        )
        (ap (λ k. get_elem? n.node.nexts (k - 1)) n.height_eq
          ∙ sym (next_of_node r (levels - 1) top.addr n.node n.found)
          ∙ entry
          ∙ ap (λ x. some (grown top.text x)) (reach-Low (levels - 1) entry_end rest low)
          ∙ ap some (sym (grown-append top.text (texts rest) entry_end)))

  pub len_chars-IsRope : len_chars r ≡ some (length (texts (top ∷ rest)))
  unfolding len_chars
  len_chars-IsRope = rw whole_lem (ap some (omega arith))

  pub len_wchars-IsRope : len_wchars e r ≡ some (units (texts (top ∷ rest)))
  unfolding len_wchars
  len_wchars-IsRope =
      rw whole_lem (add_usize_lem e _ _ (omega (arith, wide)) ∙ ap some (omega arith))
    where
      wide : length (texts (top ∷ rest)) + pairs (texts (top ∷ rest)) < 2 ^ 64
      wide = omega (
        arith,
        shape.fits,
        length-le-encode (texts (top ∷ rest)),
        count_by-le-length astral (texts (top ∷ rest)),
      )

  At-start :
      (pos : ℕ)
      → pos ≤ length (texts (top ∷ rest))
      → At e size small r levels top rest shape
          (cursor_at_start e size r)
          (suc (levels - 1))
          []
          top
          rest
          pos
          (cursor_at_start e size r)
  unfolding cursor_at_start
  At-start pos le = record {
    cells_eq = refl;
    inside = omega (arith, le, length-append top.text (texts rest));
    stops = λ l p q. absurd (omega (arith, shape.levels_pos));
    recorded = λ l p q. absurd (omega (arith, shape.levels_pos));
    above = λ l p. refl;
    wide = refl;
    stuck = inl refl;
  }

  get_elem?-replicate : (n l : ℕ) (x : SkipEntry) → l < n → get_elem? (replicate n x) l ≡ some x
  get_elem?-replicate zero l x lt = absurd (omega arith)
  get_elem?-replicate (suc n) zero x lt = refl
  get_elem?-replicate (suc n) (suc l) x lt = get_elem?-replicate n l x (omega arith)

  head_at_start :
      (l : ℕ)
      → l ≤ max_height
      → (x : SkipEntry) × (get_elem? (cursor_at_start e size r) l ≡ some x)
        × (x.node ≡ some top.addr)
  unfolding cursor_at_start
  head_at_start l le =
      (_, get_elem?-replicate (max_height + 1) l _ (omega (arith, le)), ap some (sym shape.head_eq))

  -- The cursor of an edit goes to its place.
  pub mut_cursor_at_char-IsRope :
      (pos : ℕ)
      → pos ≤ length (texts (top ∷ rest))
      → Returns (Reached (top ∷ rest) levels top.addr pos) (mut_cursor_at_char e size r pos true)
  unfolding mut_cursor_at_char
  mut_cursor_at_char-IsRope pos le =
      let n = shape.top_at in
      rw
        (
          len_chars-IsRope,
          le→leb pos (length (texts (top ∷ rest))) le,
          ap r.nodes (sym shape.head_eq) ∙ n.found,
          n.height_eq,
        )
        (subst
          (λ a. Returns (Reached (top ∷ rest) levels top.addr pos) (
            mut_from e size (walk_fuel e size r) r (cursor_at_start e size r) levels a (levels - 1)
              pos 0 true))
          shape.head_eq
          (walk e size small r levels top rest shape (cursor_at_start e size r) head_at_start
            (walk_fuel e size r) (levels - 1) [] top rest pos (cursor_at_start e size r) pos
            (At-start pos le) (omega (arith, shape.levels_pos, shape.levels_le, shape.top_height))
            (omega (arith, shape.levels_pos)) (omega (arith, shape.enough, shape.levels_le))
            (omega arith)))
