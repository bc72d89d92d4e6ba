-- ===== src/JumpRope/Top.antt =====
-- The levels of src/jumprope.rs that only the head has: there the cursor counts from the start of the rope.
use jumprope_rs.Base.{
  ℕ, suc, ◌-◌, ◌^◌, ◌≤◌, ◌<◌, ◌≡◌, refl, sym, ap, ap₂, append_assoc, Bool, true, false, none, leb,
  ◌∙◌, subst, some, List, [], ◌∷◌, ◌++◌, arith, append-nil, append_cancel, length, length-append,
  All, All-append, All-append_left, All-append_right, cons_inj, Returns, Returns-mono, le→leb,
}
use jumprope_rs.GapBuffer.{GapBuffer}
use jumprope_rs.Build.{Build}
use jumprope_rs.JumpRope.{Rng, SkipEntry, JumpRope, max_height}
use jumprope_rs.JumpRope.Cells.{
  Cell, with_text, texts, texts-append, entry_at, entry_end, grown, Low, behind, behind-tall,
}
use jumprope_rs.JumpRope.Shape.{IsRope, Full, HasText}
use jumprope_rs.JumpRope.Place.{Place}
use jumprope_rs.JumpRope.Cursor.{
  mut_cursor_at_end, read_cursor_at_char, global_char_pos, mut_cursor_at_char,
}
use jumprope_rs.JumpRope.Reach.{mut_cursor_at_char-IsRope, len_chars-IsRope}
use jumprope_rs.JumpRope.Insert.{Editing}
use jumprope_rs.JumpRope.Stands.{head_height_lem, Stands}

module _ (Held : Cell → GapBuffer → Type 0) {G : Rng} (r : JumpRope G) (levels : ℕ) (top : Cell)
    (rest : List Cell) (shape : IsRope Held r levels top rest) (inner : List SkipEntry)
    (p : Place (top ∷ rest) levels top.addr inner) where
  pub rest-Low :
      (l : ℕ) (cs : List Cell) → levels ≤ suc l → All (λ c. c.height < levels) cs → Low l cs
  rest-Low l [] le h = tt
  rest-Low l (c ∷ cs) le (h, hs) = (omega arith, rest-Low l cs le hs)

  pub behind-top :
      (l : ℕ)
      → levels ≤ suc l
      → l ≤ max_height
      → behind l entry_end (p.before ++ with_text p.here p.xs ∷ [])
        ≡ grown (texts p.before ++ p.xs) (entry_at top.addr)
  behind-top l le small = go p.before p.cells_eq
    where
      go :
          (before : List Cell)
          → top ∷ rest ≡ before ++ p.here ∷ p.after
          → behind l entry_end (before ++ with_text p.here p.xs ∷ [])
            ≡ grown (texts before ++ p.xs) (entry_at top.addr)
      go [] e =
          behind-tall l entry_end [] (with_text p.here p.xs) []
            (subst (λ c. l < c.height) (cons_inj e).0 (omega (arith, shape.top_height))) tt
          ∙ ap₂ (λ t a. grown t (entry_at a)) (append-nil p.xs)
              (ap (λ (c : Cell). c.addr) (sym (cons_inj e).0))
      go (b ∷ before) e =
          let low =
            rest-Low l (before ++ p.here ∷ p.after) le
              (subst (All (λ c. c.height < levels)) (cons_inj e).1 shape.lower) in
          behind-tall l entry_end [] b (before ++ with_text p.here p.xs ∷ [])
            (subst (λ c. l < c.height) (cons_inj e).0 (omega (arith, shape.top_height)))
            (All-append _ before _ (All-append_left _ before (p.here ∷ p.after) low)
              ((All-append_right _ before (p.here ∷ p.after) low).0, tt))
          ∙ ap₂ (λ t a. grown t (entry_at a))
              (ap (λ x. b.text ++ x)
                  (texts-append before (with_text p.here p.xs ∷ [])
                    ∙ ap (λ x. texts before ++ x) (append-nil p.xs))
                ∙ sym (append_assoc b.text (texts before) p.xs))
              (ap (λ (c : Cell). c.addr) (sym (cons_inj e).0))

  pub global_char_pos-Place : global_char_pos r inner ≡ some (length (texts p.before ++ p.xs))
  unfolding global_char_pos
  global_char_pos-Place =
      let n = shape.top_at in
      rw
        (
          head_height_lem Held r levels top rest shape inner p r (record {
            node = n.node;
            found = n.found;
            height_eq = n.height_eq;
            wide = n.wide;
            held = tt;
          }),
          le→leb 1 levels shape.levels_pos,
          p.entries (levels - 1) (omega (arith, shape.levels_pos)),
          behind-top (levels - 1) (omega arith) (omega (arith, shape.levels_le)),
        )
        (ap some (omega arith))

-- The two parts of the text at a place.
place-texts :
    {levels head : ℕ} {inner : List SkipEntry} (cells : List Cell)
    (p : Place cells levels head inner)
    → (texts p.before ++ p.xs) ++ (p.ys ++ texts p.after) ≡ texts cells
place-texts cells p =
    append_assoc (texts p.before) p.xs (p.ys ++ texts p.after)
    ∙ ap (λ x. texts p.before ++ x)
        (sym (append_assoc p.xs p.ys (texts p.after))
          ∙ ap (λ x. x ++ texts p.after) (sym p.text_eq))
    ∙ sym (texts-append p.before (p.here ∷ p.after))
    ∙ ap texts (sym p.cells_eq)

-- Where a cursor stands between two texts, the rope has both.
pub HasText-Stands :
    (size : ℕ) {G : Rng} (c : Editing G) (front xs back : List ℕ)
    → Stands (Full size) front xs back c
    → HasText size c.rope (front ++ back)
HasText-Stands size c front xs back st = record {
  levels = st.levels;
  top = st.top;
  rest = st.rest;
  shape = st.shape;
  text_eq =
      sym (place-texts (st.top ∷ st.rest) st.spot.place)
      ∙ ap₂ (λ f b. f ++ b) st.spot.front_eq st.spot.back_eq;
}

module _ (e : Build) (size : ℕ) (small : size < 2 ^ 16) {G : Rng} (r : JumpRope G)
    (front back : List ℕ) (h : HasText size r (front ++ back)) where
  -- In a well-formed rope, of nodes of fewer than 65536 bytes, that has a text (`HasText`),
  -- `mut_cursor_at_char` with `stick_end`, to a place between two parts of the text, does not
  -- panic: its walk ends within its fuel, and no count wraps. `global_char_pos` of the cursor is
  -- the place, and at each level the cursor names the node that passes over the place and counts
  -- the characters and surrogate pairs from its start (`Stands`).
  pub mut_cursor_at_char_lem :
      Returns
        (λ inner.
          (global_char_pos r inner ≡ some (length front))
          × ((xs : List ℕ) × Stands (Full size) front xs back (record { rope = r; inner = inner })))
        (mut_cursor_at_char e size r (length front) true)
  mut_cursor_at_char_lem =
      Returns-mono
        (mut_cursor_at_char-IsRope e size small r h.levels h.top h.rest h.shape (length front)
          (omega (arith, ap length h.text_eq, length-append front back)))
        λ inner reached.
          let p = reached.place in
          let (f, b) =
            append_cancel front back (texts p.before ++ p.xs) (p.ys ++ texts p.after)
              (sym reached.at) (place-texts (h.top ∷ h.rest) p ∙ h.text_eq) in
          (
            global_char_pos-Place (Full size) r h.levels h.top h.rest h.shape inner p
                ∙ ap some reached.at,
            (
              p.xs,
              record {
                levels = h.levels;
                top = h.top;
                rest = h.rest;
                shape = h.shape;
                spot = record { place = p; front_eq = f; back_eq = b; xs_eq = refl };
              },
            ),
          )

module _ (e : Build) (size : ℕ) (small : size < 2 ^ 16) {G : Rng} (r : JumpRope G) (t : List ℕ)
    (h : HasText size r t) where
  mut_cursor_at_end_lem :
      Returns (λ inner. global_char_pos r inner ≡ some (length t)) (mut_cursor_at_end e size r)
  unfolding mut_cursor_at_end
  mut_cursor_at_end_lem = rw (len_chars-IsRope e size small r h.levels h.top h.rest h.shape) (
      Returns-mono
        (mut_cursor_at_char-IsRope e size small r h.levels h.top h.rest h.shape
          (length (texts (h.top ∷ h.rest))) (omega arith))
        λ inner reached.
          global_char_pos-Place (Full size) r h.levels h.top h.rest h.shape inner reached.place
          ∙ ap some (reached.at ∙ ap length h.text_eq))

  -- In a well-formed rope, of nodes of fewer than 65536 bytes, that has a text (`HasText`),
  -- `mut_cursor_at_char` and `read_cursor_at_char` to a place past the end panic, in any build
  -- and with either `stick_end`, while `mut_cursor_at_end` does not panic and its cursor, by
  -- `global_char_pos`, is at the end.
  pub cursors-past_end :
      (pos : ℕ) (stick_end : Bool)
      → length t < pos
      → (mut_cursor_at_char e size r pos stick_end ≡ none)
        × (read_cursor_at_char e size r pos stick_end ≡ none)
        × Returns (λ inner. global_char_pos r inner ≡ some (length t)) (mut_cursor_at_end e size r)
  unfolding mut_cursor_at_char read_cursor_at_char
  cursors-past_end pos stick_end past =
      let len = len_chars-IsRope e size small r h.levels h.top h.rest h.shape in
      let outside : leb pos (length (texts (h.top ∷ h.rest))) ≡ false =
        ground (arith, past, ap length h.text_eq) in
      (rw (len, outside) refl, rw (len, outside) refl, mut_cursor_at_end_lem)
