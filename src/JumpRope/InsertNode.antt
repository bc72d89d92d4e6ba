-- ===== src/JumpRope/InsertNode.antt =====
-- `insert_node_at` of src/jumprope.rs: a new node behind the node of the cursor.
use jumprope_rs.Base.{
  ℕ, ◌+◌, ◌-◌, ◌^◌, ◌≤◌, ◌<◌, ◌≡◌, refl, sym, ap, ◌∙◌, subst, subst₂, Bool, true, List, [], ◌∷◌,
  ◌++◌, arith, append-nil, append_assoc, length, All, le→leb, ◌==◌, leb, Returns, Returns-bind,
  Returns-mono,
}
use jumprope_rs.Utf8.{IsScalar, encode, pairs}
use jumprope_rs.Utf8.Laws.{length-le-encode}
use jumprope_rs.Build.{Build, debug_assert_lem}
use jumprope_rs.FastStr.Laws.{count_chars-encode, count_utf16_surrogates-encode}
use jumprope_rs.Utf8.{Fits}
use jumprope_rs.GapBuffer.{GapBuffer}
use jumprope_rs.GapBuffer.Holds.{Holds}
use jumprope_rs.JumpRope.{Rng, SkipEntry, JumpRope, random_height, deref}
use jumprope_rs.JumpRope.Height.{random_height_lem}
use jumprope_rs.JumpRope.Cells.{Cell, texts, texts-append}
use jumprope_rs.JumpRope.Level.{Apart}
use jumprope_rs.JumpRope.Shape.{NodeAt, IsRope, AnyText, Full}
use jumprope_rs.JumpRope.Place.{Place, PointsTo, placed, points}
use jumprope_rs.JumpRope.Empty.{new_with_height_lem}
use jumprope_rs.JumpRope.Alloc.{allocated, allocated-at, fields-allocated, allocated-IsRope}
use jumprope_rs.JumpRope.GrowHead.{grow_head_lem}
use jumprope_rs.JumpRope.Stands.{Stands, head_height_lem}
use jumprope_rs.JumpRope.Cursor.{head_height}
use jumprope_rs.JumpRope.Insert.{Editing, insert_node_at}
use jumprope_rs.JumpRope.Linked.{Apart-used, NodeIn, link_all}

-- The cell of a new node.
abbrev pub new_cell : {G : Rng} → JumpRope G → List ℕ → Cell
new_cell {G} r cs = record { addr = r.fresh; height = (random_height G r.rng).0; text = cs }

module _ (Held : Cell → GapBuffer → Type 0) (e : Build) (size : ℕ) (small : size < 2 ^ 16) {G : Rng}
    (r : JumpRope G) (levels : ℕ) (top : Cell) (rest : List Cell)
    (shape : IsRope Held r levels top rest) (inner : List SkipEntry)
    (p : Place (top ∷ rest) levels top.addr inner) (at_end_of : p.ys ≡ []) (cs : List ℕ)
    (scalars : All IsScalar cs) (some_text : 0 < length cs) (short : length (encode cs) ≤ size)
    (fits : Fits ((texts p.before ++ p.here.text) ++ (cs ++ texts p.after)))
    (held_new : (str : GapBuffer) → Holds size str cs [] → Held (new_cell r cs) str)
    (update : Bool) where
  abbrev grown_levels : ℕ
  grown_levels = levels + ((new_cell r cs).height + 1 - levels)

  here_text : p.xs ≡ p.here.text
  here_text = sym (p.text_eq ∙ ap (λ ys. p.xs ++ ys) at_end_of ∙ append-nil p.xs)

  pub insert_node_at_lem : Returns (NodeIn Held p.before p.here (new_cell r cs) p.after update) (
      insert_node_at e size
        (record { rope = r; inner = inner })
        (encode cs)
        (length cs)
        update
        (pairs cs))
  unfolding insert_node_at head_height deref
  insert_node_at_lem =
      let (h_pos, h_le) = random_height_lem G r.rng in
      let rng' = (random_height G r.rng).1 in
      rw
        (
          count_chars-encode e cs scalars,
          debug_assert_lem e (length cs == length cs) (ground arith),
          count_utf16_surrogates-encode e cs scalars,
          debug_assert_lem e (pairs cs == pairs cs) (ground arith),
          debug_assert_lem e (leb (length cs) size)
              (le→leb (length cs) size (omega (arith, short, length-le-encode cs))),
        )
        (Returns-bind (new_with_height_lem e size small (new_cell r cs).height cs scalars short)
          λ node new_node.
            let r1 = allocated r rng' node in
            let shape1 = allocated-IsRope r rng' node Held levels top rest shape in
            let n = shape1.top_at in
            let top_at : NodeAt AnyText r1 levels top = record {
              node = n.node;
              found = n.found;
              height_eq = n.height_eq;
              wide = n.wide;
              held = tt;
            } in
            rw (head_height_lem Held r levels top rest shape inner p r1 top_at) (
              Returns-bind
                (grow_head_lem Held e size ((new_cell r cs).height + 1 - levels) r1 levels top rest
                  p.before p.here p.after p.here.text [] inner shape1 p.cells_eq
                  (sym (append-nil p.here.text))
                  (subst (λ xs. PointsTo levels top.addr p.before p.here xs inner) here_text
                    (points p))
                  (omega (arith, h_le, shape.levels_le)))
                λ g grown_to.
                  let fresh : g.rope.fresh ≡ r.fresh + 1 =
                    ap (λ (x : JumpRope G). x.fresh) grown_to.fields
                    ∙ ap (λ (x : JumpRope G). x.fresh) (fields-allocated r rng' node) in
                  link_all Held e size r1 grown_levels top rest p.before p.here (new_cell r cs)
                    p.after p.cells_eq g grown_to
                    (record {
                      node = node;
                      found =
                          grown_to.beside r.fresh (λ e. omega (arith, e, shape.used.0))
                          ∙ allocated-at r rng' node;
                      height_eq = new_node.height_eq;
                      wide = ap length new_node.nexts_eq;
                      held = held_new node.str new_node.held;
                    })
                    (subst (Apart r.fresh) p.cells_eq (Apart-used r.fresh (top ∷ rest) shape.used))
                    (omega (arith, fresh)) (omega arith) h_pos some_text
                    (omega (arith, fresh, shape.enough)) fits update))

module _ (e : Build) (size : ℕ) (small : size < 2 ^ 16) {G : Rng} (c : Editing G)
    (front xs back cs : List ℕ) (st : Stands (Full size) front xs back c)
    (at_end_of : st.spot.place.ys ≡ []) (scalars : All IsScalar cs) (some_text : 0 < length cs)
    (short : length (encode cs) ≤ size) (fits : Fits (front ++ (cs ++ back))) where
  open st.spot use {place}

  same_front : texts place.before ++ place.here.text ≡ front
  same_front =
      ap (λ x. texts place.before ++ x)
        (place.text_eq ∙ ap (λ ys. place.xs ++ ys) at_end_of ∙ append-nil place.xs)
      ∙ st.spot.front_eq

  same_back : texts place.after ≡ back
  same_back = ap (λ ys. ys ++ texts place.after) (sym at_end_of) ∙ st.spot.back_eq

  new_Stands :
      (c' : Editing G)
      → NodeIn (Full size) place.before place.here (new_cell c.rope cs) place.after true c'
      → Stands (Full size) (front ++ cs) cs back c'
  new_Stands c' n = record {
    levels = n.levels;
    top = n.top;
    rest = n.rest;
    shape = n.shape;
    spot = record {
      place =
          placed place.after []
            (n.cells_eq
              ∙ sym
                  (append_assoc place.before (place.here ∷ []) (new_cell c.rope cs ∷ place.after)))
            (sym (append-nil cs)) (n.moved refl);
      front_eq =
          ap (λ x. x ++ cs)
            (texts-append place.before (place.here ∷ [])
              ∙ ap (λ x. texts place.before ++ x) (append-nil place.here.text)
              ∙ same_front);
      back_eq = same_back;
      xs_eq = refl;
    };
  }

  -- With an edit cursor that stands between two parts of the text of a well-formed rope
  -- (`Stands`), at the end of a node, take an `insert_node_at` of a text that is not empty and
  -- fits in a node, after which the text of the rope fits in memory. It does not panic, whatever
  -- height the generator gives. The rope is well-formed again and has the text at the place, with
  -- the links and counts of all levels, and the cursor, which is to move, stands behind it.
  pub insert_node_at-Stands :
      Returns
        (Stands (Full size) (front ++ cs) cs back)
        (insert_node_at e size c (encode cs) (length cs) true (pairs cs))
  insert_node_at-Stands =
      Returns-mono
        (insert_node_at_lem (Full size) e size small c.rope st.levels st.top st.rest st.shape
          c.inner place at_end_of cs scalars some_text short
          (subst₂ (λ f b. Fits (f ++ (cs ++ b))) (sym same_front) (sym same_back) fits)
          (λ str holds. record { before = cs; after = []; held = holds; text_eq = append-nil cs })
          true)
        new_Stands

  -- And this is the end of its node.
  pub insert_node_at-end :
      Returns
        (λ c'. (s : Stands (Full size) (front ++ cs) cs back c') × (s.spot.place.ys ≡ []))
        (insert_node_at e size c (encode cs) (length cs) true (pairs cs))
  unfolding new_Stands
  insert_node_at-end =
      Returns-mono
        (insert_node_at_lem (Full size) e size small c.rope st.levels st.top st.rest st.shape
          c.inner place at_end_of cs scalars some_text short
          (subst₂ (λ f b. Fits (f ++ (cs ++ b))) (sym same_front) (sym same_back) fits)
          (λ str holds. record { before = cs; after = []; held = holds; text_eq = append-nil cs })
          true)
        λ c' n. (new_Stands c' n, refl)
