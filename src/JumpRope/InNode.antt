-- ===== src/JumpRope/InNode.antt =====
-- The text of one node of src/jumprope.rs changes: a text is put in at the place of the cursor.
use jumprope_rs.Base.{
  ℕ, ◌+◌, ◌^◌, ◌≤◌, ◌<◌, ◌≡◌, ◌≢◌, refl, sym, ap, ◌∙◌, subst, subst₂, inl, inr, some, List, ◌∷◌,
  ◌++◌, arith, length, length-append, count_by-append, append_assoc, All, Returns, returns,
  Returns-bind, Returns-mono,
}
use jumprope_rs.Utf8.{IsScalar, encode, pairs, astral}
use jumprope_rs.Utf8.Laws.{length-le-encode}
use jumprope_rs.Build.{Build, add_usize_lem}
use jumprope_rs.Utf8.{Fits}
use jumprope_rs.GapBuffer.{GapBuffer}
use jumprope_rs.GapBuffer.RemoveChars.{HasText as StrHasText}
use jumprope_rs.GapBuffer.Insert.{try_insert_lem}
use jumprope_rs.GapBuffer.Shift.{length-encode-append}
use jumprope_rs.JumpRope.{Rng, SkipEntry, Node, JumpRope, put_node}
use jumprope_rs.JumpRope.Cells.{Cell, with_text, texts, texts-append, entry_end}
use jumprope_rs.JumpRope.Level.{Level, LevelAt}
use jumprope_rs.JumpRope.Store.{
  put_node-StrPut, next_of-num_bytes, SameNodes, Loop, StrPut, some_inj,
}
use jumprope_rs.JumpRope.Shape.{
  StrPut-NodeAt, NodeAt, NodeAt-same, NodeAt-beside, NodeAt-num_bytes, IsRope, Full,
}
use jumprope_rs.JumpRope.Place.{Place, Spot, Place-moved, start_lem}
use jumprope_rs.JumpRope.Offsets.{Moves, Moves-up, move_within_node_lem}
use jumprope_rs.JumpRope.Rebuild.{retext, on_top, new_top, new_rest, new_eq}
use jumprope_rs.JumpRope.Insert.{Editing, inserted_here, insert_in_node, put_str}
use jumprope_rs.JumpRope.Stands.{
  Stands, Stands-same, here-NodeAt, head_height_lem, update_offsets_lem,
}

module _ (e : Build) (size : ℕ) {G : Rng} (r : JumpRope G) (levels : ℕ) (top : Cell)
    (rest : List Cell) (shape : IsRope (Full size) r levels top rest) (inner : List SkipEntry)
    (p : Place (top ∷ rest) levels top.addr inner) (cs : List ℕ) (some_text : 0 < length cs)
    (new_fits : Fits ((texts p.before ++ p.xs) ++ (cs ++ (p.ys ++ texts p.after)))) where
  abbrev pub new_text : List ℕ
  new_text = p.xs ++ (cs ++ p.ys)

  abbrev pub new_here : Cell
  new_here = with_text p.here new_text

  abbrev pub new_cells : List Cell
  new_cells = p.before ++ with_text p.here new_text ∷ p.after

  new_texts : texts new_cells ≡ (texts p.before ++ p.xs) ++ (cs ++ (p.ys ++ texts p.after))
  new_texts =
      texts-append p.before (with_text p.here new_text ∷ p.after)
      ∙ ap (λ x. texts p.before ++ x)
          (append_assoc p.xs (cs ++ p.ys) (texts p.after)
            ∙ ap (λ x. p.xs ++ x) (append_assoc cs p.ys (texts p.after)))
      ∙ sym (append_assoc (texts p.before) p.xs (cs ++ (p.ys ++ texts p.after)))

  length-t : length new_text ≡ length p.here.text + length cs
  length-t = omega (
    arith,
    ap length p.text_eq,
    length-append p.xs p.ys,
    length-append p.xs (cs ++ p.ys),
    length-append cs p.ys,
  )

  pairs-t : pairs new_text ≡ pairs p.here.text + pairs cs
  pairs-t = omega (
    arith,
    ap pairs p.text_eq,
    count_by-append astral p.xs p.ys,
    count_by-append astral p.xs (cs ++ p.ys),
    count_by-append astral cs p.ys,
  )

  length-new : length (texts p.before) + length new_text + length (texts p.after) < 2 ^ 63
  length-new =
      let whole = (texts p.before ++ p.xs) ++ (cs ++ (p.ys ++ texts p.after)) in
      omega (
        arith,
        new_fits,
        length-le-encode whole,
        ap length new_texts,
        ap length (texts-append p.before (with_text p.here new_text ∷ p.after)),
        length-append (texts p.before) (new_text ++ texts p.after),
        length-append new_text (texts p.after),
      )

  new_bytes : length (encode (texts new_cells)) ≡ r.num_bytes + length (encode cs)
  new_bytes =
      let old : texts (top ∷ rest) ≡ (texts p.before ++ p.xs) ++ (p.ys ++ texts p.after) =
        ap texts p.cells_eq
        ∙ texts-append p.before (p.here ∷ p.after)
        ∙ ap (λ x. texts p.before ++ (x ++ texts p.after)) p.text_eq
        ∙ ap (λ x. texts p.before ++ x) (append_assoc p.xs p.ys (texts p.after))
        ∙ sym (append_assoc (texts p.before) p.xs (p.ys ++ texts p.after)) in
      omega (
        arith,
        shape.bytes,
        ap (λ x. length (encode x)) old,
        ap (λ x. length (encode x)) new_texts,
        length-encode-append (texts p.before ++ p.xs) (p.ys ++ texts p.after),
        length-encode-append (texts p.before ++ p.xs) (cs ++ (p.ys ++ texts p.after)),
        length-encode-append cs (p.ys ++ texts p.after),
      )

  module _ (n : Node) (str : GapBuffer) (held : StrHasText size str new_text) (r1 : JumpRope G)
      (put : StrPut p.here.addr n str r r1) (found : r.nodes p.here.addr ≡ some n) where
    move_node :
        (r2 : JumpRope G)
        → SameNodes r1 r2
        → (h : ℕ) (c : Cell) → c.addr ≢ p.here.addr
        → NodeAt (Full size) r h c
        → NodeAt (Full size) r2 h c
    move_node r2 s h c ne n =
        NodeAt-same (Full size) r1 r2 h c s
          (NodeAt-beside (Full size) r r1 h c (put.beside c.addr ne) n)

    move_here :
        (r2 : JumpRope G)
        → SameNodes r1 r2
        → (h : ℕ) → NodeAt (Full size) r h p.here
        → NodeAt (Full size) r2 h new_here
    move_here r2 s h m =
        let same : n ≡ m.node = some_inj (sym found ∙ m.found) in
        NodeAt-same (Full size) r1 r2 h new_here s (record {
          node = record n { str = str };
          found = put.at;
          height_eq = ap (λ (x : Node). x.height) same ∙ m.height_eq;
          wide = ap (λ (x : Node). length x.nexts) same ∙ m.wide;
          held = held;
        })

    same_rest : (r2 : JumpRope G) → SameNodes r1 r2 → r2 ≡ record r { nodes = r2.nodes }
    same_rest r2 s = s.rest ∙ ap (λ (x : JumpRope G). record x { nodes = r2.nodes }) put.rest

    same_bytes : (r2 : JumpRope G) → SameNodes r1 r2 → r2.num_bytes ≡ r.num_bytes
    same_bytes r2 s = ap (λ (x : JumpRope G). x.num_bytes) (same_rest r2 s)

    after_edit : JumpRope G → JumpRope G
    after_edit r2 = record r2 { num_bytes = r2.num_bytes + length (encode cs) }

    edited :
        (r2 : JumpRope G)
        → Loop (LevelAt new_cells) 0 levels r1 r2
        → IsRope
            (Full size)
            (after_edit r2)
            levels
            (new_top p.before new_here)
            (new_rest p.before new_here p.after)
    unfolding after_edit
    edited r2 l =
        retext (Full size) (Full size) r (after_edit r2) levels top rest p.before p.here p.after
          p.cells_eq shape new_text (ap (λ (x : JumpRope G). x.head) (same_rest r2 l.same))
          (ap (λ (x : JumpRope G). x.fresh) (same_rest r2 l.same))
          (inr (omega (arith, length-t, some_text)))
          (λ h c ne m. NodeAt-num_bytes (Full size) r2 _ h c (move_node r2 l.same h c ne m))
          (λ h m. NodeAt-num_bytes (Full size) r2 _ h _ (move_here r2 l.same h m))
          (λ k lt.
            subst (λ next. Level next k entry_end new_cells) (sym (next_of-num_bytes r2 _ k))
              (l.new k (omega arith) (omega (arith, lt))))
          (omega (arith, new_bytes, same_bytes r2 l.same)) (subst Fits (sym new_texts) new_fits)

    -- The counts after a text was put in the buffer of the cursor's node.
    pub inserted_here_lem :
        Returns
          (Stands (Full size) (texts p.before ++ p.xs ++ cs) (p.xs ++ cs) (p.ys ++ texts p.after))
          (inserted_here e size
            (record { rope = r1; inner = inner })
            (length (encode cs))
            (length cs)
            (pairs cs))
    unfolding inserted_here after_edit
    inserted_here_lem =
        rw
          (head_height_lem (Full size) r levels top rest shape inner p r1
            (StrPut-NodeAt (Full size) p.here.addr n str r r1 levels top found put shape.top_at))
          (Returns-bind
            (update_offsets_lem (Full size) r levels top rest shape inner p new_text (length cs)
              (pairs cs)
              (subst (Moves (length cs) (length p.here.text)) (sym length-t)
                (Moves-up (length p.here.text) (length cs)))
              (subst (Moves (pairs cs) (pairs p.here.text)) (sym pairs-t)
                (Moves-up (pairs p.here.text) (pairs cs)))
              length-new r1 put.same_next)
            λ r2 l.
              Returns-bind
                (move_within_node_lem p.before p.here p.xs (p.xs ++ cs) (length cs) (pairs cs)
                  (subst (Moves (length cs) (length p.xs)) (sym (length-append p.xs cs))
                    (Moves-up (length p.xs) (length cs)))
                  (subst (Moves (pairs cs) (pairs p.xs)) (sym (count_by-append astral p.xs cs))
                    (Moves-up (pairs p.xs) (pairs cs)))
                  (omega (
                    arith,
                    length-new,
                    length-t,
                    ap length p.text_eq,
                    length-append p.xs p.ys,
                    length-append p.xs cs,
                  ))
                  (omega (
                    arith,
                    length-new,
                    length-t,
                    ap length p.text_eq,
                    length-append p.xs p.ys,
                    length-append p.xs cs,
                  ))
                  levels inner (omega (arith, p.wide, shape.levels_le))
                  (λ k lt. p.entries k lt ∙ ap some (start_lem k p.before p.here p.xs)))
                λ inner' m.
                  rw
                    (add_usize_lem e r2.num_bytes (length (encode cs)) (
                      omega (
                        arith,
                        new_bytes,
                        same_bytes r2 l.same,
                        ap (λ x. length (encode x)) new_texts,
                        new_fits,
                      )))
                    (returns (record {
                      levels = levels;
                      top = new_top p.before new_here;
                      rest = new_rest p.before new_here p.after;
                      shape = edited r2 l;
                      spot =
                          subst₂
                            (λ a front.
                              Spot (new_top p.before new_here ∷ new_rest p.before new_here p.after)
                                levels a front (p.xs ++ cs) (p.ys ++ texts p.after) inner')
                            (sym (
                              on_top top rest p.before p.here p.after p.cells_eq
                                (λ c. c.addr ≡ top.addr) new_here refl (λ q. q)))
                            (sym (append_assoc (texts p.before) p.xs cs))
                            (Place-moved (top ∷ rest) _ levels top.addr inner inner' p (p.xs ++ cs)
                              p.ys m
                              (sym (new_eq p.before new_here p.after)
                                ∙ ap (λ x. p.before ++ with_text p.here x ∷ p.after)
                                    (sym (append_assoc p.xs cs p.ys))));
                    })))

module _ (e : Build) (size : ℕ) (small : size < 2 ^ 16) {G : Rng} (c : Editing G)
    (front xs back cs : List ℕ) (st : Stands (Full size) front xs back c)
    (scalars : All IsScalar cs) (some_text : 0 < length cs)
    (fits : Fits (front ++ (cs ++ back))) where
  open st.spot use {place}

  -- The cell of the cursor.
  abbrev pub HasRoom : ℕ → Type 0
  HasRoom n = length (encode place.here.text) + n ≤ size

  -- A buffer that has the new text of the node takes the place of the old one.
  pub put_in_node :
      (h : ℕ) (n : NodeAt (Full size) c.rope h place.here) (str : GapBuffer)
      → StrHasText size str (place.xs ++ (cs ++ place.ys))
      → Returns (Stands (Full size) (front ++ cs) (xs ++ cs) back) (
          inserted_here e size
            (record {
              rope = put_node c.rope place.here.addr (some (record n.node { str = str }));
              inner = c.inner;
            })
            (length (encode cs))
            (length cs)
            (pairs cs))
  put_in_node h n str held =
      Returns-mono
        (inserted_here_lem e size c.rope st.levels st.top st.rest st.shape c.inner place cs
          some_text
          (subst₂ (λ f b. Fits (f ++ (cs ++ b))) (sym st.spot.front_eq) (sym st.spot.back_eq) fits)
          n.node str held (put_node c.rope place.here.addr (some (record n.node { str = str })))
          (put_node-StrPut c.rope place.here.addr n.node str n.found) n.found)
        λ c' s.
          Stands-same (Full size) c' (ap (λ f. f ++ cs) st.spot.front_eq)
            (ap (λ x. x ++ cs) st.spot.xs_eq) st.spot.back_eq s

  -- With an edit cursor that stands between two parts of the text of a well-formed rope
  -- (`Stands`), take an `insert_in_node`, at its place, of a text that is not empty and that the
  -- node has room for, after which the text of the rope fits in memory. The node may be the head,
  -- which then stores characters as any other node does. It does not panic. The rope is
  -- well-formed again and has the text at the place, counted at all levels, and the cursor stands
  -- behind it.
  pub insert_in_node_lem :
      (a : ℕ)
      → a ≡ place.here.addr
      → HasRoom (length (encode cs))
      → Returns
          (Stands (Full size) (front ++ cs) (xs ++ cs) back)
          (insert_in_node e size c a (length (encode place.xs)) (encode cs) (length cs) (pairs cs))
  unfolding insert_in_node put_str
  insert_in_node_lem a at has_room =
      let (h, n) = here-NodeAt (Full size) c.rope st.levels st.top st.rest st.shape c.inner place in
      let held = n.held in
      let total : length (encode place.here.text)
          ≡ length (encode held.before) + length (encode held.after) =
        ap (λ x. length (encode x)) (sym held.text_eq)
        ∙ length-encode-append held.before held.after in
      rw (at, n.found)
        (Returns-bind
          (try_insert_lem e small n.node.str held.before held.after place.xs cs place.ys held.held
            (sym place.text_eq ∙ sym held.text_eq) scalars)
          λ result done. elim done [
            | inr (lt, _) ↦ absurd (omega (arith, lt, total, held.held.full, has_room))
            | inl (_, at_place) ↦
                let (str, is_ok, holds) = at_place in
                rw is_ok (
                  put_in_node h n str (record {
                    before = place.xs ++ cs;
                    after = place.ys;
                    held = holds;
                    text_eq = append_assoc place.xs cs place.ys;
                  }))
          ])
