-- ===== src/JumpRope/AtCursor.antt =====
-- What src/jumprope.rs reads at an edit cursor: the node there, the place in it and the node's first
-- entry; and a buffer whose gap is moved.
use jumprope_rs.Base.{
  ℕ, ◌≤◌, ◌<◌, ◌≡◌, refl, sym, ap, ◌∙◌, subst, subst₂, inl, inr, ◌⊎◌, some, List, [], ◌∷◌, ◌++◌,
  arith, length, append-nil, cons_inj, get_elem?,
}
use jumprope_rs.Utf8.{Fits, encode}
use jumprope_rs.GapBuffer.RemoveChars.{HasText as StrHasText}
use jumprope_rs.JumpRope.Rebuild.{retext, new_eq}
use jumprope_rs.GapBuffer.{GapBuffer}
use jumprope_rs.JumpRope.{Rng, SkipEntry, Node, JumpRope, first_next}
use jumprope_rs.JumpRope.Cells.{
  Cell, with_text, texts, entry_at, entry_end, grown, reach, behind-tall,
}
use jumprope_rs.JumpRope.Level.{Level, Level-append_right}
use jumprope_rs.JumpRope.Store.{next_of, next_of_node, StrPut, some_inj}
use jumprope_rs.JumpRope.Shape.{NodeAt, NodeAt-beside, IsRope, All-at, Full}
use jumprope_rs.JumpRope.Place.{Place}
use jumprope_rs.JumpRope.Cursor.{here_ptr, local_char_pos}

module _ (Held : Cell → GapBuffer → Type 0) {G : Rng} (r : JumpRope G) (levels : ℕ) (top : Cell)
    (rest : List Cell) (shape : IsRope Held r levels top rest) (inner : List SkipEntry)
    (p : Place (top ∷ rest) levels top.addr inner) where
  here_height : 1 ≤ p.here.height
  here_height =
      All-at (λ c. 1 ≤ c.height) (top ∷ rest) p.before p.here p.after p.cells_eq
        (omega (arith, shape.top_height), shape.heights_pos)

  here_filled : (p.before ≡ []) ⊎ (0 < length p.here.text)
  here_filled = go p.before p.cells_eq
    where
      go :
          (before : List Cell)
          → top ∷ rest ≡ before ++ p.here ∷ p.after
          → (before ≡ []) ⊎ (0 < length p.here.text)
      go [] e = inl refl
      go (b ∷ before) e =
          inr
            (All-at (λ c. 0 < length c.text) rest before p.here p.after (cons_inj e).1 shape.filled)

  first_entry : get_elem? inner 0 ≡ some (grown p.xs (entry_at p.here.addr))
  first_entry =
      p.entries 0 (omega (arith, shape.levels_pos))
      ∙ ap some (behind-tall 0 entry_end p.before (with_text p.here p.xs) [] here_height tt)
      ∙ ap (λ x. some (grown x (entry_at p.here.addr))) (append-nil p.xs)

  pub here_ptr_lem : here_ptr inner ≡ some p.here.addr
  unfolding here_ptr
  here_ptr_lem = rw first_entry refl

  pub local_char_pos_lem : local_char_pos inner ≡ some (length p.xs)
  unfolding local_char_pos
  local_char_pos_lem = rw first_entry (ap some (omega arith))

  module _ (h : ℕ) (n : NodeAt Held r h p.here) where
    pub first_next_lem : first_next n.node ≡ some (grown p.here.text (reach 0 entry_end p.after))
    unfolding first_next
    first_next_lem =
        sym (next_of_node r 0 p.here.addr n.node n.found)
        ∙ (Level-append_right (next_of r 0) 0 entry_end p.before (p.here ∷ p.after) (
              subst (Level (next_of r 0) 0 entry_end) p.cells_eq
                (shape.links 0 (omega (arith, shape.levels_pos))))).0
            here_height

-- Another buffer of the same text in one node leaves the rope well-formed.
module _ (size : ℕ) {G : Rng} (r : JumpRope G) (levels : ℕ) (top : Cell) (rest : List Cell)
    (shape : IsRope (Full size) r levels top rest) (inner : List SkipEntry)
    (p : Place (top ∷ rest) levels top.addr inner) where
  pub regap-IsRope :
      (h : ℕ) (n : NodeAt (Full size) r h p.here) (str : GapBuffer) (r' : JumpRope G)
      → StrHasText size str p.here.text
      → StrPut p.here.addr n.node str r r'
      → IsRope (Full size) r' levels top rest
  regap-IsRope h n str r' held put =
      let back = sym (new_eq p.before p.here p.after) ∙ sym p.cells_eq in
      subst₂ (IsRope (Full size) r' levels) (cons_inj back).0 (cons_inj back).1 (
        retext (Full size) (Full size) r r' levels top rest p.before p.here p.after p.cells_eq shape
          p.here.text (ap (λ (x : JumpRope G). x.head) put.rest)
          (ap (λ (x : JumpRope G). x.fresh) put.rest)
          (here_filled (Full size) r levels top rest shape inner p)
          (λ h' c ne m. NodeAt-beside (Full size) r r' h' c (put.beside c.addr ne) m)
          (λ h' m.
            let same : n.node ≡ m.node = some_inj (sym n.found ∙ m.found) in
            record {
              node = record n.node { str = str };
              found = put.at;
              height_eq = ap (λ (x : Node). x.height) same ∙ m.height_eq;
              wide = ap (λ (x : Node). length x.nexts) same ∙ m.wide;
              held = held;
            })
          (λ l lt.
            subst (λ next. Level next l entry_end (p.before ++ p.here ∷ p.after))
              (sym (put.same_next l))
              (subst (Level (next_of r l) l entry_end) p.cells_eq (shape.links l lt)))
          (ap (λ (x : JumpRope G). x.num_bytes) put.rest
            ∙ shape.bytes
            ∙ ap (λ cs. length (encode (texts cs))) p.cells_eq)
          (subst (λ cs. Fits (texts cs)) p.cells_eq shape.fits))
