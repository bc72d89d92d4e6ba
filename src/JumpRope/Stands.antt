-- ===== src/JumpRope/Stands.antt =====
-- An edit cursor of src/jumprope.rs stands between two texts; and the counts over its place.
use jumprope_rs.Base.{
  ℕ, ◌+◌, ◌^◌, ◌<◌, ◌≡◌, sym, ap, ◌∙◌, subst, subst₂, some, List, [], ◌∷◌, ◌++◌, arith, length,
  length-append, cons_inj, Returns,
}
use jumprope_rs.Utf8.{pairs}
use jumprope_rs.Utf8.Laws.{length-le-encode}
use jumprope_rs.GapBuffer.{GapBuffer}
use jumprope_rs.JumpRope.{Rng, SkipEntry, JumpRope, deref}
use jumprope_rs.JumpRope.Cells.{Cell, with_text, texts, texts-append, entry_end}
use jumprope_rs.JumpRope.Level.{Level, LevelAt, HasTall}
use jumprope_rs.JumpRope.Store.{next_of, Loop}
use jumprope_rs.JumpRope.Shape.{cell-NodeAt, NodeAt, IsRope}
use jumprope_rs.JumpRope.Place.{Place, Spot, start_lem}
use jumprope_rs.JumpRope.Offsets.{Moves, update_offsets_from_lem}
use jumprope_rs.JumpRope.Rebuild.{cells_Distinct}
use jumprope_rs.JumpRope.Cursor.{head_height, update_offsets}
use jumprope_rs.JumpRope.Insert.{Editing}

-- The edit cursor stands between two texts.
pub record Stands (Held : Cell → GapBuffer → Type 0) {G : Rng} (front xs back : List ℕ)
    (c : Editing G) : Type 0 where
  pub levels : ℕ
  pub top : Cell
  pub rest : List Cell
  pub shape : IsRope Held c.rope levels top rest
  pub spot : Spot (top ∷ rest) levels top.addr front xs back c.inner

pub Stands-same :
    (Held : Cell → GapBuffer → Type 0) {G : Rng} (c : Editing G)
    {front front' xs xs' back back' : List ℕ}
    → front ≡ front'
    → xs ≡ xs'
    → back ≡ back'
    → Stands Held front xs back c
    → Stands Held front' xs' back' c
Stands-same Held c {front' = front'} {xs' = xs'} {back = back} p q s h =
    subst (λ b. Stands Held front' xs' b c) s (subst₂ (λ f x. Stands Held f x back c) p q h)

module _ (Held : Cell → GapBuffer → Type 0) {G : Rng} (r : JumpRope G) (levels : ℕ) (top : Cell)
    (rest : List Cell) (shape : IsRope Held r levels top rest) (inner : List SkipEntry)
    (p : Place (top ∷ rest) levels top.addr inner) where
  -- The head is on the way to every place.
  pub place_tall : (l : ℕ) → l < levels → HasTall l p.before p.here
  place_tall l lt = go p.before p.cells_eq
    where
      high : l < top.height
      high = omega (arith, shape.top_height, shape.levels_le)

      go : (before : List Cell) → top ∷ rest ≡ before ++ p.here ∷ p.after → HasTall l before p.here
      go [] e = subst (λ c. l < c.height) (cons_inj e).0 high
      go (b ∷ before) e = subst (λ c. l < c.height) (cons_inj e).0 high

  pub here-NodeAt : (h : ℕ) × NodeAt Held r h p.here
  here-NodeAt = cell-NodeAt Held r levels top rest p.before p.here p.after shape p.cells_eq

  -- The height of the head, in this rope and where only entries and buffers are others.
  pub head_height_lem :
      (r' : JumpRope G) → NodeAt (λ _ _. Unit) r' levels top → head_height r' inner ≡ some levels
  unfolding head_height deref
  head_height_lem r' n = rw (p.head_at, n.found) (ap some n.height_eq)

  module _ (t' : List ℕ) (by_chars by_pairs : ℕ)
      (move_chars : Moves by_chars (length p.here.text) (length t'))
      (move_pairs : Moves by_pairs (pairs p.here.text) (pairs t'))
      (fits' : length (texts p.before) + length t' + length (texts p.after) < 2 ^ 63) where
    length-cells :
        length (texts (top ∷ rest))
        ≡ length (texts p.before) + length p.here.text + length (texts p.after)
    length-cells =
        ap (λ cs. length (texts cs)) p.cells_eq
        ∙ ap length (texts-append p.before (p.here ∷ p.after))
        ∙ omega (
          arith,
          length-append (texts p.before) (p.here.text ++ texts p.after),
          length-append p.here.text (texts p.after),
        )

    -- The entries over the place are counted anew.
    pub update_offsets_lem :
        (r1 : JumpRope G)
        → ((l : ℕ) → next_of r1 l ≡ next_of r l)
        → Returns
            (Loop (LevelAt (p.before ++ with_text p.here t' ∷ p.after)) 0 levels r1)
            (update_offsets r1 inner levels by_chars by_pairs)
    unfolding update_offsets
    update_offsets_lem r1 same =
        update_offsets_from_lem p.before p.here p.after p.here.text t' by_chars by_pairs move_chars
          move_pairs
          (omega (arith, shape.fits, length-le-encode (texts (top ∷ rest)), length-cells)) fits'
          (cells_Distinct Held Held r r levels top rest p.before p.here p.after p.cells_eq shape)
          levels place_tall inner p.xs
          (λ l lt. p.entries l lt ∙ ap some (start_lem l p.before p.here p.xs)) levels 0 r1
          (omega arith)
          (λ l ge lt.
            subst (λ next. Level next l entry_end (p.before ++ p.here ∷ p.after)) (sym (same l))
              (subst (Level (next_of r l) l entry_end) p.cells_eq (shape.links l lt)))
