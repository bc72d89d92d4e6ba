-- ===== src/JumpRope/Link.antt =====
-- A new cell behind the place of a cursor of src/jumprope.rs, at one level: entries lead to it and on from
-- it, or pass over it.
use jumprope_rs.Base.{
  ℕ, ◌≤◌, ◌<◌, ◌≡◌, refl, sym, ap, ◌∙◌, some, List, ◌∷◌, ◌++◌, arith, ltb, All-append_right, true,
  false, get_elem?-some, Returns, Returns-bind, Returns-mono, ◌>>=◌,
}
use jumprope_rs.JumpRope.{Rng, SkipEntry, JumpRope, max_height, put_next}
use jumprope_rs.JumpRope.Cells.{Cell, with_text, entry_at, entry_end, grown, join, reach}
use jumprope_rs.JumpRope.Level.{Level, Level-frame, Apart, Apart-frame, Distinct, HasTall, owner}
use jumprope_rs.JumpRope.Store.{next_of, next_of_node, SameNodes_trans, put_next_lem}
use jumprope_rs.JumpRope.Shape.{NodeAt, AnyText}
use jumprope_rs.JumpRope.Place.{start}
use jumprope_rs.JumpRope.Relink.{relevel, after-Level, here_entry, owner-is_cell}
use jumprope_rs.JumpRope.Offsets.{Step}
use jumprope_rs.JumpRope.Rebuild.{All-replace}

module _ (before : List Cell) (c : Cell) (after : List Cell)
    (distinct : Distinct (before ++ c ∷ after)) (new : Cell)
    (apart : Apart new.addr (before ++ c ∷ after)) {G : Rng} (r : JumpRope G) (i : ℕ)
    (has : HasTall i before c) (xs : List ℕ)
    (links : Level (next_of r i) i entry_end (before ++ with_text c xs ∷ after)) where
  abbrev pub cells_before : List Cell
  cells_before = before ++ with_text c xs ∷ after

  abbrev pub cells_after : List Cell
  cells_after = before ++ with_text c xs ∷ new ∷ after

  Apart-before : Apart new.addr cells_before
  Apart-before =
      All-replace _ before c (with_text c xs) after after apart (λ p. p)
        (All-append_right _ before (c ∷ after) apart).1

  new_entry :
      (h : ℕ)
      → NodeAt AnyText r h new
      → i ≤ max_height
      → (x : SkipEntry) × (next_of r i new.addr ≡ some x)
  new_entry h n le =
      let (x, at) = get_elem?-some n.node.nexts i (omega (arith, n.wide)) in
      (x, next_of_node r i new.addr n.node n.found ∙ at)

  -- The new cell is above the level.
  pub link_level :
      (h : ℕ)
      → NodeAt AnyText r h new
      → i ≤ max_height
      → i < new.height
      → (v v' : SkipEntry) → v ≡ grown new.text (reach i entry_end after)
      → v' ≡ join (grown xs (start i before c)) (entry_at new.addr)
      → Returns
          (Step i cells_after r)
          (put_next r (some new.addr) i v >>= λ r'. put_next r' (some (owner i before c has)) i v')
  link_level h n le tall v v' v_eq v_eq' =
      let (old, old_at) = new_entry h n le in
      Returns-bind (put_next_lem r i new.addr old v old_at) λ r1 w1.
        let links1 : Level (next_of r1 i) i entry_end cells_before =
          Level-frame (next_of r i) i (next_of r1 i) entry_end cells_before
            (Apart-frame (next_of r i) (next_of r1 i) new.addr cells_before w1.beside Apart-before)
            links in
        Returns-mono
          (put_next_lem r1 i (owner i before c has) _ v'
            (here_entry i before c has after distinct (next_of r1 i) xs links1))
          λ r2 w2. record {
            same = SameNodes_trans r r1 r2 w1.same w2.same;
            others = λ l ne. w2.levels l ne ∙ w1.levels l ne;
            here =
                relevel i before c has after distinct (next_of r1 i) (next_of r2 i) xs xs
                  (new ∷ after) links1
                  (
                    (λ _.
                        w2.beside new.addr
                          (λ e. owner-is_cell i before c has after distinct new.addr apart (sym e))
                        ∙ w1.at
                        ∙ ap some v_eq),
                    after-Level i before c has after distinct (next_of r1 i) (next_of r2 i) xs
                        links1 w2.beside,
                  )
                  w2.beside
                  (w2.at
                    ∙ ap some v_eq'
                    ∙ ap (λ e. some (join (grown xs (start i before c)) e)) (sym stops));
          }
    where
      stops : reach i entry_end (new ∷ after) ≡ entry_at new.addr
      stops = let t : ltb i new.height ≡ true = ground arith in rw t refl

  -- The level passes over the new cell.
  pub widen_level :
      new.height ≤ i
      → (v : SkipEntry)
      → v ≡ join (grown xs (start i before c)) (grown new.text (reach i entry_end after))
      → Returns (Step i cells_after r) (put_next r (some (owner i before c has)) i v)
  widen_level low v v_eq =
      Returns-mono
        (put_next_lem r i (owner i before c has) _ v
          (here_entry i before c has after distinct (next_of r i) xs links))
        λ r1 w. record {
          same = w.same;
          others = w.levels;
          here =
              relevel i before c has after distinct (next_of r i) (next_of r1 i) xs xs (new ∷ after)
                links
                (
                  (λ tall. absurd (omega arith)),
                  after-Level i before c has after distinct (next_of r i) (next_of r1 i) xs links
                      w.beside,
                )
                w.beside
                (w.at
                  ∙ ap some v_eq
                  ∙ ap (λ e. some (join (grown xs (start i before c)) e)) (sym passes));
        }
    where
      passes : reach i entry_end (new ∷ after) ≡ grown new.text (reach i entry_end after)
      passes = let f : ltb i new.height ≡ false = ground arith in rw f refl
