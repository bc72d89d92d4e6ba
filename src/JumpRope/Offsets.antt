-- ===== src/JumpRope/Offsets.antt =====
-- `update_offsets` and `move_within_node` of src/jumprope.rs: the text of the cell at the place changes,
-- and the entries that pass over it, and the cursor's, count it anew.
use jumprope_rs.Base.{
  ℕ, zero, suc, ◌+◌, ◌^◌, ◌≤◌, ◌<◌, ◌≡◌, ◌≢◌, sym, ap, ◌∙◌, subst, some, List, [], ◌∷◌, ◌++◌, arith,
  length, length-append, count_by-append, count_by-le-length, ap₂, get_elem?, Returns, returns,
  Returns-bind, Returns-mono, ltb, if◌then◌else◌,
}
use jumprope_rs.Utf8.{pairs, astral}
use jumprope_rs.JumpRope.{Rng, SkipEntry, JumpRope, wrapping_add, negated, put_next}
use jumprope_rs.JumpRope.Cells.{
  Cell, with_text, texts, entry_at, entry_end, grown, join, reach, behind,
}
use jumprope_rs.JumpRope.Level.{Level, LevelAt, Distinct, HasTall, owner}
use jumprope_rs.JumpRope.Store.{next_of, SameNodes, Loop, Loop-zero, Loop-suc, put_next_lem}
use jumprope_rs.JumpRope.Entries.{Mapped, map_entries_lem}
use jumprope_rs.JumpRope.Place.{start}
use jumprope_rs.JumpRope.Relink.{relevel, after-Level, here_entry, here_node}
use jumprope_rs.JumpRope.Cursor.{move_within_node, update_offsets_from}

-- An entry over cells does not count more than their texts.
pub reach-le :
    (l : ℕ) (cells : List Cell)
    → ((reach l entry_end cells).skip_chars ≤ length (texts cells))
      × ((reach l entry_end cells).skip_pairs ≤ pairs (texts cells))
reach-le l [] = (omega arith, omega arith)
reach-le l (c ∷ cells) =
    let (chars, passed) = reach-le l cells in
    let lens = length-append c.text (texts cells) in
    let counts = count_by-append astral c.text (texts cells) in (ground arith, ground arith)

behind-le :
    (l : ℕ) (b : SkipEntry) (cells : List Cell)
    → ((behind l b cells).skip_chars ≤ b.skip_chars + length (texts cells))
      × ((behind l b cells).skip_pairs ≤ b.skip_pairs + pairs (texts cells))
behind-le l b [] = (omega arith, omega arith)
behind-le l b (c ∷ cells) =
    let (chars, passed) =
      behind-le l (grown c.text (if ltb l c.height then entry_at c.addr else b)) cells in
    let lens = length-append c.text (texts cells) in
    let counts = count_by-append astral c.text (texts cells) in (ground arith, ground arith)

pub start-le :
    (l : ℕ) (before : List Cell) (c : Cell)
    → ((start l before c).skip_chars ≤ length (texts before))
      × ((start l before c).skip_pairs ≤ pairs (texts before))
start-le l before c =
    let (chars, passed) = behind-le l entry_end before in (ground arith, ground arith)

-- To add `by`, with wrap-around, makes `n'` of `n`, whatever comes on top.
abbrev pub Moves : ℕ → ℕ → ℕ → Type 0
Moves by n n' = (k : ℕ) → k + n < 2 ^ 63 → k + n' < 2 ^ 63 → wrapping_add (k + n) by ≡ k + n'

pub Moves-up : (n m : ℕ) → Moves m n (n + m)
unfolding wrapping_add
Moves-up n m k h h' = omega (arith, h, h')

pub Moves-down : (n m : ℕ) → Moves (negated m) (n + m) n
unfolding wrapping_add negated
Moves-down n m k h h' = omega (arith, h, h')

-- One level changes: the entry over the place.
pub record Step {G : Rng} (i : ℕ) (cells : List Cell) (r r' : JumpRope G) : Type 0 where
  pub same : SameNodes r r'
  pub others : (l : ℕ) → l ≢ i → next_of r' l ≡ next_of r l
  pub here : Level (next_of r' i) i entry_end cells

module _ (before : List Cell) (c : Cell) (after : List Cell)
    (distinct : Distinct (before ++ c ∷ after)) {G : Rng} where
  pub put_next-Step :
      (r : JumpRope G) (l : ℕ) (has : HasTall l before c) (t t' : List ℕ) (v : SkipEntry)
      → Level (next_of r l) l entry_end (before ++ with_text c t ∷ after)
      → v ≡ join (grown t' (start l before c)) (reach l entry_end after)
      → Returns
          (Step l (before ++ with_text c t' ∷ after) r)
          (put_next r (some (owner l before c has)) l v)
  put_next-Step r l has t t' v h v_eq =
      Returns-mono
        (put_next_lem r l (owner l before c has) _ v
          (here_entry l before c has after distinct (next_of r l) t h))
        λ r' w. record {
          same = w.same;
          others = w.levels;
          here =
              relevel l before c has after distinct (next_of r l) (next_of r' l) t t' after h
                (after-Level l before c has after distinct (next_of r l) (next_of r' l) t h
                  w.beside)
                w.beside (w.at ∙ ap some v_eq);
        }

module _ (before : List Cell) (c : Cell) (after : List Cell) (t t' : List ℕ) (by_chars by_pairs : ℕ)
    (move_chars : Moves by_chars (length t) (length t'))
    (move_pairs : Moves by_pairs (pairs t) (pairs t'))
    (fits : length (texts before) + length t + length (texts after) < 2 ^ 63)
    (fits' : length (texts before) + length t' + length (texts after) < 2 ^ 63) where
  pairs_fit :
      (u : List ℕ)
      → length (texts before) + length u + length (texts after) < 2 ^ 63
      → pairs (texts before) + pairs u + pairs (texts after) < 2 ^ 63
  pairs_fit u h = omega (
    arith,
    h,
    count_by-le-length astral (texts before),
    count_by-le-length astral u,
    count_by-le-length astral (texts after),
  )

  -- The entry over the place, and the cursor's, counted anew.
  recount :
      (l : ℕ) (o : SkipEntry)
      → o.skip_chars ≤ length (texts after)
      → o.skip_pairs ≤ pairs (texts after)
      → (record (join (grown t (start l before c)) o) {
        skip_chars = wrapping_add (join (grown t (start l before c)) o).skip_chars by_chars;
        skip_pairs = wrapping_add (join (grown t (start l before c)) o).skip_pairs by_pairs;
      })
        ≡ join (grown t' (start l before c)) o
  recount l o le le_pairs =
      let (s, sp) = start-le l before c in
      let chars =
        move_chars ((start l before c).skip_chars + o.skip_chars) (omega (arith, fits))
          (omega (arith, fits')) in
      let counted =
        move_pairs ((start l before c).skip_pairs + o.skip_pairs) (omega (arith, pairs_fit t fits))
          (omega (arith, pairs_fit t' fits')) in
      ap₂ (λ x y. record (join (grown t (start l before c)) o) { skip_chars = x; skip_pairs = y })
        (ap (λ k. wrapping_add k by_chars) (omega arith) ∙ chars ∙ omega arith)
        (ap (λ k. wrapping_add k by_pairs) (omega arith) ∙ counted ∙ omega arith)

  module _ (distinct : Distinct (before ++ c ∷ after)) {G : Rng} (levels : ℕ)
      (has : (l : ℕ) → l < levels → HasTall l before c) (inner : List SkipEntry) (xs : List ℕ)
      (entries : (l : ℕ)
        → l < levels
        → get_elem? inner l ≡ some (grown xs (start l before c))) where
    pub update_offsets_from_lem :
        (n i : ℕ) (r : JumpRope G)
        → i + n ≡ levels
        → ((l : ℕ)
            → i ≤ l
            → l < levels
            → Level (next_of r l) l entry_end (before ++ with_text c t ∷ after))
        → Returns
            (Loop (LevelAt (before ++ with_text c t' ∷ after)) i n r)
            (update_offsets_from n i r inner by_chars by_pairs)
    unfolding update_offsets_from
    update_offsets_from_lem zero i r at h =
        returns (Loop-zero (LevelAt (before ++ with_text c t' ∷ after)) i r)
    update_offsets_from_lem (suc n) i r at h =
        let lt : i < levels = omega (arith, at) in
        let tall = has i lt in
        let (r_chars, r_pairs) = reach-le i after in
        rw
          (
            entries i lt,
            here_node i before c tall after distinct xs,
            here_entry i before c tall after distinct (next_of r i) t (h i (omega arith) lt),
          )
          (Returns-bind
            (put_next-Step before c after distinct r i tall t t' _ (h i (omega arith) lt)
              (recount i (reach i entry_end after) r_chars r_pairs))
            λ r' s.
              Returns-mono
                (update_offsets_from_lem n (i + 1) r' (omega (arith, at)) (λ l ge lt'.
                  subst (λ next. Level next l entry_end (before ++ with_text c t ∷ after))
                    (sym (s.others l (λ e. omega arith))) (h l (omega arith) lt')))
                λ r'' rest.
                  Loop-suc (LevelAt (before ++ with_text c t' ∷ after)) i n r r' r'' s.same s.others
                    s.here rest)

module _ (before : List Cell) (c : Cell) (xs xs' : List ℕ) (by_chars by_pairs : ℕ)
    (move_chars : Moves by_chars (length xs) (length xs'))
    (move_pairs : Moves by_pairs (pairs xs) (pairs xs'))
    (fits : length (texts before) + length xs < 2 ^ 63)
    (fits' : length (texts before) + length xs' < 2 ^ 63) where
  pub move_within_node_lem :
      (levels : ℕ) (inner : List SkipEntry)
      → levels ≤ length inner
      → ((l : ℕ) → l < levels → get_elem? inner l ≡ some (grown xs (start l before c)))
      → Returns
          (Mapped (λ l. grown xs' (start l before c)) levels inner)
          (move_within_node inner levels by_chars by_pairs)
  unfolding move_within_node
  move_within_node_lem levels inner le entries =
      map_entries_lem _ _ levels inner le
        λ l lt. (grown xs (start l before c), entries l lt, ap some (moved l))
    where
      counts_fit :
          (u : List ℕ)
          → length (texts before) + length u < 2 ^ 63
          → pairs (texts before) + pairs u < 2 ^ 63
      counts_fit u h =
          omega (arith, h, count_by-le-length astral (texts before), count_by-le-length astral u)

      moved :
          (l : ℕ)
          → record (grown xs (start l before c)) {
            skip_chars = wrapping_add (grown xs (start l before c)).skip_chars by_chars;
            skip_pairs = wrapping_add (grown xs (start l before c)).skip_pairs by_pairs;
          }
            ≡ grown xs' (start l before c)
      moved l =
          let (s, sp) = start-le l before c in
          let chars =
            move_chars (start l before c).skip_chars (omega (arith, fits)) (omega (arith, fits')) in
          let counted =
            move_pairs (start l before c).skip_pairs (omega (arith, counts_fit xs fits))
              (omega (arith, counts_fit xs' fits')) in
          ap₂ (λ x y. record (grown xs (start l before c)) { skip_chars = x; skip_pairs = y })
            (ap (λ k. wrapping_add k by_chars) (omega arith) ∙ chars ∙ omega arith)
            (ap (λ k. wrapping_add k by_pairs) (omega arith) ∙ counted ∙ omega arith)
