-- ===== src/JumpRope/Place.antt =====
-- Places in the text of the skip list of src/jumprope.rs, and the edit cursors that point there.
use jumprope_rs.Base.{
  ℕ, ◌+◌, ◌≤◌, ◌<◌, ◌≡◌, refl, sym, ap, ◌∙◌, subst, true, false, some, List, [], ◌∷◌, ◌++◌, arith,
  length, length-append, count_by-append, get_elem?, ltb, ◌>>=◌, le-or-lt, inl, inr, if◌then◌else◌,
  ◌⊎◌,
}
use jumprope_rs.Utf8.{pairs, astral}
use jumprope_rs.JumpRope.{SkipEntry, max_height}
use jumprope_rs.JumpRope.Cells.{
  Cell, with_text, texts, entry_at, entry_end, grown, Low, behind, behind-append, behind-Low,
  texts-append,
}
use jumprope_rs.JumpRope.Entries.{Mapped}
use jumprope_rs.JumpRope.Cursor.{head_ptr}

-- The place is behind the characters `xs` of the cell `here`. The cursor has, for each level, the way
-- from the last cell above the level.
pub record Place (cells : List Cell) (levels head : ℕ) (inner : List SkipEntry) : Type 0 where
  pub before : List Cell
  pub here : Cell
  pub after : List Cell
  pub xs : List ℕ
  pub ys : List ℕ
  pub cells_eq : cells ≡ before ++ here ∷ after
  pub text_eq : here.text ≡ xs ++ ys
  pub entries :
      (l : ℕ)
      → l < levels
      → get_elem? inner l ≡ some (behind l entry_end (before ++ with_text here xs ∷ []))
  pub head_at : head_ptr inner ≡ some head
  pub unused :
      (l : ℕ)
      → levels ≤ l
      → l ≤ max_height
      → (x : SkipEntry) × (get_elem? inner l ≡ some x) × (x.node ≡ some head)
  pub wide : length inner ≡ max_height + 1

-- What a cursor says of the place behind the characters `xs` of the cell `here`.
pub record PointsTo (levels head : ℕ) (before : List Cell) (here : Cell) (xs : List ℕ)
    (inner : List SkipEntry) : Type 0 where
  pub entries :
      (l : ℕ)
      → l < levels
      → get_elem? inner l ≡ some (behind l entry_end (before ++ with_text here xs ∷ []))
  pub head_at : head_ptr inner ≡ some head
  pub unused :
      (l : ℕ)
      → levels ≤ l
      → l ≤ max_height
      → (x : SkipEntry) × (get_elem? inner l ≡ some x) × (x.node ≡ some head)
  pub wide : length inner ≡ max_height + 1

abbrev pub points :
    {cells : List Cell} {levels head : ℕ} {inner : List SkipEntry}
    (p : Place cells levels head inner)
    → PointsTo levels head p.before p.here p.xs inner
points p = record { entries = p.entries; head_at = p.head_at; unused = p.unused; wide = p.wide }

abbrev pub placed :
    {cells : List Cell} {levels head : ℕ} {before : List Cell} {here : Cell} {xs : List ℕ}
    {inner : List SkipEntry} (after : List Cell) (ys : List ℕ)
    → cells ≡ before ++ here ∷ after
    → here.text ≡ xs ++ ys
    → PointsTo levels head before here xs inner
    → Place cells levels head inner
placed {before = before} {here = here} {xs = xs} after ys cells_eq text_eq q = record {
  before = before;
  here = here;
  after = after;
  xs = xs;
  ys = ys;
  cells_eq = cells_eq;
  text_eq = text_eq;
  entries = q.entries;
  head_at = q.head_at;
  unused = q.unused;
  wide = q.wide;
}

-- A place `pos` characters behind the start. Between two cells, it is at the end of the first one.
pub record Reached (cells : List Cell) (levels head pos : ℕ) (inner : List SkipEntry) : Type 0 where
  pub place : Place cells levels head inner
  pub at : length (texts place.before ++ place.xs) ≡ pos
  pub stuck : (place.before ≡ []) ⊎ (0 < length place.xs)

-- The way from the last cell above the level to the start of the cell `a`.
abbrev pub start : ℕ → List Cell → Cell → SkipEntry
start l before a = if ltb l a.height then entry_at a.addr else behind l entry_end before

pub start_lem :
    (l : ℕ) (before : List Cell) (a : Cell) (xs : List ℕ)
    → behind l entry_end (before ++ with_text a xs ∷ []) ≡ grown xs (start l before a)
start_lem l before a xs = behind-append l entry_end before (with_text a xs ∷ [])

start-step :
    (l : ℕ) (before : List Cell) (a : Cell) (m : List Cell) (c : Cell)
    → c.height ≤ l
    → Low l m
    → start l (before ++ a ∷ m) c ≡ grown (a.text ++ texts m) (start l before a)
start-step l before a m c le low =
    let f : ltb l c.height ≡ false = ground arith in
    rw f (
      behind-append l entry_end before (a ∷ m)
      ∙ behind-Low l (grown a.text (start l before a)) m low
      ∙ ground (arith, length-append a.text (texts m), count_by-append astral a.text (texts m)))

-- What a walk records for a level above: the characters from the start of the level's cell to the
-- place, and the `passed` pairs, up to that cell.
pub record Recorded (from : SkipEntry) (passed offset : ℕ) (entry : SkipEntry) : Type 0 where
  pub node_eq : entry.node ≡ from.node
  pub chars_eq : entry.skip_chars ≡ from.skip_chars + offset
  pub pairs_eq : entry.skip_pairs + from.skip_pairs ≡ passed

pub Recorded-step :
    (l : ℕ) (before : List Cell) (a : Cell) (m : List Cell) (c : Cell) (offset : ℕ)
    (entry : SkipEntry)
    → c.height ≤ l
    → Low l m
    → Recorded (start l before a) (pairs (texts before)) (length (a.text ++ texts m) + offset) entry
    → Recorded (start l (before ++ a ∷ m) c) (pairs (texts (before ++ a ∷ m))) offset entry
Recorded-step l before a m c offset entry le low h =
    subst (λ s. Recorded s (pairs (texts (before ++ a ∷ m))) offset entry)
      (sym (start-step l before a m c le low))
      (record {
        node_eq = h.node_eq;
        chars_eq = omega (arith, h.chars_eq);
        pairs_eq = omega (
          arith,
          h.pairs_eq,
          ap pairs (texts-append before (a ∷ m)),
          count_by-append astral (texts before) (a.text ++ texts m),
        );
      })

pub Recorded-here :
    (l : ℕ) (before : List Cell) (a : Cell) (passed offset : ℕ)
    → l < a.height
    → Recorded
        (start l before a)
        passed
        offset
        (record { node = some a.addr; skip_chars = offset; skip_pairs = passed })
Recorded-here l before a passed offset tall =
    let t : ltb l a.height ≡ true = ground arith in
    rw t (record { node_eq = refl; chars_eq = omega arith; pairs_eq = omega arith })

-- A place between two texts, behind the characters `xs` of a cell.
pub record Spot (cells : List Cell) (levels head : ℕ) (front xs back : List ℕ)
    (inner : List SkipEntry) : Type 0 where
  pub place : Place cells levels head inner
  pub front_eq : texts place.before ++ place.xs ≡ front
  pub back_eq : place.ys ++ texts place.after ≡ back
  pub xs_eq : place.xs ≡ xs

-- The cursor after its entries were counted anew, up to other characters of the same cell.
pub Place-moved :
    (cells cells' : List Cell) (levels head : ℕ) (inner inner' : List SkipEntry)
    (p : Place cells levels head inner) (xs' ys' : List ℕ)
    → Mapped (λ l. grown xs' (start l p.before p.here)) levels inner inner'
    → cells' ≡ p.before ++ with_text p.here (xs' ++ ys') ∷ p.after
    → Spot cells' levels head (texts p.before ++ xs') xs' (ys' ++ texts p.after) inner'
unfolding head_ptr
Place-moved cells cells' levels head inner inner' p xs' ys' m eq = record {
  place = record {
    before = p.before;
    here = with_text p.here (xs' ++ ys');
    after = p.after;
    xs = xs';
    ys = ys';
    cells_eq = eq;
    text_eq = refl;
    entries = λ l lt. m.changed l lt ∙ ap some (sym (start_lem l p.before p.here xs'));
    head_at = head_entry ∙ p.head_at;
    unused = λ l ge le. let (x, at, is_head) = p.unused l ge le in (x, m.kept l ge ∙ at, is_head);
    wide = m.same_length ∙ p.wide;
  };
  front_eq = refl;
  back_eq = refl;
  xs_eq = refl;
}
  where
    head_entry : head_ptr inner' ≡ head_ptr inner
    head_entry = elim (le-or-lt levels max_height) [
      | inl le ↦ ap (λ o. o >>= λ (x : SkipEntry). x.node) (m.kept max_height le)
      | inr lt ↦
          ap (λ o. o >>= λ (x : SkipEntry). x.node) (m.changed max_height lt)
          ∙ sym (
              ap (λ o. o >>= λ (x : SkipEntry). x.node)
                (p.entries max_height lt ∙ ap some (start_lem max_height p.before p.here p.xs)))
    ]
