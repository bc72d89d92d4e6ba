-- ===== src/JumpRope/Cells.antt =====
-- What the nodes of the skip list of src/jumprope.rs stand for: a list of cells, in order, each with
-- the address, the height and the text of a node. At each level the cells that are taller than the
-- level point to one another, and count what lies between.
use jumprope_rs.Base.{
  ℕ, ◌+◌, ◌≤◌, ◌<◌, ◌≡◌, refl, sym, ap, ◌∙◌, true, false, none, some, List, [], ◌∷◌, ◌++◌, arith,
  ltb, if◌then◌else◌, Bool-cases, inl, inr, length, length-append, append_assoc, count_by-append,
  All, ◌⊎◌,
}
use jumprope_rs.Utf8.{pairs, astral}
use jumprope_rs.JumpRope.{SkipEntry}

pub record Cell : Type 0 where
  pub addr : ℕ
  pub height : ℕ
  pub text : List ℕ

abbrev pub with_text : Cell → List ℕ → Cell
with_text c t = record c { text = t }

abbrev pub texts : List Cell → List ℕ
texts [] = []
texts (c ∷ cs) = c.text ++ texts cs

-- An entry that points to the start of a node, and one that skips a text more.
abbrev pub entry_at : ℕ → SkipEntry
entry_at a = record { node = some a; skip_chars = 0; skip_pairs = 0 }

abbrev pub entry_end : SkipEntry
entry_end = record { node = none; skip_chars = 0; skip_pairs = 0 }

abbrev pub grown : List ℕ → SkipEntry → SkipEntry
grown t e = record e { skip_chars = length t + e.skip_chars; skip_pairs = pairs t + e.skip_pairs }

-- The way to `b`, and then the way over `e`.
abbrev pub join : SkipEntry → SkipEntry → SkipEntry
join b e = record {
  node = e.node;
  skip_chars = b.skip_chars + e.skip_chars;
  skip_pairs = b.skip_pairs + e.skip_pairs;
}

abbrev pub Low : ℕ → List Cell → Type 0
Low l = All (λ c. c.height ≤ l)

pub Low-mono : (l l' : ℕ) (cells : List Cell) → l ≤ l' → Low l cells → Low l' cells
Low-mono l l' [] le h = tt
Low-mono l l' (c ∷ cs) le (h, hs) = (omega arith, Low-mono l l' cs le hs)

-- From the start of the cells to the first one above the level; `e` is what follows them.
abbrev pub reach : ℕ → SkipEntry → List Cell → SkipEntry
reach l e [] = e
reach l e (c ∷ cs) = if ltb l c.height then entry_at c.addr else grown c.text (reach l e cs)

-- From the last cell above the level to the end of the cells; `b` is what precedes them.
abbrev pub behind : ℕ → SkipEntry → List Cell → SkipEntry
behind l b [] = b
behind l b (c ∷ cs) = behind l (grown c.text (if ltb l c.height then entry_at c.addr else b)) cs

pub texts-append : (xs ys : List Cell) → texts (xs ++ ys) ≡ texts xs ++ texts ys
texts-append [] ys = refl
texts-append (c ∷ xs) ys =
    ap (c.text ++◌) (texts-append xs ys) ∙ sym (append_assoc c.text (texts xs) (texts ys))

pub reach-append :
    (l : ℕ) (e : SkipEntry) (xs ys : List Cell) → reach l e (xs ++ ys) ≡ reach l (reach l e ys) xs
reach-append l e [] ys = refl
reach-append l e (c ∷ xs) ys =
    ap (λ r. if ltb l c.height then entry_at c.addr else grown c.text r) (reach-append l e xs ys)

pub behind-append :
    (l : ℕ) (b : SkipEntry) (xs ys : List Cell)
    → behind l b (xs ++ ys) ≡ behind l (behind l b xs) ys
behind-append l b [] ys = refl
behind-append l b (c ∷ xs) ys =
    behind-append l (grown c.text (if ltb l c.height then entry_at c.addr else b)) xs ys

-- A list of cells is low, or it has a last cell that is not.
pub record LastTall (l : ℕ) (cells : List Cell) : Type 0 where
  pub front : List Cell
  pub last : Cell
  pub back : List Cell
  pub cells_eq : cells ≡ front ++ last ∷ back
  pub tall : l < last.height
  pub low : Low l back

pub last_tall : (l : ℕ) (cells : List Cell) → Low l cells ⊎ LastTall l cells
last_tall l [] = inl tt
last_tall l (c ∷ cs) = elim (last_tall l cs) [
  | inr t ↦ inr (record {
    front = c ∷ t.front;
    last = t.last;
    back = t.back;
    cells_eq = ap (c ∷◌) t.cells_eq;
    tall = t.tall;
    low = t.low;
  })
  | inl low ↦ elim (Bool-cases (ltb l c.height)) [
    | inl t ↦ inr (record {
      front = [];
      last = c;
      back = cs;
      cells_eq = refl;
      tall = ground arith;
      low = low;
    })
    | inr f ↦ inl (ground arith, low)
  ]
]

-- And a first one.
pub record FirstTall (l : ℕ) (cells : List Cell) : Type 0 where
  pub front : List Cell
  pub first : Cell
  pub back : List Cell
  pub cells_eq : cells ≡ front ++ first ∷ back
  pub tall : l < first.height
  pub low : Low l front

pub first_tall : (l : ℕ) (cells : List Cell) → Low l cells ⊎ FirstTall l cells
first_tall l [] = inl tt
first_tall l (c ∷ cs) = elim (Bool-cases (ltb l c.height)) [
  | inl t ↦
      inr (record {
        front = [];
        first = c;
        back = cs;
        cells_eq = refl;
        tall = ground arith;
        low = tt;
      })
  | inr f ↦ elim (first_tall l cs) [
    | inr t ↦ inr (record {
      front = c ∷ t.front;
      first = t.first;
      back = t.back;
      cells_eq = ap (c ∷◌) t.cells_eq;
      tall = t.tall;
      low = (ground arith, t.low);
    })
    | inl low ↦ inl (ground arith, low)
  ]
]

pub grown-append : (s t : List ℕ) (e : SkipEntry) → grown (s ++ t) e ≡ grown s (grown t e)
grown-append s t e = ground (arith, length-append s t, count_by-append astral s t)

grown_swap : (s t : List ℕ) (e : SkipEntry) → grown s (grown t e) ≡ grown t (grown s e)
grown_swap s t e = ground arith

pub reach-Low : (l : ℕ) (e : SkipEntry) (m : List Cell) → Low l m → reach l e m ≡ grown (texts m) e
reach-Low l e [] low = ground arith
reach-Low l e (c ∷ m) (h, low) =
    let f : ltb l c.height ≡ false = ground arith in
    rw (f, reach-Low l e m low) (sym (grown-append c.text (texts m) e))

pub behind-Low :
    (l : ℕ) (b : SkipEntry) (m : List Cell) → Low l m → behind l b m ≡ grown (texts m) b
behind-Low l b [] low = ground arith
behind-Low l b (c ∷ m) (h, low) =
    let f : ltb l c.height ≡ false = ground arith in
    rw (f, behind-Low l (grown c.text b) m low)
      (grown_swap (texts m) c.text b ∙ sym (grown-append c.text (texts m) b))

-- The last cell that is not low is found from behind, the first one from before.
pub behind-tall :
    (l : ℕ) (b : SkipEntry) (front : List Cell) (c : Cell) (m : List Cell)
    → l < c.height
    → Low l m
    → behind l b (front ++ c ∷ m) ≡ grown (c.text ++ texts m) (entry_at c.addr)
behind-tall l b front c m tall low =
    let t : ltb l c.height ≡ true = ground arith in
    behind-append l b front (c ∷ m)
    ∙ rw (t, behind-Low l (grown c.text (entry_at c.addr)) m low)
        (grown_swap (texts m) c.text (entry_at c.addr)
          ∙ sym (grown-append c.text (texts m) (entry_at c.addr)))

pub reach-tall :
    (l : ℕ) (e : SkipEntry) (m : List Cell) (c : Cell) (back : List Cell)
    → l < c.height
    → Low l m
    → reach l e (m ++ c ∷ back) ≡ grown (texts m) (entry_at c.addr)
reach-tall l e m c back tall low =
    let t : ltb l c.height ≡ true = ground arith in
    reach-append l e m (c ∷ back) ∙ rw (t, reach-Low l (entry_at c.addr) m low) refl
