-- ===== src/JumpRope/GrowHead.antt =====
-- `grow_head` of src/jumprope.rs: more levels for the head, which skip the whole rope.
use jumprope_rs.Base.{
  ℕ, suc, zero, ◌+◌, ◌-◌, ◌≤◌, ◌<◌, ◌≡◌, ◌≢◌, refl, sym, ap, ◌∙◌, subst, inl, inr, Bool-cases, ◌==◌,
  ==_iff, some, List, [], ◌∷◌, ◌++◌, arith, length, length-set, All, get_elem?, get_elem?-some,
  get_elem?-set_self, get_elem?-set_other, set, lt→ltb, Returns, returns, Returns-bind,
  Returns-mono, ◌>>=◌,
}
use jumprope_rs.GapBuffer.{GapBuffer}
use jumprope_rs.Build.{Build}
use jumprope_rs.JumpRope.{Rng, SkipEntry, Node, JumpRope, max_height, put_node, put_entry}
use jumprope_rs.JumpRope.Cells.{Cell, texts, entry_at, entry_end, grown, reach, reach-Low}
use jumprope_rs.JumpRope.Level.{Level, Level-low, Apart}
use jumprope_rs.JumpRope.Store.{
  next_of, next_of_node, Wrote, put_next_lem, put_node-at, put_node-beside, put_node-same_next,
  bool_absurd,
}
use jumprope_rs.JumpRope.Shape.{NodeAt, NodeAt-beside, NodeAt-same, NodesAt, IsRope}
use jumprope_rs.JumpRope.Place.{Place, PointsTo, placed}
use jumprope_rs.JumpRope.Top.{rest-Low, behind-top}
use jumprope_rs.JumpRope.Cursor.{head_ptr, set_height}
use jumprope_rs.JumpRope.Insert.{Editing, grow_head}

-- A rope that is the same but for its head, with a cursor to the same place.
pub record Grown (Held : Cell → GapBuffer → Type 0) {G : Rng} (r : JumpRope G) (top : Cell)
    (rest before : List Cell) (here : Cell) (xs : List ℕ) (levels : ℕ) (c : Editing G)
    : Type 0 where
  pub shape : IsRope Held c.rope levels top rest
  pub points : PointsTo levels top.addr before here xs c.inner
  pub fields : c.rope ≡ record r { nodes = c.rope.nodes }
  pub beside : (a : ℕ) → a ≢ top.addr → c.rope.nodes a ≡ r.nodes a

module _ (Held : Cell → GapBuffer → Type 0) {G : Rng} (r : JumpRope G) (levels : ℕ) (top : Cell)
    (rest : List Cell) (shape : IsRope Held r levels top rest) (inner : List SkipEntry)
    (p : Place (top ∷ rest) levels top.addr inner) (room : levels ≤ max_height) where
  -- The head's last entry, and the new one.
  abbrev over_all : SkipEntry
  over_all = grown (top.text) (grown (texts rest) entry_end)

  low_at : (l : ℕ) → levels ≤ suc l → reach l entry_end rest ≡ grown (texts rest) entry_end
  low_at l le =
      reach-Low l entry_end rest
        (rest-Low Held r levels top rest shape inner p l rest le shape.lower)

  last_entry : next_of r (levels - 1) top.addr ≡ some over_all
  last_entry =
      (shape.links (levels - 1) (omega (arith, shape.levels_pos))).0
        (omega (arith, shape.top_height, shape.levels_le))
      ∙ ap (λ x. some (grown top.text x)) (low_at (levels - 1) (omega arith))

  old_entry : (x : SkipEntry) × (next_of r levels top.addr ≡ some x)
  old_entry =
      let n = shape.top_at in
      let (x, at) = get_elem?-some n.node.nexts levels (omega (arith, n.wide, room)) in
      (x, next_of_node r levels top.addr n.node n.found ∙ at)

  abbrev prev : SkipEntry
  prev = grown (texts p.before ++ p.xs) (entry_at top.addr)

  prev_entry : get_elem? inner (levels - 1) ≡ some prev
  prev_entry =
      p.entries (levels - 1) (omega (arith, shape.levels_pos))
      ∙ ap some (
          behind-top Held r levels top rest shape inner p (levels - 1) (omega arith)
            (omega (arith, shape.levels_le)))

  grown-PointsTo : PointsTo (levels + 1) top.addr p.before p.here p.xs (set inner levels prev)
  unfolding head_ptr
  grown-PointsTo = record {
    entries = λ l lt. elim (Bool-cases (l == levels)) [
      | inl t ↦
          let at : l ≡ levels = (==_iff l levels).0 t in
          ap (get_elem? (set inner levels prev)) at
          ∙ here
          ∙ ap some (
              sym (
                behind-top Held r levels top rest shape inner p l (omega (arith, at))
                  (omega (arith, at, room))))
      | inr f ↦
          get_elem?-set_other inner levels l prev (λ x. bool_absurd f ((==_iff l levels).1 x))
          ∙ p.entries l (ground (arith, lt))
    ];
    head_at = elim (Bool-cases (max_height == levels)) [
      | inl t ↦
          ap (λ k. get_elem? (set inner levels prev) k >>= λ (x : SkipEntry). x.node)
            ((==_iff max_height levels).0 t)
          ∙ ap (λ o. o >>= λ (x : SkipEntry). x.node) here
      | inr f ↦
          ap (λ o. o >>= λ (x : SkipEntry). x.node)
            (get_elem?-set_other inner levels max_height prev
              (λ x. bool_absurd f ((==_iff max_height levels).1 x)))
          ∙ p.head_at
    ];
    unused = λ l ge le.
        let (x, at, is_head) = p.unused l (omega arith) le in
        (x, get_elem?-set_other inner levels l prev (λ e. omega (arith, e)) ∙ at, is_head);
    wide = length-set inner levels prev ∙ p.wide;
  }
    where
      here : get_elem? (set inner levels prev) levels ≡ some prev
      here = get_elem?-set_self inner levels prev (omega (arith, p.wide, room))

  taller : JumpRope G → Node → JumpRope G
  taller r1 n = put_node r1 top.addr (some (record n { height = levels + 1 }))

  Grown-rope :
      (r1 : JumpRope G) (n : NodeAt Held r1 levels top)
      → Wrote levels top.addr over_all r r1
      → Grown Held r top rest p.before p.here p.xs
          (levels + 1)
          (record { rope = taller r1 n.node; inner = set inner levels prev })
  unfolding taller
  Grown-rope r1 n w = record {
    shape = record {
      head_eq = shape.head_eq ∙ sym (ap (λ (x : JumpRope G). x.head) fields);
      top_height = shape.top_height;
      levels_pos = omega arith;
      levels_le = omega (arith, room);
      lower = weaken rest shape.lower;
      heights_pos = shape.heights_pos;
      filled = shape.filled;
      top_at = record {
        node = record n.node { height = levels + 1 };
        found = put_node-at r1 top.addr _;
        height_eq = refl;
        wide = n.wide;
        held = n.held;
      };
      nodes_at = move rest shape.distinct.0 shape.nodes_at;
      links = λ l lt.
          subst (λ next. Level next l entry_end (top ∷ rest))
            (sym (
              put_node-same_next r1 top.addr n.node (record n.node { height = levels + 1 }) n.found
                refl l))
            (linked l lt);
      distinct = shape.distinct;
      used =
          subst (λ f. All (λ c. c.addr < f) (top ∷ rest))
            (sym (ap (λ (x : JumpRope G). x.fresh) fields)) shape.used;
      enough = omega (arith, shape.enough, ap (λ (x : JumpRope G). x.fresh) fields);
      bytes = ap (λ (x : JumpRope G). x.num_bytes) fields ∙ shape.bytes;
      fits = shape.fits;
    };
    points = grown-PointsTo;
    fields = fields;
    beside = λ a ne. put_node-beside r1 top.addr _ a ne ∙ w.beside_node a ne;
  }
    where
      fields : taller r1 n.node ≡ record r { nodes = (taller r1 n.node).nodes }
      fields =
          unfold put_node in
          ap (λ (x : JumpRope G). record x { nodes = (taller r1 n.node).nodes }) w.same.rest

      weaken :
          (cs : List Cell) → All (λ c. c.height < levels) cs → All (λ c. c.height < levels + 1) cs
      weaken [] h = tt
      weaken (c ∷ cs) (h, hs) = (omega arith, weaken cs hs)

      move :
          (cs : List Cell)
          → Apart top.addr cs
          → NodesAt Held r cs
          → NodesAt Held (taller r1 n.node) cs
      move [] a h = tt
      move (c ∷ cs) (a, b) (h, hs) = (
        NodeAt-beside Held r (taller r1 n.node) c.height c
            (put_node-beside r1 top.addr _ c.addr a ∙ w.beside_node c.addr a) h,
        move cs b hs,
      )

      linked : (l : ℕ) → l < levels + 1 → Level (next_of r1 l) l entry_end (top ∷ rest)
      linked l lt = elim (Bool-cases (l == levels)) [
        | inl t ↦
            let at : l ≡ levels = (==_iff l levels).0 t in
            (
              (λ _.
                  ap (λ k. next_of r1 k top.addr) at
                  ∙ w.at
                  ∙ ap (λ x. some (grown top.text x)) (sym (low_at l (omega (arith, at))))),
              Level-low (next_of r1 l) l entry_end rest (
                  rest-Low Held r levels top rest shape inner p l rest (omega (arith, at))
                    shape.lower),
            )
        | inr f ↦
            subst (λ next. Level next l entry_end (top ∷ rest))
              (sym (w.levels l (λ x. bool_absurd f ((==_iff l levels).1 x))))
              (shape.links l (ground (arith, lt)))
      ]

  -- One level more.
  grow_one :
      (e : Build) (size n : ℕ)
      → ((c : Editing G)
          → Grown Held r top rest p.before p.here p.xs (levels + 1) c
          → Returns
              (Grown Held r top rest p.before p.here p.xs (levels + suc n))
              (grow_head e size n (levels + 1) c))
      → Returns
          (Grown Held r top rest p.before p.here p.xs (levels + suc n))
          (grow_head e size (suc n) levels (record { rope = r; inner = inner }))
  unfolding grow_head set_height taller put_entry
  grow_one e size n next =
      let (x, at, is_head) = p.unused levels (omega arith) room in
      let (old, has) = old_entry in
      rw (at, is_head, last_entry)
        (Returns-bind (put_next_lem r levels top.addr old over_all has) λ r1 w.
          let m = NodeAt-same Held r r1 levels top w.same shape.top_at in
          rw
            (
              prev_entry,
              lt→ltb levels (length inner) (omega (arith, p.wide, room)),
              grown-PointsTo.head_at,
              m.found,
            )
            (next _ (Grown-rope r1 m w)))

Grown-trans :
    (Held : Cell → GapBuffer → Type 0) {G : Rng} (r : JumpRope G) (top : Cell)
    (rest before : List Cell) (here : Cell) (xs : List ℕ) (l m : ℕ) (c c' : Editing G)
    → Grown Held r top rest before here xs l c
    → Grown Held c.rope top rest before here xs m c'
    → Grown Held r top rest before here xs m c'
Grown-trans Held r top rest before here xs l m c c' g h = record {
  shape = h.shape;
  points = h.points;
  fields = h.fields ∙ ap (λ (x : JumpRope _). record x { nodes = c'.rope.nodes }) g.fields;
  beside = λ a ne. h.beside a ne ∙ g.beside a ne;
}

-- The head grows as many levels as it is to, the text and the place stay.
pub grow_head_lem :
    (Held : Cell → GapBuffer → Type 0) (e : Build) (size : ℕ) {G : Rng} (n : ℕ) (r : JumpRope G)
    (levels : ℕ) (top : Cell) (rest before : List Cell) (here : Cell) (after : List Cell)
    (xs ys : List ℕ) (inner : List SkipEntry)
    → IsRope Held r levels top rest
    → top ∷ rest ≡ before ++ here ∷ after
    → here.text ≡ xs ++ ys
    → PointsTo levels top.addr before here xs inner
    → levels + n ≤ max_height + 1
    → Returns
        (Grown Held r top rest before here xs (levels + n))
        (grow_head e size n levels (record { rope = r; inner = inner }))
unfolding grow_head
grow_head_lem Held e size zero r levels top rest before here after xs ys inner shape eq text_eq q
      fits =
    returns (
      subst (λ l. Grown Held r top rest before here xs l (record { rope = r; inner = inner }))
        (omega arith) (record { shape = shape; points = q; fields = refl; beside = λ a ne. refl }))
grow_head_lem Held e size (suc n) r levels top rest before here after xs ys inner shape eq text_eq q
      fits =
    grow_one Held r levels top rest shape inner (placed after ys eq text_eq q) (omega arith) e size
      n
      λ c g.
        Returns-mono
          (subst
            (λ l.
              Returns (Grown Held c.rope top rest before here xs l)
                (grow_head e size n (levels + 1) c))
            (omega arith)
            (grow_head_lem Held e size n c.rope (levels + 1) top rest before here after xs ys
              c.inner g.shape eq text_eq g.points (omega arith)))
          λ c' g'.
            Grown-trans Held r top rest before here xs (levels + 1) (levels + suc n) c c' g g'
