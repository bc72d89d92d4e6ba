-- ===== src/JumpRope/Alloc.antt =====
-- A new node in the store of src/jumprope.rs, which no entry points to yet, and new levels for the head.
use jumprope_rs.Base.{ℕ, ◌+◌, ◌<◌, ◌≡◌, refl, sym, ap, ◌∙◌, subst, some, List, [], ◌∷◌, arith, All}
use jumprope_rs.GapBuffer.{GapBuffer}
use jumprope_rs.JumpRope.{Rng, Node, JumpRope, put_node}
use jumprope_rs.JumpRope.Cells.{Cell, entry_end}
use jumprope_rs.JumpRope.Level.{Level-frame}
use jumprope_rs.JumpRope.Store.{next_of, next_of-same_node}
use jumprope_rs.JumpRope.Shape.{NodeAt-beside, NodesAt, IsRope}

module _ {G : Rng} (r : JumpRope G) (rng : G.State) (node : Node) where
  abbrev pub allocated : JumpRope G
  allocated = put_node (record r { rng = rng; fresh = r.fresh + 1 }) r.fresh (some node)

  pub nodes-allocated : (a : ℕ) → a < r.fresh → allocated.nodes a ≡ r.nodes a
  unfolding put_node
  nodes-allocated a lt = ground arith

  pub allocated-at : allocated.nodes r.fresh ≡ some node
  unfolding put_node
  allocated-at = ground arith

  pub fields-allocated :
      allocated ≡ record r { rng = rng; fresh = r.fresh + 1; nodes = allocated.nodes }
  unfolding put_node
  fields-allocated = refl

  old_links :
      (l : ℕ) (cs : List Cell)
      → All (λ c. c.addr < r.fresh) cs
      → All (λ c. next_of allocated l c.addr ≡ next_of r l c.addr) cs
  old_links l [] h = tt
  old_links l (c ∷ cs) (h, hs) =
      (next_of-same_node r allocated l c.addr (nodes-allocated c.addr h), old_links l cs hs)

  more_used : (cs : List Cell) → All (λ c. c.addr < r.fresh) cs → All (λ c. c.addr < r.fresh + 1) cs
  more_used [] h = tt
  more_used (c ∷ cs) (h, hs) = (omega arith, more_used cs hs)

  module _ (Held : Cell → GapBuffer → Type 0) where
    old_nodes :
        (cs : List Cell)
        → All (λ c. c.addr < r.fresh) cs
        → NodesAt Held r cs
        → NodesAt Held allocated cs
    old_nodes [] u h = tt
    old_nodes (c ∷ cs) (u, us) (h, hs) =
        (NodeAt-beside Held r allocated c.height c (nodes-allocated c.addr u) h, old_nodes cs us hs)

    pub allocated-IsRope :
        (levels : ℕ) (top : Cell) (rest : List Cell)
        → IsRope Held r levels top rest
        → IsRope Held allocated levels top rest
    allocated-IsRope levels top rest shape =
        let (u, us) = shape.used in
        let same = fields-allocated in
        record {
          head_eq = shape.head_eq ∙ sym (ap (λ (x : JumpRope G). x.head) same);
          top_height = shape.top_height;
          levels_pos = shape.levels_pos;
          levels_le = shape.levels_le;
          lower = shape.lower;
          heights_pos = shape.heights_pos;
          filled = shape.filled;
          top_at =
              NodeAt-beside Held r allocated levels top (nodes-allocated top.addr u) shape.top_at;
          nodes_at = old_nodes rest us shape.nodes_at;
          links = λ l lt.
              Level-frame (next_of r l) l (next_of allocated l) entry_end (top ∷ rest)
                (old_links l (top ∷ rest) shape.used) (shape.links l lt);
          distinct = shape.distinct;
          used =
              subst (λ f. All (λ c. c.addr < f) (top ∷ rest))
                (sym (ap (λ (x : JumpRope G). x.fresh) same)) (more_used (top ∷ rest) shape.used);
          enough = omega (arith, shape.enough, ap (λ (x : JumpRope G). x.fresh) same);
          bytes = ap (λ (x : JumpRope G). x.num_bytes) same ∙ shape.bytes;
          fits = shape.fits;
        }
