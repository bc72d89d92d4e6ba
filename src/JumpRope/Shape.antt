-- ===== src/JumpRope/Shape.antt =====
-- When a rope of src/jumprope.rs is well-formed, and which text it has.
use jumprope_rs.Base.{
  ℕ, ◌+◌, ◌≤◌, ◌<◌, ◌≡◌, sym, ap, ◌∙◌, some, List, [], ◌∷◌, ◌++◌, arith, length, length-append, All,
  subst, All-append_right, cons_inj, Bool-cases, ==_iff, ◌==◌, inl, inr,
}
use jumprope_rs.Utf8.{encode}
use jumprope_rs.Utf8.Laws.{length-le-encode}
use jumprope_rs.Utf8.{Fits}
use jumprope_rs.GapBuffer.RemoveChars.{HasText as StrHasText}
use jumprope_rs.GapBuffer.{GapBuffer}
use jumprope_rs.JumpRope.{Rng, Node, JumpRope, max_height}
use jumprope_rs.JumpRope.Cells.{Cell, texts, entry_end}
use jumprope_rs.JumpRope.Level.{Level, Distinct}
use jumprope_rs.JumpRope.Store.{next_of, SameNodes, StrPut, some_inj, bool_absurd}

-- What holds of all cells holds of the one at a place.
pub All-at :
    (P : Cell → Type 0) (cells before : List Cell) (c : Cell) (after : List Cell)
    → cells ≡ before ++ c ∷ after
    → All P cells
    → P c
All-at P cells before c after e h = (All-append_right P before (c ∷ after) (subst (All P) e h)).0

-- `Held` says what the buffer of a cell's node holds.
module _ (Held : Cell → GapBuffer → Type 0) {G : Rng} where
  -- The node of a cell, and its height.
  pub record NodeAt (r : JumpRope G) (height : ℕ) (c : Cell) : Type 0 where
    pub node : Node
    pub found : r.nodes c.addr ≡ some node
    pub height_eq : node.height ≡ height
    pub wide : length node.nexts ≡ max_height + 1
    pub held : Held c node.str

  pub NodeAt-same :
      (r r' : JumpRope G) (h : ℕ) (c : Cell) → SameNodes r r' → NodeAt r h c → NodeAt r' h c
  NodeAt-same r r' h c s n =
      let (nexts, at, len) = s.keep c.addr n.node n.found in
      record {
        node = record n.node { nexts = nexts };
        found = at;
        height_eq = n.height_eq;
        wide = len ∙ n.wide;
        held = n.held;
      }

  pub NodeAt-num_bytes :
      (r : JumpRope G) (b h : ℕ) (c : Cell) → NodeAt r h c → NodeAt (record r { num_bytes = b }) h c
  NodeAt-num_bytes r b h c n = record {
    node = n.node;
    found = n.found;
    height_eq = n.height_eq;
    wide = n.wide;
    held = n.held;
  }

  pub NodeAt-beside :
      (r r' : JumpRope G) (h : ℕ) (c : Cell)
      → r'.nodes c.addr ≡ r.nodes c.addr
      → NodeAt r h c
      → NodeAt r' h c
  NodeAt-beside r r' h c e n = record {
    node = n.node;
    found = e ∙ n.found;
    height_eq = n.height_eq;
    wide = n.wide;
    held = n.held;
  }

  abbrev pub NodesAt : JumpRope G → List Cell → Type 0
  NodesAt r = All (λ c. NodeAt r c.height c)

  pub NodesAt-same :
      (r r' : JumpRope G) (cs : List Cell) → SameNodes r r' → NodesAt r cs → NodesAt r' cs
  NodesAt-same r r' [] s h = tt
  NodesAt-same r r' (c ∷ cs) s (n, h) = (NodeAt-same r r' c.height c s n, NodesAt-same r r' cs s h)

  -- The head has `levels` levels, which is more than the other nodes have. Its cell counts as the
  -- highest one. No other node is empty.
  pub record IsRope (r : JumpRope G) (levels : ℕ) (top : Cell) (rest : List Cell) : Type 0 where
    pub head_eq : top.addr ≡ r.head
    pub top_height : top.height ≡ max_height + 1
    pub levels_pos : 1 ≤ levels
    pub levels_le : levels ≤ max_height + 1
    pub lower : All (λ c. c.height < levels) rest
    pub heights_pos : All (λ c. 1 ≤ c.height) rest
    pub filled : All (λ c. 0 < length c.text) rest
    pub top_at : NodeAt r levels top
    pub nodes_at : NodesAt r rest
    pub links : (l : ℕ) → l < levels → Level (next_of r l) l entry_end (top ∷ rest)
    pub distinct : Distinct (top ∷ rest)
    pub used : All (λ c. c.addr < r.fresh) (top ∷ rest)
    pub enough : length (top ∷ rest) ≤ r.fresh
    pub bytes : r.num_bytes ≡ length (encode (texts (top ∷ rest)))
    pub fits : Fits (texts (top ∷ rest))

  -- The node of any cell.
  pub cell-NodeAt :
      (r : JumpRope G) (levels : ℕ) (top : Cell) (rest before : List Cell) (c : Cell)
      (after : List Cell)
      → IsRope r levels top rest
      → top ∷ rest ≡ before ++ c ∷ after
      → (h : ℕ) × NodeAt r h c
  cell-NodeAt r levels top rest [] c after shape eq =
      (levels, subst (NodeAt r levels) (cons_inj eq).0 shape.top_at)
  cell-NodeAt r levels top rest (b ∷ before) c after shape eq =
      (c.height, All-at _ rest before c after (cons_inj eq).1 shape.nodes_at)

abbrev pub AnyText : Cell → GapBuffer → Type 0
AnyText _ _ = Unit

-- Another buffer leaves the nodes otherwise as they are.
pub StrPut-NodeAt :
    {G : Rng} (Held : Cell → GapBuffer → Type 0) (a : ℕ) (n : Node) (str : GapBuffer)
    (r r' : JumpRope G) (h : ℕ) (c : Cell)
    → r.nodes a ≡ some n
    → StrPut a n str r r'
    → NodeAt Held r h c
    → NodeAt AnyText r' h c
StrPut-NodeAt Held a n str r r' h c found put m = elim (Bool-cases (c.addr == a)) [
  | inl t ↦
      let at : c.addr ≡ a = (==_iff c.addr a).0 t in
      let same : n ≡ m.node = some_inj (sym found ∙ ap r.nodes (sym at) ∙ m.found) in
      record {
        node = record n { str = str };
        found = ap r'.nodes at ∙ put.at;
        height_eq = ap (λ (x : Node). x.height) same ∙ m.height_eq;
        wide = ap (λ (x : Node). length x.nexts) same ∙ m.wide;
        held = tt;
      }
  | inr f ↦ record {
    node = m.node;
    found = put.beside c.addr (λ e. bool_absurd f ((==_iff c.addr a).1 e)) ∙ m.found;
    height_eq = m.height_eq;
    wide = m.wide;
    held = tt;
  }
]

module _ (size : ℕ) where
  abbrev pub Full : Cell → GapBuffer → Type 0
  Full c b = StrHasText size b c.text

  pub Full-fits : (c : Cell) (b : GapBuffer) → Full c b → length c.text ≤ size
  Full-fits c b h = omega (
    arith,
    h.held.full,
    ap length h.text_eq,
    length-append h.before h.after,
    length-le-encode h.before,
    length-le-encode h.after,
  )

  -- A rope is well-formed and has a text.
  pub record HasText {G : Rng} (r : JumpRope G) (t : List ℕ) : Type 0 where
    pub levels : ℕ
    pub top : Cell
    pub rest : List Cell
    pub shape : IsRope Full r levels top rest
    pub text_eq : texts (top ∷ rest) ≡ t
