-- ===== src/JumpRope/Store.antt =====
-- Writes of one entry in the store of src/jumprope.rs: what they change and what they leave alone.
use jumprope_rs.Base.{
  ℕ, suc, ◌+◌, ◌≤◌, ◌<◌, ◌≡◌, ◌≢◌, refl, sym, ap, ◌∙◌, Bool, true, false, Option, none, some, List,
  ◌>>=◌, arith, ltb, lt→ltb, ◌==◌, ==_iff, Bool-cases, inl, inr, ◌⊎◌, length, get_elem?, set,
  Returns, returns, fun_ext, subst, length-set, get_elem?-set_self, get_elem?-set_other,
  lt_of_get_elem?,
}
use jumprope_rs.GapBuffer.{GapBuffer}
use jumprope_rs.JumpRope.{
  Rng, SkipEntry, Node, JumpRope, deref, put_node, put_entry, next_at, put_next,
}

pub some_inj {ℓ} : {A : Type ℓ} {x y : A} → some x ≡ some y → x ≡ y
some_inj {x} h = ap (λ o. elim o [ some a ↦ a | none ↦ x ]) h

pub bool_absurd : {b : Bool} → b ≡ false → b ≡ true → ⊥
bool_absurd f t = cc

module _ {G : Rng} where
  -- The entries of all nodes at one level.
  abbrev pub next_of : JumpRope G → ℕ → ℕ → Option SkipEntry
  next_of r l a = next_at r (some a) l

  -- The same rope but for entries.
  pub record SameNodes (r r' : JumpRope G) : Type 0 where
    pub rest : r' ≡ record r { nodes = r'.nodes }
    pub keep :
        (a : ℕ) (n : Node)
        → r.nodes a ≡ some n
        → (nexts : List SkipEntry) × (r'.nodes a ≡ some (record n { nexts = nexts }))
          × (length nexts ≡ length n.nexts)

  pub SameNodes_refl : (r : JumpRope G) → SameNodes r r
  SameNodes_refl r = record { rest = refl; keep = λ a n h. (n.nexts, h, refl) }

  pub SameNodes_trans : (r r1 r2 : JumpRope G) → SameNodes r r1 → SameNodes r1 r2 → SameNodes r r2
  SameNodes_trans r r1 r2 s t = record {
    rest = t.rest ∙ ap (λ (x : JumpRope G). record x { nodes = r2.nodes }) s.rest;
    keep = λ a n h.
        let (nexts, at, len) = s.keep a n h in
        let (nexts', at', len') = t.keep a _ at in (nexts', at', len' ∙ len);
  }

  -- The node of an entry.
  pub node_of :
      (r : JumpRope G) (l a : ℕ) (v : SkipEntry)
      → next_of r l a ≡ some v
      → (n : Node) × (r.nodes a ≡ some n) × (get_elem? n.nexts l ≡ some v)
  unfolding next_at deref
  node_of r l a v h = go (r.nodes a) h
    where
      go :
          (m : Option Node)
          → (m >>= λ n. get_elem? n.nexts l) ≡ some v
          → (n : Node) × (m ≡ some n) × (get_elem? n.nexts l ≡ some v)
      go none e = cc
      go (some n) e = (n, refl, e)

  pub next_of_node :
      (r : JumpRope G) (l a : ℕ) (n : Node)
      → r.nodes a ≡ some n
      → next_of r l a ≡ get_elem? n.nexts l
  unfolding next_at deref
  next_of_node r l a n h = rw h

  pub next_of-same_node :
      (r r' : JumpRope G) (l a : ℕ) → r'.nodes a ≡ r.nodes a → next_of r' l a ≡ next_of r l a
  unfolding next_at deref
  next_of-same_node r r' l a h = ap (λ m. m >>= λ (x : Node). get_elem? x.nexts l) h

  -- The levels from `i`, `n` of them, are as `New` says, and the others are the same.
  pub record Loop (New : ℕ → (ℕ → Option SkipEntry) → Type 0) (i n : ℕ) (r r' : JumpRope G)
      : Type 0 where
    pub same : SameNodes r r'
    pub new : (l : ℕ) → i ≤ l → l < i + n → New l (next_of r' l)
    pub else_same : (l : ℕ) → (l < i) ⊎ (i + n ≤ l) → next_of r' l ≡ next_of r l

  pub Loop-zero :
      (New : ℕ → (ℕ → Option SkipEntry) → Type 0) (i : ℕ) (r : JumpRope G) → Loop New i 0 r r
  Loop-zero New i r = record {
    same = SameNodes_refl r;
    new = λ l p q. absurd (omega arith);
    else_same = λ l o. refl;
  }

  -- One level changes, and then the ones above it.
  pub Loop-suc :
      (New : ℕ → (ℕ → Option SkipEntry) → Type 0) (i n : ℕ) (r r1 r2 : JumpRope G)
      → SameNodes r r1
      → ((l : ℕ) → l ≢ i → next_of r1 l ≡ next_of r l)
      → New i (next_of r1 i)
      → Loop New (i + 1) n r1 r2
      → Loop New i (suc n) r r2
  Loop-suc New i n r r1 r2 same others here rest = record {
    same = SameNodes_trans r r1 r2 same rest.same;
    new = λ l p q. elim (Bool-cases (l == i)) [
      | inl t ↦
          let at : l ≡ i = (==_iff l i).0 t in
          subst (λ k. New k (next_of r2 k)) (sym at)
            (subst (New i) (sym (rest.else_same i (inl (omega arith)))) here)
      | inr f ↦ rest.new l (ground arith) (omega arith)
    ];
    else_same = λ l o. elim o [
      | inl lt ↦ rest.else_same l (inl (omega arith)) ∙ others l (λ e. omega arith)
      | inr ge ↦ rest.else_same l (inr (omega arith)) ∙ others l (λ e. omega arith)
    ];
  }

  -- One write.
  pub record Wrote (l a : ℕ) (v : SkipEntry) (r r' : JumpRope G) : Type 0 where
    pub same : SameNodes r r'
    pub at : next_of r' l a ≡ some v
    pub beside : (a' : ℕ) → a' ≢ a → next_of r' l a' ≡ next_of r l a'
    pub beside_node : (a' : ℕ) → a' ≢ a → r'.nodes a' ≡ r.nodes a'
    pub levels : (l' : ℕ) → l' ≢ l → next_of r' l' ≡ next_of r l'

  pub put_next_lem :
      (r : JumpRope G) (l a : ℕ) (old v : SkipEntry)
      → next_of r l a ≡ some old
      → Returns (Wrote l a v r) (put_next r (some a) l v)
  unfolding put_next put_entry
  put_next_lem r l a old v h =
      let (n, at, has) = node_of r l a old h in
      let inside : ltb l (length n.nexts) ≡ true = lt→ltb _ _ (lt_of_get_elem? n.nexts l old has) in
      rw (at, inside) (returns (wrote n at (lt_of_get_elem? n.nexts l old has)))
    where
      after : Node → JumpRope G
      after n = put_node r a (some (record n { nexts = set n.nexts l v }))

      nodes_at : (n : Node) → (after n).nodes a ≡ some (record n { nexts = set n.nexts l v })
      nodes_at n = unfold put_node in ground arith

      nodes_beside : (n : Node) (a' : ℕ) → a' ≢ a → (after n).nodes a' ≡ r.nodes a'
      nodes_beside n a' ne = unfold put_node in ground arith

      beside : (n : Node) (l' a' : ℕ) → a' ≢ a → next_of (after n) l' a' ≡ next_of r l' a'
      beside n l' a' ne = unfold next_at deref in nodes_rw
        where
          nodes_rw :
              (((after n).nodes a') >>= λ m. get_elem? m.nexts l')
              ≡ (r.nodes a' >>= λ m. get_elem? m.nexts l')
          nodes_rw = ap (λ m. m >>= λ (x : Node). get_elem? x.nexts l') (nodes_beside n a' ne)

      keep :
          (n : Node)
          → r.nodes a ≡ some n
          → (a' : ℕ) (m : Node) → r.nodes a' ≡ some m
          → (nexts : List SkipEntry) × ((after n).nodes a' ≡ some (record m { nexts = nexts }))
            × (length nexts ≡ length m.nexts)
      keep n at a' m at' = elim (Bool-cases (a' == a)) [
        | inl t ↦
            let e : a' ≡ a = (==_iff a' a).0 t in
            let q : n ≡ m = some_inj (sym at ∙ ap r.nodes (sym e) ∙ at') in
            (
              set n.nexts l v,
              ap (after n).nodes e
                  ∙ nodes_at n
                  ∙ ap (λ (x : Node). some (record x { nexts = set n.nexts l v })) q,
              length-set n.nexts l v ∙ ap (λ (x : Node). length x.nexts) q,
            )
        | inr f ↦ (m.nexts, nodes_beside n a' (λ e. bool_absurd f ((==_iff a' a).1 e)) ∙ at', refl)
      ]

      levels :
          (n : Node)
          → r.nodes a ≡ some n
          → (l' : ℕ) → l' ≢ l
          → (a' : ℕ) → next_of (after n) l' a' ≡ next_of r l' a'
      levels n at l' ne a' = elim (Bool-cases (a' == a)) [
        | inl t ↦
            let e : a' ≡ a = (==_iff a' a).0 t in
            ap (next_of (after n) l') e
            ∙ next_of_node (after n) l' a _ (nodes_at n)
            ∙ get_elem?-set_other n.nexts l l' v ne
            ∙ sym (next_of_node r l' a n at)
            ∙ ap (next_of r l') (sym e)
        | inr f ↦ beside n l' a' (λ e. bool_absurd f ((==_iff a' a).1 e))
      ]

      wrote : (n : Node) → r.nodes a ≡ some n → l < length n.nexts → Wrote l a v r (after n)
      wrote n at lt = record {
        same = record { rest = unfold put_node in refl; keep = keep n at };
        at = next_of_node (after n) l a _ (nodes_at n) ∙ get_elem?-set_self n.nexts l v lt;
        beside = beside n l;
        beside_node = nodes_beside n;
        levels = λ l' ne. fun_ext (levels n at l' ne);
      }

  -- Another buffer in one node.
  pub record StrPut (a : ℕ) (n : Node) (str : GapBuffer) (r r' : JumpRope G) : Type 0 where
    pub rest : r' ≡ record r { nodes = r'.nodes }
    pub at : r'.nodes a ≡ some (record n { str = str })
    pub beside : (a' : ℕ) → a' ≢ a → r'.nodes a' ≡ r.nodes a'
    pub same_next : (l : ℕ) → next_of r' l ≡ next_of r l

  pub put_node-at : (r : JumpRope G) (a : ℕ) (n : Node) → (put_node r a (some n)).nodes a ≡ some n
  unfolding put_node
  put_node-at r a n = ground arith

  pub put_node-beside :
      (r : JumpRope G) (a : ℕ) (n : Node) (a' : ℕ)
      → a' ≢ a
      → (put_node r a (some n)).nodes a' ≡ r.nodes a'
  unfolding put_node
  put_node-beside r a n a' ne = ground arith

  pub put_node-same_next :
      (r : JumpRope G) (a : ℕ) (n n' : Node)
      → r.nodes a ≡ some n
      → n'.nexts ≡ n.nexts
      → (l : ℕ) → next_of (put_node r a (some n')) l ≡ next_of r l
  put_node-same_next r a n n' found nexts l = fun_ext same
    where
      same : (a' : ℕ) → next_of (put_node r a (some n')) l a' ≡ next_of r l a'
      same a' = elim (Bool-cases (a' == a)) [
        | inl t ↦
            let e : a' ≡ a = (==_iff a' a).0 t in
            ap (next_of (put_node r a (some n')) l) e
            ∙ next_of_node (put_node r a (some n')) l a _ (put_node-at r a n')
            ∙ ap (λ xs. get_elem? xs l) nexts
            ∙ sym (next_of_node r l a n found)
            ∙ ap (next_of r l) (sym e)
        | inr f ↦
            next_of-same_node r (put_node r a (some n')) l a'
              (put_node-beside r a n' a' (λ e. bool_absurd f ((==_iff a' a).1 e)))
      ]

  pub put_node-StrPut :
      (r : JumpRope G) (a : ℕ) (n : Node) (str : GapBuffer)
      → r.nodes a ≡ some n
      → StrPut a n str r (put_node r a (some (record n { str = str })))
  unfolding put_node
  put_node-StrPut r a n str found = record {
    rest = refl;
    at = put_node-at r a _;
    beside = put_node-beside r a _;
    same_next = put_node-same_next r a n _ found refl;
  }

  -- The count of bytes is apart.
  pub next_of-num_bytes :
      (r : JumpRope G) (n l : ℕ) → next_of (record r { num_bytes = n }) l ≡ next_of r l
  unfolding next_at deref
  next_of-num_bytes r n l = refl
