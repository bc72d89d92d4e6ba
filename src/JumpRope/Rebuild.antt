-- ===== src/JumpRope/Rebuild.antt =====
-- A rope of src/jumprope.rs with another text in the cell at a place.
use jumprope_rs.Base.{
  ℕ, ◌+◌, ◌≤◌, ◌<◌, ◌≡◌, ◌≢◌, refl, sym, ap, ◌∙◌, subst, inl, inr, ◌⊎◌, List, [], ◌∷◌, ◌++◌, arith,
  length, length-append, All, All-append, All-append_left, All-append_right, cons_inj,
}
use jumprope_rs.Utf8.{encode}
use jumprope_rs.Utf8.{Fits}
use jumprope_rs.GapBuffer.{GapBuffer}
use jumprope_rs.JumpRope.{Rng, JumpRope, max_height}
use jumprope_rs.JumpRope.Cells.{Cell, with_text, texts, entry_end}
use jumprope_rs.JumpRope.Level.{Level, Apart, Distinct, Distinct-Apart, Distinct-append_right}
use jumprope_rs.JumpRope.Store.{next_of}
use jumprope_rs.JumpRope.Shape.{NodeAt, IsRope}

-- The cells up to a place, with others from there on.
abbrev pub new_top : List Cell → Cell → Cell
new_top [] here = here
new_top (b ∷ before) here = b

abbrev pub new_rest : List Cell → Cell → List Cell → List Cell
new_rest [] here after = after
new_rest (b ∷ before) here after = before ++ here ∷ after

pub new_eq :
    (before : List Cell) (here : Cell) (after : List Cell)
    → before ++ here ∷ after ≡ new_top before here ∷ new_rest before here after
new_eq [] here after = refl
new_eq (b ∷ before) here after = refl

pub All-replace :
    (P : Cell → Type 0) (before : List Cell) (here here' : Cell) (after after' : List Cell)
    → All P (before ++ here ∷ after)
    → (P here → P here')
    → All P after'
    → All P (before ++ here' ∷ after')
All-replace P before here here' after after' h to k =
    All-append P before (here' ∷ after') (All-append_left P before (here ∷ after) h)
      (to (All-append_right P before (here ∷ after) h).0, k)

module _ (top : Cell) (rest before : List Cell) (here : Cell) (after : List Cell)
    (eq : top ∷ rest ≡ before ++ here ∷ after) where
  pub on_top :
      (P : Cell → Type 0) (here' : Cell) → P top → (P here → P here') → P (new_top before here')
  on_top P here' p to = go before eq
    where
      go : (before' : List Cell) → top ∷ rest ≡ before' ++ here ∷ after → P (new_top before' here')
      go [] e = to (subst P (cons_inj e).0 p)
      go (b ∷ before') e = subst P (cons_inj e).0 p

  pub on_rest :
      (P : Cell → Type 0) (here' : Cell) (after' : List Cell)
      → All P rest
      → (before ≢ [] → P here → P here')
      → All P after'
      → All P (new_rest before here' after')
  on_rest P here' after' h to k = go before eq to
    where
      go :
          (before' : List Cell)
          → top ∷ rest ≡ before' ++ here ∷ after
          → (before' ≢ [] → P here → P here')
          → All P (new_rest before' here' after')
      go [] e _ = k
      go (b ∷ before') e to' =
          All-replace P before' here here' after after' (subst (All P) (cons_inj e).1 h)
            (to' (λ x. cc)) k

  pub on_after : (P : Cell → Type 0) → All P rest → All P after
  on_after P h = go before eq
    where
      go : (before' : List Cell) → top ∷ rest ≡ before' ++ here ∷ after → All P after
      go [] e = subst (All P) (cons_inj e).1 h
      go (b ∷ before') e =
          (All-append_right P before' (here ∷ after) (subst (All P) (cons_inj e).1 h)).1

pub Distinct-with_text :
    (before : List Cell) (c : Cell) (t : List ℕ) (after : List Cell)
    → Distinct (before ++ c ∷ after)
    → Distinct (before ++ with_text c t ∷ after)
Distinct-with_text [] c t after d = d
Distinct-with_text (b ∷ before) c t after (a, d) = (
  All-replace (λ x. x.addr ≢ b.addr) before c (with_text c t) after after a (λ p. p)
      (All-append_right _ before (c ∷ after) a).1,
  Distinct-with_text before c t after d,
)

pub length-with_text :
    (before : List Cell) (c : Cell) (t : List ℕ) (after : List Cell)
    → length (before ++ with_text c t ∷ after) ≡ length (before ++ c ∷ after)
length-with_text before c t after =
    length-append before (with_text c t ∷ after) ∙ sym (length-append before (c ∷ after))

module _ (P P' : ℕ → Cell → Type 0) (q : ℕ)
    (move : (h : ℕ) (c : Cell) → c.addr ≢ q → P h c → P' h c) where
  pub All-move :
      (cs : List Cell) → Apart q cs → All (λ c. P c.height c) cs → All (λ c. P' c.height c) cs
  All-move [] a h = tt
  All-move (c ∷ cs) (a, rest) (h, hs) = (move c.height c a h, All-move cs rest hs)

  -- What holds of every cell with its height, the head with the height of the rope.
  pub nodes_move :
      (levels : ℕ) (top : Cell) (rest before : List Cell) (here : Cell) (after : List Cell)
      (t' : List ℕ) (after' : List Cell)
      → top ∷ rest ≡ before ++ here ∷ after
      → here.addr ≡ q
      → Distinct (before ++ here ∷ after)
      → P levels top
      → All (λ c. P c.height c) rest
      → ((h : ℕ) → P h here → P' h (with_text here t'))
      → All (λ c. P' c.height c) after'
      → P' levels (new_top before (with_text here t'))
        × All (λ c. P' c.height c) (new_rest before (with_text here t') after')
  nodes_move levels top rest [] here after t' after' eq at d p ps to k =
      (to levels (subst (P levels) (cons_inj eq).0 p), k)
  nodes_move levels top rest (b ∷ before) here after t' after' eq at (a, d) p ps to k =
      let apart : Apart q before =
        subst (λ x. Apart x before) at (Distinct-Apart before here after d) in
      let ps' = subst (All (λ c. P c.height c)) (cons_inj eq).1 ps in
      (
        move levels b (λ e. (All-append_right _ before (here ∷ after) a).0 (at ∙ sym e))
            (subst (P levels) (cons_inj eq).0 p),
        All-append _ before (with_text here t' ∷ after')
            (All-move before apart (All-append_left _ before (here ∷ after) ps'))
            (to here.height (All-append_right _ before (here ∷ after) ps').0, k),
      )

module _ (Held Held' : Cell → GapBuffer → Type 0) {G : Rng} (r r' : JumpRope G) (levels : ℕ)
    (top : Cell) (rest before : List Cell) (here : Cell) (after : List Cell)
    (eq : top ∷ rest ≡ before ++ here ∷ after) (shape : IsRope Held r levels top rest) where
  pub cells_Distinct : Distinct (before ++ here ∷ after)
  cells_Distinct = subst Distinct eq shape.distinct

  -- Only the text of the cell at the place changes.
  pub retext :
      (t' : List ℕ)
      → r'.head ≡ r.head
      → r'.fresh ≡ r.fresh
      → ((before ≡ []) ⊎ (0 < length t'))
      → ((h : ℕ) (c : Cell) → c.addr ≢ here.addr → NodeAt Held r h c → NodeAt Held' r' h c)
      → ((h : ℕ) → NodeAt Held r h here → NodeAt Held' r' h (with_text here t'))
      → ((l : ℕ)
          → l < levels
          → Level (next_of r' l) l entry_end (before ++ with_text here t' ∷ after))
      → r'.num_bytes ≡ length (encode (texts (before ++ with_text here t' ∷ after)))
      → Fits (texts (before ++ with_text here t' ∷ after))
      → IsRope Held' r' levels
          (new_top before (with_text here t'))
          (new_rest before (with_text here t') after)
  retext t' head fresh long move to links bytes fits =
      let here' = with_text here t' in
      let cells_eq = new_eq before here' after in
      let apart : Apart here.addr after =
        (Distinct-append_right before (here ∷ after) cells_Distinct).0 in
      let used =
        subst (λ f. All (λ c. c.addr < f) (before ++ here ∷ after)) (sym fresh)
          (subst (All (λ c. c.addr < r.fresh)) eq shape.used) in
      let (top_at, nodes_at) =
        nodes_move (NodeAt Held r) (NodeAt Held' r') here.addr move levels top rest before here
          after t' after eq refl cells_Distinct shape.top_at shape.nodes_at to
          (All-move (NodeAt Held r) (NodeAt Held' r') here.addr move after apart
            (on_after top rest before here after eq _ shape.nodes_at)) in
      record {
        head_eq =
            on_top top rest before here after eq (λ c. c.addr ≡ r'.head) here'
              (shape.head_eq ∙ sym head) (λ p. p);
        top_height =
            on_top top rest before here after eq (λ c. c.height ≡ max_height + 1) here'
              shape.top_height (λ p. p);
        levels_pos = shape.levels_pos;
        levels_le = shape.levels_le;
        lower =
            on_rest top rest before here after eq (λ c. c.height < levels) here' after shape.lower
              (λ _ p. p) (on_after top rest before here after eq _ shape.lower);
        heights_pos =
            on_rest top rest before here after eq (λ c. 1 ≤ c.height) here' after shape.heights_pos
              (λ _ p. p) (on_after top rest before here after eq _ shape.heights_pos);
        filled =
            on_rest top rest before here after eq (λ c. 0 < length c.text) here' after shape.filled
              (λ ne _. elim long [ inl e ↦ absurd (ne e) | inr lt ↦ lt ])
              (on_after top rest before here after eq _ shape.filled);
        top_at = top_at;
        nodes_at = nodes_at;
        links = λ l lt. subst (Level (next_of r' l) l entry_end) cells_eq (links l lt);
        distinct = subst Distinct cells_eq (Distinct-with_text before here t' after cells_Distinct);
        used = subst (All (λ c. c.addr < r'.fresh)) cells_eq (
            All-replace (λ c. c.addr < r'.fresh) before here here' after after used (λ p. p)
              (All-append_right _ before (here ∷ after) used).1);
        enough = omega (
          arith,
          shape.enough,
          fresh,
          ap length eq,
          ap length (sym cells_eq),
          length-with_text before here t' after,
        );
        bytes = bytes ∙ ap (λ cs. length (encode (texts cs))) cells_eq;
        fits = subst (λ cs. Fits (texts cs)) cells_eq fits;
      }
