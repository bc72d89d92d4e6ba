-- ===== src/JumpRope/Linked.antt =====
-- The end of `insert_node_at` of src/jumprope.rs: a new node that is in the store is linked in.
use jumprope_rs.Base.{
  ℕ, suc, ◌+◌, ◌-◌, ◌^◌, ◌≤◌, ◌<◌, ◌≡◌, refl, sym, ap, ◌∙◌, subst, Bool, true, false, inl, inr, ◌⊎◌,
  Option, some, List, [], ◌∷◌, ◌++◌, arith, append-nil, append_assoc, length, length-append,
  get_elem?, All, All-append, All-append_left, All-append_right, le-or-lt, if◌then◌else◌, ltb,
  Returns, returns, Returns-bind, ◌>>=◌,
}
use jumprope_rs.Utf8.{encode, pairs}
use jumprope_rs.Utf8.Laws.{length-le-encode}
use jumprope_rs.Build.{Build, add_usize, add_usize_lem}
use jumprope_rs.Utf8.{Fits}
use jumprope_rs.GapBuffer.{GapBuffer}
use jumprope_rs.GapBuffer.Shift.{length-encode-append}
use jumprope_rs.JumpRope.{Rng, SkipEntry, JumpRope, max_height, deref}
use jumprope_rs.JumpRope.Cells.{Cell, with_text, texts, texts-append, entry_end, grown, behind}
use jumprope_rs.JumpRope.Level.{Level, Apart, Distinct, HasTall}
use jumprope_rs.JumpRope.Store.{next_of, next_of-num_bytes, SameNodes, SameNodes_trans}
use jumprope_rs.JumpRope.Shape.{NodeAt, NodeAt-same, NodeAt-num_bytes, NodesAt, IsRope, AnyText}
use jumprope_rs.JumpRope.Place.{Place, PointsTo, placed, start, start_lem}
use jumprope_rs.JumpRope.GrowHead.{Grown}
use jumprope_rs.JumpRope.Rebuild.{new_top, new_rest, new_eq, on_top, on_rest, on_after, nodes_move}
use jumprope_rs.JumpRope.Stands.{place_tall}
use jumprope_rs.JumpRope.LinkLoops.{Ready, Linked, at_end, at_past, link_node_lem, widen_above_lem}
use jumprope_rs.JumpRope.Cursor.{head_ptr, head_height}
use jumprope_rs.JumpRope.Insert.{Editing, link_node, widen_above}

pub Apart-used : (n : ℕ) (cs : List Cell) → All (λ c. c.addr < n) cs → Apart n cs
Apart-used n [] h = tt
Apart-used n (c ∷ cs) (h, hs) = ((λ e. omega (arith, e)), Apart-used n cs hs)

Distinct-insert :
    (before : List Cell) (new : Cell) (after : List Cell)
    → Distinct (before ++ after)
    → Apart new.addr (before ++ after)
    → Distinct (before ++ new ∷ after)
Distinct-insert [] new after d a = (a, d)
Distinct-insert (b ∷ before) new after (x, d) (a, as') = (
  All-append _ before (new ∷ after) (All-append_left _ before after x)
      ((λ e. a (sym e)), All-append_right _ before after x),
  Distinct-insert before new after d as',
)

-- The rope with the new cell, and the cursor at its end if it was to move.
pub record NodeIn (Held : Cell → GapBuffer → Type 0) {G : Rng} (before : List Cell)
    (here new : Cell) (after : List Cell) (update : Bool) (c : Editing G) : Type 0 where
  pub levels : ℕ
  pub top : Cell
  pub rest : List Cell
  pub shape : IsRope Held c.rope levels top rest
  pub cells_eq : top ∷ rest ≡ before ++ here ∷ new ∷ after
  pub moved : update ≡ true → PointsTo levels top.addr (before ++ here ∷ []) new new.text c.inner

-- The state when the head has its levels and the new node is in the store.
module _ (Held : Cell → GapBuffer → Type 0) (e : Build) (size : ℕ) {G : Rng} (r0 : JumpRope G)
    (levels : ℕ) (top : Cell) (rest before : List Cell) (here new : Cell) (after : List Cell)
    (eq : top ∷ rest ≡ before ++ here ∷ after) (g : Editing G)
    (grown_to : Grown Held r0 top rest before here here.text levels g)
    (node : NodeAt Held g.rope new.height new) (apart : Apart new.addr (before ++ here ∷ after))
    (under : new.addr < g.rope.fresh) (low : new.height < levels) (high : 1 ≤ new.height)
    (some_text : 0 < length new.text) (enough : suc (length (top ∷ rest)) ≤ g.rope.fresh)
    (fits : Fits ((texts before ++ here.text) ++ (new.text ++ texts after))) (update : Bool) where
  shape0 : IsRope Held g.rope levels top rest
  shape0 = grown_to.shape

  distinct0 : Distinct (before ++ here ∷ after)
  distinct0 = subst Distinct eq shape0.distinct

  new_texts :
      texts (before ++ here ∷ new ∷ after)
      ≡ (texts before ++ here.text) ++ (new.text ++ texts after)
  new_texts =
      texts-append before (here ∷ new ∷ after)
      ∙ sym (append_assoc (texts before) here.text (new.text ++ texts after))

  length-fits :
      length (texts before) + length here.text + length new.text + length (texts after) < 2 ^ 63
  length-fits = omega (
    arith,
    fits,
    length-le-encode ((texts before ++ here.text) ++ (new.text ++ texts after)),
    length-append (texts before ++ here.text) (new.text ++ texts after),
    length-append (texts before) here.text,
    length-append new.text (texts after),
  )

  cell_links : (l : ℕ) → l < levels → Level (next_of g.rope l) l entry_end (before ++ here ∷ after)
  cell_links l lt = subst (Level (next_of g.rope l) l entry_end) eq (shape0.links l lt)

  any_node : NodeAt AnyText g.rope new.height new
  any_node = record {
    node = node.node;
    found = node.found;
    height_eq = node.height_eq;
    wide = node.wide;
    held = tt;
  }

  old_place : Place (top ∷ rest) levels top.addr g.inner
  old_place = placed after [] eq (sym (append-nil here.text)) grown_to.points

  tall_at : (l : ℕ) → l < levels → HasTall l before here
  unfolding old_place
  tall_at = place_tall Held g.rope levels top rest shape0 g.inner old_place

  abbrev IsReady : ℕ → Editing G → Type 0
  IsReady =
      Ready before here after distinct0 new apart levels shape0.levels_le tall_at here.text
        length-fits e size update

  abbrev IsLinked : (ℕ → SkipEntry) → ℕ → ℕ → Editing G → Editing G → Type 0
  IsLinked =
      Linked before here after distinct0 new apart levels shape0.levels_le tall_at here.text
        length-fits e size update

  abbrev end_entry : ℕ → SkipEntry
  end_entry =
      at_end before here after distinct0 new apart levels shape0.levels_le tall_at here.text
        length-fits

  abbrev past_entry : ℕ → SkipEntry
  past_entry =
      at_past before here after distinct0 new apart levels shape0.levels_le tall_at here.text
        length-fits

  entry_old :
      (l : ℕ) → l < levels → get_elem? g.inner l ≡ some (grown here.text (start l before here))
  entry_old l lt = grown_to.points.entries l lt ∙ ap some (start_lem l before here here.text)

  ready : IsReady 0 g
  ready = record {
    links = λ l _ lt. cell_links l lt;
    entries = λ l _ lt. entry_old l lt;
    wide = grown_to.points.wide;
    node = any_node;
  }

  module _ (s1 : Editing G) (k : IsLinked end_entry 0 new.height g s1) where
    IsReady-above : IsReady new.height s1
    IsReady-above = record {
      links = λ l ge lt.
          subst (λ next. Level next l entry_end (before ++ here ∷ after))
            (sym (k.loop.else_same l (inr (omega arith)))) (cell_links l lt);
      entries = λ l ge lt. k.cursors.kept l (inr (omega arith)) ∙ entry_old l lt;
      wide = k.cursors.same_length ∙ grown_to.points.wide;
      node = NodeAt-same AnyText g.rope s1.rope new.height new k.loop.same any_node;
    }

    module _ (s2 : Editing G) (m : IsLinked past_entry new.height (levels - new.height) s1 s2) where
      same_nodes : SameNodes g.rope s2.rope
      same_nodes = SameNodes_trans g.rope s1.rope s2.rope k.loop.same m.loop.same

      new_links :
          (l : ℕ)
          → l < levels
          → Level (next_of s2.rope l) l entry_end (before ++ here ∷ new ∷ after)
      new_links l lt = elim (le-or-lt new.height l) [
        | inl ge ↦ m.loop.new l ge (omega arith)
        | inr less ↦
            subst (λ next. Level next l entry_end (before ++ here ∷ new ∷ after))
              (sym (m.loop.else_same l (inl less))) (k.loop.new l (omega arith) (omega arith))
      ]

      after_insert : JumpRope G
      after_insert = record s2.rope { num_bytes = s2.rope.num_bytes + length (encode new.text) }

      move : (h : ℕ) (c : Cell) → NodeAt Held g.rope h c → NodeAt Held after_insert h c
      unfolding after_insert
      move h c n =
          NodeAt-num_bytes Held s2.rope _ h c (NodeAt-same Held g.rope s2.rope h c same_nodes n)

      move_all : (cs : List Cell) → NodesAt Held g.rope cs → NodesAt Held after_insert cs
      move_all [] h = tt
      move_all (c ∷ cs) (h, hs) = (move c.height c h, move_all cs hs)

      new-Distinct : Distinct (before ++ here ∷ new ∷ after)
      new-Distinct = subst Distinct (append_assoc before (here ∷ []) (new ∷ after)) (
          Distinct-insert (before ++ here ∷ []) new after
            (subst Distinct (sym (append_assoc before (here ∷ []) after)) distinct0)
            (subst (Apart new.addr) (sym (append_assoc before (here ∷ []) after)) apart))

      new_bytes :
          length (encode (texts (before ++ here ∷ new ∷ after)))
          ≡ g.rope.num_bytes + length (encode new.text)
      new_bytes =
          let old : texts (top ∷ rest) ≡ (texts before ++ here.text) ++ texts after =
            ap texts eq
            ∙ texts-append before (here ∷ after)
            ∙ sym (append_assoc (texts before) here.text (texts after)) in
          omega (
            arith,
            shape0.bytes,
            ap (λ x. length (encode x)) old,
            ap (λ x. length (encode x)) new_texts,
            length-encode-append (texts before ++ here.text) (texts after),
            length-encode-append (texts before ++ here.text) (new.text ++ texts after),
            length-encode-append new.text (texts after),
          )

      new_shape :
          IsRope Held after_insert levels (new_top before here) (new_rest before here (new ∷ after))
      unfolding after_insert
      new_shape =
          let cells_eq = new_eq before here (new ∷ after) in
          let fields = same_nodes.rest in
          let fresh : s2.rope.fresh ≡ g.rope.fresh = ap (λ (x : JumpRope G). x.fresh) fields in
          let used' =
            subst (λ f. All (λ c. c.addr < f) (before ++ here ∷ after)) (sym fresh)
              (subst (All (λ c. c.addr < g.rope.fresh)) eq shape0.used) in
          let (top_at, nodes_at) =
            nodes_move (NodeAt Held g.rope) (NodeAt Held after_insert) here.addr
              (λ h c _ n. move h c n) levels top rest before here after here.text (new ∷ after) eq
              refl distinct0 shape0.top_at shape0.nodes_at (λ h n. move h here n)
              (
                move new.height new node,
                move_all after (on_after top rest before here after eq _ shape0.nodes_at),
              ) in
          record {
            head_eq =
                on_top top rest before here after eq (λ c. c.addr ≡ s2.rope.head) here
                  (shape0.head_eq ∙ sym (ap (λ (x : JumpRope G). x.head) fields)) (λ p. p);
            top_height =
                on_top top rest before here after eq (λ c. c.height ≡ max_height + 1) here
                  shape0.top_height (λ p. p);
            levels_pos = shape0.levels_pos;
            levels_le = shape0.levels_le;
            lower =
                on_rest top rest before here after eq (λ c. c.height < levels) here (new ∷ after)
                  shape0.lower (λ _ p. p)
                  (low, on_after top rest before here after eq _ shape0.lower);
            heights_pos =
                on_rest top rest before here after eq (λ c. 1 ≤ c.height) here (new ∷ after)
                  shape0.heights_pos (λ _ p. p)
                  (high, on_after top rest before here after eq _ shape0.heights_pos);
            filled =
                on_rest top rest before here after eq (λ c. 0 < length c.text) here (new ∷ after)
                  shape0.filled (λ _ p. p)
                  (some_text, on_after top rest before here after eq _ shape0.filled);
            top_at = top_at;
            nodes_at = nodes_at;
            links = λ l lt. subst (Level _ l entry_end) cells_eq (
                subst (λ next. Level next l entry_end (before ++ here ∷ new ∷ after))
                  (sym (next_of-num_bytes s2.rope _ l)) (new_links l lt));
            distinct = subst Distinct cells_eq new-Distinct;
            used = subst (All (λ c. c.addr < s2.rope.fresh)) cells_eq (
                All-append (λ c. c.addr < s2.rope.fresh) before (here ∷ new ∷ after)
                  (All-append_left _ before (here ∷ after) used')
                  (
                    (All-append_right _ before (here ∷ after) used').0,
                    (
                      omega (arith, under, fresh),
                      (All-append_right _ before (here ∷ after) used').1,
                    ),
                  ));
            enough = omega (
              arith,
              enough,
              fresh,
              ap length eq,
              ap length (sym cells_eq),
              length-append before (here ∷ new ∷ after),
              length-append before (here ∷ after),
            );
            bytes =
                ap (λ n. n + length (encode new.text)) (ap (λ (x : JumpRope G). x.num_bytes) fields)
                ∙ sym new_bytes
                ∙ ap (λ cs. length (encode (texts cs))) cells_eq;
            fits = subst (λ cs. Fits (texts cs)) cells_eq (subst Fits (sym new_texts) fits);
          }

      -- The cursor at the end of the new node.
      new_points :
          update ≡ true → PointsTo levels top.addr (before ++ here ∷ []) new new.text s2.inner
      unfolding head_ptr
      new_points on = record {
        entries = λ l lt. entry_new l lt (le-or-lt new.height l);
        head_at = head_entry;
        unused = λ l ge le.
            let (x, at, is_head) = grown_to.points.unused l ge le in
            (
              x,
              m.cursors.kept l (inr (omega arith)) ∙ k.cursors.kept l (inr (omega arith)) ∙ at,
              is_head,
            );
        wide = m.cursors.same_length ∙ k.cursors.same_length ∙ grown_to.points.wide;
      }
        where
          updated : (x y : Option SkipEntry) → (if update then x else y) ≡ x
          updated x y = ap (λ b. if b then x else y) on

          node_of_entry : Option SkipEntry → Option ℕ
          node_of_entry o = o >>= λ (x : SkipEntry). x.node

          head_entry : node_of_entry (get_elem? s2.inner max_height) ≡ some top.addr
          head_entry = elim (le-or-lt levels max_height) [
            | inl le ↦
                ap node_of_entry (
                  m.cursors.kept max_height (inr (omega arith))
                  ∙ k.cursors.kept max_height (inr (omega arith)))
                ∙ grown_to.points.head_at
            | inr lt ↦
                ap node_of_entry (
                  m.cursors.changed max_height (omega (arith, shape0.levels_le)) (omega (arith, lt))
                  ∙ updated _ _)
                ∙ sym (ap node_of_entry (entry_old max_height lt))
                ∙ grown_to.points.head_at
          ]

          entry_new :
              (l : ℕ)
              → l < levels
              → (new.height ≤ l) ⊎ (l < new.height)
              → get_elem? s2.inner l
                ≡ some (behind l entry_end ((before ++ here ∷ []) ++ with_text new new.text ∷ []))
          entry_new l lt (inl ge) =
              let f : ltb l new.height ≡ false = ground arith in
              m.cursors.changed l ge (omega arith)
              ∙ updated _ _
              ∙ ap some (
                  sym (
                    start_lem l (before ++ here ∷ []) new new.text
                    ∙ rw f
                        (ap (grown new.text) (start_lem l before here here.text) ∙ ground arith)))
          entry_new l lt (inr less) =
              let t : ltb l new.height ≡ true = ground arith in
              m.cursors.kept l (inl less)
              ∙ k.cursors.changed l (omega arith) (omega arith)
              ∙ updated _ _
              ∙ ap some (sym (start_lem l (before ++ here ∷ []) new new.text ∙ rw t (ground arith)))

  -- The part of `insert_node_at` that links the node in.
  pub link_all : Returns (NodeIn Held before here new after update) (do
    linked ← link_node e size new.height 0 new.addr (length new.text) (pairs new.text) update g
    height' ← head_height linked.rope linked.inner
    widened ←
        widen_above e size
          (height' - new.height)
          new.height
          (length new.text)
          (pairs new.text)
          update
          linked
    num_bytes ← add_usize e widened.rope.num_bytes (length (encode new.text))
    some (record widened { rope = record widened.rope { num_bytes = num_bytes } }))
  unfolding head_height deref head_ptr after_insert
  link_all =
      Returns-bind
        (link_node_lem before here after distinct0 new apart levels shape0.levels_le tall_at
          here.text length-fits e size update new.height 0 g (omega arith) (omega (arith, low))
          ready)
        λ s1 k.
          let top_at = NodeAt-same Held g.rope s1.rope levels top k.loop.same shape0.top_at in
          let above = k.cursors.kept max_height (inr (omega (arith, low, shape0.levels_le))) in
          rw
            (
              ap (λ o. o >>= λ (x : SkipEntry). x.node) above ∙ grown_to.points.head_at,
              top_at.found,
              top_at.height_eq,
            )
            (Returns-bind
              (widen_above_lem before here after distinct0 new apart levels shape0.levels_le tall_at
                here.text length-fits e size update (levels - new.height) new.height s1
                (omega (arith, low)) (omega arith) (IsReady-above s1 k))
              λ s2 m.
                let same = (same_nodes s1 k s2 m).rest in
                let bytes = new_bytes s1 k s2 m in
                let total : s2.rope.num_bytes + length (encode new.text) < 2 ^ 64 = omega (
                  arith,
                  ap (λ (x : JumpRope G). x.num_bytes) same,
                  bytes,
                  ap (λ x. length (encode x)) new_texts,
                  fits,
                ) in
                rw (add_usize_lem e s2.rope.num_bytes (length (encode new.text)) total) (
                  returns (record {
                    levels = levels;
                    top = new_top before here;
                    rest = new_rest before here (new ∷ after);
                    shape = new_shape s1 k s2 m;
                    cells_eq = sym (new_eq before here (new ∷ after));
                    moved = λ on.
                        subst (λ a. PointsTo levels a (before ++ here ∷ []) new new.text s2.inner)
                          (sym (
                            on_top top rest before here after eq (λ c. c.addr ≡ top.addr) here refl
                              (λ q. q)))
                          (new_points s1 k s2 m on);
                  })))
