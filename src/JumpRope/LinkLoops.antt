-- ===== src/JumpRope/LinkLoops.antt =====
-- `link_node` and `widen_above` of src/jumprope.rs: a new node is linked in at its levels, and the levels above
-- pass over it. The cursor may move to its end.
use jumprope_rs.Base.{
  ℕ, zero, suc, ◌+◌, ◌^◌, ◌≤◌, ◌<◌, ◌≡◌, ◌≢◌, refl, sym, ap, ap₂, ◌∙◌, subst, Bool, true, false,
  inl, inr, ◌⊎◌, Option, some, List, ◌∷◌, ◌++◌, arith, length, length-set, get_elem?,
  get_elem?-set_self, get_elem?-set_other, set, lt→ltb, if◌then◌else◌, count_by-le-length,
  Bool-cases, ◌==◌, ==_iff, Returns, returns, Returns-bind, Returns-bind_bind, Returns-mono, ◌>>=◌,
}
use jumprope_rs.Utf8.{pairs, astral}
use jumprope_rs.Build.{Build, add_usize, add_usize_lem, sub_usize_lem}
use jumprope_rs.JumpRope.{Rng, SkipEntry, max_height, put_next, put_entry}
use jumprope_rs.JumpRope.Cells.{Cell, with_text, texts, entry_end, grown, reach}
use jumprope_rs.JumpRope.Level.{Level, LevelAt, Apart, Distinct, HasTall, owner}
use jumprope_rs.JumpRope.Store.{next_of, Loop, Loop-zero, Loop-suc}
use jumprope_rs.JumpRope.Shape.{NodeAt, NodeAt-same, AnyText}
use jumprope_rs.JumpRope.Place.{start}
use jumprope_rs.JumpRope.Relink.{here_entry, here_node}
use jumprope_rs.JumpRope.Offsets.{Step, start-le, reach-le}
use jumprope_rs.JumpRope.Link.{link_level, widen_level}
use jumprope_rs.JumpRope.Insert.{Editing, link_node, widen_above}

-- The cursor's entries of a loop over the levels from `i`, `n` of them.
pub record Cursors (new : ℕ → SkipEntry) (update : Bool) (i n : ℕ) (inner inner' : List SkipEntry)
    : Type 0 where
  pub changed :
      (l : ℕ)
      → i ≤ l
      → l < i + n
      → get_elem? inner' l ≡ (if update then some (new l) else get_elem? inner l)
  pub kept : (l : ℕ) → (l < i) ⊎ (i + n ≤ l) → get_elem? inner' l ≡ get_elem? inner l
  pub same_length : length inner' ≡ length inner

Cursors-zero :
    (new : ℕ → SkipEntry) (update : Bool) (i : ℕ) (inner : List SkipEntry)
    → Cursors new update i 0 inner inner
Cursors-zero new update i inner = record {
  changed = λ l p q. absurd (omega arith);
  kept = λ l o. refl;
  same_length = refl;
}

-- The entry of one level.
abbrev put_here : Bool → List SkipEntry → ℕ → SkipEntry → List SkipEntry
put_here update inner i v = if update then set inner i v else inner

Cursors-suc :
    (new : ℕ → SkipEntry) (update : Bool) (i n : ℕ) (inner inner' : List SkipEntry)
    → i < length inner
    → Cursors new update (i + 1) n (put_here update inner i (new i)) inner'
    → Cursors new update i (suc n) inner inner'
Cursors-suc new true i n inner inner' lt h = record {
  changed = λ l p q. elim (Bool-cases (l == i)) [
    | inl t ↦
        let at : l ≡ i = (==_iff l i).0 t in
        ap (get_elem? inner') at
        ∙ h.kept i (inl (omega arith))
        ∙ get_elem?-set_self inner i (new i) lt
        ∙ ap (λ k. some (new k)) (sym at)
    | inr f ↦ h.changed l (ground (arith, p)) (omega (arith, q))
  ];
  kept = λ l o. elim o [
    | inl less ↦
        h.kept l (inl (omega arith)) ∙ get_elem?-set_other inner i l (new i) (λ e. omega (arith, e))
    | inr ge ↦
        h.kept l (inr (omega arith)) ∙ get_elem?-set_other inner i l (new i) (λ e. omega (arith, e))
  ];
  same_length = h.same_length ∙ length-set inner i (new i);
}
Cursors-suc new false i n inner inner' lt h = record {
  changed = λ l p q. elim (Bool-cases (l == i)) [
    | inl t ↦ let at : l ≡ i = (==_iff l i).0 t in h.kept l (inl (omega arith))
    | inr f ↦ h.changed l (ground (arith, p)) (omega (arith, q))
  ];
  kept = λ l o. elim o [
    | inl less ↦ h.kept l (inl (omega arith))
    | inr ge ↦ h.kept l (inr (omega arith))
  ];
  same_length = h.same_length;
}

-- The cursor's entry is written, or not.
put_here_lem :
    (update : Bool) (inner : List SkipEntry) (i : ℕ) (v : SkipEntry)
    → i < length inner
    → (if update then put_entry inner i v else some inner) ≡ some (put_here update inner i v)
unfolding put_entry
put_here_lem true inner i v lt = rw (lt→ltb i (length inner) lt) refl
put_here_lem false inner i v lt = refl

module _ (before : List Cell) (c : Cell) (after : List Cell)
    (distinct : Distinct (before ++ c ∷ after)) (new : Cell)
    (apart : Apart new.addr (before ++ c ∷ after)) (levels : ℕ)
    (levels_le : levels ≤ max_height + 1) (has : (l : ℕ) → l < levels → HasTall l before c)
    (xs : List ℕ)
    (fits : length (texts before) + length xs + length new.text + length (texts after)
      < 2 ^ 63) where
  abbrev pub cells_old : List Cell
  cells_old = before ++ with_text c xs ∷ after

  abbrev pub cells_new : List Cell
  cells_new = before ++ with_text c xs ∷ new ∷ after

  pairs_fit : pairs (texts before) + pairs xs + pairs new.text + pairs (texts after) < 2 ^ 63
  pairs_fit = omega (
    arith,
    fits,
    count_by-le-length astral (texts before),
    count_by-le-length astral xs,
    count_by-le-length astral new.text,
    count_by-le-length astral (texts after),
  )

  -- The cursor's entry at the end of the new cell.
  abbrev pub at_end : ℕ → SkipEntry
  at_end _ = record {
    node = some new.addr;
    skip_chars = length new.text;
    skip_pairs = pairs new.text;
  }

  -- And past the new cell, from the level's cell.
  abbrev pub at_past : ℕ → SkipEntry
  at_past l = record (grown xs (start l before c)) {
    skip_chars = (grown xs (start l before c)).skip_chars + length new.text;
    skip_pairs = (grown xs (start l before c)).skip_pairs + pairs new.text;
  }

  put_past :
      (e : Build) (update : Bool) (inner : List SkipEntry) (i : ℕ) (node : Option ℕ)
      → node ≡ (grown xs (start i before c)).node
      → i < length inner
      → (if update
          then (do
            here_chars ← add_usize e (grown xs (start i before c)).skip_chars (length new.text)
            here_pairs ← add_usize e (grown xs (start i before c)).skip_pairs (pairs new.text)
            put_entry inner i
                (record { node = node; skip_chars = here_chars; skip_pairs = here_pairs }))
          else some inner)
        ≡ some (put_here update inner i (at_past i))
  unfolding put_entry
  put_past e false inner i to to_eq inside = refl
  put_past e true inner i to to_eq inside =
      let (s_chars, s_pairs) = start-le i before c in
      rw
        (
          add_usize_lem e (grown xs (start i before c)).skip_chars (length new.text)
              (omega (arith, fits, s_chars)),
          add_usize_lem e (grown xs (start i before c)).skip_pairs (pairs new.text)
              (omega (arith, pairs_fit, s_pairs)),
          lt→ltb i (length inner) inside,
          to_eq,
        )
        refl

  module _ (e : Build) (size : ℕ) {G : Rng} (update : Bool) where
    -- What the loops need of a state, for the levels from `i`.
    pub record Ready (i : ℕ) (s : Editing G) : Type 0 where
      pub links : (l : ℕ) → i ≤ l → l < levels → Level (next_of s.rope l) l entry_end cells_old
      pub entries :
          (l : ℕ) → i ≤ l → l < levels → get_elem? s.inner l ≡ some (grown xs (start l before c))
      pub wide : length s.inner ≡ max_height + 1
      pub node : NodeAt AnyText s.rope new.height new

    Ready-suc :
        (i : ℕ) (s s' : Editing G) (v : SkipEntry)
        → Ready i s
        → Step i cells_new s.rope s'.rope
        → s'.inner ≡ put_here update s.inner i v
        → Ready (i + 1) s'
    Ready-suc i s s' v h step inner_eq = record {
      links = λ l ge lt.
          subst (λ next. Level next l entry_end cells_old)
            (sym (step.others l (λ x. omega (arith, x, ge)))) (h.links l (omega arith) lt);
      entries = λ l ge lt.
          ap (λ xs. get_elem? xs l) inner_eq
          ∙ other update l (λ x. omega (arith, x, ge))
          ∙ h.entries l (omega arith) lt;
      wide = ap length inner_eq ∙ len update ∙ h.wide;
      node = NodeAt-same AnyText s.rope s'.rope new.height new step.same h.node;
    }
      where
        other :
            (u : Bool) (l : ℕ) → l ≢ i → get_elem? (put_here u s.inner i v) l ≡ get_elem? s.inner l
        other true l ne = get_elem?-set_other s.inner i l v ne
        other false l ne = refl

        len : (u : Bool) → length (put_here u s.inner i v) ≡ length s.inner
        len true = length-set s.inner i v
        len false = refl

    -- A loop over levels: entries and cursor are those of the new cells.
    pub record Linked (at_level : ℕ → SkipEntry) (i n : ℕ) (s s' : Editing G) : Type 0 where
      pub loop : Loop (LevelAt cells_new) i n s.rope s'.rope
      pub cursors : Cursors at_level update i n s.inner s'.inner

    Linked-zero : (at_level : ℕ → SkipEntry) (i : ℕ) (s : Editing G) → Linked at_level i 0 s s
    Linked-zero at_level i s = record {
      loop = Loop-zero _ i s.rope;
      cursors = Cursors-zero at_level update i s.inner;
    }

    Linked-suc :
        (at_level : ℕ → SkipEntry) (i n : ℕ) (s s' s'' : Editing G)
        → i < length s.inner
        → Step i cells_new s.rope s'.rope
        → s'.inner ≡ put_here update s.inner i (at_level i)
        → Linked at_level (i + 1) n s' s''
        → Linked at_level i (suc n) s s''
    Linked-suc at_level i n s s' s'' lt step inner_eq h = record {
      loop =
          Loop-suc (LevelAt cells_new) i n s.rope s'.rope s''.rope step.same step.others step.here
            h.loop;
      cursors =
          Cursors-suc at_level update i n s.inner s''.inner lt
            (subst (λ xs. Cursors at_level update (i + 1) n xs s''.inner) inner_eq h.cursors);
    }

    pub link_node_lem :
        (n i : ℕ) (s : Editing G)
        → i + n ≡ new.height
        → new.height ≤ levels
        → Ready i s
        → Returns
            (Linked at_end i n s)
            (link_node e size n i new.addr (length new.text) (pairs new.text) update s)
    unfolding link_node
    link_node_lem zero i s at le h = returns (Linked-zero at_end i s)
    link_node_lem (suc n) i s at le h =
        let lt : i < levels = omega (arith, at, le) in
        let tall = has i lt in
        let (s_chars, s_pairs) = start-le i before c in
        let (r_chars, r_pairs) = reach-le i after in
        let far = reach i entry_end after in
        let here = grown xs (start i before c) in
        rw
          (
            h.entries i (omega arith) lt,
            here_node i before c tall after distinct xs,
            here_entry i before c tall after distinct (next_of s.rope i) xs
                (h.links i (omega arith) lt),
            add_usize_lem e (length new.text) (here.skip_chars + far.skip_chars)
                (omega (arith, fits, s_chars, r_chars)),
            sub_usize_lem e (length new.text + (here.skip_chars + far.skip_chars)) here.skip_chars
                (omega arith),
            add_usize_lem e (pairs new.text) (here.skip_pairs + far.skip_pairs)
                (omega (arith, pairs_fit, s_pairs, r_pairs)),
            sub_usize_lem e (pairs new.text + (here.skip_pairs + far.skip_pairs)) here.skip_pairs
                (omega arith),
          )
          (Returns-bind_bind (put_next s.rope (some new.addr) i _) _
            (link_level before c after distinct new apart s.rope i tall xs
              (h.links i (omega arith) lt) new.height h.node (omega (arith, lt, levels_le))
              (omega (arith, at)) _ _
              (ap₂ (λ x y. record { node = far.node; skip_chars = x; skip_pairs = y }) (omega arith)
                (omega arith))
              (ap₂ (λ x y. record { node = some new.addr; skip_chars = x; skip_pairs = y })
                (omega arith) (omega arith)))
            λ r' step.
              rw (put_here_lem update s.inner i (at_end i) (omega (arith, h.wide, lt, levels_le))) (
                let s' : Editing G = record {
                  rope = r';
                  inner = put_here update s.inner i (at_end i);
                } in
                Returns-mono
                  (link_node_lem n (i + 1) s' (omega (arith, at)) le
                    (Ready-suc i s s' _ h step refl))
                  λ s'' rest.
                    Linked-suc at_end i n s s' s'' (omega (arith, h.wide, lt, levels_le)) step refl
                      rest))

    pub widen_above_lem :
        (n i : ℕ) (s : Editing G)
        → i + n ≡ levels
        → new.height ≤ i
        → Ready i s
        → Returns
            (Linked at_past i n s)
            (widen_above e size n i (length new.text) (pairs new.text) update s)
    unfolding widen_above
    widen_above_lem zero i s at le h = returns (Linked-zero at_past i s)
    widen_above_lem (suc n) i s at le h =
        let lt : i < levels = omega (arith, at) in
        let tall = has i lt in
        let (s_chars, s_pairs) = start-le i before c in
        let (r_chars, r_pairs) = reach-le i after in
        let far = reach i entry_end after in
        let here = grown xs (start i before c) in
        let inside : i < length s.inner = omega (arith, h.wide, lt, levels_le) in
        rw
          (
            h.entries i (omega arith) lt,
            here_node i before c tall after distinct xs,
            here_entry i before c tall after distinct (next_of s.rope i) xs
                (h.links i (omega arith) lt),
            add_usize_lem e (here.skip_chars + far.skip_chars) (length new.text)
                (omega (arith, fits, s_chars, r_chars)),
            add_usize_lem e (here.skip_pairs + far.skip_pairs) (pairs new.text)
                (omega (arith, pairs_fit, s_pairs, r_pairs)),
          )
          (Returns-bind
            (widen_level before c after distinct new apart s.rope i tall xs
              (h.links i (omega arith) lt) le _
              (ap₂ (λ x y. record { node = far.node; skip_chars = x; skip_pairs = y }) (omega arith)
                (omega arith)))
            λ r' step.
              rw
                (put_past e update s.inner i (some (owner i before c tall))
                  (sym (here_node i before c tall after distinct xs)) inside)
                (let s' : Editing G = record {
                  rope = r';
                  inner = put_here update s.inner i (at_past i);
                } in
                  Returns-mono
                    (widen_above_lem n (i + 1) s' (omega (arith, at)) (omega (arith, le))
                      (Ready-suc i s s' _ h step refl))
                    λ s'' rest. Linked-suc at_past i n s s' s'' inside step refl rest))
