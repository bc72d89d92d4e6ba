-- ===== src/JumpRope/Walk.antt =====
-- The walk of an edit cursor to a place (`mut_cursor_at_char` of src/jumprope.rs): it takes at each level
-- the steps that do not pass the place.
use jumprope_rs.Base.{
  ℕ, zero, suc, ◌+◌, ◌-◌, ◌^◌, ◌≤◌, ◌<◌, ◌≡◌, refl, sym, ap, ◌∙◌, subst, subst₂, inl, inr, true,
  false, Option, some, List, [], ◌∷◌, ◌++◌, arith, length, length-append, length-set,
  count_by-append, count_by-le-length, get_elem?, get_elem?-set_self, get_elem?-set_other, set, ltb,
  leb, lt→ltb, Bool-cases, ◌⊎◌, Returns, returns, Returns-bind, Returns-mono, Returns-branch, All,
  All-append_right, All-append_left, cons_inj, append_assoc, ◌>>=◌, ◌>>◌, assert, take, drop,
  take-append-drop, length-take, le→leb, ◌==◌, ==_iff,
}
use jumprope_rs.Utf8.{pairs, astral}
use jumprope_rs.Utf8.Laws.{length-le-encode}
use jumprope_rs.Build.{Build, sub_usize, add_usize, add_usize_lem, sub_usize_lem}
use jumprope_rs.JumpRope.{Rng, SkipEntry, Node, JumpRope, max_height, put_entry}
use jumprope_rs.JumpRope.Cells.{
  Cell, texts, entry_at, entry_end, grown, Low, Low-mono, reach, FirstTall, first_tall, reach-Low,
  reach-tall, behind-tall, texts-append, reach-append, grown-append,
}
use jumprope_rs.JumpRope.Level.{Level, Level-append_right}
use jumprope_rs.JumpRope.Store.{next_of, next_of_node, bool_absurd}
use jumprope_rs.JumpRope.Shape.{cell-NodeAt, Full, Full-fits, IsRope}
use jumprope_rs.JumpRope.Place.{Reached, start, start_lem, Recorded, Recorded-step, Recorded-here}
use jumprope_rs.GapBuffer.{GapBuffer}
use jumprope_rs.GapBuffer.Read.{count_surrogate_pairs}
use jumprope_rs.GapBuffer.Counts.{count_surrogate_pairs_lem}
use jumprope_rs.JumpRope.Entries.{Mapped, map_entries_lem}
use jumprope_rs.JumpRope.Cursor.{goes_right, head_ptr, finish_pairs, mut_from}

-- A stop at a level above the one of a step: the cell that the step goes to is below it.
stop-step :
    (l : ℕ) (a : Cell) (m : List Cell) (c : Cell) (after : List Cell) (offset : ℕ)
    → Low l m
    → 0 < offset
    → length (a.text ++ texts m) + offset
      ≤ length a.text + (reach l entry_end (m ++ c ∷ after)).skip_chars
    → (c.height ≤ l) × (offset ≤ length c.text + (reach l entry_end after).skip_chars)
stop-step l a m c after offset low pos h =
    let way : reach l entry_end (m ++ c ∷ after) ≡ grown (texts m) (reach l entry_end (c ∷ after)) =
      reach-append l entry_end m (c ∷ after) ∙ reach-Low l (reach l entry_end (c ∷ after)) m low in
    let h' : offset ≤ (reach l entry_end (c ∷ after)).skip_chars =
      omega (arith, h, ap (λ (x : SkipEntry). x.skip_chars) way, length-append a.text (texts m)) in
    elim (Bool-cases (ltb l c.height)) [
      | inl t ↦ absurd (stops_short (rw t at h'))
      | inr f ↦ (ground arith, rw f at h')
    ]
  where
    stops_short : offset ≤ 0 → ⊥
    stops_short le = omega arith

module _ (e : Build) (size : ℕ) (small : size < 2 ^ 16) {G : Rng} (r : JumpRope G) (levels : ℕ)
    (top : Cell) (rest : List Cell) (shape : IsRope (Full size) r levels top rest)
    (inner0 : List SkipEntry) where
  abbrev pub cells : List Cell
  cells = top ∷ rest

  -- The walk is at the cell `a`, and the place is `offset` characters behind its start. The levels from
  -- `from` are done.
  pub record At (from : ℕ) (before : List Cell) (a : Cell) (after : List Cell) (offset : ℕ)
      (inner : List SkipEntry) : Type 0 where
    pub cells_eq : cells ≡ before ++ a ∷ after
    pub inside : offset ≤ length a.text + length (texts after)
    pub stops :
        (l : ℕ)
        → from ≤ l
        → l < levels
        → offset ≤ length a.text + (reach l entry_end after).skip_chars
    pub recorded :
        (l : ℕ)
        → from ≤ l
        → l < levels
        → (entry : SkipEntry) × (get_elem? inner l ≡ some entry)
          × Recorded (start l before a) (pairs (texts before)) offset entry
    pub above : (l : ℕ) → levels ≤ l → get_elem? inner l ≡ get_elem? inner0 l
    pub wide : length inner ≡ max_height + 1
    pub stuck : (before ≡ []) ⊎ (0 < offset)

  -- The entry that the walk reads.
  At-entry :
      (level : ℕ) (before : List Cell) (a : Cell) (after : List Cell)
      → cells ≡ before ++ a ∷ after
      → level < a.height
      → level < levels
      → next_of r level a.addr ≡ some (grown a.text (reach level entry_end after))
  At-entry level before a after cells_eq tall below =
      (Level-append_right (next_of r level) level entry_end before (a ∷ after)
          (subst (Level (next_of r level) level entry_end) cells_eq (shape.links level below))).0
        tall

  At-write :
      (level : ℕ) (before : List Cell) (a : Cell) (after : List Cell) (offset : ℕ)
      (inner : List SkipEntry)
      → At (suc level) before a after offset inner
      → level < a.height
      → level < levels
      → offset ≤ length a.text + (reach level entry_end after).skip_chars
      → At level before a after offset (
          set inner level
            (record { node = some a.addr; skip_chars = offset; skip_pairs = pairs (texts before) }))
  At-write level before a after offset inner h tall below stop =
      let entry : SkipEntry = record {
        node = some a.addr;
        skip_chars = offset;
        skip_pairs = pairs (texts before);
      } in
      let here =
        get_elem?-set_self inner level entry (omega (arith, h.wide, below, shape.levels_le)) in
      record {
        cells_eq = h.cells_eq;
        inside = h.inside;
        stops = λ l p q. elim (Bool-cases (l == level)) [
          | inl t ↦
              subst (λ k. offset ≤ length a.text + (reach k entry_end after).skip_chars)
                (sym ((==_iff l level).0 t)) stop
          | inr f ↦ h.stops l (ground (arith, p)) q
        ];
        recorded = λ l p q. elim (Bool-cases (l == level)) [
          | inl t ↦
              let at : l ≡ level = (==_iff l level).0 t in
              (
                entry,
                ap (get_elem? (set inner level entry)) at ∙ here,
                subst (λ k. Recorded (start k before a) (pairs (texts before)) offset entry)
                    (sym at) (Recorded-here level before a (pairs (texts before)) offset tall),
              )
          | inr f ↦
              let (old, at, rec) = h.recorded l (ground (arith, p)) q in
              (
                old,
                get_elem?-set_other inner level l entry (λ x. bool_absurd f ((==_iff l level).1 x))
                    ∙ at,
                rec,
              )
        ];
        above = λ l p.
            get_elem?-set_other inner level l entry (λ x. omega (arith, x, below)) ∙ h.above l p;
        wide = length-set inner level entry ∙ h.wide;
        stuck = h.stuck;
      }

  At-right :
      (level : ℕ) (before : List Cell) (a : Cell) (m : List Cell) (c : Cell) (after : List Cell)
      (offset : ℕ) (inner : List SkipEntry)
      → At (suc level) before a (m ++ c ∷ after) (length (a.text ++ texts m) + offset) inner
      → Low level m
      → 0 < offset
      → At (suc level) (before ++ a ∷ m) c after offset inner
  At-right level before a m c after offset inner h low pos = record {
    cells_eq = h.cells_eq ∙ sym (append_assoc before (a ∷ m) (c ∷ after));
    inside = omega (
      arith,
      h.inside,
      length-append a.text (texts m),
      ap length (texts-append m (c ∷ after)),
      length-append (texts m) (texts (c ∷ after)),
      length-append c.text (texts after),
    );
    stops = λ l p q.
        (stop-step l a m c after offset (Low-mono level l m (omega arith) low) pos
          (h.stops l p q)).1;
    recorded = λ l p q.
        let (entry, at, rec) = h.recorded l p q in
        let low' = Low-mono level l m (omega arith) low in
        (
          entry,
          at,
          Recorded-step l before a m c offset entry
              (stop-step l a m c after offset low' pos (h.stops l p q)).0 low' rec,
        );
    above = h.above;
    wide = h.wide;
    stuck = inr pos;
  }

  abbrev place_entry : List Cell → Cell → List ℕ → ℕ → SkipEntry
  place_entry before a xs l = grown xs (start l before a)

  -- At the end the pairs up to each level's cell are taken off those up to the place.
  finish_entry :
      (l : ℕ) (before : List Cell) (a : Cell) (xs : List ℕ) (entry : SkipEntry)
      → pairs (texts before) + pairs xs < 2 ^ 64
      → Recorded (start l before a) (pairs (texts before)) (length xs) entry
      → (do
        skip ← sub_usize e (pairs (texts before) + pairs xs) entry.skip_pairs
        some (record entry { skip_pairs = skip }))
        ≡ some (place_entry before a xs l)
  finish_entry l before a xs entry fits h =
      rw
        (sub_usize_lem e (pairs (texts before) + pairs xs) entry.skip_pairs
          (omega (arith, h.pairs_eq)))
        (ground (arith, h.node_eq, h.chars_eq, h.pairs_eq))

  finish_pairs_lem :
      (before : List Cell) (a : Cell) (after : List Cell) (xs : List ℕ) (inner : List SkipEntry)
      → At 0 before a after (length xs) inner
      → pairs (texts before) + pairs xs < 2 ^ 64
      → Returns
          (Mapped (place_entry before a xs) levels inner)
          (finish_pairs e levels (pairs (texts before) + pairs xs) inner)
  unfolding finish_pairs
  finish_pairs_lem before a after xs inner h fits =
      elim (Bool-cases (ltb 0 (pairs (texts before) + pairs xs))) [
        | inl t ↦ rw t (
            map_entries_lem _ (place_entry before a xs) levels inner
              (omega (arith, h.wide, shape.levels_le))
              λ l lt.
                let (entry, at, rec) = h.recorded l (omega arith) lt in
                (entry, at, finish_entry l before a xs entry fits rec))
        | inr f ↦ rw f (
            returns (record {
              changed = λ l lt.
                  let (entry, at, rec) = h.recorded l (omega arith) lt in
                  at ∙ ap some (none_passed l entry (ground arith) rec);
              kept = λ l ge. refl;
              same_length = refl;
            }))
      ]
    where
      none_passed :
          (l : ℕ) (entry : SkipEntry)
          → pairs (texts before) + pairs xs ≡ 0
          → Recorded (start l before a) (pairs (texts before)) (length xs) entry
          → entry ≡ place_entry before a xs l
      none_passed l entry z rec = ground (arith, rec.node_eq, rec.chars_eq, rec.pairs_eq)

  -- The characters and pairs of a prefix of the cells.
  passed-fits :
      (before : List Cell) (a : Cell) (m after : List Cell)
      → cells ≡ before ++ a ∷ (m ++ after)
      → pairs (texts before) + pairs (a.text ++ texts m) < 2 ^ 63
  passed-fits before a m after eq =
      let whole : texts cells ≡ (texts before ++ (a.text ++ texts m)) ++ texts after =
        ap texts (eq ∙ sym (append_assoc before (a ∷ m) after))
        ∙ texts-append (before ++ a ∷ m) after
        ∙ ap (λ t. t ++ texts after) (texts-append before (a ∷ m)) in
      omega (
        arith,
        shape.fits,
        length-le-encode (texts cells),
        ap length whole,
        length-append (texts before ++ (a.text ++ texts m)) (texts after),
        count_by-append astral (texts before) (a.text ++ texts m),
        count_by-le-length astral (texts before ++ (a.text ++ texts m)),
      )

  rest-after :
      (P : Cell → Type 0) (before : List Cell) (a : Cell) (after : List Cell)
      → cells ≡ before ++ a ∷ after
      → All P rest
      → All P after
  rest-after P [] a after eq h = subst (All P) (cons_inj eq).1 h
  rest-after P (b ∷ before) a after eq h =
      (All-append_right P before (a ∷ after) (subst (All P) (cons_inj eq).1 h)).1

  reach_bottom :
      (after : List Cell) → All (λ c. 1 ≤ c.height) after → (reach 0 entry_end after).skip_chars ≡ 0
  reach_bottom [] h = refl
  reach_bottom (c ∷ after) (h, _) = let t : ltb 0 c.height ≡ true = ground arith in rw t refl

  pub lower→Low :
      (l : ℕ) (cs : List Cell) → levels ≤ suc l → All (λ c. c.height < levels) cs → Low l cs
  lower→Low l [] le h = tt
  lower→Low l (c ∷ cs) le (h, hs) = (omega arith, lower→Low l cs le hs)

  -- Only the head is as high as the rope.
  start-top :
      (l : ℕ) (before : List Cell) (a : Cell) (after : List Cell)
      → cells ≡ before ++ a ∷ after
      → levels ≡ suc l
      → (start l before a).node ≡ some top.addr
  start-top l [] a after eq high =
      let is_top : top ≡ a = (cons_inj eq).0 in
      let t : ltb l a.height ≡ true = ground (arith, ap (λ (c : Cell). c.height) is_top) in
      rw t (ap (λ (c : Cell). some c.addr) (sym is_top))
  start-top l (b ∷ before) a after eq high =
      let is_top : top ≡ b = (cons_inj eq).0 in
      let low =
        lower→Low l (before ++ a ∷ after) (omega arith)
          (subst (All (λ c. c.height < levels)) (cons_inj eq).1 shape.lower) in
      let f : ltb l a.height ≡ false =
        ground (arith, (All-append_right _ before (a ∷ after) low).0) in
      rw f (
        ap (λ (x : SkipEntry). x.node)
          (behind-tall l entry_end [] b before (omega (arith, ap (λ (c : Cell). c.height) is_top))
            (All-append_left _ before (a ∷ after) low))
        ∙ ap (λ (c : Cell). some c.addr) (sym is_top))

  module _
      (head0 : (l : ℕ)
        → l ≤ max_height
        → (x : SkipEntry) × (get_elem? inner0 l ≡ some x) × (x.node ≡ some top.addr)) where
    Place-of_walk :
        (before : List Cell) (a : Cell) (after : List Cell) (xs ys : List ℕ)
        (inner inner' : List SkipEntry)
        → At 0 before a after (length xs) inner
        → a.text ≡ xs ++ ys
        → Mapped (place_entry before a xs) levels inner inner'
        → Reached cells levels top.addr (length (texts before) + length xs) inner'
    unfolding head_ptr
    Place-of_walk before a after xs ys inner inner' h text_eq m = record {
      place = record {
        before = before;
        here = a;
        after = after;
        xs = xs;
        ys = ys;
        cells_eq = h.cells_eq;
        text_eq = text_eq;
        entries = λ l lt. m.changed l lt ∙ ap some (sym (start_lem l before a xs));
        head_at = head_entry;
        unused = λ l ge le.
            let (x, at, is_head) = head0 l le in (x, m.kept l ge ∙ h.above l ge ∙ at, is_head);
        wide = m.same_length ∙ h.wide;
      };
      at = length-append (texts before) xs;
      stuck = h.stuck;
    }
      where
        head_entry : head_ptr inner' ≡ some top.addr
        head_entry = elim (Bool-cases (ltb max_height levels)) [
          | inl t ↦
              rw (m.changed max_height (ground arith))
                (start-top max_height before a after h.cells_eq (ground (arith, shape.levels_le)))
          | inr f ↦
              let ge : levels ≤ max_height = ground arith in
              let (x, at, is_head) = head0 max_height (omega arith) in
              rw (m.kept max_height ge ∙ h.above max_height ge ∙ at) is_head
        ]

    -- The bottom level, where the pairs up to the place are counted.
    walk_end :
        (before : List Cell) (a : Cell) (after : List Cell) (offset : ℕ) (inner : List SkipEntry)
        (b : GapBuffer) (n : Full size a b)
        → At 0 before a after offset inner
        → offset ≤ length a.text
        → Returns (Reached cells levels top.addr (length (texts before) + offset)) (do
          offset_pairs ← count_surrogate_pairs e size b offset
          pairs' ← add_usize e (pairs (texts before)) offset_pairs
          finished ← finish_pairs e levels pairs' inner
          assert (leb offset size)
          some finished)
    walk_end before a after offset inner b n h le =
        let xs = take offset a.text in
        let len : length xs ≡ offset = length-take offset a.text ∙ omega arith in
        let split : a.text ≡ xs ++ drop offset a.text = sym (take-append-drop offset a.text) in
        let h' = subst (λ k. At 0 before a after k inner) (sym len) h in
        let fits : pairs (texts before) + pairs xs < 2 ^ 63 = omega (
          arith,
          passed-fits before a [] after h.cells_eq,
          count_by-append astral a.text [],
          ap pairs split,
          count_by-append astral xs (drop offset a.text),
        ) in
        let counted =
          count_surrogate_pairs_lem e small b n.before n.after xs (drop offset a.text) n.held
            (sym split ∙ sym n.text_eq) in
        subst
          (λ k. Returns (Reached cells levels top.addr (length (texts before) + k)) (do
            offset_pairs ← count_surrogate_pairs e size b k
            pairs' ← add_usize e (pairs (texts before)) offset_pairs
            finished ← finish_pairs e levels pairs' inner
            assert (leb k size)
            some finished))
          len
          (rw (counted, add_usize_lem e (pairs (texts before)) (pairs xs) (omega arith))
            (Returns-bind (finish_pairs_lem before a after xs inner h' (omega arith)) λ inner' m.
              rw (le→leb (length xs) size (omega (arith, Full-fits size a b n))) (
                returns
                  (Place-of_walk before a after xs (drop offset a.text) inner inner' h' split m))))

    node_at :
        (before : List Cell) (a : Cell) (after : List Cell)
        → cells ≡ before ++ a ∷ after
        → (n : Node) × (r.nodes a.addr ≡ some n) × Full size a n.str
    node_at before a after eq =
        let (h, n) = cell-NodeAt (Full size) r levels top rest before a after shape eq in
        (n.node, n.found, n.held)

    -- The walk from a level, with some fuel.
    abbrev pub Walks : ℕ → ℕ → Type 0
    Walks fuel level =
        (before : List Cell) (a : Cell) (after : List Cell) (offset : ℕ) (inner : List SkipEntry)
        (pos : ℕ)
        → At (suc level) before a after offset inner
        → level < a.height
        → level < levels
        → length after + level < fuel
        → length (texts before) + offset ≡ pos
        → Returns (Reached cells levels top.addr pos)
            (mut_from e size fuel r inner levels a.addr level offset (pairs (texts before)) true)

    module _ (fuel level : ℕ) (walks : Walks fuel level) (before : List Cell) (a : Cell)
        (after : List Cell) (offset : ℕ) (inner : List SkipEntry) (pos : ℕ)
        (h : At (suc level) before a after offset inner) (below : level < levels)
        (enough : length after + level < suc fuel) (at : length (texts before) + offset ≡ pos) where
      abbrev next : SkipEntry
      next = grown a.text (reach level entry_end after)

      abbrev step_code : SkipEntry → Option (List SkipEntry)
      step_code entry = do
        offset' ← sub_usize e offset entry.skip_chars
        pairs' ← add_usize e (pairs (texts before)) entry.skip_pairs
        a' ← entry.node
        mut_from e size fuel r inner levels a' level offset' pairs' true

      step_to :
          (t : FirstTall level after)
          → length (a.text ++ texts t.front) < offset
          → Returns
              (Reached cells levels top.addr pos)
              (step_code (grown (a.text ++ texts t.front) (entry_at t.first.addr)))
      step_to t lt =
          let gone = a.text ++ texts t.front in
          let left = offset - length gone in
          let eq : cells ≡ before ++ a ∷ (t.front ++ t.first ∷ t.back) =
            h.cells_eq ∙ ap (λ cs. before ++ a ∷ cs) t.cells_eq in
          let h' : At (suc level) before a (t.front ++ t.first ∷ t.back) (length gone + left)
              inner =
            subst (λ k. At (suc level) before a (t.front ++ t.first ∷ t.back) k inner)
              (omega (arith, lt))
              (subst (λ cs. At (suc level) before a cs offset inner) t.cells_eq h) in
          let fits = passed-fits before a t.front (t.first ∷ t.back) eq in
          let passed : pairs (texts before) + (pairs gone + 0)
              ≡ pairs (texts (before ++ a ∷ t.front)) =
            omega (
              arith,
              ap pairs (texts-append before (a ∷ t.front)),
              count_by-append astral (texts before) gone,
            ) in
          rw
            (
              sub_usize_lem e offset (length gone + 0) (omega (arith, lt)),
              add_usize_lem e (pairs (texts before)) (pairs gone + 0) (omega (arith, fits)),
            )
            (subst₂
              (λ o p.
                Returns (Reached cells levels top.addr pos)
                  (mut_from e size fuel r inner levels t.first.addr level o p true))
              (omega arith) (sym passed)
              (walks (before ++ a ∷ t.front) t.first t.back left inner pos
                (At-right level before a t.front t.first t.back left inner h' t.low
                  (omega (arith, lt)))
                t.tall below
                (omega
                  (arith, enough, ap length t.cells_eq, length-append t.front (t.first ∷ t.back)))
                (omega (
                  arith,
                  at,
                  lt,
                  ap length (texts-append before (a ∷ t.front)),
                  length-append (texts before) gone,
                ))))

      step : next.skip_chars < offset → Returns (Reached cells levels top.addr pos) (step_code next)
      step lt = elim (first_tall level after) [
        | inl low ↦ absurd (
            omega (
              arith,
              h.inside,
              ap (λ (x : SkipEntry). x.skip_chars) (reach-Low level entry_end after low),
            ))
        | inr t ↦
            let same : next ≡ grown (a.text ++ texts t.front) (entry_at t.first.addr) =
              ap (λ cs. grown a.text (reach level entry_end cs)) t.cells_eq
              ∙ ap (grown a.text) (reach-tall level entry_end t.front t.first t.back t.tall t.low)
              ∙ sym (grown-append a.text (texts t.front) (entry_at t.first.addr)) in
            subst (λ x. Returns (Reached cells levels top.addr pos) (step_code x)) (sym same)
              (step_to t (omega (arith, ap (λ (x : SkipEntry). x.skip_chars) same)))
      ]

    goes_step :
        (offset : ℕ) (entry : SkipEntry)
        → goes_right offset entry.skip_chars true entry ≡ ltb entry.skip_chars offset
    unfolding goes_right
    goes_step offset entry = ground arith

    -- Each step goes to a later cell or a lower level.
    pub walk : (fuel level : ℕ) → Walks fuel level
    unfolding mut_from put_entry
    walk zero level before a after offset inner pos h tall below enough at = absurd (omega arith)
    walk (suc fuel) zero before a after offset inner pos h tall below enough at =
        let (node, found, held) = node_at before a after h.cells_eq in
        let next_eq =
          sym (next_of_node r 0 a.addr node found)
          ∙ At-entry 0 before a after h.cells_eq tall below in
        let entry = grown a.text (reach 0 entry_end after) in
        rw (found, next_eq)
          (Returns-branch (goes_right offset entry.skip_chars true entry)
            (λ t.
              step fuel 0 (walk fuel 0) before a after offset inner pos h below enough at
                (ground (arith, t, goes_step offset entry)))
            (λ f. rw (lt→ltb 0 (length inner) (omega (arith, h.wide))) (
              let low : offset ≤ length a.text = ground (
                arith,
                f,
                goes_step offset entry,
                reach_bottom after
                    (rest-after (λ c. 1 ≤ c.height) before a after h.cells_eq shape.heights_pos),
              ) in
              Returns-mono
                (walk_end before a after offset _ node.str held
                  (At-write 0 before a after offset inner h tall below (omega (arith, low))) low)
                λ inner' reached. record {
                  place = reached.place;
                  at = reached.at ∙ at;
                  stuck = reached.stuck;
                })))
    walk (suc fuel) (suc level) before a after offset inner pos h tall below enough at =
        let (node, found, held) = node_at before a after h.cells_eq in
        let next_eq =
          sym (next_of_node r (suc level) a.addr node found)
          ∙ At-entry (suc level) before a after h.cells_eq tall below in
        let entry = grown a.text (reach (suc level) entry_end after) in
        rw (found, next_eq)
          (Returns-branch (goes_right offset entry.skip_chars true entry)
            (λ t.
              step fuel (suc level) (walk fuel (suc level)) before a after offset inner pos h below
                enough at (ground (arith, t, goes_step offset entry)))
            (λ f.
              rw (lt→ltb (suc level) (length inner) (omega (arith, h.wide, shape.levels_le, below)))
                (walk fuel level before a after offset _ pos
                  (At-write (suc level) before a after offset inner h tall below
                    (ground (arith, f, goes_step offset entry)))
                  (omega arith) (omega arith) (omega arith) at)))
