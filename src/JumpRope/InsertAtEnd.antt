-- ===== src/JumpRope/InsertAtEnd.antt =====
-- `insert_at_cursor` of src/jumprope.rs where no node is split: at the gap, in a node with room, and
-- behind the last node.
use jumprope_rs.Base.{
  ℕ, ◌&&◌, ◌+◌, ◌^◌, ◌≤◌, ◌<◌, ◌≡◌, refl, sym, ap, ap₂, ◌∙◌, inl, inr, some, none, true, false, not,
  List, [], ◌∷◌, ◌++◌, arith, ltb, leb, ◌==◌, if◌then◌else◌, Bool-cases, length, length-append,
  append_assoc, append_cancel, All, Returns, returns, Returns-bind, Returns-mono, Returns-branch,
  ◌-◌, Option, assert, ◌>>=◌, ◌>>◌, le→leb,
}
use jumprope_rs.Utf8.{IsScalar, encode, pairs, Fits}
use jumprope_rs.Utf8.Laws.{length-le-encode, IsAscii-of_encode, pairs_ascii}
use jumprope_rs.Build.{Build, sub_usize_lem}
use jumprope_rs.FastStr.{count_utf16_surrogates}
use jumprope_rs.FastStr.Laws.{count_chars-encode, count_utf16_surrogates-encode}
use jumprope_rs.GapBuffer.{len_bytes as str_len_bytes}
use jumprope_rs.GapBuffer.Insert.{insert_in_gap_lem}
use jumprope_rs.GapBuffer.Move.{move_gap_lem}
use jumprope_rs.GapBuffer.Counts.{count_bytes_lem}
use jumprope_rs.GapBuffer.Holds.{len_bytes_lem}
use jumprope_rs.GapBuffer.Shift.{length-encode-append}
use jumprope_rs.GapBuffer.Edit.{insert_in_gap}
use jumprope_rs.GapBuffer.Read.{count_bytes}
use jumprope_rs.JumpRope.{Rng, num_chars}
use jumprope_rs.JumpRope.Cells.{reach, entry_end}
use jumprope_rs.JumpRope.Store.{put_node-StrPut}
use jumprope_rs.JumpRope.Shape.{NodeAt, Full}
use jumprope_rs.JumpRope.Cursor.{local_char_pos}
use jumprope_rs.JumpRope.Insert.{
  Editing, insert_at_cursor, insert_slow, inserted_here, put_str, next_with_room, split_insert,
}
use jumprope_rs.JumpRope.Stands.{Stands, here-NodeAt, head_height_lem}
use jumprope_rs.JumpRope.InNode.{insert_in_node_lem, put_in_node}
use jumprope_rs.JumpRope.AtCursor.{here_ptr_lem, local_char_pos_lem, first_next_lem, regap-IsRope}
use jumprope_rs.JumpRope.InsertNodes.{insert_nodes_lem}

-- The cursor stands behind `front`, and not at the start of its node.
abbrev pub StandsBehind : ℕ → {G : Rng} → List ℕ → List ℕ → Editing G → Type 0
StandsBehind size front back c =
    (xs : List ℕ) × (0 < length xs) × Stands (Full size) front xs back c

-- The pairs that the code counts only if some character takes more than a byte.
pairs_counted :
    (e : Build) (cs : List ℕ)
    → All IsScalar cs
    → (if not (length (encode cs) == length cs) then count_utf16_surrogates e (encode cs) else 0)
      ≡ pairs cs
pairs_counted e cs s = elim (Bool-cases (not (length (encode cs) == length cs))) [
  | inl w ↦ rw w (count_utf16_surrogates-encode e cs s)
  | inr n ↦ rw n (sym (pairs_ascii cs (IsAscii-of_encode cs (ground (arith, n)))))
]

-- The check that closes an insertion.
behind_check :
    (size : ℕ) {G : Rng} (front back : List ℕ) (m : Option (Editing G))
    → Returns (StandsBehind size front back) m
    → Returns
        (StandsBehind size front back)
        (do done ← m; pos ← local_char_pos done.inner; assert (not (pos == 0)); some done)
behind_check size front back m h = Returns-bind h λ done (xs, pos, st).
    let xs_eq = ap length st.spot.xs_eq in
    let not_zero : (length st.spot.place.xs == 0) ≡ false = ground (arith, xs_eq, pos) in
    rw
      (
        local_char_pos_lem (Full size) done.rope st.levels st.top st.rest st.shape done.inner
            st.spot.place,
        not_zero,
      )
      (returns (xs, pos, st))

module _ (e : Build) (size : ℕ) (small : size < 2 ^ 16) {G : Rng} (c : Editing G)
    (front xs back cs : List ℕ) (st : Stands (Full size) front xs back c)
    (scalars : All IsScalar cs) (some_text : 0 < length cs)
    (fits : Fits (front ++ (cs ++ back))) where
  open st.spot use {place}

  -- The gap is at the cursor and has room.
  at_gap :
      (h : ℕ) (n : NodeAt (Full size) c.rope h place.here)
      → n.node.str.gap_start_chars ≡ length place.xs
      → length (encode cs) ≤ n.node.str.gap_len
      → Returns (StandsBehind size (front ++ cs) back) (do
        str ← insert_in_gap e size n.node.str (encode cs)
        r ← put_str e size c.rope place.here.addr str
        inserted_here e size
            (record { rope = r; inner = c.inner })
            (length (encode cs))
            (length cs)
            (pairs cs))
  unfolding put_str
  at_gap h n at room =
      let held = n.held in
      let (b, a) =
        append_cancel held.before held.after place.xs place.ys (sym held.held.start_chars ∙ at)
          (sym place.text_eq ∙ sym held.text_eq) in
      Returns-bind
        (insert_in_gap_lem e small n.node.str held.before cs held.after held.held scalars room)
        λ str (holds, _). rw n.found (
          Returns-mono
            (put_in_node e size small c front xs back cs st scalars some_text fits h n str (record {
              before = held.before ++ cs;
              after = held.after;
              held = holds;
              text_eq =
                  append_assoc held.before cs held.after
                  ∙ ap₂ (λ x y. x ++ (cs ++ y)) (sym b) (sym a);
            }))
            λ c' s. (xs ++ cs, omega (arith, length-append xs cs), s))

  offset_found :
      (h : ℕ) (n : NodeAt (Full size) c.rope h place.here)
      → (if ltb 0 (length place.xs)
          then (do
            all_chars ← num_chars n.node
            assert (leb (length place.xs) all_chars)
            count_bytes e size n.node.str (length place.xs))
          else some 0)
        ≡ some (length (encode place.xs))
  unfolding num_chars
  offset_found h n = elim (Bool-cases (ltb 0 (length place.xs))) [
    | inl t ↦
        let inside : leb (length place.xs)
              (length place.here.text + (reach 0 entry_end place.after).skip_chars)
            ≡ true =
          le→leb _ _ (omega (arith, ap length place.text_eq, length-append place.xs place.ys)) in
        rw
          (
            t,
            first_next_lem (Full size) c.rope st.levels st.top st.rest st.shape c.inner place h n,
            inside,
          )
          (count_bytes_lem e small n.node.str n.held.before n.held.after place.xs place.ys
            n.held.held (sym place.text_eq ∙ sym n.held.text_eq))
    | inr f ↦ rw (f, no_chars place.xs (ground (arith, f))) (unfold encode in refl)
  ]
    where
      no_chars : (x : List ℕ) → length x ≡ 0 → x ≡ []
      no_chars [] e = refl
      no_chars (x ∷ xs) e = absurd (omega arith)

  text_bytes :
      (h : ℕ) (n : NodeAt (Full size) c.rope h place.here)
      → str_len_bytes e size n.node.str ≡ some (length (encode place.here.text))
  text_bytes h n =
      len_bytes_lem e small n.held.held
      ∙ ap some (
          sym (length-encode-append n.held.before n.held.after)
          ∙ ap (λ x. length (encode x)) n.held.text_eq)

  insert_at_cursor-by :
      ((h : ℕ) (n : NodeAt (Full size) c.rope h place.here)
        → Returns (StandsBehind size (front ++ cs) back) (
            insert_slow e size c place.here.addr n.node
              (length place.xs)
              (encode cs)
              (length cs)
              (pairs cs)))
      → Returns (StandsBehind size (front ++ cs) back) (insert_at_cursor e size c (encode cs))
  unfolding insert_at_cursor
  insert_at_cursor-by slow =
      let (h, n) = here-NodeAt (Full size) c.rope st.levels st.top st.rest st.shape c.inner place in
      let not_empty : (length (encode cs) == 0) ≡ false =
        ground (arith, length-le-encode cs, some_text) in
      rw
        (
          not_empty,
          local_char_pos_lem (Full size) c.rope st.levels st.top st.rest st.shape c.inner place,
          here_ptr_lem (Full size) c.rope st.levels st.top st.rest st.shape c.inner place,
          n.found,
          count_chars-encode e cs scalars,
          pairs_counted e cs scalars,
        )
        (elim (Bool-cases (
          n.node.str.gap_start_chars == length place.xs
          && leb (length (encode cs)) n.node.str.gap_len)) [
            | inl t ↦ rw t (at_gap h n (ground (arith, t)) (ground (arith, t)))
            | inr f ↦ rw f (slow h n)
          ])

  -- The node has room, at the gap or not.
  pub insert_at_cursor-room :
      length (encode place.here.text) + length (encode cs) ≤ size
      → Returns (StandsBehind size (front ++ cs) back) (insert_at_cursor e size c (encode cs))
  unfolding insert_slow
  insert_at_cursor-room room = insert_at_cursor-by λ h n.
      rw (offset_found h n, text_bytes h n)
        (behind_check size (front ++ cs) back _ (
          Returns-branch (leb (length (encode place.here.text) + length (encode cs)) size)
            (λ t.
              Returns-mono
                (insert_in_node_lem e size small c front xs back cs st scalars some_text fits
                  place.here.addr refl room)
                λ c' s. (xs ++ cs, omega (arith, length-append xs cs), s))
            (λ f. absurd (ground (arith, f, room)))))

module _ (e : Build) (size : ℕ) (small : size < 2 ^ 16) (big : 4 ≤ size) {G : Rng} (c : Editing G)
    (front xs back cs : List ℕ) (st : Stands (Full size) front xs back c)
    (scalars : All IsScalar cs) (some_text : 0 < length cs) (fits : Fits (front ++ (cs ++ back)))
    (ends : st.spot.place.ys ≡ []) where
  open st.spot use {place}

  -- At the end of a node nothing is left to split off.
  split_insert-end :
      (h : ℕ) (n : NodeAt (Full size) c.rope h place.here)
      → Returns (StandsBehind size (front ++ cs) back) (
          split_insert e size c place.here.addr
            (length (encode place.xs))
            (length place.xs)
            (encode cs)
            (length cs)
            (pairs cs))
  unfolding split_insert put_str
  split_insert-end h n =
      let held = n.held in
      let top_at = st.shape.top_at in
      rw
        (
          head_height_lem (Full size) c.rope st.levels st.top st.rest st.shape c.inner place c.rope
              (record {
                node = top_at.node;
                found = top_at.found;
                height_eq = top_at.height_eq;
                wide = top_at.wide;
                held = tt;
              }),
          n.found,
        )
        (Returns-bind
          (move_gap_lem e small n.node.str held.before held.after place.xs place.ys held.held
            (sym place.text_eq ∙ sym held.text_eq))
          λ str (holds, _, _).
            let none_left : length (encode place.ys) ≡ 0 =
              ap (λ x. length (encode x)) ends ∙ unfold encode in refl in
            rw
              (
                len_bytes_lem e small holds,
                sub_usize_lem e (length (encode place.xs) + length (encode place.ys))
                    (length (encode place.xs)) (omega arith),
              )
              (Returns-branch
                (ltb 0
                  (length (encode place.xs) + length (encode place.ys) - length (encode place.xs)))
                (λ t. absurd (ground (arith, none_left, t)))
                λ f.
                  Returns-mono
                    (insert_nodes_lem e size small big back (length (encode cs)) _ front xs cs
                      (record {
                        levels = st.levels;
                        top = st.top;
                        rest = st.rest;
                        shape =
                            regap-IsRope size c.rope st.levels st.top st.rest st.shape c.inner place
                              h n str _
                              (record {
                                before = place.xs;
                                after = place.ys;
                                held = holds;
                                text_eq = sym place.text_eq;
                              })
                              (put_node-StrPut c.rope place.here.addr n.node str n.found);
                        spot = st.spot;
                      })
                      ends scalars some_text (omega arith) fits)
                    λ c' s. (s.xs, s.some_xs, s.stands)))

  module _ (last : place.after ≡ []) where
    no_next :
        (h : ℕ) (n : NodeAt (Full size) c.rope h place.here) (offset len bytes : ℕ)
        → next_with_room e size c n.node offset len bytes ≡ some none
    unfolding next_with_room
    no_next h n offset len bytes = elim (Bool-cases (offset == len)) [
      | inl t ↦
          rw
            (
              t,
              first_next_lem (Full size) c.rope st.levels st.top st.rest st.shape c.inner place h n,
              last,
            )
            refl
      | inr f ↦ rw f refl
    ]

    insert_slow-end :
        (h : ℕ) (n : NodeAt (Full size) c.rope h place.here)
        → Returns (StandsBehind size (front ++ cs) back) (
            insert_slow e size c place.here.addr n.node
              (length place.xs)
              (encode cs)
              (length cs)
              (pairs cs))
    unfolding insert_slow
    insert_slow-end h n =
        rw
          (
            offset_found e size small c front xs back cs st scalars some_text fits h n,
            text_bytes e size small c front xs back cs st scalars some_text fits h n,
          )
          (behind_check size (front ++ cs) back _ (
            Returns-branch (leb (length (encode place.here.text) + length (encode cs)) size)
              (λ t.
                Returns-mono
                  (insert_in_node_lem e size small c front xs back cs st scalars some_text fits
                    place.here.addr refl (ground (arith, t)))
                  λ c' s. (xs ++ cs, omega (arith, length-append xs cs), s))
              (λ f.
                rw
                  (no_next h n (length (encode place.xs)) (length (encode place.here.text))
                    (length (encode cs)))
                  (split_insert-end h n))))

    pub insert_at_cursor-last :
        Returns (StandsBehind size (front ++ cs) back) (insert_at_cursor e size c (encode cs))
    insert_at_cursor-last =
        insert_at_cursor-by e size small c front xs back cs st scalars some_text fits
          insert_slow-end
