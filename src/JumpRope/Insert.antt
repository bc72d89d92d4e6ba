-- ===== src/JumpRope/Insert.antt =====
-- Insertion of src/jumprope.rs, from the place of an edit cursor.
use jumprope_rs.Base.{
  ℕ, zero, suc, ◌+◌, ◌-◌, Bool, true, false, not, ◌&&◌, Option, none, some, List, ltb, leb, ◌==◌,
  if◌then◌else◌, length, get_elem?, slice, assert, ◌>>=◌, ◌>>◌, unwrap,
}
use jumprope_rs.Utf8.{is_start, str_slice}
use jumprope_rs.Build.{Build, add_usize, sub_usize, debug_assert}
use jumprope_rs.FastStr.{
  count_chars, count_chars_in_bytes, count_utf16_surrogates, count_utf16_surrogates_in_bytes,
}
use jumprope_rs.GapBuffer.{GapBuffer, move_gap}
use jumprope_rs.GapBuffer.{len_bytes as str_len_bytes}
use jumprope_rs.GapBuffer.Read.{count_bytes, end_as_str}
use jumprope_rs.GapBuffer.Edit.{insert_in_gap, try_insert, take_rest}
use jumprope_rs.JumpRope.{
  Rng, SkipEntry, Node, JumpRope, negated, put_entry, map_entries, put_node, next_at, put_next,
  random_height, new_with_height, first_next, num_chars, num_surrogate_pairs,
}
use jumprope_rs.JumpRope.Cursor.{
  head_height, set_height, update_offsets, move_within_node, here_ptr, local_char_pos,
}

-- The rope with its edit cursor.
pub record Editing (G : Rng) : Type 0 where
  pub rope : JumpRope G
  pub inner : List SkipEntry

module _ (e : Build) (size : ℕ) {G : Rng} where
  -- The head gets `n` more levels, each a copy of its last one.
  unfoldable pub grow_head : ℕ → ℕ → Editing G → Option (Editing G)
  grow_head zero height c = some c
  grow_head (suc n) height c = do
    here ← get_elem? c.inner height
    last ← next_at c.rope here.node (height - 1)
    r ← put_next c.rope here.node height last
    prev ← get_elem? c.inner (height - 1)
    inner ← put_entry c.inner height prev
    r' ← set_height r inner (height + 1)
    grow_head n (height + 1) (record { rope = r'; inner = inner })

  -- The new node goes between the cursor's node and the next one, at `n` levels from `i`.
  unfoldable pub link_node : ℕ → ℕ → ℕ → ℕ → ℕ → Bool → Editing G → Option (Editing G)
  link_node zero i new_node chars pairs update_cursor c = some c
  link_node (suc n) i new_node chars pairs update_cursor c = do
    here ← get_elem? c.inner i
    prev ← next_at c.rope here.node i
    sum_chars ← add_usize e chars prev.skip_chars
    skip_chars ← sub_usize e sum_chars here.skip_chars
    sum_pairs ← add_usize e pairs prev.skip_pairs
    skip_pairs ← sub_usize e sum_pairs here.skip_pairs
    r ←
        put_next c.rope (some new_node) i
          (record { node = prev.node; skip_chars = skip_chars; skip_pairs = skip_pairs })
    r' ← put_next r here.node i (record {
      node = some new_node;
      skip_chars = here.skip_chars;
      skip_pairs = here.skip_pairs;
    })
    inner ←
        if update_cursor
        then put_entry c.inner i
            (record { node = some new_node; skip_chars = chars; skip_pairs = pairs })
        else some c.inner
    link_node n (i + 1) new_node chars pairs update_cursor (record { rope = r'; inner = inner })

  -- The entries that pass over the new node, at `n` levels from `i`.
  unfoldable pub widen_above : ℕ → ℕ → ℕ → ℕ → Bool → Editing G → Option (Editing G)
  widen_above zero i chars pairs update_cursor c = some c
  widen_above (suc n) i chars pairs update_cursor c = do
    here ← get_elem? c.inner i
    entry ← next_at c.rope here.node i
    skip_chars ← add_usize e entry.skip_chars chars
    skip_pairs ← add_usize e entry.skip_pairs pairs
    r ←
        put_next c.rope here.node i
          (record entry { skip_chars = skip_chars; skip_pairs = skip_pairs })
    inner ←
        if update_cursor
        then (do
          here_chars ← add_usize e here.skip_chars chars
          here_pairs ← add_usize e here.skip_pairs pairs
          put_entry c.inner i (record here { skip_chars = here_chars; skip_pairs = here_pairs }))
        else some c.inner
    widen_above n (i + 1) chars pairs update_cursor (record { rope = r; inner = inner })

  unfoldable pub insert_node_at : Editing G → List ℕ → ℕ → Bool → ℕ → Option (Editing G)
  insert_node_at c contents chars update_cursor pairs =
      let (new_height, rng) = random_height G c.rope.rng in
      do
        debug_assert e (count_chars e contents == chars)
        debug_assert e (count_utf16_surrogates e contents == pairs)
        debug_assert e (leb chars size)
        node ← new_with_height e size new_height contents
        let new_node = c.rope.fresh
        let r =
            put_node (record c.rope { rng = rng; fresh = c.rope.fresh + 1 }) new_node (some node)
        height ← head_height r c.inner
        grown ← grow_head (new_height + 1 - height) height (record c { rope = r })
        linked ← link_node new_height 0 new_node chars pairs update_cursor grown
        height' ← head_height linked.rope linked.inner
        widened ← widen_above (height' - new_height) new_height chars pairs update_cursor linked
        num_bytes ← add_usize e widened.rope.num_bytes (length contents)
        some (record widened { rope = record widened.rope { num_bytes = num_bytes } })

-- Back to the start of a character.
unfoldable pub slide_back : List ℕ → ℕ → Option ℕ
slide_back s zero = do b ← get_elem? s 0; if is_start b then some 0 else none
slide_back s (suc i) = do
  b ← get_elem? s (suc i)
  let rest = slide_back s i
  if is_start b then some (suc i) else rest

module _ (e : Build) (size : ℕ) {G : Rng} where
  -- The contents are cut into nodes. The fuel is the number of bytes: no node is empty.
  unfoldable pub insert_nodes : ℕ → Editing G → List ℕ → ℕ → ℕ → Option (Editing G)
  insert_nodes zero c remainder chars pairs = insert_node_at e size c remainder chars true pairs
  insert_nodes (suc fuel) c remainder chars pairs = elim (leb (length remainder) size) [
    | true ↦ insert_node_at e size c remainder chars true pairs
    | false ↦ do
      byte_pos ← slide_back remainder size
      bytes ← slice 0 byte_pos remainder
      let char_pos = count_chars_in_bytes e bytes
      chars_left ← sub_usize e chars char_pos
      let pairs_here = count_utf16_surrogates_in_bytes e bytes
      pairs_left ← sub_usize e pairs pairs_here
      next ← str_slice 0 byte_pos remainder
      rem ← str_slice byte_pos (length remainder) remainder
      assert (not (length next == 0))
      c' ← insert_node_at e size c next char_pos true pairs_here
      insert_nodes fuel c' rem chars_left pairs_left
  ]

  -- The counts of an insert inside one node.
  unfoldable pub inserted_here : Editing G → ℕ → ℕ → ℕ → Option (Editing G)
  inserted_here c bytes chars pairs = do
    height ← head_height c.rope c.inner
    r ← update_offsets c.rope c.inner height chars pairs
    inner ← move_within_node c.inner height chars pairs
    num_bytes ← add_usize e r.num_bytes bytes
    some (record { rope = record r { num_bytes = num_bytes }; inner = inner })

  unfoldable pub put_str : JumpRope G → ℕ → GapBuffer → Option (JumpRope G)
  put_str r a str = do n ← r.nodes a; some (put_node r a (some (record n { str = str })))

  -- The end of the node at `a` is taken off, the contents become new nodes, and so does the end.
  unfoldable pub split_insert : Editing G → ℕ → ℕ → ℕ → List ℕ → ℕ → ℕ → Option (Editing G)
  split_insert c a offset_bytes offset_chars contents chars pairs = do
    height ← head_height c.rope c.inner
    n ← c.rope.nodes a
    str ← move_gap e size n.str offset_bytes
    r ← put_str c.rope a str
    len ← str_len_bytes e size str
    num_end_bytes ← sub_usize e len offset_bytes
    elim (ltb 0 num_end_bytes) [
      | false ↦ insert_nodes (length contents) (record c { rope = r }) contents chars pairs
      | true ↦ do
        all_chars ← num_chars n
        num_end_chars ← sub_usize e all_chars offset_chars
        all_pairs ← num_surrogate_pairs n
        num_end_pairs ← sub_usize e all_pairs str.gap_start_surrogate_pairs
        if e.debug
            then (do
              end ← end_as_str e size str
              assert (num_end_pairs == count_utf16_surrogates e end))
            else some tt
        r' ← update_offsets r c.inner height (negated num_end_chars) (negated num_end_pairs)
        num_bytes ← sub_usize e r'.num_bytes num_end_bytes
        c' ←
            insert_nodes (length contents) (record c { rope = record r' { num_bytes = num_bytes } })
              contents chars pairs
        n' ← c'.rope.nodes a
        (str', end_str) ← take_rest e size n'.str
        r'' ← put_str c'.rope a str'
        insert_node_at e size (record c' { rope = r'' }) end_str num_end_chars false num_end_pairs
    ]

  -- The next node, if the place is at the end of this one and there is room there.
  unfoldable pub next_with_room : Editing G → Node → ℕ → ℕ → ℕ → Option (Option ℕ)
  next_with_room c n offset_bytes len bytes = if not (offset_bytes == len) then some none else do
    next ← first_next n
    elim next.node [
      | none ↦ some none
      | some a ↦ do
        m ← c.rope.nodes a
        len' ← str_len_bytes e size m.str
        some (if leb (len' + bytes) size then some a else none)
    ]

  -- The cursor moves to the start of the node at `a`.
  unfoldable pub move_to_node : Editing G → ℕ → Option (Editing G)
  move_to_node c a = do
    m ← c.rope.nodes a
    inner ←
        map_entries (λ _. some (record { node = some a; skip_chars = 0; skip_pairs = 0 })) m.height
          c.inner
    some (record c { inner = inner })

  unfoldable pub insert_in_node : Editing G → ℕ → ℕ → List ℕ → ℕ → ℕ → Option (Editing G)
  insert_in_node c a offset_bytes contents chars pairs = do
    n ← c.rope.nodes a
    result ← try_insert e size n.str offset_bytes contents
    str ← unwrap result
    r ← put_str c.rope a str
    inserted_here (record c { rope = r }) (length contents) chars pairs

  -- Past the short cut: in this node, in the next one, or in new ones.
  unfoldable pub insert_slow : Editing G → ℕ → Node → ℕ → List ℕ → ℕ → ℕ → Option (Editing G)
  insert_slow c a n offset_chars contents chars pairs = do
    offset_bytes ←
        if ltb 0 offset_chars
        then (do
          all_chars ← num_chars n
          assert (leb offset_chars all_chars)
          count_bytes e size n.str offset_chars)
        else some 0
    len ← str_len_bytes e size n.str
    done ← elim (leb (len + length contents) size) [
      | true ↦ insert_in_node c a offset_bytes contents chars pairs
      | false ↦ do
        room ← next_with_room c n offset_bytes len (length contents)
        elim room [
          | some next ↦ do
            moved ← move_to_node c next
            insert_in_node moved next 0 contents chars pairs
          | none ↦ split_insert c a offset_bytes offset_chars contents chars pairs
        ]
    ]
    pos ← local_char_pos done.inner
    assert (not (pos == 0))
    some done

  unfoldable pub insert_at_cursor : Editing G → List ℕ → Option (Editing G)
  insert_at_cursor c contents = if length contents == 0 then some c else do
    offset_chars ← local_char_pos c.inner
    a ← here_ptr c.inner
    n ← c.rope.nodes a
    let chars = count_chars e contents
    let pairs = if not (length contents == chars) then count_utf16_surrogates e contents else 0
    if n.str.gap_start_chars == offset_chars && leb (length contents) n.str.gap_len
        then (do
          str ← insert_in_gap e size n.str contents
          r ← put_str c.rope a str
          inserted_here (record c { rope = r }) (length contents) chars pairs)
        else insert_slow c a n offset_chars contents chars pairs
