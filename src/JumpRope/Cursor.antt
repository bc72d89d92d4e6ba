-- ===== src/JumpRope/Cursor.antt =====
-- The cursors of src/jumprope.rs. An edit cursor is the list `inner`, of one entry a level: the node
-- that points past the place, and how far the place is from the start of that node. The loops that
-- walk right and down run on fuel: each step goes to a later node or a lower level.
use jumprope_rs.Base.{
  ℕ, zero, suc, ◌+◌, ◌-◌, Bool, true, false, not, ◌&&◌, ◌||◌, Option, none, some, List, ltb, leb,
  ◌==◌, if◌then◌else◌, get_elem?, replicate, assert, ◌>>=◌, ◌>>◌,
}
use jumprope_rs.Build.{Build, add_usize, sub_usize}
use jumprope_rs.GapBuffer.Read.{count_surrogate_pairs, count_chars_in_wchars}
use jumprope_rs.JumpRope.{
  Rng, SkipEntry, JumpRope, max_height, wrapping_add, put_entry, map_entries, deref, put_node,
  next_at, put_next, len_chars, len_wchars,
}

abbrev pub is_null : Option ℕ → Bool
is_null none = true
is_null (some a) = false

abbrev pub same_ptr : Option ℕ → Option ℕ → Bool
same_ptr (some a) (some b) = a == b
same_ptr none none = true
same_ptr _ _ = false

-- The head, through the last entry of the cursor.
unfoldable pub head_ptr : List SkipEntry → Option ℕ
head_ptr inner = do entry ← get_elem? inner max_height; entry.node

unfoldable pub is_head : List SkipEntry → Option ℕ → Bool
is_head inner p = same_ptr p (head_ptr inner)

unfoldable pub move_within_node : List SkipEntry → ℕ → ℕ → ℕ → Option (List SkipEntry)
move_within_node inner height by_chars by_pairs =
    map_entries
      (λ entry. some (record entry {
        skip_chars = wrapping_add entry.skip_chars by_chars;
        skip_pairs = wrapping_add entry.skip_pairs by_pairs;
      }))
      height inner

unfoldable pub here_ptr : List SkipEntry → Option ℕ
here_ptr inner = do entry ← get_elem? inner 0; entry.node

unfoldable pub local_char_pos : List SkipEntry → Option ℕ
local_char_pos inner = do entry ← get_elem? inner 0; some entry.skip_chars

module _ {G : Rng} where
  unfoldable pub head_height : JumpRope G → List SkipEntry → Option ℕ
  head_height r inner = do h ← deref r (head_ptr inner); some h.height

  unfoldable pub set_height : JumpRope G → List SkipEntry → ℕ → Option (JumpRope G)
  set_height r inner new_height = do
    a ← head_ptr inner
    h ← r.nodes a
    some (put_node r a (some (record h { height = new_height })))

  -- The loop over the levels from `i`, of which `n` are left.
  unfoldable pub update_offsets_from :
      ℕ → ℕ → JumpRope G → List SkipEntry → ℕ → ℕ → Option (JumpRope G)
  update_offsets_from zero i r inner by_chars by_pairs = some r
  update_offsets_from (suc n) i r inner by_chars by_pairs = do
    here ← get_elem? inner i
    entry ← next_at r here.node i
    r' ← put_next r here.node i (record entry {
      skip_chars = wrapping_add entry.skip_chars by_chars;
      skip_pairs = wrapping_add entry.skip_pairs by_pairs;
    })
    update_offsets_from n (i + 1) r' inner by_chars by_pairs

  unfoldable pub update_offsets : JumpRope G → List SkipEntry → ℕ → ℕ → ℕ → Option (JumpRope G)
  update_offsets r inner height by_chars by_pairs =
      update_offsets_from height 0 r inner by_chars by_pairs

  unfoldable pub global_char_pos : JumpRope G → List SkipEntry → Option ℕ
  global_char_pos r inner = do
    height ← head_height r inner
    assert (leb 1 height)
    entry ← get_elem? inner (height - 1)
    some entry.skip_chars

  unfoldable pub wchar_pos : Build → JumpRope G → List SkipEntry → Option ℕ
  wchar_pos e r inner = do
    height ← head_height r inner
    assert (leb 1 height)
    entry ← get_elem? inner (height - 1)
    add_usize e entry.skip_chars entry.skip_pairs

pub record ReadCursor : Type 0 where
  pub node : ℕ
  pub offset_chars : ℕ
  pub global_pairs : ℕ

-- A step to the right, over an entry.
unfoldable pub goes_right : ℕ → ℕ → Bool → SkipEntry → Bool
goes_right offset skip stick_end next =
    ltb skip offset || (not stick_end && (offset == skip && not (is_null next.node)))

module _ (e : Build) where
  -- The pairs before the place, from the start of each level's node.
  unfoldable pub finish_pairs : ℕ → ℕ → List SkipEntry → Option (List SkipEntry)
  finish_pairs levels pairs inner =
      if ltb 0 pairs
      then map_entries
          (λ entry. do
            skip ← sub_usize e pairs entry.skip_pairs
            some (record entry { skip_pairs = skip }))
          levels inner
      else some inner

  -- The places at the levels, in characters and pairs from the start of each level's node.
  unfoldable pub finish_chars : ℕ → ℕ → List SkipEntry → Option (List SkipEntry)
  finish_chars levels char_pos inner =
      map_entries
        (λ entry. do
          chars ← sub_usize e char_pos entry.skip_chars
          pairs ← sub_usize e entry.skip_pairs chars
          some (record entry { skip_chars = chars; skip_pairs = pairs }))
        levels inner

module _ (e : Build) (size : ℕ) {G : Rng} where
  -- Enough fuel to visit each node at each level.
  abbrev pub walk_fuel : JumpRope G → ℕ
  walk_fuel r = r.fresh + max_height + 1

  unfoldable pub read_from : ℕ → JumpRope G → ℕ → ℕ → ℕ → ℕ → Bool → Option ReadCursor
  read_from zero r a height offset pairs stick_end = none
  read_from (suc fuel) r a height offset pairs stick_end = do
    en ← r.nodes a
    next ← get_elem? en.nexts height
    elim (goes_right offset next.skip_chars stick_end next) [
      | true ↦ do
        offset' ← sub_usize e offset next.skip_chars
        pairs' ← add_usize e pairs next.skip_pairs
        a' ← next.node
        read_from fuel r a' height offset' pairs' stick_end
      | false ↦ elim height [
        | suc lower ↦ read_from fuel r a lower offset pairs stick_end
        | zero ↦ do
          offset_pairs ← count_surrogate_pairs e size en.str offset
          pairs' ← add_usize e pairs offset_pairs
          some (record { node = a; offset_chars = offset; global_pairs = pairs' })
      ]
    ]

  unfoldable pub read_cursor_at_char : JumpRope G → ℕ → Bool → Option ReadCursor
  read_cursor_at_char r char_pos stick_end = do
    len ← len_chars r
    assert (leb char_pos len)
    h ← r.nodes r.head
    read_from (walk_fuel r) r r.head (h.height - 1) char_pos 0 stick_end

  unfoldable pub cursor_at_start : JumpRope G → List SkipEntry
  cursor_at_start r =
      replicate (max_height + 1) (record { node = some r.head; skip_chars = 0; skip_pairs = 0 })

  unfoldable pub mut_from :
      ℕ → JumpRope G → List SkipEntry → ℕ → ℕ → ℕ → ℕ → ℕ → Bool → Option (List SkipEntry)
  mut_from zero r inner levels a height offset pairs stick_end = none
  mut_from (suc fuel) r inner levels a height offset pairs stick_end = do
    en ← r.nodes a
    next ← get_elem? en.nexts height
    elim (goes_right offset next.skip_chars stick_end next) [
      | true ↦ do
        offset' ← sub_usize e offset next.skip_chars
        pairs' ← add_usize e pairs next.skip_pairs
        a' ← next.node
        mut_from fuel r inner levels a' height offset' pairs' stick_end
      | false ↦ do
        inner' ←
            put_entry inner height
              (record { node = some a; skip_chars = offset; skip_pairs = pairs })
        elim height [
          | suc lower ↦ mut_from fuel r inner' levels a lower offset pairs stick_end
          | zero ↦ do
            offset_pairs ← count_surrogate_pairs e size en.str offset
            pairs' ← add_usize e pairs offset_pairs
            finished ← finish_pairs e levels pairs' inner'
            assert (leb offset size)
            some finished
        ]
    ]

  unfoldable pub mut_cursor_at_char : JumpRope G → ℕ → Bool → Option (List SkipEntry)
  mut_cursor_at_char r char_pos stick_end = do
    len ← len_chars r
    assert (leb char_pos len)
    h ← r.nodes r.head
    mut_from (walk_fuel r) r (cursor_at_start r) h.height r.head (h.height - 1) char_pos 0 stick_end

  unfoldable pub count_chars_from : ℕ → JumpRope G → ℕ → ℕ → ℕ → ℕ → Option ℕ
  count_chars_from zero r a height offset char_pos = none
  count_chars_from (suc fuel) r a height offset char_pos = do
    en ← r.nodes a
    next ← get_elem? en.nexts height
    skip ← add_usize e next.skip_chars next.skip_pairs
    elim (ltb skip offset) [
      | true ↦ do
        offset' ← sub_usize e offset skip
        char_pos' ← add_usize e char_pos next.skip_chars
        a' ← next.node
        count_chars_from fuel r a' height offset' char_pos'
      | false ↦ elim height [
        | suc lower ↦ count_chars_from fuel r a lower offset char_pos
        | zero ↦ do chars ← count_chars_in_wchars e size en.str offset; add_usize e char_pos chars
      ]
    ]

  unfoldable pub count_chars_at_wchar : JumpRope G → ℕ → Option ℕ
  count_chars_at_wchar r wchar_pos = do
    len ← len_wchars e r
    assert (leb wchar_pos len)
    h ← r.nodes r.head
    count_chars_from (walk_fuel r) r r.head (h.height - 1) wchar_pos 0

  unfoldable pub mut_wchar_from :
      ℕ → JumpRope G → List SkipEntry → ℕ → ℕ → ℕ → ℕ → ℕ → Bool → Option (List SkipEntry)
  mut_wchar_from zero r inner levels a height offset char_pos stick_end = none
  mut_wchar_from (suc fuel) r inner levels a height offset char_pos stick_end = do
    en ← r.nodes a
    next ← get_elem? en.nexts height
    skip ← add_usize e next.skip_chars next.skip_pairs
    elim (goes_right offset skip stick_end next) [
      | true ↦ do
        offset' ← sub_usize e offset skip
        char_pos' ← add_usize e char_pos next.skip_chars
        a' ← next.node
        mut_wchar_from fuel r inner levels a' height offset' char_pos' stick_end
      | false ↦ do
        inner' ←
            put_entry inner height
              (record { node = some a; skip_chars = char_pos; skip_pairs = offset })
        elim height [
          | suc lower ↦ mut_wchar_from fuel r inner' levels a lower offset char_pos stick_end
          | zero ↦ do
            chars ← count_chars_in_wchars e size en.str offset
            char_pos' ← add_usize e char_pos chars
            finished ← finish_chars e levels char_pos' inner'
            assert (leb offset size)
            some finished
        ]
    ]

  unfoldable pub mut_cursor_at_wchar : JumpRope G → ℕ → Bool → Option (List SkipEntry)
  mut_cursor_at_wchar r wchar_pos stick_end = do
    len ← len_wchars e r
    assert (leb wchar_pos len)
    h ← r.nodes r.head
    mut_wchar_from (walk_fuel r) r (cursor_at_start r) h.height r.head (h.height - 1) wchar_pos 0
        stick_end

  unfoldable pub mut_cursor_at_end : JumpRope G → Option (List SkipEntry)
  mut_cursor_at_end r = do len ← len_chars r; mut_cursor_at_char r len true
