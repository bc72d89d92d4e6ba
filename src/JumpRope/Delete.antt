-- ===== src/JumpRope/Delete.antt =====
-- Deletion of src/jumprope.rs, from the place of an edit cursor.
use jumprope_rs.Base.{
  ℕ, zero, suc, ◌+◌, ◌-◌, true, false, not, ◌||◌, Option, none, some, List, min, ltb, ◌==◌,
  if◌then◌else◌, get_elem?, assert, ◌>>=◌, ◌>>◌,
}
use jumprope_rs.Build.{Build, add_usize, sub_usize}
use jumprope_rs.GapBuffer.{len_bytes as str_len_bytes}
use jumprope_rs.GapBuffer.Read.{count_surrogate_pairs}
use jumprope_rs.GapBuffer.Edit.{remove_chars}
use jumprope_rs.JumpRope.{
  Rng, SkipEntry, Node, JumpRope, map_entries, deref, put_node, next_at, put_next, first_next,
  num_chars,
}
use jumprope_rs.JumpRope.Cursor.{head_height, is_head, same_ptr, here_ptr, local_char_pos}

module _ (e : Build) where
  -- Less characters and pairs under an entry.
  unfoldable pub shorten : ℕ → ℕ → SkipEntry → Option SkipEntry
  shorten chars pairs entry = do
    skip_chars ← sub_usize e entry.skip_chars chars
    skip_pairs ← sub_usize e entry.skip_pairs pairs
    some (record entry { skip_chars = skip_chars; skip_pairs = skip_pairs })

module _ (e : Build) (size : ℕ) {G : Rng} where
  -- The entries that pass over the node, at `n` levels from `i`.
  unfoldable pub shorten_above : ℕ → ℕ → JumpRope G → List SkipEntry → ℕ → ℕ → Option (JumpRope G)
  shorten_above zero i r inner chars pairs = some r
  shorten_above (suc n) i r inner chars pairs = do
    here ← get_elem? inner i
    entry ← next_at r here.node i
    entry' ← shorten e chars pairs entry
    r' ← put_next r here.node i entry'
    shorten_above n (i + 1) r' inner chars pairs

  -- The entries that point to the node `gone` go on to where it points, at `n` levels from `i`.
  unfoldable pub unlink_node :
      ℕ → ℕ → JumpRope G → List SkipEntry → Node → ℕ → ℕ → Option (JumpRope G)
  unlink_node zero i r inner gone chars pairs = some r
  unlink_node (suc n) i r inner gone chars pairs = do
    here ← get_elem? inner i
    prev ← deref r here.node
    assert (ltb i prev.height)
    entry ← next_at r here.node i
    next ← get_elem? gone.nexts i
    rest ← shorten e chars pairs next
    skip_chars ← add_usize e entry.skip_chars rest.skip_chars
    skip_pairs ← add_usize e entry.skip_pairs rest.skip_pairs
    r' ←
        put_next r here.node i
          (record { node = next.node; skip_chars = skip_chars; skip_pairs = skip_pairs })
    unlink_node n (i + 1) r' inner gone chars pairs

  -- The node keeps some characters.
  unfoldable pub trim_node : JumpRope G → ℕ → Node → ℕ → ℕ → ℕ → Option (JumpRope G)
  trim_node r a n offset_chars removed removed_pairs = do
    (str, removed_bytes) ← remove_chars e size n.str offset_chars removed
    num_bytes ← sub_usize e r.num_bytes removed_bytes
    nexts ← map_entries (shorten e removed removed_pairs) n.height n.nexts
    some (record (put_node r a (some (record n { str = str; nexts = nexts }))) {
      num_bytes = num_bytes;
    })

  -- The node loses all its characters, and is freed.
  unfoldable pub remove_node : JumpRope G → List SkipEntry → ℕ → Node → ℕ → ℕ → Option (JumpRope G)
  remove_node r inner a n removed removed_pairs = do
    assert (not (same_ptr (here_ptr inner) (some a)))
    r' ← unlink_node n.height 0 r inner n removed removed_pairs
    len ← str_len_bytes e size n.str
    num_bytes ← sub_usize e r'.num_bytes len
    some (record (put_node r' a none) { num_bytes = num_bytes })

  -- The loop, which takes at least one character a time; so many are fuel enough.
  unfoldable pub del_from : ℕ → JumpRope G → List SkipEntry → Option ℕ → ℕ → ℕ → Option (JumpRope G)
  del_from zero r inner p offset_chars length = if length == 0 then some r else none
  del_from (suc fuel) r inner p offset_chars length = elim (length == 0) [
    | true ↦ some r
    | false ↦ do
      first ← deref r p
      next ← first_next first
      let at_end = offset_chars == next.skip_chars
      let offset = if at_end then 0 else offset_chars
      a ← if at_end then next.node else p
      n ← r.nodes a
      chars ← num_chars n
      rest ← sub_usize e chars offset
      let removed = min length rest
      assert (ltb 0 removed)
      pairs_to ← count_surrogate_pairs e size n.str (offset + removed)
      pairs_from ← count_surrogate_pairs e size n.str offset
      removed_pairs ← sub_usize e pairs_to pairs_from
      after ← first_next n
      let trims = ltb removed chars || is_head inner (some a)
      r' ←
          if trims
          then trim_node r a n offset removed removed_pairs
          else remove_node r inner a n removed removed_pairs
      levels ← head_height r' inner
      r'' ← shorten_above (levels - n.height) n.height r' inner removed removed_pairs
      del_from fuel r'' inner (if trims then some a else after.node) offset (length - removed)
  ]

  unfoldable pub del_at_cursor : JumpRope G → List SkipEntry → ℕ → Option (JumpRope G)
  del_at_cursor r inner length = if length == 0 then some r else do
    offset_chars ← local_char_pos inner
    del_from length r inner (here_ptr inner) offset_chars length
