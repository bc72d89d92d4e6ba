-- ===== src/GapBuffer/Edit.antt =====
-- The methods of src/gapbuffer.rs that change the text of a buffer.
use jumprope_rs.Base.{
  ℕ, ◌+◌, false, not, ◌&&◌, Option, some, List, min, ltb, leb, ◌==◌, if◌then◌else◌, length, slice,
  write_at, assert, ◌>>=◌, ◌>>◌, Result, ok, err, unwrap,
}
use jumprope_rs.Build.{Build, sub_usize, sub_u16, add_u16, as_u16}
use jumprope_rs.FastStr.{
  count_chars, count_utf16_surrogates, count_utf16_surrogates_in_bytes, count_lines,
}
use jumprope_rs.GapBuffer.{
  GapBuffer, fill, slice_to_str, int_str_get_byte_offset, int_chars_to_bytes_backwards, new,
  len_bytes, move_gap,
}
use jumprope_rs.GapBuffer.Read.{start_as_str, end_as_str}

module _ (e : Build) (len : ℕ) where
  -- The text goes to the start of the gap.
  unfoldable pub insert_in_gap : GapBuffer → List ℕ → Option GapBuffer
  insert_in_gap b s =
      let char_len = count_chars e s in
      let wide = not (length s == char_len) in
      do
        assert (leb (length s) b.gap_len)
        bytes ← write_at b.gap_start_bytes s b.bytes
        start ← add_u16 e b.gap_start_bytes (as_u16 (length s))
        chars ← add_u16 e b.gap_start_chars (as_u16 char_len)
        gap_len ← sub_u16 e b.gap_len (as_u16 (length s))
        pairs ←
            if wide
            then add_u16 e b.gap_start_surrogate_pairs (as_u16 (count_utf16_surrogates e s))
            else some b.gap_start_surrogate_pairs
        lines ← add_u16 e b.gap_start_lines (as_u16 (count_lines s))
        some (record {
          bytes = bytes;
          gap_start_bytes = start;
          gap_start_chars = chars;
          gap_start_surrogate_pairs = pairs;
          gap_start_lines = lines;
          gap_len = gap_len;
          all_ascii = if wide then false else b.all_ascii;
        })

  unfoldable pub try_insert : GapBuffer → ℕ → List ℕ → Option (Result GapBuffer)
  try_insert b byte_pos s = if ltb b.gap_len (length s) then some err else do
    moved ← move_gap e len b byte_pos
    inserted ← insert_in_gap moved s
    some (ok inserted)

  unfoldable pub new_from_str : List ℕ → Option GapBuffer
  new_from_str s = do result ← try_insert (new e len) 0 s; unwrap result

  -- The bytes behind the gap join it.
  unfoldable pub remove_after_gap : GapBuffer → ℕ → Option GapBuffer
  remove_after_gap b del_bytes = do
    bytes ←
        if e.debug
        then (do end ← add_u16 e b.gap_start_bytes b.gap_len; fill end (end + del_bytes) b.bytes)
        else some b.bytes
    gap_len ← add_u16 e b.gap_len (as_u16 del_bytes)
    some (record b { bytes = bytes; gap_len = gap_len })

  -- The new buffer, and the bytes that it lost.
  unfoldable pub remove : GapBuffer → ℕ → ℕ → Option (GapBuffer × ℕ)
  remove b pos del_len = do
    bytes ← len_bytes e len b
    if leb bytes pos then some (b, 0) else do
      most ← sub_usize e bytes pos
      moved ← move_gap e len b pos
      removed ← remove_after_gap moved (min del_len most)
      some (removed, min del_len most)

  -- The part of `remove_chars` that takes the characters between `pos` and the gap, which it widens
  -- to the left.
  unfoldable pub remove_before_gap : GapBuffer → ℕ → Option (GapBuffer × ℕ)
  remove_before_gap b pos = do
    s ← start_as_str e len b
    chars ← sub_usize e b.gap_start_chars pos
    rm_start_bytes ← int_chars_to_bytes_backwards e b s chars
    from ← sub_usize e b.gap_start_bytes rm_start_bytes
    removed ← slice from b.gap_start_bytes b.bytes
    pairs ←
        if b.all_ascii
        then some b.gap_start_surrogate_pairs
        else sub_u16 e b.gap_start_surrogate_pairs
            (as_u16 (count_utf16_surrogates_in_bytes e removed))
    lines ← sub_u16 e b.gap_start_lines (as_u16 (count_lines removed))
    gap_len ← add_u16 e b.gap_len (as_u16 rm_start_bytes)
    start ← sub_u16 e b.gap_start_bytes (as_u16 rm_start_bytes)
    some (
      record b {
        gap_start_surrogate_pairs = pairs;
        gap_start_lines = lines;
        gap_len = gap_len;
        gap_start_chars = as_u16 pos;
        gap_start_bytes = start;
      },
      rm_start_bytes,
    )

  -- The end of `remove_chars`: the gap is directly after `pos`.
  unfoldable pub remove_chars_after_gap : GapBuffer → ℕ → ℕ → Option (GapBuffer × ℕ)
  remove_chars_after_gap b del_len rm_start_bytes = do
    s ← end_as_str e len b
    rm_end_bytes ← int_str_get_byte_offset e b s del_len
    removed ← remove_after_gap b rm_end_bytes
    some (removed, rm_start_bytes + rm_end_bytes)

  -- The range of `remove_chars` touches the gap.
  unfoldable pub remove_chars_at_gap : GapBuffer → ℕ → ℕ → Option (GapBuffer × ℕ)
  remove_chars_at_gap b pos del_len =
      if ltb pos b.gap_start_chars
      then (do
        (trimmed, rm_start_bytes) ← remove_before_gap b pos
        before ← sub_usize e b.gap_start_chars pos
        rest ← sub_usize e del_len before
        if rest == 0
            then some (trimmed, as_u16 rm_start_bytes)
            else remove_chars_after_gap trimmed rest rm_start_bytes)
      else remove_chars_after_gap b del_len 0

  -- The range of `remove_chars` is apart from the gap, which is moved to `pos`.
  unfoldable pub remove_chars_apart : GapBuffer → ℕ → ℕ → Option (GapBuffer × ℕ)
  remove_chars_apart b pos del_len = do
    gap_bytes ←
        if ltb pos b.gap_start_chars
        then (do s ← start_as_str e len b; int_str_get_byte_offset e b s pos)
        else (do
          s ← end_as_str e len b
          rest ← sub_usize e pos b.gap_start_chars
          offset ← int_str_get_byte_offset e b s rest
          some (offset + b.gap_start_bytes))
    moved ← move_gap e len b gap_bytes
    remove_chars_after_gap moved del_len 0

  -- `debug_assert!(del_len <= self.len_bytes() - pos)`
  unfoldable pub check_del_len : GapBuffer → ℕ → ℕ → Option (Unit {0})
  check_del_len b pos del_len =
      if e.debug
      then (do bytes ← len_bytes e len b; most ← sub_usize e bytes pos; assert (leb del_len most))
      else some tt

  unfoldable pub remove_chars : GapBuffer → ℕ → ℕ → Option (GapBuffer × ℕ)
  remove_chars b pos del_len = if del_len == 0 then some (b, 0) else do
    check_del_len b pos del_len
    if leb pos b.gap_start_chars && leb b.gap_start_chars (pos + del_len)
        then remove_chars_at_gap b pos del_len
        else remove_chars_apart b pos del_len

  -- The text behind the gap, which the gap takes in.
  unfoldable pub take_rest : GapBuffer → Option (GapBuffer × List ℕ)
  take_rest b = do
    last_idx ← add_u16 e b.gap_start_bytes b.gap_len
    gap_len ← sub_u16 e (as_u16 len) b.gap_start_bytes
    arr ← slice last_idx len b.bytes
    s ← slice_to_str e arr
    some (record b { gap_len = gap_len }, s)
