-- ===== src/GapBuffer/Read.antt =====
-- The methods of src/gapbuffer.rs that read a buffer.
use jumprope_rs.Base.{
  ℕ, ◌+◌, Bool, false, not, ◌&&◌, Option, some, List, ◌++◌, ltb, ◌==◌, if◌then◌else◌, slice, assert,
  ◌>>=◌, ◌>>◌, list_eq,
}
use jumprope_rs.Build.{Build, sub_usize, add_u16}
use jumprope_rs.FastStr.{
  count_chars, count_utf16_surrogates, count_utf16_surrogates_in_bytes, utf16_code_unit_to_char_idx,
  count_lines,
}
use jumprope_rs.GapBuffer.{GapBuffer, slice_to_str, int_str_get_byte_offset}

module _ (e : Build) (len : ℕ) where
  unfoldable pub start_as_str : GapBuffer → Option (List ℕ)
  start_as_str b = do arr ← slice 0 b.gap_start_bytes b.bytes; slice_to_str e arr

  unfoldable pub end_as_str : GapBuffer → Option (List ℕ)
  end_as_str b = do
    from ← add_u16 e b.gap_start_bytes b.gap_len
    arr ← slice from len b.bytes
    slice_to_str e arr

  -- The byte offset of a character, the gap left out.
  unfoldable pub count_bytes : GapBuffer → ℕ → Option ℕ
  count_bytes b char_pos =
      if b.all_ascii
      then some char_pos
      else if char_pos == b.gap_start_chars
      then some b.gap_start_bytes
      else if ltb char_pos b.gap_start_chars
      then (do s ← start_as_str b; int_str_get_byte_offset e b s char_pos)
      else (do
        s ← end_as_str b
        rest ← sub_usize e char_pos b.gap_start_chars
        offset ← int_str_get_byte_offset e b s rest
        some (b.gap_start_bytes + offset))

  unfoldable pub count_chars_in_wchars : GapBuffer → ℕ → Option ℕ
  count_chars_in_wchars b wchar_pos =
      let gap_wchars = b.gap_start_chars + b.gap_start_surrogate_pairs in
      if b.all_ascii
      then some wchar_pos
      else if wchar_pos == gap_wchars
      then some b.gap_start_chars
      else if ltb wchar_pos gap_wchars
      then if b.gap_start_surrogate_pairs == 0
        then some wchar_pos
        else (do s ← start_as_str b; utf16_code_unit_to_char_idx e s wchar_pos)
      else (do
        s ← end_as_str b
        rest ← sub_usize e wchar_pos gap_wchars
        chars ← utf16_code_unit_to_char_idx e s rest
        some (b.gap_start_chars + chars))

  unfoldable pub count_surrogate_pairs : GapBuffer → ℕ → Option ℕ
  count_surrogate_pairs b char_pos =
      if b.all_ascii
      then some 0
      else if char_pos == b.gap_start_chars
      then some b.gap_start_surrogate_pairs
      else if ltb char_pos b.gap_start_chars
      then if b.gap_start_surrogate_pairs == 0 then some 0 else (do
        s ← start_as_str b
        offset ← int_str_get_byte_offset e b s char_pos
        head ← slice 0 offset b.bytes
        some (count_utf16_surrogates_in_bytes e head))
      else (do
        s ← end_as_str b
        rest ← sub_usize e char_pos b.gap_start_chars
        offset ← int_str_get_byte_offset e b s rest
        base ← add_u16 e b.gap_start_bytes b.gap_len
        head ← slice base (base + offset) b.bytes
        some (b.gap_start_surrogate_pairs + count_utf16_surrogates_in_bytes e head))

  -- The assertions of `check`.
  unfoldable pub check : GapBuffer → Option (Unit {0})
  check b = do
    s ← start_as_str b
    assert (count_chars e s == b.gap_start_chars)
    assert (count_utf16_surrogates e s == b.gap_start_surrogate_pairs)
    assert (count_lines s == b.gap_start_lines)
    if b.all_ascii
        then assert (b.gap_start_bytes == b.gap_start_chars && b.gap_start_surrogate_pairs == 0)
        else some tt

  unfoldable pub to_string : GapBuffer → Option (List ℕ)
  to_string b = do start ← start_as_str b; end ← end_as_str b; some (start ++ end)

  -- The three sections of two buffers, the one whose gap comes first being `a`.
  unfoldable pub eq_sections : GapBuffer → GapBuffer → Option Bool
  eq_sections a b = do
    a_head ← slice 0 a.gap_start_bytes a.bytes
    b_head ← slice 0 a.gap_start_bytes b.bytes
    if not (list_eq a_head b_head) then some false else do
      a_gappy ← slice (a.gap_start_bytes + a.gap_len) (b.gap_start_bytes + a.gap_len) a.bytes
      b_gappy ← slice a.gap_start_bytes b.gap_start_bytes b.bytes
      if not (list_eq a_gappy b_gappy) then some false else do
        a_last ← slice (b.gap_start_bytes + a.gap_len) len a.bytes
        b_last ← slice (b.gap_start_bytes + a.gap_len) len b.bytes
        some (list_eq a_last b_last)

  -- `eq`, which ignores where the gaps are.
  unfoldable pub eq : GapBuffer → GapBuffer → Option Bool
  eq this other =
      if not (this.gap_len == other.gap_len)
      then some false
      else if ltb this.gap_start_bytes other.gap_start_bytes
      then eq_sections this other
      else eq_sections other this
