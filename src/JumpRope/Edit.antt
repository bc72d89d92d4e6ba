-- ===== src/JumpRope/Edit.antt =====
-- The public edits and counts of src/jumprope.rs, in characters and in UTF-16 units.
use jumprope_rs.Base.{
  ℕ, ◌+◌, ◌-◌, true, not, Option, some, List, min, ltb, leb, ◌==◌, if◌then◌else◌, length, assert,
  ◌>>=◌, ◌>>◌,
}
use jumprope_rs.Build.{Build, add_usize, sub_usize}
use jumprope_rs.FastStr.{count_chars, count_utf16_surrogates}
use jumprope_rs.JumpRope.{Rng, JumpRope, len_chars, len_wchars, is_ascii_only, new_from_seed}
use jumprope_rs.JumpRope.Cursor.{
  mut_cursor_at_char, mut_cursor_at_wchar, read_cursor_at_char, count_chars_at_wchar,
  global_char_pos, wchar_pos,
}
use jumprope_rs.JumpRope.Insert.{Editing, insert_at_cursor}
use jumprope_rs.JumpRope.Delete.{del_at_cursor}

module _ (e : Build) (size : ℕ) {G : Rng} where
  -- `debug_assert_eq!(cursor.global_char_pos(), ..)`
  unfoldable pub check_char_pos : Editing G → ℕ → Option (Unit {0})
  check_char_pos c expected =
      if e.debug
      then (do pos ← global_char_pos c.rope c.inner; assert (pos == expected))
      else some tt

  unfoldable pub check_wchar_pos : Editing G → ℕ → Option (Unit {0})
  check_wchar_pos c expected =
      if e.debug then (do pos ← wchar_pos e c.rope c.inner; assert (pos == expected)) else some tt

  unfoldable pub insert : JumpRope G → ℕ → List ℕ → Option (JumpRope G)
  insert r pos contents = if length contents == 0 then some r else do
    len ← len_chars r
    let at = min pos len
    inner ← mut_cursor_at_char e size r at true
    done ← insert_at_cursor e size (record { rope = r; inner = inner }) contents
    check_char_pos done (at + count_chars e contents)
    some done.rope

  unfoldable pub remove : JumpRope G → ℕ → ℕ → Option (JumpRope G)
  remove r start end = do
    len ← len_chars r
    let last = min end len
    if leb last start then some r else do
      inner ← mut_cursor_at_char e size r start true
      r' ← del_at_cursor e size r inner (last - start)
      check_char_pos (record { rope = r'; inner = inner }) start
      some r'

  unfoldable pub replace : JumpRope G → ℕ → ℕ → List ℕ → Option (JumpRope G)
  replace r start end content = do
    len ← len_chars r
    let pos = min start len
    del_len ← sub_usize e (min end len) pos
    inner ← mut_cursor_at_char e size r pos true
    r' ← if ltb 0 del_len then del_at_cursor e size r inner del_len else some r
    let c : Editing G = record { rope = r'; inner = inner }
    done ← if not (length content == 0) then insert_at_cursor e size c content else some c
    check_char_pos done (pos + count_chars e content)
    some done.rope

  unfoldable pub new_from_str : ℕ → List ℕ → Option (JumpRope G)
  new_from_str seed s = do r ← new_from_seed e size G seed; insert r 0 s

  unfoldable pub chars_to_wchars : JumpRope G → ℕ → Option ℕ
  chars_to_wchars r chars = do
    ascii ← is_ascii_only r
    if ascii then some chars else do
      cursor ← read_cursor_at_char e size r chars true
      add_usize e cursor.global_pairs chars

  unfoldable pub wchars_to_chars : JumpRope G → ℕ → Option ℕ
  wchars_to_chars r wchars = do
    ascii ← is_ascii_only r
    if ascii then some wchars else count_chars_at_wchar e size r wchars

  unfoldable pub insert_at_wchar : JumpRope G → ℕ → List ℕ → Option (JumpRope G × ℕ)
  insert_at_wchar r pos_wchar contents = do
    len ← len_wchars e r
    let at = min pos_wchar len
    inner ← mut_cursor_at_wchar e size r at true
    done ← insert_at_cursor e size (record { rope = r; inner = inner }) contents
    check_wchar_pos done (at + count_chars e contents + count_utf16_surrogates e contents)
    pos ← global_char_pos done.rope done.inner
    some (done.rope, pos)

  unfoldable pub remove_at_wchar : JumpRope G → ℕ → ℕ → Option (JumpRope G)
  remove_at_wchar r start end = do
    len ← len_wchars e r
    let last = min end len
    if leb last start then some r else do
      char_end ← wchars_to_chars r last
      inner ← mut_cursor_at_wchar e size r start true
      char_start ← global_char_pos r inner
      del_len ← sub_usize e char_end char_start
      r' ← del_at_cursor e size r inner del_len
      check_wchar_pos (record { rope = r'; inner = inner }) start
      some r'

  unfoldable pub replace_at_wchar : JumpRope G → ℕ → ℕ → List ℕ → Option (JumpRope G)
  replace_at_wchar r start end content = do
    r' ← if ltb start end then remove_at_wchar r start end else some r
    if length content == 0
        then some r'
        else do (r'', pos) ← insert_at_wchar r' start content; some r''
