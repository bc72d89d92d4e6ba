-- ===== src/GapBuffer.antt =====
-- src/gapbuffer.rs: the text of one node, an array of `len` bytes with a gap in it. `none` is a
-- panic. The features `wchar_conversion` and `line_conversion` are both on. The field `data` is
-- called `bytes` here. `Read` has the methods that read a buffer, `Edit` those that change its text.
pub mod Read
pub mod Edit
pub mod Holds
pub mod Copy
pub mod Shift
pub mod Move
pub mod Insert
pub mod Remove
pub mod Trim
pub mod Cut
pub mod RemoveChars
pub mod Counts
pub mod Whole
use jumprope_rs.Base.{
  ℕ, ◌+◌, ◌-◌, ◌≤◌, ◌≡◌, Bool, true, false, not, ◌&&◌, Option, none, some, List, [], ◌∷◌, ◌++◌, min,
  ltb, leb, ◌==◌, if◌then◌else◌, length, replicate, slice, write_at, assert, ◌>>=◌, ◌>>◌, Result,
  ok, err, unwrap, ap,
}
use native.Mathlib.Decide.{ℕ_discrete}
use jumprope_rs.Utf8.{is_utf8}
use jumprope_rs.Build.{Build, sub_usize, sub_u16, add_u16, as_u16, debug_assert}
use jumprope_rs.FastStr.{
  count_chars, count_utf16_surrogates, count_utf16_surrogates_in_bytes, char_to_byte_idx,
  utf16_code_unit_to_char_idx, str_chars_to_bytes_rev, count_lines,
}

pub record GapBuffer : Type 0 where
  pub bytes : List ℕ
  pub gap_start_bytes : ℕ
  pub gap_start_chars : ℕ
  pub gap_start_surrogate_pairs : ℕ
  pub gap_start_lines : ℕ
  pub gap_len : ℕ
  pub all_ascii : Bool

-- `data[lo..hi].fill(0)`
unfoldable pub fill : ℕ → ℕ → List ℕ → Option (List ℕ)
fill lo hi bytes = do old ← slice lo hi bytes; write_at lo (replicate (length old) 0) bytes

-- `data.copy_within(lo..hi, dest)`
unfoldable pub copy_within : ℕ → ℕ → ℕ → List ℕ → Option (List ℕ)
copy_within lo hi dest bytes = do moved ← slice lo hi bytes; write_at dest moved bytes

module _ (e : Build) where
  unfoldable pub slice_to_str : List ℕ → Option (List ℕ)
  slice_to_str arr = if e.debug then (if is_utf8 arr then some arr else none) else some arr

  -- Text of the buffer is counted by its bytes as long as all of it is ASCII.
  unfoldable pub count_internal_chars : GapBuffer → List ℕ → ℕ
  count_internal_chars b s = if b.all_ascii then length s else count_chars e s

  unfoldable pub int_count_surrogate_pairs : GapBuffer → List ℕ → ℕ
  int_count_surrogate_pairs b s = if b.all_ascii then 0 else count_utf16_surrogates e s

  unfoldable pub int_str_get_byte_offset : GapBuffer → List ℕ → ℕ → Option ℕ
  int_str_get_byte_offset b s char_pos =
      if b.all_ascii then some char_pos else char_to_byte_idx e s char_pos

  unfoldable pub int_chars_to_bytes_backwards : GapBuffer → List ℕ → ℕ → Option ℕ
  int_chars_to_bytes_backwards b s char_len =
      if b.all_ascii then some char_len else str_chars_to_bytes_rev s char_len

module _ (e : Build) (len : ℕ) where
  unfoldable pub new : GapBuffer
  new = record {
    bytes = replicate len 0;
    gap_start_bytes = 0;
    gap_start_chars = 0;
    gap_start_surrogate_pairs = 0;
    gap_start_lines = 0;
    gap_len = as_u16 len;
    all_ascii = true;
  }

  unfoldable pub len_bytes : GapBuffer → Option ℕ
  len_bytes b = sub_usize e len b.gap_len

  unfoldable pub is_empty : GapBuffer → Bool
  is_empty b = b.gap_len == len

  -- The text moves to the right, the gap to the left.
  unfoldable pub move_gap_left : GapBuffer → ℕ → Option GapBuffer
  move_gap_left b new_start = do
    arr ← slice new_start b.gap_start_bytes b.bytes
    s ← slice_to_str e arr
    pairs ← sub_u16 e b.gap_start_surrogate_pairs (as_u16 (int_count_surrogate_pairs e b s))
    lines ← sub_u16 e b.gap_start_lines (as_u16 (count_lines s))
    chars ← sub_u16 e b.gap_start_chars (as_u16 (count_internal_chars e b s))
    bytes ← copy_within new_start b.gap_start_bytes (new_start + b.gap_len) b.bytes
    some (record b {
      bytes = bytes;
      gap_start_surrogate_pairs = pairs;
      gap_start_lines = lines;
      gap_start_chars = chars;
    })

  unfoldable pub move_gap_right : GapBuffer → ℕ → Option GapBuffer
  move_gap_right b new_start = do
    arr ← slice (b.gap_start_bytes + b.gap_len) (new_start + b.gap_len) b.bytes
    s ← slice_to_str e arr
    pairs ← add_u16 e b.gap_start_surrogate_pairs (as_u16 (int_count_surrogate_pairs e b s))
    lines ← add_u16 e b.gap_start_lines (as_u16 (count_lines s))
    chars ← add_u16 e b.gap_start_chars (as_u16 (count_internal_chars e b s))
    bytes ←
        copy_within (b.gap_start_bytes + b.gap_len) (new_start + b.gap_len) b.gap_start_bytes
          b.bytes
    some (record b {
      bytes = bytes;
      gap_start_surrogate_pairs = pairs;
      gap_start_lines = lines;
      gap_start_chars = chars;
    })

  -- `debug_assert!(new_start_bytes <= LEN-len)`
  unfoldable pub check_new_start : GapBuffer → ℕ → Option (Unit {0})
  check_new_start b new_start =
      if e.debug
      then (do last ← sub_usize e len b.gap_len; assert (leb new_start last))
      else some tt

  -- A debug build clears the gap.
  unfoldable pub clear_gap : ℕ → GapBuffer → Option GapBuffer
  clear_gap new_start b =
      if e.debug
      then (do
        bytes ← fill new_start (new_start + b.gap_len) b.bytes
        some (record b { bytes = bytes }))
      else some b

  unfoldable pub move_gap : GapBuffer → ℕ → Option GapBuffer
  move_gap b new_start = if new_start == b.gap_start_bytes then some b else do
    check_new_start b new_start
    moved ←
        if ltb new_start b.gap_start_bytes
        then move_gap_left b new_start
        else move_gap_right b new_start
    cleared ← clear_gap new_start moved
    some (record cleared { gap_start_bytes = as_u16 new_start })
