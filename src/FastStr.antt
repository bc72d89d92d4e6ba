-- ===== src/FastStr.antt =====
-- src/fast_str_tools.rs and src/utils.rs: counting and finding characters in UTF-8. Most of it is
-- deferred to the crate `str_indices`, which is a parameter here; under Miri (`cfg!(miri)`) the file
-- has loops of its own. A function that subtracts from a `usize` may panic.
pub mod Laws
pub mod Naive
pub mod Back
pub mod Utf16
use jumprope_rs.Base.{
  ℕ, zero, suc, ◌+◌, ◌≤◌, ◌≡◌, Bool, true, false, ◌&&◌, Option, none, some, List, [], ◌∷◌, min, ltb,
  leb, ◌==◌, if◌then◌else◌, count_by, length, slice, ◌>>=◌, ◌-◌,
}
use mathlib.Core.List.{reverse}
use jumprope_rs.Utf8.{is_start, is_wide, is_newline, chars, len_utf16, str_slice}
use jumprope_rs.Build.{Build, sub_usize}

module _ (e : Build) where
  -- Without `str_indices`: a text of at most one byte is its own count.
  unfoldable pub count_chars_in_bytes : List ℕ → ℕ
  unfolding is_start
  count_chars_in_bytes text =
      if leb (length text) 1
      then length text
      else if e.miri
      then count_by is_start text
      else e.chars_count text

  unfoldable pub count_chars : List ℕ → ℕ
  unfolding count_chars_in_bytes
  count_chars text = count_chars_in_bytes text

  unfoldable pub byte_to_char_idx : List ℕ → ℕ → Option ℕ
  unfolding count_chars_in_bytes sub_usize slice
  byte_to_char_idx text byte_idx = do
    head ← slice 0 (min (byte_idx + 1) (length text)) text
    let count = count_chars_in_bytes head
    if ltb byte_idx (length text) then sub_usize e count 1 else some count

-- The loop of the naive `char_to_byte_idx`, over the bytes that are left: where it stops, and the
-- characters that it has begun.
unfoldable pub scan_chars : ℕ → List ℕ → ℕ → ℕ → ℕ × ℕ
scan_chars char_idx [] i char_count = (i, char_count)
scan_chars char_idx (b ∷ bs) i char_count =
    let rest = scan_chars char_idx bs (i + 1) (if is_start b then char_count + 1 else char_count) in
    if leb char_count char_idx then rest else (i, char_count)

module _ (e : Build) where
  unfoldable pub char_to_byte_idx : List ℕ → ℕ → Option ℕ
  unfolding scan_chars sub_usize is_start
  char_to_byte_idx text char_idx =
      if e.miri
      then (let (byte_count, char_count) = scan_chars char_idx text 0 0 in
          if byte_count == length text && leb char_count char_idx
          then some byte_count
          else sub_usize e byte_count 1)
      else some (e.chars_to_byte_idx text char_idx)

  unfoldable pub count_utf16_surrogates_in_bytes : List ℕ → ℕ
  unfolding is_wide
  count_utf16_surrogates_in_bytes text =
      if e.miri then count_by is_wide text else e.utf16_count_surrogates text

  unfoldable pub count_utf16_surrogates : List ℕ → ℕ
  unfolding count_utf16_surrogates_in_bytes
  count_utf16_surrogates text = count_utf16_surrogates_in_bytes text

  unfoldable pub byte_to_utf16_surrogate_idx : List ℕ → ℕ → Option ℕ
  unfolding count_utf16_surrogates str_slice
  byte_to_utf16_surrogate_idx text byte_idx = do
    head ← str_slice 0 byte_idx text
    some (count_utf16_surrogates head)

-- The loop over the characters: the counts of characters and of UTF-16 units where it stops.
unfoldable pub scan_utf16 : ℕ → List ℕ → ℕ → ℕ → ℕ × ℕ
scan_utf16 utf16_idx [] char_i utf16_i = (char_i, utf16_i)
scan_utf16 utf16_idx (c ∷ cs) char_i utf16_i =
    let rest = scan_utf16 utf16_idx cs (char_i + 1) (utf16_i + len_utf16 c) in
    if leb utf16_idx utf16_i then (char_i, utf16_i) else rest

module _ (e : Build) where
  unfoldable pub utf16_code_unit_to_char_idx : List ℕ → ℕ → Option ℕ
  unfolding scan_utf16 sub_usize chars
  utf16_code_unit_to_char_idx text utf16_idx =
      let (char_i, utf16_i) = scan_utf16 utf16_idx (chars text) 0 0 in
      if ltb utf16_idx utf16_i then sub_usize e char_i 1 else some char_i

  -- src/utils.rs
  unfoldable pub str_chars_to_bytes : List ℕ → ℕ → Option ℕ
  unfolding char_to_byte_idx
  str_chars_to_bytes s char_pos = char_to_byte_idx e s char_pos

-- The loop of `str_chars_to_bytes_rev`, over the bytes from the end. The characters that remain are
-- at least one, so that their count cannot fall below 0.
unfoldable pub scan_back : List ℕ → ℕ → ℕ → Option ℕ
scan_back [] chars_remaining i = none
scan_back (b ∷ bs) chars_remaining i =
    let next = scan_back bs (if is_start b then chars_remaining - 1 else chars_remaining) (i + 1) in
    if is_start b && chars_remaining == 1 then some (i + 1) else next

unfoldable pub str_chars_to_bytes_rev : List ℕ → ℕ → Option ℕ
unfolding scan_back is_start
str_chars_to_bytes_rev s char_len =
    if char_len == 0 then some 0 else scan_back (reverse s) char_len 0

unfoldable pub count_lines : List ℕ → ℕ
count_lines s = count_by is_newline s
