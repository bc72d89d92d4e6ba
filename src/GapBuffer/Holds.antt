-- ===== src/GapBuffer/Holds.antt =====
-- What a gap buffer stands for: a text before the gap and one behind it.
use jumprope_rs.Base.{
  ℕ, ◌+◌, ◌^◌, ◌<◌, ◌≡◌, refl, sym, ◌∙◌, true, some, List, [], ◌++◌, arith, ap, length,
  length-append, length-replicate, replicate, All, count_by, slice-append, slice-last, zero,
  append_assoc, append-nil,
}
use jumprope_rs.Utf8.{IsScalar, encode, pairs, is_newline}
use jumprope_rs.Utf8.Laws.{IsAscii, is_utf8-encode}
use jumprope_rs.Build.{Build, add_u16_lem, sub_usize_lem}
use jumprope_rs.GapBuffer.{GapBuffer, slice_to_str, new, len_bytes}
use jumprope_rs.GapBuffer.Read.{start_as_str, end_as_str}

-- `b` has `len` bytes, and holds the characters `before` and `after` round its gap.
pub record Holds (len : ℕ) (b : GapBuffer) (before after : List ℕ) : Type 0 where
  pub gap : List ℕ
  pub bytes_eq : b.bytes ≡ encode before ++ (gap ++ encode after)
  pub gap_len_eq : length gap ≡ b.gap_len
  pub start_bytes : b.gap_start_bytes ≡ length (encode before)
  pub start_chars : b.gap_start_chars ≡ length before
  pub start_pairs : b.gap_start_surrogate_pairs ≡ pairs before
  pub start_lines : b.gap_start_lines ≡ count_by is_newline before
  pub full : length (encode before) + b.gap_len + length (encode after) ≡ len
  pub scalars_before : All IsScalar before
  pub scalars_after : All IsScalar after
  pub ascii_before : b.all_ascii ≡ true → All IsAscii before
  pub ascii_after : b.all_ascii ≡ true → All IsAscii after

pub slice_to_str-encode :
    (e : Build) (cs : List ℕ) → All IsScalar cs → slice_to_str e (encode cs) ≡ some (encode cs)
unfolding slice_to_str
slice_to_str-encode e cs h = ground (arith, is_utf8-encode cs h)

module _ (e : Build) {len : ℕ} (small : len < 2 ^ 16) {b : GapBuffer} {before after : List ℕ}
    (h : Holds len b before after) where
  -- In a debug build too, where the text is checked to be UTF-8.
  pub start_as_str_lem : start_as_str e len b ≡ some (encode before)
  unfolding start_as_str
  start_as_str_lem =
      rw
        (
          h.bytes_eq,
          slice-append 0 b.gap_start_bytes [] (encode before) (h.gap ++ encode after) refl
              (omega (arith, h)),
        )
        (slice_to_str-encode e before h.scalars_before)

  pub end_as_str_lem : end_as_str e len b ≡ some (encode after)
  unfolding end_as_str
  end_as_str_lem =
      rw
        (
          add_u16_lem e b.gap_start_bytes b.gap_len (omega arith),
          h.bytes_eq,
          ← append_assoc (encode before) h.gap (encode after),
          slice-last (b.gap_start_bytes + b.gap_len) len (encode before ++ h.gap) (encode after)
              (omega (arith, length-append (encode before) h.gap))
              (omega (arith, length-append (encode before) h.gap)),
        )
        (slice_to_str-encode e after h.scalars_after)

  pub len_bytes_lem : len_bytes e len b ≡ some (length (encode before) + length (encode after))
  unfolding len_bytes
  len_bytes_lem = sub_usize_lem e len b.gap_len (omega arith) ∙ ap some (omega arith)

pub new-Holds : (e : Build) {len : ℕ} → len < 2 ^ 16 → Holds len (new e len) [] []
unfolding new encode
new-Holds e {len} small = record {
  gap = replicate len 0;
  bytes_eq = sym (append-nil (replicate len 0));
  gap_len_eq = omega (arith, length-replicate len (zero));
  start_bytes = refl;
  start_chars = refl;
  start_pairs = refl;
  start_lines = refl;
  full = omega arith;
  scalars_before = tt;
  scalars_after = tt;
  ascii_before = λ _. tt;
  ascii_after = λ _. tt;
}
