-- ===== src/GapBuffer/Trim.antt =====
-- `remove_before_gap`: the characters before the gap join it.
use jumprope_rs.Base.{
  ℕ, ◌+◌, ◌-◌, ◌^◌, ◌%◌, ◌<◌, ◌≡◌, refl, sym, ◌∙◌, inl, inr, true, some, List, ◌++◌, arith, ap,
  length, length-append, All, All-append_left, All-append_right, count_by, count_by-append, slice,
  slice-append, take-append, if◌then◌else◌, append_assoc, Bool-cases,
}
use jumprope_rs.Utf8.{IsScalar, encode, pairs, astral, is_newline}
use jumprope_rs.Utf8.Laws.{IsAscii, encode-append, length-encode_ascii, pairs_ascii}
use jumprope_rs.Build.{Build, add_u16_count, sub_u16, sub_u16_count, sub_usize_lem}
use jumprope_rs.FastStr.{count_utf16_surrogates_in_bytes}
use jumprope_rs.FastStr.Laws.{
  count_utf16_surrogates_in_bytes-encode, count_lines-encode, char_to_byte_idx-encode,
}
use jumprope_rs.FastStr.Back.{str_chars_to_bytes_rev-encode}
use jumprope_rs.GapBuffer.{GapBuffer, int_str_get_byte_offset, int_chars_to_bytes_backwards}
use jumprope_rs.GapBuffer.Edit.{remove_before_gap}
use jumprope_rs.GapBuffer.Holds.{Holds, start_as_str_lem}
use jumprope_rs.GapBuffer.Shift.{Counts, counts_lem, length-encode-append}

-- What the count of bytes of some characters is, in a buffer that may be known to be ASCII.
module _ (e : Build) (b : GapBuffer) where
  pub byte_offset-encode :
      (xs ys : List ℕ)
      → All IsScalar (xs ++ ys)
      → (b.all_ascii ≡ true → All IsAscii (xs ++ ys))
      → int_str_get_byte_offset e b (encode (xs ++ ys)) (length xs) ≡ some (length (encode xs))
  unfolding int_str_get_byte_offset
  byte_offset-encode xs ys s a = elim (Bool-cases b.all_ascii) [
    | inl t ↦ rw t (ap some (sym (length-encode_ascii xs (All-append_left IsAscii xs ys (a t)))))
    | inr f ↦ rw f (
        char_to_byte_idx-encode e (xs ++ ys) (length xs) s
        ∙ ap (λ t. some (length (encode t))) (take-append (length xs) xs ys refl))
  ]

  bytes_backwards-encode :
      (xs m : List ℕ)
      → All IsScalar m
      → (b.all_ascii ≡ true → All IsAscii m)
      → int_chars_to_bytes_backwards e b (encode (xs ++ m)) (length m) ≡ some (length (encode m))
  unfolding int_chars_to_bytes_backwards
  bytes_backwards-encode xs m s a = elim (Bool-cases b.all_ascii) [
    | inl t ↦ rw t (ap some (sym (length-encode_ascii m (a t))))
    | inr f ↦ rw f (str_chars_to_bytes_rev-encode xs m s)
  ]

module _ (e : Build) {len : ℕ} (small : len < 2 ^ 16) (b : GapBuffer) (xs m ys : List ℕ) where
  -- `b` with its gap made wider by the characters before it.
  abbrev pub trimmed : GapBuffer
  trimmed = record b {
    gap_start_surrogate_pairs = pairs xs;
    gap_start_lines = count_by is_newline xs;
    gap_len = b.gap_len + length (encode m);
    gap_start_chars = length xs;
    gap_start_bytes = length (encode xs);
  }

  module _ (h : Holds len b (xs ++ m) ys) where
    total : length (encode (xs ++ m)) ≡ length (encode xs) + length (encode m)
    total = length-encode-append xs m

    scalars : All IsScalar m
    scalars = All-append_right IsScalar xs m h.scalars_before

    ascii : b.all_ascii ≡ true → All IsAscii m
    ascii t = All-append_right IsAscii xs m (h.ascii_before t)

    counts : Counts len (xs ++ m)
    counts = counts_lem (xs ++ m) (omega (arith, h.full))

    layout : b.bytes ≡ encode xs ++ ((encode m ++ h.gap) ++ encode ys)
    layout =
        h.bytes_eq
        ∙ ap (λ t. t ++ (h.gap ++ encode ys)) (encode-append xs m)
        ∙ append_assoc (encode xs) (encode m) (h.gap ++ encode ys)
        ∙ ap (encode xs ++◌) (sym (append_assoc (encode m) h.gap (encode ys)))

    pub trimmed-Holds : Holds len trimmed xs ys
    trimmed-Holds = record {
      gap = encode m ++ h.gap;
      bytes_eq = layout;
      gap_len_eq = omega (arith, length-append (encode m) h.gap, h.gap_len_eq);
      start_bytes = refl;
      start_chars = refl;
      start_pairs = refl;
      start_lines = refl;
      full = omega (arith, h.full, total);
      scalars_before = All-append_left IsScalar xs m h.scalars_before;
      scalars_after = h.scalars_after;
      ascii_before = λ t. All-append_left IsAscii xs m (h.ascii_before t);
      ascii_after = h.ascii_after;
    }

    removed : slice (length (encode xs)) b.gap_start_bytes b.bytes ≡ some (encode m)
    removed =
        ap (slice (length (encode xs)) b.gap_start_bytes)
          (layout ∙ ap (encode xs ++◌) (append_assoc (encode m) h.gap (encode ys)))
        ∙ slice-append _ _ (encode xs) (encode m) (h.gap ++ encode ys) refl (h.start_bytes ∙ total)

    pairs_step :
        (if b.all_ascii
          then some b.gap_start_surrogate_pairs
          else sub_u16 e b.gap_start_surrogate_pairs
              (count_utf16_surrogates_in_bytes e (encode m) % 2 ^ 16))
        ≡ some (pairs xs)
    pairs_step = elim (Bool-cases b.all_ascii) [
      | inl t ↦ ground (arith, h.start_pairs, count_by-append astral xs m, pairs_ascii m (ascii t))
      | inr f ↦ rw (count_utf16_surrogates_in_bytes-encode e m scalars) (
          ground (
            arith,
            sub_u16_count e b.gap_start_surrogate_pairs (pairs xs) (pairs m)
                (omega (arith, counts, count_by-append astral xs m))
                (h.start_pairs ∙ count_by-append astral xs m),
          ))
    ]

    -- The characters from a place before the gap up to it are removed.
    pub remove_before_gap_lem :
        remove_before_gap e len b (length xs) ≡ some (trimmed, length (encode m))
    unfolding remove_before_gap
    remove_before_gap_lem =
        rw
          (
            start_as_str_lem e small h,
            sub_usize_lem e b.gap_start_chars (length xs)
                (omega (arith, h.start_chars, length-append xs m)),
            chars,
            bytes_backwards-encode e b xs m scalars ascii,
            sub_usize_lem e b.gap_start_bytes (length (encode m))
                (omega (arith, h.start_bytes, total)),
            from,
            removed,
            pairs_step,
            count_lines-encode e m scalars,
            sub_u16_count e b.gap_start_lines (count_by is_newline xs) (count_by is_newline m)
                (omega (arith, counts, count_by-append is_newline xs m))
                (h.start_lines ∙ count_by-append is_newline xs m),
            add_u16_count e b.gap_len (b.gap_len + length (encode m)) (length (encode m))
                (omega (arith, h.full, total)) refl,
            sub_u16_count e b.gap_start_bytes (length (encode xs)) (length (encode m))
                (omega (arith, h.full, total)) (h.start_bytes ∙ total),
            small_count (length xs) (omega (arith, counts, length-append xs m)),
          )
          refl
      where
        chars : b.gap_start_chars - length xs ≡ length m
        chars = omega (arith, h.start_chars, length-append xs m)

        from : b.gap_start_bytes - length (encode m) ≡ length (encode xs)
        from = omega (arith, h.start_bytes, total)

        small_count : (n : ℕ) → n < 2 ^ 16 → n % 2 ^ 16 ≡ n
        small_count n k = omega arith
