-- ===== src/GapBuffer/Counts.antt =====
-- What the reading methods return: offsets, counts, the text, and the rest that is taken off.
use jumprope_rs.Base.{
  ℕ, ◌+◌, ◌-◌, ◌^◌, ◌<◌, ◌≡◌, refl, sym, ◌∙◌, inl, inr, true, some, List, [], ◌∷◌, ◌++◌, arith, ap,
  length, length-append, All, All-append, All-append_left, count_by-append, slice, slice-append,
  append_assoc, append-nil, append-eq-append,
}
use jumprope_rs.Utf8.{IsScalar, encode, pairs, astral}
use jumprope_rs.Utf8.Laws.{IsAscii, encode-append, length-encode_ascii, pairs_ascii}
use jumprope_rs.Build.{Build, sub_usize_lem, add_u16_lem}
use jumprope_rs.FastStr.Laws.{count_utf16_surrogates_in_bytes-encode}
use jumprope_rs.FastStr.Utf16.{units, utf16_code_unit_to_char_idx-encode}
use jumprope_rs.GapBuffer.{GapBuffer}
use jumprope_rs.GapBuffer.Read.{count_bytes, count_surrogate_pairs, count_chars_in_wchars}
use jumprope_rs.GapBuffer.Holds.{Holds, start_as_str_lem, end_as_str_lem}
use jumprope_rs.GapBuffer.Shift.{length-encode-append}
use jumprope_rs.GapBuffer.Trim.{byte_offset-encode}

module _ (e : Build) {len : ℕ} (small : len < 2 ^ 16) (b : GapBuffer) where
  ascii_bytes :
      (xs m : List ℕ)
      → (b.all_ascii ≡ true → All IsAscii (xs ++ m))
      → b.all_ascii ≡ true
      → length (encode xs) ≡ length xs
  ascii_bytes xs m a t = length-encode_ascii xs (All-append_left IsAscii xs m (a t))

  ascii_pairs :
      (xs m : List ℕ)
      → (b.all_ascii ≡ true → All IsAscii (xs ++ m))
      → b.all_ascii ≡ true
      → pairs xs ≡ 0
  ascii_pairs xs m a t = pairs_ascii xs (All-append_left IsAscii xs m (a t))

  no_more : (xs m : List ℕ) → length (xs ++ m) ≡ length xs → xs ++ m ≡ xs
  no_more xs [] h = append-nil xs
  no_more xs (c ∷ m) h = absurd (omega (arith, length-append xs (c ∷ m)))

  -- A place before the gap, or at it.
  module _ (xs m after : List ℕ) (h : Holds len b (xs ++ m) after) where
    at_gap_bytes : length xs ≡ b.gap_start_chars → b.gap_start_bytes ≡ length (encode xs)
    at_gap_bytes z =
        h.start_bytes ∙ ap (λ t. length (encode t)) (no_more xs m (omega (arith, h.start_chars)))

    at_gap_pairs : length xs ≡ b.gap_start_chars → b.gap_start_surrogate_pairs ≡ pairs xs
    at_gap_pairs z = h.start_pairs ∙ ap pairs (no_more xs m (omega (arith, h.start_chars)))

    count_bytes-before : count_bytes e len b (length xs) ≡ some (length (encode xs))
    unfolding count_bytes
    count_bytes-before =
        rw (start_as_str_lem e small h, byte_offset-encode e b xs m h.scalars_before h.ascii_before)
          (ground (
            arith,
            h.start_chars,
            length-append xs m,
            at_gap_bytes,
            ascii_bytes xs m h.ascii_before,
          ))

    head_before : slice 0 (length (encode xs)) b.bytes ≡ some (encode xs)
    head_before =
        ap (slice 0 (length (encode xs))) (
          h.bytes_eq
          ∙ ap (λ t. t ++ (h.gap ++ encode after)) (encode-append xs m)
          ∙ append_assoc (encode xs) (encode m) (h.gap ++ encode after))
        ∙ slice-append 0 _ [] (encode xs) (encode m ++ (h.gap ++ encode after)) refl (omega arith)

    count_surrogate_pairs-before : count_surrogate_pairs e len b (length xs) ≡ some (pairs xs)
    unfolding count_surrogate_pairs
    count_surrogate_pairs-before =
        rw
          (
            start_as_str_lem e small h,
            byte_offset-encode e b xs m h.scalars_before h.ascii_before,
            head_before,
            count_utf16_surrogates_in_bytes-encode e xs
                (All-append_left IsScalar xs m h.scalars_before),
          )
          (ground (
            arith,
            h.start_chars,
            h.start_pairs,
            count_by-append astral xs m,
            length-append xs m,
            at_gap_pairs,
            ascii_pairs xs m h.ascii_before,
          ))

    count_chars_in_wchars-before : count_chars_in_wchars e len b (units xs) ≡ some (length xs)
    unfolding count_chars_in_wchars
    count_chars_in_wchars-before =
        rw (start_as_str_lem e small h, utf16_code_unit_to_char_idx-encode e xs m h.scalars_before)
          (ground (
            arith,
            h.start_chars,
            h.start_pairs,
            count_by-append astral xs m,
            length-append xs m,
            at_gap_pairs,
            ascii_pairs xs m h.ascii_before,
          ))

  -- A place behind the gap.
  module _ (before p ys : List ℕ) (h : Holds len b before (p ++ ys)) (pos : 0 < length p) where
    size : length (before ++ p) ≡ b.gap_start_chars + length p
    size = length-append before p ∙ ap (λ n. n + length p) (sym h.start_chars)

    rest : length (before ++ p) - b.gap_start_chars ≡ length p
    rest = omega (arith, size)

    units_size : units (before ++ p) ≡ b.gap_start_chars + b.gap_start_surrogate_pairs + units p
    units_size = omega (arith, size, count_by-append astral before p, h.start_pairs)

    units_rest : units (before ++ p) - (b.gap_start_chars + b.gap_start_surrogate_pairs) ≡ units p
    units_rest = omega (arith, units_size)

    IsAscii-All : b.all_ascii ≡ true → All IsAscii (before ++ p)
    IsAscii-All t =
        All-append IsAscii before p (h.ascii_before t)
          (All-append_left IsAscii p ys (h.ascii_after t))

    count_bytes-after :
        count_bytes e len b (length (before ++ p)) ≡ some (length (encode (before ++ p)))
    unfolding count_bytes
    count_bytes-after =
        rw
          (
            end_as_str_lem e small h,
            sub_usize_lem e (length (before ++ p)) b.gap_start_chars (omega (arith, size)),
            rest,
            byte_offset-encode e b p ys h.scalars_after h.ascii_after,
          )
          (ground (
            arith,
            size,
            h.start_bytes,
            length-encode-append before p,
            λ (t : b.all_ascii ≡ true). length-encode_ascii (before ++ p) (IsAscii-All t),
          ))

    in_u16 : b.gap_start_bytes + b.gap_len < 2 ^ 16
    in_u16 = omega (arith, h.full, h.start_bytes)

    head_after :
        slice
          (b.gap_start_bytes + b.gap_len)
          (b.gap_start_bytes + b.gap_len + length (encode p))
          b.bytes
        ≡ some (encode p)
    head_after =
        ap (slice from (from + length (encode p))) (
          h.bytes_eq
          ∙ ap (λ t. encode before ++ (h.gap ++ t)) (encode-append p ys)
          ∙ sym (append_assoc (encode before) h.gap (encode p ++ encode ys)))
        ∙ slice-append from _ (encode before ++ h.gap) (encode p) (encode ys) at
            (ap (λ n. n + length (encode p)) at)
      where
        from : ℕ
        from = b.gap_start_bytes + b.gap_len

        at : from ≡ length (encode before ++ h.gap)
        at = omega (arith, length-append (encode before) h.gap, h.gap_len_eq, h.start_bytes)

    count_surrogate_pairs-after :
        count_surrogate_pairs e len b (length (before ++ p)) ≡ some (pairs (before ++ p))
    unfolding count_surrogate_pairs
    count_surrogate_pairs-after =
        rw
          (
            end_as_str_lem e small h,
            sub_usize_lem e (length (before ++ p)) b.gap_start_chars (omega (arith, size)),
            rest,
            byte_offset-encode e b p ys h.scalars_after h.ascii_after,
            add_u16_lem e b.gap_start_bytes b.gap_len in_u16,
            head_after,
            count_utf16_surrogates_in_bytes-encode e p
                (All-append_left IsScalar p ys h.scalars_after),
          )
          (ground (
            arith,
            size,
            h.start_pairs,
            count_by-append astral before p,
            λ (t : b.all_ascii ≡ true). pairs_ascii (before ++ p) (IsAscii-All t),
          ))

    count_chars_in_wchars-after :
        count_chars_in_wchars e len b (units (before ++ p)) ≡ some (length (before ++ p))
    unfolding count_chars_in_wchars
    count_chars_in_wchars-after =
        rw
          (
            end_as_str_lem e small h,
            sub_usize_lem e (units (before ++ p)) (b.gap_start_chars + b.gap_start_surrogate_pairs)
                (omega (arith, units_size)),
            units_rest,
            utf16_code_unit_to_char_idx-encode e p ys h.scalars_after,
          )
          (ground (
            arith,
            size,
            units_size,
            λ (t : b.all_ascii ≡ true). pairs_ascii (before ++ p) (IsAscii-All t),
          ))

-- Every character of the text is found, on either side of the gap.
module _ (e : Build) {len : ℕ} (small : len < 2 ^ 16) (b : GapBuffer) (before after xs ys : List ℕ)
    (h : Holds len b before after) (same : xs ++ ys ≡ before ++ after) where
  -- The three counts at the place between `xs` and `ys`.
  record Found : Type 0 where
    bytes_at : count_bytes e len b (length xs) ≡ some (length (encode xs))
    pairs_at : count_surrogate_pairs e len b (length xs) ≡ some (pairs xs)
    chars_at : count_chars_in_wchars e len b (units xs) ≡ some (length xs)

  found_before : (m : List ℕ) → before ≡ xs ++ m → Found
  found_before m p =
      let k : Holds len b (xs ++ m) after = rw p at h in
      record {
        bytes_at = count_bytes-before e small b xs m after k;
        pairs_at = count_surrogate_pairs-before e small b xs m after k;
        chars_at = count_chars_in_wchars-before e small b xs m after k;
      }

  found_after : (m : List ℕ) → xs ≡ before ++ m → after ≡ m ++ ys → Found
  found_after [] p q = found_before [] (sym (append-nil before) ∙ sym p ∙ sym (append-nil xs))
  found_after (c ∷ m) p q =
      let k : Holds len b before (c ∷ m ++ ys) = rw q at h in
      record {
        bytes_at = rw p (count_bytes-after e small b before (c ∷ m) ys k (omega arith));
        pairs_at = rw p (count_surrogate_pairs-after e small b before (c ∷ m) ys k (omega arith));
        chars_at = rw p (count_chars_in_wchars-after e small b before (c ∷ m) ys k (omega arith));
      }

  found : Found
  found = elim (append-eq-append xs ys before after same) [
    | inl (m, p, _) ↦ found_before m p
    | inr (m, p, q) ↦ found_after m p q
  ]

  -- In a buffer of fewer than 65536 bytes that holds a text (`Holds`), `count_bytes` finds the
  -- byte offset of every boundary between two characters, on either side of the gap.
  pub count_bytes_lem : count_bytes e len b (length xs) ≡ some (length (encode xs))
  count_bytes_lem = found.bytes_at

  -- In a buffer of fewer than 65536 bytes that holds a text (`Holds`), `count_surrogate_pairs`
  -- counts the surrogate pairs before every boundary between two characters, on either side of
  -- the gap.
  pub count_surrogate_pairs_lem : count_surrogate_pairs e len b (length xs) ≡ some (pairs xs)
  count_surrogate_pairs_lem = found.pairs_at

  -- In a buffer of fewer than 65536 bytes that holds a text (`Holds`), `count_chars_in_wchars`
  -- undoes the conversion of a place from characters to UTF-16 units, on either side of the gap:
  -- it returns a number of characters, not of surrogate pairs.
  pub count_chars_in_wchars_lem : count_chars_in_wchars e len b (units xs) ≡ some (length xs)
  count_chars_in_wchars_lem = found.chars_at
