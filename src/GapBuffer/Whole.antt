-- ===== src/GapBuffer/Whole.antt =====
-- The methods of a buffer as a whole: its text, its checks, the rest that is taken off, equality.
use jumprope_rs.Base.{
  ℕ, ◌+◌, ◌-◌, ◌^◌, ◌%◌, ◌≤◌, ◌<◌, ◌≡◌, ◌≢◌, refl, sym, ◌∙◌, inl, inr, true, false, ◌&&◌, some,
  List, [], ◌++◌, arith, ap, ap₂, length, length-append, take, drop, length-take, length-drop,
  take-append-drop, slice, slice-append, slice-last, append_assoc, append-nil, ltb, ◌==◌, ==_iff,
  Bool-cases, Returns, returns, list_eq, list_eq_comm, list_eq-append, list_eq_lengths,
}
use jumprope_rs.Utf8.{encode, pairs}
use jumprope_rs.Utf8.Laws.{encode-append, length-encode_ascii, pairs_ascii}
use jumprope_rs.Build.{Build, sub_u16_lem, add_u16_lem}
use jumprope_rs.FastStr.Laws.{count_chars-encode, count_utf16_surrogates-encode, count_lines-encode}
use jumprope_rs.GapBuffer.{GapBuffer}
use jumprope_rs.GapBuffer.Read.{check, to_string, eq_sections, eq}
use jumprope_rs.GapBuffer.Edit.{take_rest}
use jumprope_rs.GapBuffer.Holds.{Holds, start_as_str_lem, end_as_str_lem, slice_to_str-encode}
use jumprope_rs.GapBuffer.Shift.{length-encode-append}

module _ (e : Build) {len : ℕ} (small : len < 2 ^ 16) (b : GapBuffer) (before after : List ℕ)
    (h : Holds len b before after) where
  -- In a buffer of fewer than 65536 bytes that holds a text (`Holds`), `to_string` is the text.
  pub to_string_lem : to_string e len b ≡ some (encode (before ++ after))
  unfolding to_string
  to_string_lem =
      rw (start_as_str_lem e small h, end_as_str_lem e small h)
        (ap some (sym (encode-append before after)))

  -- In a buffer of fewer than 65536 bytes that holds a text (`Holds`), the assertions of `check`
  -- hold.
  pub check_lem : check e len b ≡ some tt
  unfolding check
  check_lem =
      rw
        (
          start_as_str_lem e small h,
          count_chars-encode e before h.scalars_before,
          count_utf16_surrogates-encode e before h.scalars_before,
          count_lines-encode e before h.scalars_before,
          (==_iff (length before) b.gap_start_chars).1 (sym h.start_chars),
          (==_iff (pairs before) b.gap_start_surrogate_pairs).1 (sym h.start_pairs),
        )
        (ground (
          arith,
          h.start_lines,
          h.start_bytes,
          h.start_chars,
          h.start_pairs,
          λ (t : b.all_ascii ≡ true). length-encode_ascii before (h.ascii_before t),
          λ (t : b.all_ascii ≡ true). pairs_ascii before (h.ascii_before t),
        ))

  rest_slice : slice (b.gap_start_bytes + b.gap_len) len b.bytes ≡ some (encode after)
  rest_slice =
      ap (slice (b.gap_start_bytes + b.gap_len) len)
        (h.bytes_eq ∙ sym (append_assoc (encode before) h.gap (encode after)))
      ∙ slice-last _ len (encode before ++ h.gap) (encode after)
          (omega (arith, length-append (encode before) h.gap, h.gap_len_eq, h.start_bytes))
          (omega (arith, length-append (encode before) h.gap, h.gap_len_eq, h.full))

  -- In a buffer of fewer than 65536 bytes that holds a text (`Holds`), `take_rest` does not
  -- panic. It returns the text behind the gap and leaves a buffer that holds the text before it.
  pub take_rest_lem :
      Returns (λ (b', s). Holds len b' before [] × (s ≡ encode after)) (take_rest e len b)
  unfolding take_rest encode
  take_rest_lem =
      rw
        (
          add_u16_lem e b.gap_start_bytes b.gap_len (omega (arith, h.full, h.start_bytes)),
          sub_u16_lem e (len % 2 ^ 16) b.gap_start_bytes (omega (arith, h.full, h.start_bytes)),
          rest_slice,
          slice_to_str-encode e after h.scalars_after,
        )
        (returns (
          record {
            gap = h.gap ++ encode after;
            bytes_eq =
                h.bytes_eq ∙ ap (encode before ++◌) (sym (append-nil (h.gap ++ encode after)));
            gap_len_eq =
                omega
                  (arith, length-append h.gap (encode after), h.gap_len_eq, h.full, h.start_bytes);
            start_bytes = h.start_bytes;
            start_chars = h.start_chars;
            start_pairs = h.start_pairs;
            start_lines = h.start_lines;
            full = omega (arith, h.full, h.start_bytes);
            scalars_before = h.scalars_before;
            scalars_after = tt;
            ascii_before = h.ascii_before;
            ascii_after = λ _. tt;
          },
          refl,
        ))

module _ (e : Build) {len : ℕ} {a b : GapBuffer} {a1 a2 b1 b2 : List ℕ} (h : Holds len a a1 a2)
    (k : Holds len b b1 b2) where
  eq_sections_lem :
      a.gap_len ≡ b.gap_len
      → a.gap_start_bytes ≤ b.gap_start_bytes
      → eq_sections e len a b ≡ some (list_eq (encode (a1 ++ a2)) (encode (b1 ++ b2)))
  unfolding eq_sections
  eq_sections_lem same_len le =
      rw (a_head, b_head, a_gappy, b_gappy, a_last, b_last, texts) (ground arith)
    where
      q : ℕ
      q = length (encode b1) - length (encode a1)

      b_front : List ℕ
      b_front = take (length (encode a1)) (encode b1)

      b_mid : List ℕ
      b_mid = drop (length (encode a1)) (encode b1)

      a_mid : List ℕ
      a_mid = take q (encode a2)

      a_end : List ℕ
      a_end = drop q (encode a2)

      b_split : b_front ++ b_mid ≡ encode b1
      b_split = take-append-drop (length (encode a1)) (encode b1)

      a_split : a_mid ++ a_end ≡ encode a2
      a_split = take-append-drop q (encode a2)

      length-b_front : length b_front ≡ length (encode a1)
      length-b_front =
          omega (arith, length-take (length (encode a1)) (encode b1), h.start_bytes, k.start_bytes)

      length-b_mid : length b_mid ≡ q
      length-b_mid = length-drop (length (encode a1)) (encode b1)

      length-a_mid : length a_mid ≡ q
      length-a_mid = omega (arith, length-take q (encode a2), h.full, k.full)

      length-a_end : length a_end ≡ length (encode a2) - q
      length-a_end = length-drop q (encode a2)

      a_layout : a.bytes ≡ (encode a1 ++ h.gap) ++ (a_mid ++ a_end)
      a_layout =
          h.bytes_eq
          ∙ sym (append_assoc (encode a1) h.gap (encode a2))
          ∙ ap ((encode a1 ++ h.gap) ++◌) (sym a_split)

      b_layout : b.bytes ≡ b_front ++ (b_mid ++ (k.gap ++ encode b2))
      b_layout =
          k.bytes_eq
          ∙ ap (λ t. t ++ (k.gap ++ encode b2)) (sym b_split)
          ∙ append_assoc b_front b_mid (k.gap ++ encode b2)

      a_head : slice 0 a.gap_start_bytes a.bytes ≡ some (encode a1)
      a_head =
          ap (slice 0 a.gap_start_bytes) h.bytes_eq
          ∙ slice-append 0 _ [] (encode a1) (h.gap ++ encode a2) refl (omega (arith, h.start_bytes))

      b_head : slice 0 a.gap_start_bytes b.bytes ≡ some b_front
      b_head =
          ap (slice 0 a.gap_start_bytes) b_layout
          ∙ slice-append 0 _ [] b_front (b_mid ++ (k.gap ++ encode b2)) refl
              (omega (arith, h.start_bytes, length-b_front))

      front : length (encode a1 ++ h.gap) ≡ a.gap_start_bytes + a.gap_len
      front = omega (arith, length-append (encode a1) h.gap, h.gap_len_eq, h.start_bytes)

      a_gappy :
          slice (a.gap_start_bytes + a.gap_len) (b.gap_start_bytes + a.gap_len) a.bytes ≡ some a_mid
      a_gappy =
          ap (slice (a.gap_start_bytes + a.gap_len) (b.gap_start_bytes + a.gap_len)) a_layout
          ∙ slice-append _ _ (encode a1 ++ h.gap) a_mid a_end (sym front)
              (omega (arith, front, length-a_mid, h.start_bytes, k.start_bytes))

      b_gappy : slice a.gap_start_bytes b.gap_start_bytes b.bytes ≡ some b_mid
      b_gappy =
          ap (slice a.gap_start_bytes b.gap_start_bytes) b_layout
          ∙ slice-append _ _ b_front b_mid (k.gap ++ encode b2)
              (omega (arith, length-b_front, h.start_bytes))
              (omega (arith, length-b_front, length-b_mid, h.start_bytes, k.start_bytes))

      a_last : slice (b.gap_start_bytes + a.gap_len) len a.bytes ≡ some a_end
      a_last =
          ap (slice (b.gap_start_bytes + a.gap_len) len)
            (a_layout ∙ sym (append_assoc (encode a1 ++ h.gap) a_mid a_end))
          ∙ slice-last _ len ((encode a1 ++ h.gap) ++ a_mid) a_end
              (omega (
                arith,
                length-append (encode a1 ++ h.gap) a_mid,
                front,
                length-a_mid,
                h.start_bytes,
                k.start_bytes,
              ))
              (omega (
                arith,
                length-append (encode a1 ++ h.gap) a_mid,
                front,
                length-a_mid,
                length-a_end,
                h.start_bytes,
                k.start_bytes,
                h.full,
                k.full,
              ))

      b_last : slice (b.gap_start_bytes + a.gap_len) len b.bytes ≡ some (encode b2)
      b_last =
          ap (slice (b.gap_start_bytes + a.gap_len) len)
            (k.bytes_eq ∙ sym (append_assoc (encode b1) k.gap (encode b2)))
          ∙ slice-last _ len (encode b1 ++ k.gap) (encode b2)
              (omega (arith, length-append (encode b1) k.gap, k.gap_len_eq, k.start_bytes))
              (omega (arith, length-append (encode b1) k.gap, k.gap_len_eq, k.full))

      texts :
          list_eq (encode (a1 ++ a2)) (encode (b1 ++ b2))
          ≡ (list_eq (encode a1) b_front && (list_eq a_mid b_mid && list_eq a_end (encode b2)))
      texts =
          ap₂ list_eq (encode-append a1 a2 ∙ ap (encode a1 ++◌) (sym a_split)) (
            encode-append b1 b2
            ∙ ap (λ t. t ++ encode b2) (sym b_split)
            ∙ append_assoc b_front b_mid (encode b2))
          ∙ list_eq-append (encode a1) b_front (a_mid ++ a_end) (b_mid ++ encode b2)
              (sym length-b_front)
          ∙ ap (λ t. list_eq (encode a1) b_front && t)
              (list_eq-append a_mid b_mid a_end (encode b2) (length-a_mid ∙ sym length-b_mid))

-- Buffers with gaps of different lengths hold texts of different lengths.
different_gaps :
    {len : ℕ} {a b : GapBuffer} {a1 a2 b1 b2 : List ℕ}
    → Holds len a a1 a2
    → Holds len b b1 b2
    → a.gap_len ≢ b.gap_len
    → list_eq (encode (a1 ++ a2)) (encode (b1 ++ b2)) ≡ false
different_gaps {a1 = a1} {a2 = a2} {b1 = b1} {b2 = b2} h k ne = list_eq_lengths _ _ (λ same.
    ne
      (omega (arith, same, length-encode-append a1 a2, length-encode-append b1 b2, h.full, k.full)))

-- Of two buffers of the same size that hold texts (`Holds`), `eq` does not panic and tells
-- whether the bytes of the texts are the same, wherever the gaps are.
pub eq_lem :
    (e : Build) {len : ℕ} {a b : GapBuffer} {a1 a2 b1 b2 : List ℕ}
    → Holds len a a1 a2
    → Holds len b b1 b2
    → eq e len a b ≡ some (list_eq (encode (a1 ++ a2)) (encode (b1 ++ b2)))
unfolding eq
eq_lem e {len} {a} {b} {a1} {a2} {b1} {b2} h k = elim (Bool-cases (a.gap_len == b.gap_len)) [
  | inl t ↦
      let same = (==_iff a.gap_len b.gap_len).0 t in
      elim (Bool-cases (ltb a.gap_start_bytes b.gap_start_bytes)) [
        | inl lt ↦ rw (t, lt) (eq_sections_lem e h k same (ground arith))
        | inr ge ↦
            rw (t, ge)
              (eq_sections_lem e k h (sym same) (ground arith)
                ∙ ap some (list_eq_comm (encode (b1 ++ b2)) (encode (a1 ++ a2))))
      ]
  | inr f ↦ rw f (ap some (sym (different_gaps h k (λ same. ground arith))))
]
