-- ===== src/GapBuffer/Shift.antt =====
-- The two directions of `move_gap`.
use jumprope_rs.Base.{
  ℕ, ◌+◌, ◌^◌, ◌≤◌, ◌<◌, ◌≡◌, refl, sym, ◌∙◌, true, some, List, ◌++◌, arith, ap, length,
  length-append, All, All-append_left, All-append_right, count_by, count_by-append,
  count_by-le-length, inl, inr, slice, slice-append, append_assoc, Bool-cases,
}
use jumprope_rs.Utf8.{IsScalar, encode, pairs, astral, is_newline}
use jumprope_rs.Utf8.Laws.{
  IsAscii, encode-append, length-encode_ascii, length-le-encode, pairs_ascii,
}
use jumprope_rs.Build.{Build, sub_u16_count, add_u16_count}
use jumprope_rs.FastStr.Laws.{count_chars-encode, count_utf16_surrogates-encode, count_lines-encode}
use jumprope_rs.GapBuffer.{
  GapBuffer, count_internal_chars, int_count_surrogate_pairs, copy_within, move_gap_left,
  move_gap_right,
}
use jumprope_rs.GapBuffer.Copy.{copy_within-right, copy_within-left}
use jumprope_rs.GapBuffer.Holds.{Holds, slice_to_str-encode}

-- `b`, its gap moved behind `xs` and not yet marked there.
abbrev pub moved_to : List ℕ → List ℕ → List ℕ → GapBuffer → GapBuffer
moved_to xs gap ys b = record b {
  bytes = encode xs ++ (gap ++ encode ys);
  gap_start_chars = length xs;
  gap_start_surrogate_pairs = pairs xs;
  gap_start_lines = count_by is_newline xs;
}

module _ (e : Build) (b : GapBuffer) (ys : List ℕ) (s : All IsScalar ys)
    (a : b.all_ascii ≡ true → All IsAscii ys) where
  pub count_internal_chars-encode : count_internal_chars e b (encode ys) ≡ length ys
  unfolding count_internal_chars
  count_internal_chars-encode = elim (Bool-cases b.all_ascii) [
    | inl t ↦ rw t (length-encode_ascii ys (a t))
    | inr f ↦ rw f (count_chars-encode e ys s)
  ]

  pub int_count_surrogate_pairs-encode : int_count_surrogate_pairs e b (encode ys) ≡ pairs ys
  unfolding int_count_surrogate_pairs
  int_count_surrogate_pairs-encode = elim (Bool-cases b.all_ascii) [
    | inl t ↦ rw t (sym (pairs_ascii ys (a t)))
    | inr f ↦ rw f (count_utf16_surrogates-encode e ys s)
  ]

pub length-encode-append :
    (xs ys : List ℕ) → length (encode (xs ++ ys)) ≡ length (encode xs) + length (encode ys)
length-encode-append xs ys = ap length (encode-append xs ys) ∙ length-append (encode xs) (encode ys)

-- The counts of a text that fits.
pub record Counts (len : ℕ) (ys : List ℕ) : Type 0 where
  pub chars_le : length ys ≤ len
  pub pairs_le : pairs ys ≤ len
  pub lines_le : count_by is_newline ys ≤ len

pub counts_lem : {len : ℕ} (ys : List ℕ) → length (encode ys) ≤ len → Counts len ys
counts_lem ys h =
    omega
      (arith, length-le-encode ys, count_by-le-length astral ys, count_by-le-length is_newline ys)

module _ (e : Build) {len : ℕ} (small : len < 2 ^ 16) {b : GapBuffer} where
  pub move_gap_left_lem :
      (xs ys zs : List ℕ)
      → Holds len b (xs ++ ys) zs
      → (gap : List ℕ) × (move_gap_left e len b (length (encode xs))
          ≡ some (moved_to xs gap (ys ++ zs) b))
        × (length gap ≡ b.gap_len)
  unfolding move_gap_left
  move_gap_left_lem xs ys zs h = (gap', steps, copied.2 ∙ gap_len_eq)
    where
      open h use {
        gap, bytes_eq, gap_len_eq, start_bytes, start_chars, start_pairs, start_lines, full,
      }

      total : length (encode (xs ++ ys)) ≡ length (encode xs) + length (encode ys)
      total = length-encode-append xs ys

      counts : Counts len ys
      counts = counts_lem ys (omega (arith, total))

      scalars : All IsScalar ys
      scalars = All-append_right IsScalar xs ys h.scalars_before

      ascii : b.all_ascii ≡ true → All IsAscii ys
      ascii t = All-append_right IsAscii xs ys (h.ascii_before t)

      layout : b.bytes ≡ encode xs ++ (encode ys ++ (gap ++ encode zs))
      layout =
          bytes_eq
          ∙ ap (λ t. t ++ (gap ++ encode zs)) (encode-append xs ys)
          ∙ append_assoc (encode xs) (encode ys) (gap ++ encode zs)

      found : slice (length (encode xs)) b.gap_start_bytes b.bytes ≡ some (encode ys)
      found =
          ap (slice (length (encode xs)) b.gap_start_bytes) layout
          ∙ slice-append _ _ (encode xs) (encode ys) (gap ++ encode zs) refl (start_bytes ∙ total)

      copied :
          (gap' : List ℕ) × (copy_within
              (length (encode xs))
              b.gap_start_bytes
              (length (encode xs) + b.gap_len)
              (encode xs ++ (encode ys ++ (gap ++ encode zs)))
            ≡ some (encode xs ++ (gap' ++ (encode ys ++ encode zs))))
          × (length gap' ≡ length gap)
      copied =
          copy_within-right (encode xs) (encode ys) gap (encode zs) _ _ _ refl (start_bytes ∙ total)
            (ap (λ n. length (encode xs) + n) (sym gap_len_eq))

      gap' : List ℕ
      gap' = copied.0

      copied_bytes :
          copy_within
            (length (encode xs))
            b.gap_start_bytes
            (length (encode xs) + b.gap_len)
            b.bytes
          ≡ some (encode xs ++ (gap' ++ (encode ys ++ encode zs)))
      copied_bytes =
          ap (copy_within (length (encode xs)) b.gap_start_bytes (length (encode xs) + b.gap_len))
            layout
          ∙ copied.1

      steps : move_gap_left e len b (length (encode xs)) ≡ some (moved_to xs gap' (ys ++ zs) b)
      steps =
          rw
            (
              found,
              slice_to_str-encode e ys scalars,
              int_count_surrogate_pairs-encode e b ys scalars ascii,
              sub_u16_count e b.gap_start_surrogate_pairs (pairs xs) (pairs ys)
                  (omega (arith, counts)) (start_pairs ∙ count_by-append astral xs ys),
              count_lines-encode e ys scalars,
              sub_u16_count e b.gap_start_lines (count_by is_newline xs) (count_by is_newline ys)
                  (omega (arith, counts)) (start_lines ∙ count_by-append is_newline xs ys),
              count_internal_chars-encode e b ys scalars ascii,
              sub_u16_count e b.gap_start_chars (length xs) (length ys) (omega (arith, counts))
                  (start_chars ∙ length-append xs ys),
              copied_bytes,
              encode-append ys zs,
            )
            refl

  pub move_gap_right_lem :
      (xs ys zs : List ℕ)
      → Holds len b xs (ys ++ zs)
      → (gap : List ℕ) × (move_gap_right e len b (length (encode (xs ++ ys)))
          ≡ some (moved_to (xs ++ ys) gap zs b))
        × (length gap ≡ b.gap_len)
  unfolding move_gap_right
  move_gap_right_lem xs ys zs h = (gap', steps, copied.2 ∙ gap_len_eq)
    where
      open h use {
        gap, bytes_eq, gap_len_eq, start_bytes, start_chars, start_pairs, start_lines, full,
      }

      from : ℕ
      from = b.gap_start_bytes + b.gap_len

      to : ℕ
      to = length (encode (xs ++ ys)) + b.gap_len

      total : length (encode (xs ++ ys)) ≡ length (encode xs) + length (encode ys)
      total = length-encode-append xs ys

      total_after : length (encode (ys ++ zs)) ≡ length (encode ys) + length (encode zs)
      total_after = length-encode-append ys zs

      counts : Counts len (xs ++ ys)
      counts = counts_lem (xs ++ ys) (omega (arith, total, total_after))

      counts_ys : Counts len ys
      counts_ys = counts_lem ys (omega (arith, total_after))

      scalars : All IsScalar ys
      scalars = All-append_left IsScalar ys zs h.scalars_after

      ascii : b.all_ascii ≡ true → All IsAscii ys
      ascii t = All-append_left IsAscii ys zs (h.ascii_after t)

      layout : b.bytes ≡ encode xs ++ (gap ++ (encode ys ++ encode zs))
      layout = bytes_eq ∙ ap (λ t. encode xs ++ (gap ++ t)) (encode-append ys zs)

      found : slice from to b.bytes ≡ some (encode ys)
      found =
          ap (slice from to) (layout ∙ sym (append_assoc (encode xs) gap (encode ys ++ encode zs)))
          ∙ slice-append from to (encode xs ++ gap) (encode ys) (encode zs)
              (omega (arith, length-append (encode xs) gap))
              (omega (arith, length-append (encode xs) gap, total))

      copied :
          (gap' : List ℕ) × (copy_within from to b.gap_start_bytes
              (encode xs ++ (gap ++ (encode ys ++ encode zs)))
            ≡ some (encode xs ++ (encode ys ++ (gap' ++ encode zs))))
          × (length gap' ≡ length gap)
      copied =
          copy_within-left (encode xs) gap (encode ys) (encode zs) from to b.gap_start_bytes
            (omega arith) (omega (arith, total)) start_bytes

      gap' : List ℕ
      gap' = copied.0

      copied_bytes :
          copy_within from to b.gap_start_bytes b.bytes
          ≡ some (encode (xs ++ ys) ++ (gap' ++ encode zs))
      copied_bytes =
          ap (copy_within from to b.gap_start_bytes) layout
          ∙ copied.1
          ∙ ap some (
              sym (append_assoc (encode xs) (encode ys) (gap' ++ encode zs))
              ∙ ap (λ t. t ++ (gap' ++ encode zs)) (sym (encode-append xs ys)))

      steps :
          move_gap_right e len b (length (encode (xs ++ ys))) ≡ some (moved_to (xs ++ ys) gap' zs b)
      steps =
          rw
            (
              found,
              slice_to_str-encode e ys scalars,
              int_count_surrogate_pairs-encode e b ys scalars ascii,
              add_u16_count e b.gap_start_surrogate_pairs (pairs (xs ++ ys)) (pairs ys)
                  (omega (arith, counts))
                  (count_by-append astral xs ys ∙ ap (λ n. n + pairs ys) (sym start_pairs)),
              count_lines-encode e ys scalars,
              add_u16_count e b.gap_start_lines (count_by is_newline (xs ++ ys))
                  (count_by is_newline ys) (omega (arith, counts))
                  (count_by-append is_newline xs ys
                    ∙ ap (λ n. n + count_by is_newline ys) (sym start_lines)),
              count_internal_chars-encode e b ys scalars ascii,
              add_u16_count e b.gap_start_chars (length (xs ++ ys)) (length ys)
                  (omega (arith, counts))
                  (length-append xs ys ∙ ap (λ n. n + length ys) (sym start_chars)),
              copied_bytes,
            )
            refl
