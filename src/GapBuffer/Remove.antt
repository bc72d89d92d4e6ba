-- ===== src/GapBuffer/Remove.antt =====
-- `remove_after_gap`: the characters behind the gap join it.
use jumprope_rs.Base.{
  ℕ, ◌+◌, ◌^◌, ◌<◌, ◌≡◌, refl, sym, ◌∙◌, inl, inr, some, List, ◌++◌, arith, ap, length,
  length-append, length-replicate, replicate, All-append_right, slice, slice-append, write_at,
  write_at-append, if◌then◌else◌, append_assoc, ◌>>=◌, Returns, returns, Bool-cases,
}
use jumprope_rs.Utf8.{IsScalar, encode}
use jumprope_rs.Utf8.Laws.{IsAscii, encode-append}
use jumprope_rs.Build.{Build, add_u16, add_u16_lem, add_u16_count}
use jumprope_rs.GapBuffer.{GapBuffer, fill}
use jumprope_rs.GapBuffer.Edit.{remove_after_gap}
use jumprope_rs.GapBuffer.Holds.{Holds}
use jumprope_rs.GapBuffer.Shift.{length-encode-append}

-- `b` with its gap made wider by the `n` bytes behind it.
abbrev widened : List ℕ → List ℕ → List ℕ → GapBuffer → GapBuffer
widened xs gap ys b = record b { bytes = encode xs ++ (gap ++ encode ys); gap_len = length gap }

module _ (e : Build) {len : ℕ} (small : len < 2 ^ 16) (b : GapBuffer) (xs m ys : List ℕ) where
  widened-Holds :
      (gap : List ℕ)
      → length gap ≡ b.gap_len + length (encode m)
      → Holds len b xs (m ++ ys)
      → Holds len (widened xs gap ys b) xs ys
  widened-Holds gap size h = record {
    gap = gap;
    bytes_eq = refl;
    gap_len_eq = refl;
    start_bytes = h.start_bytes;
    start_chars = h.start_chars;
    start_pairs = h.start_pairs;
    start_lines = h.start_lines;
    full = omega (arith, h.full, length-encode-append m ys);
    scalars_before = h.scalars_before;
    scalars_after = All-append_right IsScalar m ys h.scalars_after;
    ascii_before = h.ascii_before;
    ascii_after = λ t. All-append_right IsAscii m ys (h.ascii_after t);
  }

  -- The new bytes: in a debug build those that are removed are cleared.
  cleared_after :
      (h : Holds len b xs (m ++ ys))
      → (gap : List ℕ) × ((if e.debug
            then (add_u16 e b.gap_start_bytes b.gap_len >>= λ end.
                fill end (end + length (encode m)) b.bytes)
            else some b.bytes)
          ≡ some (encode xs ++ (gap ++ encode ys)))
        × (length gap ≡ b.gap_len + length (encode m))
  unfolding fill
  cleared_after h = elim (Bool-cases e.debug) [
    | inl d ↦ (
      h.gap ++ zeros,
      rw (add_u16_lem e b.gap_start_bytes b.gap_len in_u16, cleared, d) refl,
      size zeros (length-replicate (length (encode m)) 0),
    )
    | inr r ↦ (h.gap ++ encode m, rw r (ap some layout), size (encode m) refl)
  ]
    where
      zeros : List ℕ
      zeros = replicate (length (encode m)) 0

      end : ℕ
      end = b.gap_start_bytes + b.gap_len

      in_u16 : b.gap_start_bytes + b.gap_len < 2 ^ 16
      in_u16 = omega (arith, h.full, h.start_bytes)

      size :
          (t : List ℕ)
          → length t ≡ length (encode m)
          → length (h.gap ++ t) ≡ b.gap_len + length (encode m)
      size t k = omega (arith, length-append h.gap t, h.gap_len_eq)

      layout : b.bytes ≡ encode xs ++ ((h.gap ++ encode m) ++ encode ys)
      layout =
          h.bytes_eq
          ∙ ap (λ t. encode xs ++ (h.gap ++ t)) (encode-append m ys)
          ∙ ap (encode xs ++◌) (sym (append_assoc h.gap (encode m) (encode ys)))

      front : List ℕ
      front = encode xs ++ h.gap

      layout_front :
          (t : List ℕ) → encode xs ++ ((h.gap ++ t) ++ encode ys) ≡ front ++ (t ++ encode ys)
      layout_front t =
          ap (encode xs ++◌) (append_assoc h.gap t (encode ys))
          ∙ sym (append_assoc (encode xs) h.gap (t ++ encode ys))

      length-front : end ≡ length front
      length-front = omega (arith, length-append (encode xs) h.gap, h.gap_len_eq, h.start_bytes)

      found : slice end (end + length (encode m)) b.bytes ≡ some (encode m)
      found =
          ap (slice end (end + length (encode m))) (layout ∙ layout_front (encode m))
          ∙ slice-append end _ front (encode m) (encode ys) length-front
              (ap (λ n. n + length (encode m)) length-front)

      cleared :
          (slice end (end + length (encode m)) b.bytes >>= λ old.
          write_at end (replicate (length old) 0) b.bytes)
          ≡ some (encode xs ++ ((h.gap ++ zeros) ++ encode ys))
      cleared = rw found (
          ap (write_at end zeros) (layout ∙ layout_front (encode m))
          ∙ write_at-append end front (encode m) (encode ys) zeros length-front
              (length-replicate (length (encode m)) 0)
          ∙ ap some (sym (layout_front zeros)))

  -- The characters behind the gap are removed.
  pub remove_after_gap_lem :
      Holds len b xs (m ++ ys)
      → Returns
          (λ b'. Holds len b' xs ys × (b'.all_ascii ≡ b.all_ascii))
          (remove_after_gap e len b (length (encode m)))
  unfolding remove_after_gap
  remove_after_gap_lem h =
      let (gap, bytes, size) = cleared_after h in
      rw
        (
          bytes,
          add_u16_count e b.gap_len (length gap) (length (encode m))
              (omega (arith, h.full, length-encode-append m ys)) size,
        )
        (returns (widened-Holds gap size h, refl))
