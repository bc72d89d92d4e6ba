-- ===== src/GapBuffer/Move.antt =====
-- `move_gap` moves the gap to any place between two characters and keeps the text.
use jumprope_rs.Base.{
  ℕ, ◌+◌, ◌-◌, ◌^◌, ◌%◌, ◌≤◌, ◌<◌, ◌≡◌, refl, sym, ◌∙◌, inl, inr, true, false, some, List, [], ◌∷◌,
  ◌++◌, arith, ap, length, length-replicate, replicate, All, All-append, All-append_left,
  All-append_right, slice, slice-append, write_at, write_at-append, append_assoc, append-nil, ◌>>=◌,
  Returns, returns, ltb, ◌==◌, Bool-cases, le→leb, lt→ltb, append-eq-append, ◌≢◌, ==_iff,
}
use native.Mathlib.Decide.{ℕ_discrete}
use jumprope_rs.Utf8.{IsScalar, encode}
use jumprope_rs.Utf8.Laws.{IsAscii, length-le-encode}
use jumprope_rs.Build.{Build, sub_usize_lem}
use jumprope_rs.GapBuffer.{GapBuffer, fill, check_new_start, clear_gap, move_gap}
use jumprope_rs.GapBuffer.Holds.{Holds}
use jumprope_rs.GapBuffer.Shift.{
  moved_to, move_gap_left_lem, move_gap_right_lem, length-encode-append,
}

-- A buffer that differs from `b` in where its gap is.
abbrev pub Moved : ℕ → GapBuffer → List ℕ → List ℕ → GapBuffer → Type 0
Moved len b xs ys b' = Holds len b' xs ys × (b'.gap_len ≡ b.gap_len) × (b'.all_ascii ≡ b.all_ascii)

module _ (e : Build) {len : ℕ} (small : len < 2 ^ 16) (b : GapBuffer) where
  check_new_start_lem :
      (n : ℕ) → b.gap_len ≤ len → n ≤ len - b.gap_len → check_new_start e len b n ≡ some tt
  unfolding check_new_start
  check_new_start_lem n h k =
      ground (arith, sub_usize_lem e len b.gap_len h, le→leb n (len - b.gap_len) k)

  clear_gap_lem :
      (xs gap ys : List ℕ)
      → length gap ≡ b.gap_len
      → (gap' : List ℕ) × (clear_gap e len (length (encode xs)) (moved_to xs gap ys b)
          ≡ some (moved_to xs gap' ys b))
        × (length gap' ≡ b.gap_len)
  unfolding clear_gap fill
  clear_gap_lem xs gap ys h = elim (Bool-cases e.debug) [
    | inl d ↦
        (replicate (length gap) 0, rw (d, found, cleared) refl, length-replicate (length gap) 0 ∙ h)
    | inr r ↦ (gap, rw r refl, h)
  ]
    where
      found :
          slice
            (length (encode xs))
            (length (encode xs) + b.gap_len)
            (encode xs ++ (gap ++ encode ys))
          ≡ some gap
      found =
          slice-append _ _ (encode xs) gap (encode ys) refl
            (ap (λ n. length (encode xs) + n) (sym h))

      cleared :
          write_at (length (encode xs)) (replicate (length gap) 0) (encode xs ++ (gap ++ encode ys))
          ≡ some (encode xs ++ (replicate (length gap) 0 ++ encode ys))
      cleared =
          write_at-append _ (encode xs) gap (encode ys) _ refl (length-replicate (length gap) 0)

  -- The gap is marked where it was moved to.
  marked-Holds :
      (before after xs gap ys : List ℕ)
      → Holds len b before after
      → xs ++ ys ≡ before ++ after
      → length gap ≡ b.gap_len
      → Holds len
          (record (moved_to xs gap ys b) { gap_start_bytes = length (encode xs) % 2 ^ 16 })
          xs
          ys
  marked-Holds before after xs gap ys h same size = record {
    gap = gap;
    bytes_eq = refl;
    gap_len_eq = size;
    start_bytes = omega (arith, total, h.full);
    start_chars = refl;
    start_pairs = refl;
    start_lines = refl;
    full = omega (arith, total, h.full);
    scalars_before = All-append_left IsScalar xs ys scalars;
    scalars_after = All-append_right IsScalar xs ys scalars;
    ascii_before = λ t. All-append_left IsAscii xs ys (ascii t);
    ascii_after = λ t. All-append_right IsAscii xs ys (ascii t);
  }
    where
      total :
          length (encode xs) + length (encode ys) ≡ length (encode before) + length (encode after)
      total =
          sym (length-encode-append xs ys)
          ∙ ap (λ t. length (encode t)) same
          ∙ length-encode-append before after

      scalars : All IsScalar (xs ++ ys)
      scalars = rw same (All-append IsScalar before after h.scalars_before h.scalars_after)

      ascii : b.all_ascii ≡ true → All IsAscii (xs ++ ys)
      ascii t = rw same (All-append IsAscii before after (h.ascii_before t) (h.ascii_after t))

  mark-Moved :
      (before after xs gap ys : List ℕ)
      → Holds len b before after
      → xs ++ ys ≡ before ++ after
      → length gap ≡ b.gap_len
      → Returns (Moved len b xs ys) (do
        cleared ← clear_gap e len (length (encode xs)) (moved_to xs gap ys b)
        some (record cleared { gap_start_bytes = length (encode xs) % 2 ^ 16 }))
  mark-Moved before after xs gap ys h same size =
      let (gap', cleared, size') = clear_gap_lem xs gap ys size in
      rw cleared (returns (marked-Holds before after xs gap' ys h same size', refl, refl))

  in_range :
      (before after xs ys : List ℕ)
      → Holds len b before after
      → xs ++ ys ≡ before ++ after
      → check_new_start e len b (length (encode xs)) ≡ some tt
  in_range before after xs ys h same =
      let total : length (encode xs) + length (encode ys)
          ≡ length (encode before) + length (encode after) =
        sym (length-encode-append xs ys)
        ∙ ap (λ t. length (encode t)) same
        ∙ length-encode-append before after in
      check_new_start_lem (length (encode xs)) (omega (arith, h.full)) (omega (arith, h.full))

  no_chars : (m : List ℕ) → length (encode m) ≡ 0 → m ≡ []
  no_chars [] z = refl
  no_chars (c ∷ m) z = absurd (omega (arith, length-le-encode (c ∷ m)))

  to_left :
      (xs m after : List ℕ)
      → Holds len b (xs ++ m) after
      → length (encode m) ≢ 0
      → Returns (Moved len b xs (m ++ after)) (move_gap e len b (length (encode xs)))
  unfolding move_gap
  to_left xs m after h ne =
      let lt : length (encode xs) < b.gap_start_bytes =
        omega (arith, h.start_bytes, length-encode-append xs m) in
      let same = sym (append_assoc xs m after) in
      let (gap, step, size) = move_gap_left_lem e small xs m after h in
      let far : (length (encode xs) == b.gap_start_bytes) ≡ false = ground arith in
      rw
        (
          far,
          in_range (xs ++ m) after xs (m ++ after) h same,
          lt→ltb (length (encode xs)) b.gap_start_bytes lt,
          step,
        )
        (mark-Moved (xs ++ m) after xs gap (m ++ after) h same size)

  to_right :
      (before m ys : List ℕ)
      → Holds len b before (m ++ ys)
      → length (encode m) ≢ 0
      → Returns (Moved len b (before ++ m) ys) (move_gap e len b (length (encode (before ++ m))))
  unfolding move_gap
  to_right before m ys h ne =
      let lt : b.gap_start_bytes < length (encode (before ++ m)) =
        omega (arith, h.start_bytes, length-encode-append before m) in
      let same = append_assoc before m ys in
      let (gap, step, size) = move_gap_right_lem e small before m ys h in
      let far : (length (encode (before ++ m)) == b.gap_start_bytes) ≡ false = ground arith in
      let back : ltb (length (encode (before ++ m))) b.gap_start_bytes ≡ false = ground arith in
      rw (far, in_range before (m ++ ys) (before ++ m) ys h same, back, step)
        (mark-Moved before (m ++ ys) (before ++ m) gap ys h same size)

  stay :
      (before after : List ℕ)
      → Holds len b before after
      → Returns (Moved len b before after) (move_gap e len b (length (encode before)))
  unfolding move_gap
  stay before after h =
      let here : (length (encode before) == b.gap_start_bytes) ≡ true =
        (==_iff (length (encode before)) b.gap_start_bytes).1 (sym h.start_bytes) in
      rw here (returns (h, refl, refl))

  -- In a buffer of fewer than 65536 bytes that holds a text (`Holds`), `move_gap` to any boundary
  -- between two characters does not panic. The text is the same, cut at the new place, with its
  -- counts; the length of the gap and the flag `all_ascii` stay.
  pub move_gap_lem :
      (before after xs ys : List ℕ)
      → Holds len b before after
      → xs ++ ys ≡ before ++ after
      → Returns (Moved len b xs ys) (move_gap e len b (length (encode xs)))
  move_gap_lem before after xs ys h same = elim (append-eq-append xs ys before after same) [
    | inl (m, p, q) ↦ elim (ℕ_discrete (length (encode m)) 0) [
      | yes z ↦
          let none_between = no_chars m z in
          let x : xs ≡ before = sym (p ∙ ap (xs ++◌) none_between ∙ append-nil xs) in
          let y : ys ≡ after = q ∙ ap (λ t. t ++ after) none_between in
          rw (x, y) (stay before after h)
      | no ne ↦ rw q (to_left xs m after (rw p at h) ne)
    ]
    | inr (m, p, q) ↦ elim (ℕ_discrete (length (encode m)) 0) [
      | yes z ↦
          let none_between = no_chars m z in
          let x : xs ≡ before = p ∙ ap (before ++◌) none_between ∙ append-nil before in
          let y : ys ≡ after = sym (q ∙ ap (λ t. t ++ ys) none_between) in
          rw (x, y) (stay before after h)
      | no ne ↦ rw p (to_right before m ys (rw q at h) ne)
    ]
  ]
