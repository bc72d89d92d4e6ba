-- ===== src/GapBuffer/RemoveChars.antt =====
-- `remove_chars` and `remove`: any range of characters is cut out of the text.
use jumprope_rs.Base.{
  ℕ, ◌+◌, ◌-◌, ◌^◌, ◌≤◌, ◌<◌, ◌≡◌, ◌⊎◌, refl, sym, ◌∙◌, inl, inr, false, ◌&&◌, Option, some, List,
  [], ◌∷◌, ◌++◌, arith, ap, min, length, length-append, append-nil, append-eq-append, Returns,
  returns, Returns-bind, Returns-mono, leb, ◌==◌, Bool-cases, le→leb,
}
use jumprope_rs.Utf8.{encode}
use jumprope_rs.Utf8.Laws.{length-le-encode}
use jumprope_rs.Build.{Build, sub_usize_lem}
use jumprope_rs.GapBuffer.{GapBuffer}
use jumprope_rs.GapBuffer.Edit.{
  remove_chars_at_gap, remove_chars_apart, check_del_len, remove_chars, remove,
}
use jumprope_rs.GapBuffer.Holds.{Holds, len_bytes_lem}
use jumprope_rs.GapBuffer.Shift.{length-encode-append}
use jumprope_rs.GapBuffer.Move.{move_gap_lem}
use jumprope_rs.GapBuffer.Remove.{remove_after_gap_lem}
use jumprope_rs.GapBuffer.Cut.{Cut, at_gap, apart_left, apart_right}

-- `b` holds the text `t`, the gap anywhere.
pub record HasText (len : ℕ) (b : GapBuffer) (t : List ℕ) : Type 0 where
  pub before : List ℕ
  pub after : List ℕ
  pub held : Holds len b before after
  pub text_eq : before ++ after ≡ t

-- The text `t` is left, and `m` is what was removed, counted in bytes.
abbrev pub Removed : ℕ → List ℕ → List ℕ → GapBuffer × ℕ → Type 0
Removed len m t (b', n) = HasText len b' t × (n ≡ length (encode m))

Cut→Removed :
    (len : ℕ) (xs m ys : List ℕ) {r : Option (GapBuffer × ℕ)}
    → Returns (Cut len xs m ys) r
    → Returns (Removed len m (xs ++ ys)) r
Cut→Removed len xs m ys cut = Returns-mono cut λ (b', n) (held, bytes).
    (record { before = xs; after = ys; held = held; text_eq = refl }, bytes)

module _ (e : Build) {len : ℕ} (small : len < 2 ^ 16) (b : GapBuffer)
    (before after xs m ys : List ℕ) (h : Holds len b before after)
    (same : xs ++ (m ++ ys) ≡ before ++ after) where
  length_same : length xs + (length m + length ys) ≡ length before + length after
  length_same = omega (
    arith,
    ap length same,
    length-append xs (m ++ ys),
    length-append m ys,
    length-append before after,
  )

  check_del_len_lem : check_del_len e len b (length xs) (length m) ≡ some tt
  unfolding check_del_len
  check_del_len_lem = elim (Bool-cases e.debug) [
    | inl d ↦
        rw
          (
            len_bytes_lem e small h,
            sub_usize_lem e bytes (length xs) (omega (arith, long)),
            le→leb (length m) (bytes - length xs) (omega (arith, long)),
            d,
          )
          refl
    | inr r ↦ rw r
  ]
    where
      bytes : ℕ
      bytes = length (encode before) + length (encode after)

      long : length xs + length m ≤ bytes
      long = omega (arith, length_same, length-le-encode before, length-le-encode after)

  -- A range that touches the gap, and one that does not.
  choose_at :
      length xs ≤ length before
      → length before ≤ length xs + length m
      → Returns (Cut len xs m ys) (remove_chars_at_gap e len b (length xs) (length m))
      → 0 < length m
      → Returns (Cut len xs m ys) (remove_chars e len b (length xs) (length m))
  unfolding remove_chars
  choose_at le ge done pos =
      let some_left : (length m == 0) ≡ false = ground arith in
      rw
        (
          some_left,
          check_del_len_lem,
          le→leb (length xs) b.gap_start_chars (omega (arith, h.start_chars)),
          le→leb b.gap_start_chars (length xs + length m) (omega (arith, h.start_chars)),
        )
        done

  choose_apart :
      (length before < length xs) ⊎ (length xs + length m < length before)
      → Returns (Cut len xs m ys) (remove_chars_apart e len b (length xs) (length m))
      → 0 < length m
      → Returns (Cut len xs m ys) (remove_chars e len b (length xs) (length m))
  unfolding remove_chars
  choose_apart far done pos =
      let some_left : (length m == 0) ≡ false = ground arith in
      let gone : (leb (length xs) b.gap_start_chars && leb b.gap_start_chars (length xs + length m))
          ≡ false =
        ground (arith, h.start_chars) in
      rw (some_left, check_del_len_lem, gone) done

  -- Where the gap is in the range, or to which side of it.
  remove_chars-Cut :
      0 < length m → Returns (Cut len xs m ys) (remove_chars e len b (length xs) (length m))
  remove_chars-Cut pos = elim (append-eq-append xs (m ++ ys) before after same) [
    | inl (p, b_eq, r_eq) ↦ elim (append-eq-append m ys p after r_eq) [
      | inl (r, p_eq, ys_eq) ↦ gap_behind p r b_eq p_eq ys_eq
      | inr (q, m_eq, a_eq) ↦ gap_inside p q b_eq m_eq a_eq
    ]
    | inr (p, xs_eq, a_eq) ↦ gap_before p xs_eq a_eq
  ]
    where
      gap_inside :
          (p q : List ℕ)
          → before ≡ xs ++ p
          → m ≡ p ++ q
          → after ≡ q ++ ys
          → Returns (Cut len xs m ys) (remove_chars e len b (length xs) (length m))
      gap_inside p q b_eq m_eq a_eq =
          choose_at (omega (arith, ap length b_eq, length-append xs p))
            (omega (arith, ap length b_eq, ap length m_eq, length-append xs p, length-append p q))
            (rw m_eq (at_gap e small b xs p q ys (rw (b_eq, a_eq) at h))) pos

      gap_behind :
          (p r : List ℕ)
          → before ≡ xs ++ p
          → p ≡ m ++ r
          → ys ≡ r ++ after
          → Returns (Cut len xs m ys) (remove_chars e len b (length xs) (length m))
      gap_behind p [] b_eq p_eq ys_eq =
          gap_inside p [] b_eq (sym (append-nil m) ∙ sym p_eq ∙ sym (append-nil p)) (sym ys_eq)
      gap_behind p (c ∷ r) b_eq p_eq ys_eq =
          choose_apart
            (inr (
              omega (
                arith,
                ap length b_eq,
                ap length p_eq,
                length-append xs p,
                length-append m (c ∷ r),
              )))
            (rw ys_eq (
              apart_left e small b xs m (c ∷ r) after (rw (b_eq, p_eq) at h)
                (omega (arith, length-append m (c ∷ r)))))
            pos

      gap_before :
          (p : List ℕ)
          → xs ≡ before ++ p
          → after ≡ p ++ (m ++ ys)
          → Returns (Cut len xs m ys) (remove_chars e len b (length xs) (length m))
      gap_before [] xs_eq a_eq =
          gap_inside [] m (sym (append-nil before) ∙ sym xs_eq ∙ sym (append-nil xs)) refl a_eq
      gap_before (c ∷ p) xs_eq a_eq =
          choose_apart (inl (omega (arith, ap length xs_eq, length-append before (c ∷ p))))
            (rw xs_eq (apart_right e small b before (c ∷ p) m ys (rw a_eq at h))) pos

-- In a buffer of fewer than 65536 bytes that holds a text (`Holds`), `remove_chars` of the
-- characters `m` that lie between `xs` and `ys` does not panic, in any build and wherever the gap
-- is. It leaves a buffer that holds `xs` and `ys`, and returns the number of bytes of `m`.
pub remove_chars_lem :
    (e : Build) {len : ℕ} (small : len < 2 ^ 16) (b : GapBuffer) (before after xs m ys : List ℕ)
    → Holds len b before after
    → xs ++ (m ++ ys) ≡ before ++ after
    → Returns (Removed len m (xs ++ ys)) (remove_chars e len b (length xs) (length m))
unfolding remove_chars encode
remove_chars_lem e small b before after xs [] ys h same =
    returns (record { before = before; after = after; held = h; text_eq = sym same }, refl)
remove_chars_lem e {len} small b before after xs (c ∷ m) ys h same =
    Cut→Removed len xs (c ∷ m) ys
      (remove_chars-Cut e small b before after xs (c ∷ m) ys h same (omega arith))

module _ (e : Build) {len : ℕ} (small : len < 2 ^ 16) (b : GapBuffer)
    (before after xs m ys : List ℕ) (h : Holds len b before after)
    (same : xs ++ (m ++ ys) ≡ before ++ after) where
  bytes_same :
      length (encode xs) + (length (encode m) + length (encode ys))
      ≡ length (encode before) + length (encode after)
  bytes_same = omega (
    arith,
    ap (λ t. length (encode t)) same,
    length-encode-append xs (m ++ ys),
    length-encode-append m ys,
    length-encode-append before after,
  )

  -- `remove` at the end of the text, or past it, does nothing.
  pub remove-past_end :
      (pos n : ℕ)
      → length (encode before) + length (encode after) ≤ pos
      → remove e len b pos n ≡ some (b, 0)
  unfolding remove
  remove-past_end pos n le = rw (len_bytes_lem e small h, le→leb _ pos le)

  -- In a buffer of fewer than 65536 bytes that holds a text (`Holds`), `remove` at a boundary
  -- between two characters that is not the end does not panic and takes as many bytes as it is
  -- asked for, or those that there are, provided that these are the bytes of whole characters.
  pub remove_lem :
      (n : ℕ)
      → 0 < length (encode (m ++ ys))
      → min n (length (encode (m ++ ys))) ≡ length (encode m)
      → Returns (Removed len m (xs ++ ys)) (remove e len b (length (encode xs)) n)
  unfolding remove
  remove_lem n pos clipped =
      let total = length-encode-append m ys in
      let inside : leb (length (encode before) + length (encode after)) (length (encode xs))
          ≡ false =
        ground (arith, bytes_same, total) in
      let most : length (encode before) + length (encode after) - length (encode xs)
          ≡ length (encode (m ++ ys)) =
        omega (arith, bytes_same, total) in
      rw
        (
          len_bytes_lem e small h,
          inside,
          sub_usize_lem e (length (encode before) + length (encode after)) (length (encode xs))
              (omega (arith, bytes_same)),
          most,
          clipped,
        )
        (Returns-bind (move_gap_lem e small b before after xs (m ++ ys) h same)
          λ moved (held, _, _).
            Returns-bind (remove_after_gap_lem e small moved xs m ys held) λ b' (cut, _).
              returns (record { before = xs; after = ys; held = cut; text_eq = refl }, refl))
