-- ===== src/GapBuffer/Cut.antt =====
-- The three ways of `remove_chars`: a range at the gap, before it and behind it.
use jumprope_rs.Base.{
  ℕ, ◌+◌, ◌-◌, ◌^◌, ◌<◌, ◌≡◌, sym, false, some, List, [], ◌∷◌, ◌++◌, arith, ap, length,
  length-append, if◌then◌else◌, append_assoc, append-nil, Returns, returns, Returns-bind, ltb, ◌==◌,
  lt→ltb, suc-eq-zero,
}
use jumprope_rs.Utf8.{encode}
use jumprope_rs.Build.{as_u16, Build, sub_usize_lem}
use jumprope_rs.GapBuffer.{GapBuffer}
use jumprope_rs.GapBuffer.Edit.{remove_chars_after_gap, remove_chars_at_gap, remove_chars_apart}
use jumprope_rs.GapBuffer.Holds.{Holds, start_as_str_lem, end_as_str_lem}
use jumprope_rs.GapBuffer.Shift.{length-encode-append}
use jumprope_rs.GapBuffer.Move.{move_gap_lem}
use jumprope_rs.GapBuffer.Remove.{remove_after_gap_lem}
use jumprope_rs.GapBuffer.Trim.{byte_offset-encode, trimmed, trimmed-Holds, remove_before_gap_lem}

-- The characters `m` are gone, and counted in bytes; the gap is where they were.
abbrev pub Cut : ℕ → List ℕ → List ℕ → List ℕ → GapBuffer × ℕ → Type 0
Cut len xs m ys (b', n) = Holds len b' xs ys × (n ≡ length (encode m))

module _ (e : Build) {len : ℕ} (small : len < 2 ^ 16) where
  after_gap :
      (b : GapBuffer) (xs p q ys : List ℕ)
      → Holds len b xs (q ++ ys)
      → Returns
          (Cut len xs (p ++ q) ys)
          (remove_chars_after_gap e len b (length q) (length (encode p)))
  unfolding remove_chars_after_gap
  after_gap b xs p q ys h =
      rw (end_as_str_lem e small h, byte_offset-encode e b q ys h.scalars_after h.ascii_after)
        (Returns-bind (remove_after_gap_lem e small b xs q ys h)
          λ b' (held, _). returns (held, sym (length-encode-append p q)))

  pub after_gap_only :
      (b : GapBuffer) (xs m ys : List ℕ)
      → Holds len b xs (m ++ ys)
      → Returns (Cut len xs m ys) (remove_chars_after_gap e len b (length m) 0)
  unfolding encode
  after_gap_only b xs m ys h = after_gap b xs [] m ys h

  pub at_gap :
      (b : GapBuffer) (xs p q ys : List ℕ)
      → Holds len b (xs ++ p) (q ++ ys)
      → Returns (Cut len xs (p ++ q) ys) (remove_chars_at_gap e len b (length xs) (length (p ++ q)))
  unfolding remove_chars_at_gap
  at_gap b xs [] q ys h =
      let here : ltb (length xs) b.gap_start_chars ≡ false =
        ground (arith, h.start_chars, length-append xs []) in
      rw here (after_gap_only b xs q ys (rw append-nil at h))
  at_gap b xs (c ∷ p) q ys h =
      rw
        (
          lt→ltb (length xs) b.gap_start_chars (omega (arith, h.start_chars, size)),
          remove_before_gap_lem e small b xs (c ∷ p) (q ++ ys) h,
          sub_usize_lem e b.gap_start_chars (length xs) (omega (arith, h.start_chars, size)),
          before,
          sub_usize_lem e (length (c ∷ p ++ q)) (length (c ∷ p)) (omega (arith, length-append p q)),
          rest,
          fits_u16,
        )
        (rest_of q h)
    where
      size : length (xs ++ c ∷ p) ≡ length xs + length (c ∷ p)
      size = length-append xs (c ∷ p)

      before : b.gap_start_chars - length xs ≡ length (c ∷ p)
      before = omega (arith, h.start_chars, size)

      rest : length (c ∷ p ++ q) - length (c ∷ p) ≡ length q
      rest = omega (arith, length-append p q)

      fits_u16 : as_u16 (length (encode (c ∷ p))) ≡ length (encode (c ∷ p))
      fits_u16 = omega (arith, small, h.full, length-encode-append xs (c ∷ p))

      rest_of :
          (q : List ℕ)
          → Holds len b (xs ++ c ∷ p) (q ++ ys)
          → Returns (Cut len xs (c ∷ p ++ q) ys) (
              if length q == 0
              then some (trimmed e small b xs (c ∷ p) (q ++ ys), length (encode (c ∷ p)))
              else remove_chars_after_gap e len
                  (trimmed e small b xs (c ∷ p) (q ++ ys))
                  (length q)
                  (length (encode (c ∷ p))))
      rest_of [] h = returns (
        trimmed-Holds e small b xs (c ∷ p) ys h,
        ap (λ t. length (encode t)) (sym (append-nil (c ∷ p))),
      )
      rest_of (d ∷ q) h = rw (suc-eq-zero (length q)) (
          after_gap (trimmed e small b xs (c ∷ p) (d ∷ q ++ ys)) xs (c ∷ p) (d ∷ q) ys
            (trimmed-Holds e small b xs (c ∷ p) (d ∷ q ++ ys) h))

  pub apart_left :
      (b : GapBuffer) (xs m r after : List ℕ)
      → Holds len b (xs ++ (m ++ r)) after
      → 0 < length (m ++ r)
      → Returns (Cut len xs m (r ++ after)) (remove_chars_apart e len b (length xs) (length m))
  unfolding remove_chars_apart
  apart_left b xs m r after h lt =
      rw
        (
          lt→ltb (length xs) b.gap_start_chars
              (omega (arith, h.start_chars, length-append xs (m ++ r))),
          start_as_str_lem e small h,
          byte_offset-encode e b xs (m ++ r) h.scalars_before h.ascii_before,
        )
        (Returns-bind (move_gap_lem e small b (xs ++ (m ++ r)) after xs (m ++ (r ++ after)) h same)
          λ moved (held, _, _). after_gap_only moved xs m (r ++ after) held)
    where
      same : xs ++ (m ++ (r ++ after)) ≡ (xs ++ (m ++ r)) ++ after
      same = simp append_assoc

  pub apart_right :
      (b : GapBuffer) (before p m ys : List ℕ)
      → Holds len b before (p ++ (m ++ ys))
      → Returns
          (Cut len (before ++ p) m ys)
          (remove_chars_apart e len b (length (before ++ p)) (length m))
  unfolding remove_chars_apart
  apart_right b before p m ys h =
      rw
        (
          behind,
          end_as_str_lem e small h,
          sub_usize_lem e (length (before ++ p)) b.gap_start_chars
              (omega (arith, h.start_chars, size)),
          rest,
          byte_offset-encode e b p (m ++ ys) h.scalars_after h.ascii_after,
          bytes,
        )
        (Returns-bind
          (move_gap_lem e small b before (p ++ (m ++ ys)) (before ++ p) (m ++ ys) h
            (append_assoc before p (m ++ ys)))
          λ moved (held, _, _). after_gap_only moved (before ++ p) m ys held)
    where
      size : length (before ++ p) ≡ length before + length p
      size = length-append before p

      behind : ltb (length (before ++ p)) b.gap_start_chars ≡ false
      behind = ground (arith, h.start_chars, size)

      rest : length (before ++ p) - b.gap_start_chars ≡ length p
      rest = omega (arith, h.start_chars, size)

      bytes : length (encode p) + b.gap_start_bytes ≡ length (encode (before ++ p))
      bytes = omega (arith, h.start_bytes, length-encode-append before p)
