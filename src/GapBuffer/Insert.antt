-- ===== src/GapBuffer/Insert.antt =====
-- Insertion: at the gap, at any place, and into an empty buffer.
use jumprope_rs.Base.{
  ℕ, Bool, true, ◌&&◌, ◌+◌, ◌^◌, ◌%◌, ◌≤◌, ◌<◌, ◌≡◌, refl, sym, ◌∙◌, inl, inr, le-or-lt, ◌⊎◌, false,
  not, none, some, List, [], ◌++◌, arith, ap, length, length-append, All, All-append, count_by,
  count_by-append, take, drop, take-append-drop, length-take, length-drop, write_at,
  write_at-append, if◌then◌else◌, append_assoc, Returns, returns, Returns-bind, Returns-mono, ltb,
  ◌==◌, Bool-cases, le→leb, lt→ltb, Result, ok, err,
}
use jumprope_rs.Utf8.{IsScalar, encode, pairs, astral, is_newline}
use jumprope_rs.Utf8.Laws.{IsAscii, IsAscii-of_encode, encode-append, pairs_ascii}
use jumprope_rs.Build.{Build, add_u16, add_u16_count, sub_u16_count}
use jumprope_rs.FastStr.Laws.{count_chars-encode, count_utf16_surrogates-encode, count_lines-encode}
use jumprope_rs.GapBuffer.{GapBuffer, new}
use jumprope_rs.GapBuffer.Edit.{insert_in_gap, try_insert, new_from_str}
use jumprope_rs.GapBuffer.Holds.{Holds, new-Holds}
use jumprope_rs.GapBuffer.Shift.{Counts, counts_lem, length-encode-append}
use jumprope_rs.GapBuffer.Move.{move_gap_lem}

-- `b` with `cs` written into its gap, of which `gap` is left.
abbrev inserted : List ℕ → List ℕ → List ℕ → List ℕ → GapBuffer → GapBuffer
inserted xs cs gap ys b = record {
  bytes = encode (xs ++ cs) ++ (gap ++ encode ys);
  gap_start_bytes = length (encode (xs ++ cs));
  gap_start_chars = length (xs ++ cs);
  gap_start_surrogate_pairs = pairs (xs ++ cs);
  gap_start_lines = count_by is_newline (xs ++ cs);
  gap_len = length gap;
  all_ascii = if not (length (encode cs) == length cs) then false else b.all_ascii;
}

module _ (e : Build) {len : ℕ} (small : len < 2 ^ 16) (b : GapBuffer) (xs cs ys : List ℕ)
    (h : Holds len b xs ys) (s : All IsScalar cs) where
  open h use {gap, bytes_eq, gap_len_eq, start_bytes, start_chars, start_pairs, start_lines, full}

  total : length (encode (xs ++ cs)) ≡ length (encode xs) + length (encode cs)
  total = length-encode-append xs cs

  not_wide→ascii : not (length (encode cs) == length cs) ≡ false → All IsAscii cs
  not_wide→ascii t = IsAscii-of_encode cs (ground arith)

  module _ (fits : length (encode cs) ≤ b.gap_len) where
    counts : Counts len (xs ++ cs)
    counts = counts_lem (xs ++ cs) (omega (arith, total))

    Counts-cs : Counts len cs
    Counts-cs = counts_lem cs (omega arith)

    flag : (all single : Bool) → (if not single then false else all) ≡ (all && single)
    flag true true = refl
    flag true false = refl
    flag false true = refl
    flag false false = refl

    -- Of the gap, what the text covers and what is left.
    rest : List ℕ
    rest = drop (length (encode cs)) gap

    length-rest : length rest + length (encode cs) ≡ b.gap_len
    unfolding rest
    length-rest = omega (arith, length-drop (length (encode cs)) gap)

    written :
        write_at b.gap_start_bytes (encode cs) b.bytes
        ≡ some (encode (xs ++ cs) ++ (rest ++ encode ys))
    unfolding rest
    written =
        ap (write_at b.gap_start_bytes (encode cs)) (bytes_eq ∙ ap (encode xs ++◌) split)
        ∙ write_at-append b.gap_start_bytes (encode xs) front (rest ++ encode ys) (encode cs)
            start_bytes (omega (arith, length-take (length (encode cs)) gap))
        ∙ ap some (
            sym (append_assoc (encode xs) (encode cs) (rest ++ encode ys))
            ∙ ap (λ t. t ++ (rest ++ encode ys)) (sym (encode-append xs cs)))
      where
        front : List ℕ
        front = take (length (encode cs)) gap

        split : gap ++ encode ys ≡ front ++ (rest ++ encode ys)
        split =
            ap (λ t. t ++ encode ys) (sym (take-append-drop (length (encode cs)) gap))
            ∙ append_assoc front rest (encode ys)

    pairs_step :
        (if not (length (encode cs) == length cs)
          then add_u16 e b.gap_start_surrogate_pairs (pairs cs % 2 ^ 16)
          else some b.gap_start_surrogate_pairs)
        ≡ some (pairs (xs ++ cs))
    pairs_step = elim (Bool-cases (not (length (encode cs) == length cs))) [
      | inl w ↦ rw w (
          add_u16_count e b.gap_start_surrogate_pairs (pairs (xs ++ cs)) (pairs cs)
            (omega (arith, counts))
            (count_by-append astral xs cs ∙ ap (λ n. n + pairs cs) (sym start_pairs)))
      | inr n ↦ rw n (
          ap some (
            omega (
              arith,
              start_pairs,
              count_by-append astral xs cs,
              pairs_ascii cs (not_wide→ascii n),
            )))
    ]

    insert_in_gap_step : insert_in_gap e len b (encode cs) ≡ some (inserted xs cs rest ys b)
    unfolding insert_in_gap
    insert_in_gap_step =
        rw
          (
            count_chars-encode e cs s,
            le→leb (length (encode cs)) b.gap_len fits,
            written,
            add_u16_count e b.gap_start_bytes (length (encode (xs ++ cs))) (length (encode cs))
                (omega (arith, total)) (total ∙ ap (λ n. n + length (encode cs)) (sym start_bytes)),
            add_u16_count e b.gap_start_chars (length (xs ++ cs)) (length cs)
                (omega (arith, counts))
                (length-append xs cs ∙ ap (λ n. n + length cs) (sym start_chars)),
            sub_u16_count e b.gap_len (length rest) (length (encode cs)) (omega arith)
                (sym length-rest),
            count_utf16_surrogates-encode e cs s,
            pairs_step,
            count_lines-encode e cs s,
            add_u16_count e b.gap_start_lines (count_by is_newline (xs ++ cs))
                (count_by is_newline cs) (omega (arith, counts))
                (count_by-append is_newline xs cs
                  ∙ ap (λ n. n + count_by is_newline cs) (sym start_lines)),
          )
          refl

    -- In a buffer of fewer than 65536 bytes that holds a text (`Holds`), `insert_in_gap` of a
    -- text that fits in the gap does not panic and puts it before the gap, with the counts of
    -- characters, surrogate pairs and lines brought up to date. The flag `all_ascii` is set
    -- afterwards exactly if it was set before and each character of the new text takes one byte.
    pub insert_in_gap_lem :
        Returns
          (λ b'.
            Holds len b' (xs ++ cs) ys
            × (b'.all_ascii ≡ (b.all_ascii && (length (encode cs) == length cs))))
          (insert_in_gap e len b (encode cs))
    insert_in_gap_lem = rw insert_in_gap_step (
        returns (
          record {
            gap = rest;
            bytes_eq = refl;
            gap_len_eq = refl;
            start_bytes = refl;
            start_chars = refl;
            start_pairs = refl;
            start_lines = refl;
            full = omega (arith, total, length-rest);
            scalars_before = All-append IsScalar xs cs h.scalars_before s;
            scalars_after = h.scalars_after;
            ascii_before = λ t.
                All-append IsAscii xs cs (h.ascii_before (ground arith))
                  (not_wide→ascii (ground arith));
            ascii_after = λ t. h.ascii_after (ground arith);
          },
          flag b.all_ascii (length (encode cs) == length cs),
        ))

  -- What does not fit panics.
  pub insert_in_gap-none : b.gap_len < length (encode cs) → insert_in_gap e len b (encode cs) ≡ none
  unfolding insert_in_gap
  insert_in_gap-none lt = ground arith

-- The results of `try_insert` that say that the text was inserted.
abbrev pub Inserted : ℕ → List ℕ → List ℕ → Result GapBuffer → Type 0
Inserted len before after r = (b' : GapBuffer) × (r ≡ ok b') × Holds len b' before after

module _ (e : Build) {len : ℕ} (small : len < 2 ^ 16) (b : GapBuffer)
    (before after xs cs ys : List ℕ) (h : Holds len b before after)
    (same : xs ++ ys ≡ before ++ after) (s : All IsScalar cs) where
  try_insert-fits :
      length (encode cs) ≤ b.gap_len
      → Returns (Inserted len (xs ++ cs) ys) (try_insert e len b (length (encode xs)) (encode cs))
  unfolding try_insert
  try_insert-fits fits =
      let room : ltb b.gap_len (length (encode cs)) ≡ false = ground arith in
      rw room (
        Returns-bind (move_gap_lem e small b before after xs ys h same) λ moved (held, same_gap, _).
          Returns-bind (insert_in_gap_lem e small moved xs cs ys held s (omega arith))
            λ b' (done, _). returns (b', refl, done))

  try_insert-no_room :
      b.gap_len < length (encode cs)
      → try_insert e len b (length (encode xs)) (encode cs) ≡ some err
  unfolding try_insert
  try_insert-no_room lt = rw (lt→ltb b.gap_len (length (encode cs)) lt)

  -- In a buffer of fewer than 65536 bytes that holds a text (`Holds`), `try_insert` at a boundary
  -- between two characters does not panic. A text that fits in the gap is inserted there; one
  -- that does not is turned down.
  pub try_insert_lem :
      Returns
        (λ r.
          ((length (encode cs) ≤ b.gap_len) × Inserted len (xs ++ cs) ys r)
          ⊎ ((b.gap_len < length (encode cs)) × (r ≡ err)))
        (try_insert e len b (length (encode xs)) (encode cs))
  try_insert_lem = elim (le-or-lt (length (encode cs)) b.gap_len) [
    | inl fits ↦ Returns-mono (try_insert-fits fits) (λ r done. inl (fits, done))
    | inr lt ↦ rw (try_insert-no_room lt) (returns (inr (lt, refl)))
  ]

new_room : (e : Build) {len : ℕ} → len < 2 ^ 16 → (new e len).gap_len ≡ len
unfolding new
new_room e small = omega arith

module _ (e : Build) {len : ℕ} (small : len < 2 ^ 16) (cs : List ℕ) (s : All IsScalar cs) where
  -- `new_from_str` of a text that fits in a buffer of fewer than 65536 bytes does not panic and
  -- holds that text.
  pub new_from_str_lem :
      length (encode cs) ≤ len → Returns (λ b. Holds len b cs []) (new_from_str e len (encode cs))
  unfolding new_from_str encode
  new_from_str_lem fits =
      Returns-bind
        (try_insert-fits e small (new e len) [] [] [] cs [] (new-Holds e small) refl s
          (omega (arith, new_room e small)))
        λ r (b, is_ok, held). rw is_ok (returns held)

  pub new_from_str-none : len < length (encode cs) → new_from_str e len (encode cs) ≡ none
  unfolding new_from_str encode
  new_from_str-none lt = rw (
      try_insert-no_room e small (new e len) [] [] [] cs [] (new-Holds e small) refl s
        (omega (arith, new_room e small)))
