-- ===== src/GapBuffer/Copy.antt =====
-- `copy_within` where the gap is.
use jumprope_rs.Base.{
  ℕ, ◌+◌, ◌≡◌, refl, ◌∙◌, some, List, ◌++◌, arith, ap, length, length-append, take, drop,
  take-append-drop, length-take, length-drop, slice, slice-append, write_at, write_at-append,
  append_assoc, ◌>>=◌,
}
use jumprope_rs.GapBuffer.{copy_within}

-- A move of `ys` over the `n` bytes `gap` behind it: what is left in the gap.
pub copy_within-right :
    (xs ys gap zs : List ℕ) (lo hi dest : ℕ)
    → lo ≡ length xs
    → hi ≡ length xs + length ys
    → dest ≡ length xs + length gap
    → (gap' : List ℕ) × (copy_within lo hi dest (xs ++ (ys ++ (gap ++ zs)))
        ≡ some (xs ++ (gap' ++ (ys ++ zs))))
      × (length gap' ≡ length gap)
unfolding copy_within
copy_within-right xs ys gap zs lo hi dest p q r =
    (gap', rw (slice-append lo hi xs ys (gap ++ zs) p q, split) moved, size)
  where
    mid : List ℕ
    mid = ys ++ gap

    gap' : List ℕ
    gap' = take (length gap) mid

    rest : List ℕ
    rest = drop (length gap) mid

    size : length gap' ≡ length gap
    size = omega (arith, length-take (length gap) mid, length-append ys gap)

    split : xs ++ (ys ++ (gap ++ zs)) ≡ (xs ++ gap') ++ (rest ++ zs)
    split =
        rw
          (
            append_assoc xs gap' (rest ++ zs),
            ← append_assoc gap' rest zs,
            take-append-drop (length gap) mid,
            append_assoc ys gap zs,
          )
          refl

    moved : write_at dest ys ((xs ++ gap') ++ (rest ++ zs)) ≡ some (xs ++ (gap' ++ (ys ++ zs)))
    moved =
        write_at-append dest (xs ++ gap') rest zs ys (omega (arith, length-append xs gap', size))
          (omega (arith, length-drop (length gap) mid, length-append ys gap))
        ∙ ap some (append_assoc xs gap' (ys ++ zs))

pub copy_within-left :
    (xs gap ys zs : List ℕ) (lo hi dest : ℕ)
    → lo ≡ length xs + length gap
    → hi ≡ length xs + length gap + length ys
    → dest ≡ length xs
    → (gap' : List ℕ) × (copy_within lo hi dest (xs ++ (gap ++ (ys ++ zs)))
        ≡ some (xs ++ (ys ++ (gap' ++ zs))))
      × (length gap' ≡ length gap)
unfolding copy_within
copy_within-left xs gap ys zs lo hi dest p q r = (gap', read, size)
  where
    mid : List ℕ
    mid = gap ++ ys

    front : List ℕ
    front = take (length ys) mid

    gap' : List ℕ
    gap' = drop (length ys) mid

    size : length gap' ≡ length gap
    size = omega (arith, length-drop (length ys) mid, length-append gap ys)

    split : xs ++ (gap ++ (ys ++ zs)) ≡ xs ++ (front ++ (gap' ++ zs))
    split =
        rw (← append_assoc front gap' zs, take-append-drop (length ys) mid, append_assoc gap ys zs)
          refl

    found : slice lo hi (xs ++ (gap ++ (ys ++ zs))) ≡ some ys
    found = rw (← append_assoc xs gap (ys ++ zs)) (
        slice-append lo hi (xs ++ gap) ys zs (omega (arith, length-append xs gap))
          (omega (arith, length-append xs gap)))

    read :
        (slice lo hi (xs ++ (gap ++ (ys ++ zs))) >>= λ moved.
        write_at dest moved (xs ++ (gap ++ (ys ++ zs))))
        ≡ some (xs ++ (ys ++ (gap' ++ zs)))
    read =
        rw (found, split)
          (write_at-append dest xs front (gap' ++ zs) ys r
            (omega (arith, length-take (length ys) mid, length-append gap ys)))
