-- ===== src/FastStr/Naive.antt =====
-- A `str_indices` by plain loops: the documented behaviour can be had.
use jumprope_rs.Base.{
  ℕ, zero, suc, ◌+◌, ◌-◌, ◌≡◌, refl, true, false, List, [], ◌∷◌, ◌++◌, arith, ◌==◌, if◌then◌else◌,
  length, length-append, take, All, count_by,
}
use jumprope_rs.Utf8.{IsScalar, encode, is_start, is_wide}
use jumprope_rs.Utf8.Laws.{count_start-encode, count_wide-encode}
use jumprope_rs.Utf8.Shape.{IsTail, encode_char-Shape}
use jumprope_rs.Build.{StrIndices, Build}

-- The bytes before the `n`-th first byte from here.
abbrev pub skip : List ℕ → ℕ → ℕ
skip [] n = 0
skip (b ∷ bs) n =
    if is_start b then (if n == 0 then 0 else suc (skip bs (n - 1))) else suc (skip bs n)

skip-tail : (t bs : List ℕ) (n : ℕ) → IsTail t → skip (t ++ bs) n ≡ length t + skip bs n
skip-tail [] bs n h = omega arith
skip-tail (b ∷ t) bs n (out, h) = rw out (omega (arith, skip-tail t bs n h))

pub skip-encode :
    (cs : List ℕ) (n : ℕ) → All IsScalar cs → skip (encode cs) n ≡ length (encode (take n cs))
unfolding encode
skip-encode [] zero h = refl
skip-encode [] (suc n) h = refl
skip-encode (c ∷ cs) zero (s, h) = rw (shape, starts)
  where
    open encode_char-Shape c s use {shape, starts}
skip-encode (c ∷ cs) (suc n) (s, h) =
    rw (shape, starts)
      (ground (
        arith,
        skip-tail tail (encode cs) n continues,
        skip-encode cs n h,
        length-append tail (encode (take n cs)),
      ))
  where
    open encode_char-Shape c s use {tail, shape, starts, continues}

abbrev pub naive : StrIndices
naive = record {
  chars_count = count_by is_start;
  chars_to_byte_idx = skip;
  utf16_count_surrogates = count_by is_wide;
  chars_count_lem = count_start-encode;
  chars_to_byte_idx_lem = skip-encode;
  utf16_count_surrogates_lem = count_wide-encode;
}

-- A debug build and a release build, for tests.
abbrev pub debug_build : Build
debug_build = record { debug = true; miri = false; str_indices = naive }

abbrev pub release_build : Build
release_build = record { debug = false; miri = true; str_indices = naive }
