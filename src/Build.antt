-- ===== src/Build.antt =====
-- What the code is built with, and machine arithmetic. A build with debug assertions checks
-- subtractions for overflow and panics; one without wraps.
use jumprope_rs.Base.{
  ℕ, ◌+◌, ◌-◌, ◌%◌, ◌^◌, ◌≤◌, ◌<◌, ◌≡◌, ap, ◌∙◌, Bool, Option, none, some, List, arith, ltb, leb,
  le→leb, if◌then◌else◌, assert, take, length, All, lt→ltb,
}
use jumprope_rs.Utf8.{IsScalar, encode, pairs}

-- The crate `str_indices`, with what its documentation says of it on valid UTF-8.
pub record StrIndices : Type 0 where
  -- `chars::count`
  pub chars_count : List ℕ → ℕ
  -- `chars::to_byte_idx`
  pub chars_to_byte_idx : List ℕ → ℕ → ℕ
  -- `utf16::count_surrogates`
  pub utf16_count_surrogates : List ℕ → ℕ
  -- "Counts the chars in a string slice."
  pub chars_count_lem : (cs : List ℕ) → All IsScalar cs → chars_count (encode cs) ≡ length cs
  -- "Converts from char-index to byte-index", past the end to the end.
  pub chars_to_byte_idx_lem :
      (cs : List ℕ) (n : ℕ)
      → All IsScalar cs
      → chars_to_byte_idx (encode cs) n ≡ length (encode (take n cs))
  -- "Counts the utf16 surrogate pairs" of the text in UTF-16.
  pub utf16_count_surrogates_lem :
      (cs : List ℕ) → All IsScalar cs → utf16_count_surrogates (encode cs) ≡ pairs cs

-- `debug` is `cfg!(debug_assertions)`, with the overflow checks that come with it.
pub record Build : Type 0 where
  pub debug : Bool
  pub miri : Bool
  pub str_indices : StrIndices
  pub open str_indices use *

module _ (e : Build) where
  -- `a - b` on `usize`
  unfoldable pub sub_usize : ℕ → ℕ → Option ℕ
  sub_usize a b =
      if leb b a then some (a - b) else if e.debug then none else some ((a + 2 ^ 64 - b) % 2 ^ 64)

  -- `a + b` on `usize`
  unfoldable pub add_usize : ℕ → ℕ → Option ℕ
  add_usize a b =
      if ltb (a + b) (2 ^ 64)
      then some (a + b)
      else if e.debug
      then none
      else some ((a + b) % 2 ^ 64)

  -- `a - b` on `u16`
  unfoldable pub sub_u16 : ℕ → ℕ → Option ℕ
  sub_u16 a b =
      if leb b a then some (a - b) else if e.debug then none else some ((a + 2 ^ 16 - b) % 2 ^ 16)

  -- `a + b` on `u16`
  unfoldable pub add_u16 : ℕ → ℕ → Option ℕ
  add_u16 a b =
      if ltb (a + b) (2 ^ 16)
      then some (a + b)
      else if e.debug
      then none
      else some ((a + b) % 2 ^ 16)

  -- `debug_assert!`
  abbrev pub debug_assert : Bool → Option (Unit {0})
  debug_assert b = if e.debug then assert b else some tt

  pub sub_usize_lem : (a b : ℕ) → b ≤ a → sub_usize a b ≡ some (a - b)
  unfolding sub_usize
  sub_usize_lem a b h = rw (le→leb b a h)

  pub add_usize_lem : (a b : ℕ) → a + b < 2 ^ 64 → add_usize a b ≡ some (a + b)
  unfolding add_usize
  add_usize_lem a b h = rw (lt→ltb (a + b) (2 ^ 64) h)

  pub sub_u16_lem : (a b : ℕ) → b ≤ a → sub_u16 a b ≡ some (a - b)
  unfolding sub_u16
  sub_u16_lem a b h = rw (le→leb b a h)

  pub add_u16_lem : (a b : ℕ) → a + b < 2 ^ 16 → add_u16 a b ≡ some (a + b)
  unfolding add_u16
  add_u16_lem a b h = rw (lt→ltb (a + b) (2 ^ 16) h)

  -- Sums and differences of counts that fit.
  pub sub_u16_count : (x y n : ℕ) → n < 2 ^ 16 → x ≡ y + n → sub_u16 x (n % 2 ^ 16) ≡ some y
  sub_u16_count x y n small h = sub_u16_lem x (n % 2 ^ 16) (omega arith) ∙ ap some (omega arith)

  pub add_u16_count : (x y n : ℕ) → y < 2 ^ 16 → y ≡ x + n → add_u16 x (n % 2 ^ 16) ≡ some y
  add_u16_count x y n small h = add_u16_lem x (n % 2 ^ 16) (omega arith) ∙ ap some (omega arith)

  pub debug_assert_lem : (b : Bool) → b ≡ Bool.true → debug_assert b ≡ some tt
  debug_assert_lem b h = ground arith

-- `x as u16`
abbrev pub as_u16 : ℕ → ℕ
as_u16 x = x % 2 ^ 16
