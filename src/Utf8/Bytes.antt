-- ===== src/Utf8/Bytes.antt =====
-- The bytes of one character.
use jumprope_rs.Base.{
  ℕ, suc, ◌+◌, ◌/◌, ◌%◌, ◌≤◌, ◌<◌, ◌≡◌, refl, Bool, true, false, not, some, List, [], ◌∷◌, ◌++◌,
  arith, ltb, leb, ◌==◌, if◌then◌else◌, count_by, every_under, every_under-at, ◌∙◌, Bool-cases, inl,
  inr,
}
use jumprope_rs.Utf8.{
  IsScalar, encode_char, is_start, is_wide, astral, is_newline, Need, need, after_start, after_byte,
  utf8_from,
}

same : Bool → Bool → Bool
same true b = b
same false b = not b

same→eq : (a b : Bool) → same a b ≡ true → a ≡ b
unfolding same
same→eq true b h = ground arith
same→eq false b h = ground arith

start_table : every_under (λ b. same (is_start b) (not (b / 64 == 2))) 256 ≡ true
unfolding every_under is_start same
start_table = refl

wide_table : every_under (λ b. same (is_wide b) (leb 0xf0 b)) 256 ≡ true
unfolding every_under is_wide same
wide_table = refl

pub is_start_lem : (b : ℕ) → b < 256 → is_start b ≡ not (b / 64 == 2)
is_start_lem b h =
    same→eq _ _ (every_under-at (λ b. same (is_start b) (not (b / 64 == 2))) 256 b h start_table)

pub is_wide_lem : (b : ℕ) → b < 256 → is_wide b ≡ leb 0xf0 b
is_wide_lem b h =
    same→eq _ _ (every_under-at (λ b. same (is_wide b) (leb 0xf0 b)) 256 b h wide_table)

module _ (c : ℕ) (s : IsScalar c) where
  -- One byte of a character is its first.
  pub count_start-encode_char : count_by is_start (encode_char c) ≡ 1
  unfolding encode_char
  count_start-encode_char = ground (
    arith,
    is_start_lem c,
    is_start_lem (0xC0 + c / 64),
    is_start_lem (0xE0 + c / 4096),
    is_start_lem (0xF0 + c / 262144),
    is_start_lem (0x80 + c / 4096 % 64),
    is_start_lem (0x80 + c / 64 % 64),
    is_start_lem (0x80 + c % 64),
  )

  pub count_wide-encode_char : count_by is_wide (encode_char c) ≡ (if astral c then 1 else 0)
  unfolding encode_char
  count_wide-encode_char = ground (
    arith,
    is_wide_lem c,
    is_wide_lem (0xC0 + c / 64),
    is_wide_lem (0xE0 + c / 4096),
    is_wide_lem (0xF0 + c / 262144),
    is_wide_lem (0x80 + c / 4096 % 64),
    is_wide_lem (0x80 + c / 64 % 64),
    is_wide_lem (0x80 + c % 64),
  )

  pub count_newline-encode_char :
      count_by is_newline (encode_char c) ≡ (if is_newline c then 1 else 0)
  unfolding encode_char
  count_newline-encode_char = ground arith

utf8_from-step :
    (n l h b : ℕ) (r : Need) (bs : List ℕ)
    → after_byte n l h b ≡ some r
    → utf8_from n l h (b ∷ bs) ≡ utf8_from r.left r.low r.high bs
unfolding utf8_from
utf8_from-step n l h b r bs e = rw (e, utf8_from)

-- After the last byte of a character the bounds are not read.
utf8_from-done : (l h : ℕ) (bs : List ℕ) → utf8_from 0 l h bs ≡ utf8_from 0 0 0 bs
unfolding utf8_from after_byte
utf8_from-done l h [] = refl
utf8_from-done l h (b ∷ bs) = refl

after_start_three :
    (b : ℕ)
    → 0xE0 ≤ b
    → b ≤ 0xEF
    → after_start b
      ≡ some (need 2 (if b == 0xE0 then 0xA0 else 0x80) (if b == 0xED then 0x9F else 0xBF))
unfolding after_start
after_start_three b h k = ground arith

after_start_four :
    (b : ℕ)
    → 0xF0 ≤ b
    → b ≤ 0xF4
    → after_start b
      ≡ some (need 3 (if b == 0xF0 then 0x90 else 0x80) (if b == 0xF4 then 0x8F else 0xBF))
unfolding after_start
after_start_four b h k = ground arith

after_byte-start : (b : ℕ) → after_byte 0 0 0 b ≡ after_start b
unfolding after_byte
after_byte-start b = refl

-- A continuation byte within the bounds.
after_byte-suc : (n l h b : ℕ) → l ≤ b → b ≤ h → after_byte (suc n) l h b ≡ some (need n 0x80 0xBF)
unfolding after_byte
after_byte-suc n l h b p q = ground arith

module _ (c : ℕ) (bs : List ℕ) where
  passes_one : c < 0x80 → utf8_from 0 0 0 (c ∷ bs) ≡ utf8_from 0 0 0 bs
  unfolding after_byte
  passes_one h = utf8_from-step 0 0 0 _ (need 0 0 0) bs (ground arith)

  passes_two :
      0x80 ≤ c
      → c < 0x800
      → utf8_from 0 0 0 ((0xC0 + c / 64) ∷ (0x80 + c % 64) ∷ bs) ≡ utf8_from 0 0 0 bs
  unfolding after_byte
  passes_two h k =
      utf8_from-step 0 0 0 _ (need 1 0x80 0xBF) ((0x80 + c % 64) ∷ bs) (ground arith)
      ∙ utf8_from-step 1 0x80 0xBF _ (need 0 0x80 0xBF) bs
          (after_byte-suc 0 0x80 0xBF (0x80 + c % 64) (omega arith) (omega arith))
      ∙ utf8_from-done 0x80 0xBF bs

  -- The bytes of a character after the second one.
  passes_tail_two :
      (l h b : ℕ) → l ≤ b → b ≤ h → utf8_from 2 l h (b ∷ (0x80 + c % 64) ∷ bs) ≡ utf8_from 0 0 0 bs
  passes_tail_two l h b p q =
      utf8_from-step 2 l h _ (need 1 0x80 0xBF) ((0x80 + c % 64) ∷ bs) (after_byte-suc 1 l h b p q)
      ∙ utf8_from-step 1 0x80 0xBF _ (need 0 0x80 0xBF) bs
          (after_byte-suc 0 0x80 0xBF (0x80 + c % 64) (omega arith) (omega arith))
      ∙ utf8_from-done 0x80 0xBF bs

  passes_three :
      IsScalar c
      → 0x800 ≤ c
      → c < 0x10000
      → utf8_from 0 0 0 ((0xE0 + c / 4096) ∷ (0x80 + c / 64 % 64) ∷ (0x80 + c % 64) ∷ bs)
        ≡ utf8_from 0 0 0 bs
  passes_three s h k =
      utf8_from-step 0 0 0 _ (need 2 low high) ((0x80 + c / 64 % 64) ∷ (0x80 + c % 64) ∷ bs)
        (after_byte-start first ∙ after_start_three first (omega arith) (omega arith))
      ∙ passes_tail_two low high (0x80 + c / 64 % 64) (ground arith) (ground arith)
    where
      first : ℕ
      first = 0xE0 + c / 4096

      low : ℕ
      low = if first == 0xE0 then 0xA0 else 0x80

      high : ℕ
      high = if first == 0xED then 0x9F else 0xBF

  passes_four :
      0x10000 ≤ c
      → c < 0x110000
      → utf8_from 0 0 0 (
          (0xF0 + c / 262144)
          ∷ (0x80 + c / 4096 % 64)
          ∷ (0x80 + c / 64 % 64)
          ∷ (0x80 + c % 64)
          ∷ bs)
        ≡ utf8_from 0 0 0 bs
  passes_four h k =
      utf8_from-step 0 0 0 _ (need 3 low high)
        ((0x80 + c / 4096 % 64) ∷ (0x80 + c / 64 % 64) ∷ (0x80 + c % 64) ∷ bs)
        (after_byte-start first ∙ after_start_four first (omega arith) (omega arith))
      ∙ utf8_from-step 3 low high _ (need 2 0x80 0xBF) ((0x80 + c / 64 % 64) ∷ (0x80 + c % 64) ∷ bs)
          (after_byte-suc 2 low high (0x80 + c / 4096 % 64) (ground arith) (ground arith))
      ∙ passes_tail_two 0x80 0xBF (0x80 + c / 64 % 64) (omega arith) (omega arith)
    where
      first : ℕ
      first = 0xF0 + c / 262144

      low : ℕ
      low = if first == 0xF0 then 0x90 else 0x80

      high : ℕ
      high = if first == 0xF4 then 0x8F else 0xBF

-- The test of UTF-8 passes over a character.
pub utf8_from-encode_char :
    (c : ℕ)
    → IsScalar c
    → (bs : List ℕ) → utf8_from 0 0 0 (encode_char c ++ bs) ≡ utf8_from 0 0 0 bs
unfolding encode_char
utf8_from-encode_char c s bs = elim (Bool-cases (ltb c 0x80)) [
  | inl a ↦ rw a (passes_one c bs (ground arith))
  | inr a ↦ rw a (elim (Bool-cases (ltb c 0x800)) [
    | inl b ↦ rw b (passes_two c bs (ground arith) (ground arith))
    | inr b ↦ rw b (elim (Bool-cases (ltb c 0x10000)) [
      | inl d ↦ rw d (passes_three c bs s (ground arith) (ground arith))
      | inr d ↦ rw d (passes_four c bs (ground arith) (ground arith))
    ])
  ])
]
