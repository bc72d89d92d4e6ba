-- ===== src/Utf8/Shape.antt =====
-- A character is one first byte and continuation bytes.
use jumprope_rs.Base.{
  ℕ, ◌+◌, ◌/◌, ◌%◌, ◌≤◌, ◌<◌, ◌≡◌, true, false, List, [], ◌∷◌, arith, ltb, All, Bool-cases, inl,
  inr,
}
use jumprope_rs.Utf8.{IsScalar, encode_char, is_start}
use jumprope_rs.Utf8.Bytes.{is_start_lem}

abbrev pub IsTail : List ℕ → Type 0
IsTail = All (λ b. is_start b ≡ false)

pub record Shape (c : ℕ) : Type 0 where
  pub first : ℕ
  pub tail : List ℕ
  pub shape : encode_char c ≡ first ∷ tail
  pub starts : is_start first ≡ true
  pub continues : IsTail tail

continues : (n : ℕ) → n < 64 → is_start (0x80 + n) ≡ false
continues n h = ground (arith, is_start_lem (0x80 + n))

starts : (b : ℕ) → b < 0x80 → is_start b ≡ true
starts b h = ground (arith, is_start_lem b)

starts_high : (b : ℕ) → 0xC0 ≤ b → b < 256 → is_start b ≡ true
starts_high b h k = ground (arith, is_start_lem b)

pub encode_char-Shape : (c : ℕ) → IsScalar c → Shape c
unfolding encode_char
encode_char-Shape c s = elim (Bool-cases (ltb c 0x80)) [
  | inl a ↦ record {
    first = c;
    tail = [];
    shape = rw a;
    starts = starts c (ground arith);
    continues = tt;
  }
  | inr a ↦ elim (Bool-cases (ltb c 0x800)) [
    | inl b ↦ record {
      first = 0xC0 + c / 64;
      tail = (0x80 + c % 64) ∷ [];
      shape = rw (a, b);
      starts = starts_high (0xC0 + c / 64) (omega arith) (ground arith);
      continues = (continues (c % 64) (omega arith), tt);
    }
    | inr b ↦ elim (Bool-cases (ltb c 0x10000)) [
      | inl d ↦ record {
        first = 0xE0 + c / 4096;
        tail = (0x80 + c / 64 % 64) ∷ (0x80 + c % 64) ∷ [];
        shape = rw (a, b, d);
        starts = starts_high (0xE0 + c / 4096) (omega arith) (ground arith);
        continues = (continues (c / 64 % 64) (omega arith), (continues (c % 64) (omega arith), tt));
      }
      | inr d ↦ record {
        first = 0xF0 + c / 262144;
        tail = (0x80 + c / 4096 % 64) ∷ (0x80 + c / 64 % 64) ∷ (0x80 + c % 64) ∷ [];
        shape = rw (a, b, d);
        starts = starts_high (0xF0 + c / 262144) (omega arith) (ground arith);
        continues = (
          continues (c / 4096 % 64) (omega arith),
          (continues (c / 64 % 64) (omega arith), (continues (c % 64) (omega arith), tt)),
        );
      }
    ]
  ]
]
