-- ===== src/Utf8.antt =====
-- UTF-8 as Rust's `str` has it: a text is a list of Unicode scalar values, a `&str` its bytes.
-- `is_utf8` is the test that `std::str::from_utf8` makes.
pub mod Bytes
pub mod Laws
pub mod Shape
pub mod Boundary
use jumprope_rs.Base.{
  ℕ, ◌^◌, zero, suc, ◌+◌, ◌-◌, ◌/◌, ◌%◌, ◌≤◌, ◌<◌, ◌⊎◌, Bool, true, false, not, ◌&&◌, Option, none,
  some, List, [], ◌∷◌, ◌++◌, ltb, leb, ◌==◌, if◌then◌else◌, bit_and, count_by, ◌*◌, ◌||◌, length,
  get_elem?, slice, assert, ◌>>=◌, ◌>>◌,
}

-- `char`: any code point but the surrogates.
abbrev pub IsScalar : ℕ → Type 0
IsScalar c = (c < 0xD800) ⊎ ((0xE000 ≤ c) × (c < 0x110000))

-- `char::encode_utf8`
unfoldable pub encode_char : ℕ → List ℕ
encode_char c =
    if ltb c 0x80
    then c ∷ []
    else if ltb c 0x800
    then (0xC0 + c / 64) ∷ (0x80 + c % 64) ∷ []
    else if ltb c 0x10000
    then (0xE0 + c / 4096) ∷ (0x80 + c / 64 % 64) ∷ (0x80 + c % 64) ∷ []
    else (0xF0 + c / 262144) ∷ (0x80 + c / 4096 % 64) ∷ (0x80 + c / 64 % 64) ∷ (0x80 + c % 64) ∷ []

-- The bytes of a text.
unfoldable pub encode : List ℕ → List ℕ
encode [] = []
encode (c ∷ cs) = encode_char c ++ encode cs

-- `(byte & 0xC0) != 0x80`: the first byte of a character.
unfoldable pub is_start : ℕ → Bool
is_start b = not (bit_and b 0xC0 == 0x80)

-- `(byte & 0xf0) == 0xf0`: the first byte of a character that UTF-16 writes as a surrogate pair.
unfoldable pub is_wide : ℕ → Bool
is_wide b = bit_and b 0xf0 == 0xf0

-- Characters that UTF-16 writes as a surrogate pair.
abbrev pub astral : ℕ → Bool
astral c = leb 0x10000 c

abbrev pub pairs : List ℕ → ℕ
pairs = count_by astral

abbrev pub is_newline : ℕ → Bool
is_newline b = b == 0x0A

-- What a valid text goes on with: so many continuation bytes, the next one between two bounds.
pub record Need : Type 0 where
  pub left : ℕ
  pub low : ℕ
  pub high : ℕ

abbrev pub need : ℕ → ℕ → ℕ → Need
need n l h = record { left = n; low = l; high = h }

abbrev within : ℕ → ℕ → ℕ → Bool
within l h b = leb l b && leb b h

-- The first byte of a character.
unfoldable pub after_start : ℕ → Option Need
after_start b =
    if ltb b 0x80
    then some (need 0 0 0)
    else if within 0xC2 0xDF b
    then some (need 1 0x80 0xBF)
    else if b == 0xE0
    then some (need 2 0xA0 0xBF)
    else if b == 0xED
    then some (need 2 0x80 0x9F)
    else if within 0xE1 0xEF b
    then some (need 2 0x80 0xBF)
    else if b == 0xF0
    then some (need 3 0x90 0xBF)
    else if within 0xF1 0xF3 b
    then some (need 3 0x80 0xBF)
    else if b == 0xF4
    then some (need 3 0x80 0x8F)
    else none

unfoldable pub after_byte : ℕ → ℕ → ℕ → ℕ → Option Need
unfolding after_start
after_byte zero l h b = after_start b
after_byte (suc n) l h b = if within l h b then some (need n 0x80 0xBF) else none

unfoldable pub utf8_from : ℕ → ℕ → ℕ → List ℕ → Bool
utf8_from n l h [] = n == 0
utf8_from n l h (b ∷ bs) = elim (after_byte n l h b) [
  | none ↦ false
  | some r ↦ utf8_from r.left r.low r.high bs
]

unfoldable pub is_utf8 : List ℕ → Bool
unfolding utf8_from after_byte
is_utf8 = utf8_from 0 0 0

-- `str::chars`, on valid UTF-8: the continuation bytes to come, and the bits so far.
pub record Partial : Type 0 where
  pub left : ℕ
  pub bits : ℕ
  pub done : Option ℕ

abbrev partial : ℕ → ℕ → Partial
partial n v = record { left = n; bits = v; done = none }

abbrev complete : ℕ → Partial
complete c = record { left = 0; bits = 0; done = some c }

unfoldable pub decode_byte : ℕ → ℕ → ℕ → Partial
decode_byte zero v b =
    if ltb b 0x80
    then complete b
    else if ltb b 0xE0
    then partial 1 (b % 32)
    else if ltb b 0xF0
    then partial 2 (b % 16)
    else partial 3 (b % 8)
decode_byte (suc zero) v b = complete (v * 64 + b % 64)
decode_byte (suc (suc n)) v b = partial (suc n) (v * 64 + b % 64)

abbrev pub emit : Option ℕ → List ℕ → List ℕ
emit none cs = cs
emit (some c) cs = c ∷ cs

unfoldable pub chars_from : ℕ → ℕ → List ℕ → List ℕ
chars_from n v [] = []
chars_from n v (b ∷ bs) = let r = decode_byte n v b in emit r.done (chars_from r.left r.bits bs)

unfoldable pub chars : List ℕ → List ℕ
unfolding chars_from decode_byte
chars = chars_from 0 0

-- `char::len_utf16`
abbrev pub len_utf16 : ℕ → ℕ
len_utf16 c = if astral c then 2 else 1

-- `str::is_char_boundary`
unfoldable pub is_char_boundary : List ℕ → ℕ → Bool
unfolding is_start
is_char_boundary s i =
    i == 0 || i == length s || elim (get_elem? s i) [ none ↦ false | some b ↦ is_start b ]

-- `&s[lo..hi]` of a `&str`, which panics inside a character.
unfoldable pub str_slice : ℕ → ℕ → List ℕ → Option (List ℕ)
unfolding is_char_boundary slice
str_slice lo hi s = do assert (is_char_boundary s lo && is_char_boundary s hi); slice lo hi s

-- No allocation in Rust is larger.
abbrev pub Fits : List ℕ → Type 0
Fits t = length (encode t) < 2 ^ 63
