-- ===== src/Examples.antt =====
-- The theorems at work on small texts: `aé` and a character that UTF-16 writes as a surrogate pair.
use jumprope_rs.Base.{
  ℕ, ◌&&◌, ◌==◌, ◌^◌, ◌≤◌, ◌<◌, ◌≡◌, refl, ◌⊎◌, inl, inr, false, some, List, [], ◌∷◌, ◌++◌, arith,
  length, All, Returns, err, list_eq,
}
use jumprope_rs.Utf8.{IsScalar, encode, encode_char, pairs}
use jumprope_rs.FastStr.{
  count_chars, count_utf16_surrogates, char_to_byte_idx, utf16_code_unit_to_char_idx,
  str_chars_to_bytes_rev, count_lines,
}
use jumprope_rs.FastStr.Laws.{
  count_chars-encode, count_utf16_surrogates-encode, char_to_byte_idx-encode, count_lines-encode,
}
use jumprope_rs.FastStr.Back.{str_chars_to_bytes_rev-encode}
use jumprope_rs.FastStr.Utf16.{utf16_code_unit_to_char_idx-encode}
use jumprope_rs.FastStr.Naive.{debug_build, release_build}
use jumprope_rs.GapBuffer.{GapBuffer, move_gap}
use jumprope_rs.GapBuffer.Read.{
  count_bytes, count_surrogate_pairs, count_chars_in_wchars, check, to_string, eq,
}
use jumprope_rs.GapBuffer.Edit.{
  insert_in_gap, try_insert, new_from_str, remove, remove_chars, take_rest,
}
use jumprope_rs.GapBuffer.Holds.{Holds}
use jumprope_rs.GapBuffer.Move.{Moved, move_gap_lem}
use jumprope_rs.GapBuffer.Insert.{Inserted, insert_in_gap_lem, try_insert_lem, new_from_str_lem}
use jumprope_rs.GapBuffer.RemoveChars.{Removed, remove_chars_lem, remove_lem}
use jumprope_rs.GapBuffer.Counts.{
  count_bytes_lem, count_surrogate_pairs_lem, count_chars_in_wchars_lem,
}
use jumprope_rs.GapBuffer.Whole.{to_string_lem, check_lem, take_rest_lem, eq_lem}

-- The bytes of `aé`, three bytes of gap, and the bytes of the last character.
abbrev sample : GapBuffer
sample = record {
  bytes = 97 ∷ 195 ∷ 169 ∷ 0 ∷ 0 ∷ 0 ∷ 240 ∷ 144 ∷ 134 ∷ 154 ∷ [];
  gap_start_bytes = 3;
  gap_start_chars = 2;
  gap_start_surrogate_pairs = 0;
  gap_start_lines = 0;
  gap_len = 3;
  all_ascii = false;
}

abbrev front : List ℕ
front = 97 ∷ 233 ∷ []

abbrev back : List ℕ
back = 65946 ∷ []

small : 10 < 2 ^ 16
small = omega arith

front_scalars : All IsScalar front
front_scalars = (inl (omega arith), (inl (omega arith), tt))

back_scalars : All IsScalar back
back_scalars = (inr (omega arith, omega arith), tt)

e_scalars : All IsScalar (233 ∷ [])
e_scalars = (inl (omega arith), tt)

text_scalars : All IsScalar (front ++ back)
text_scalars = (inl (omega arith), (inl (omega arith), (inr (omega arith, omega arith), tt)))

sample-Holds : Holds 10 sample front back
unfolding encode encode_char
sample-Holds = record {
  gap = 0 ∷ 0 ∷ 0 ∷ [];
  bytes_eq = refl;
  gap_len_eq = refl;
  start_bytes = refl;
  start_chars = refl;
  start_pairs = refl;
  start_lines = refl;
  full = refl;
  scalars_before = front_scalars;
  scalars_after = back_scalars;
  ascii_before = λ t. cc;
  ascii_after = λ t. cc;
}

move_gap_lem_example :
    Returns
      (Moved 10 sample (97 ∷ []) (233 ∷ back))
      (move_gap debug_build 10 sample (length (encode (97 ∷ []))))
move_gap_lem_example =
    move_gap_lem debug_build small sample front back (97 ∷ []) (233 ∷ back) sample-Holds refl

insert_in_gap_lem_example :
    Returns
      (λ b.
        Holds 10 b (front ++ (233 ∷ [])) back
        × (b.all_ascii ≡ (sample.all_ascii && (length (encode (233 ∷ [])) == 1))))
      (insert_in_gap debug_build 10 sample (encode (233 ∷ [])))
insert_in_gap_lem_example =
    insert_in_gap_lem debug_build small sample front (233 ∷ []) back sample-Holds e_scalars
      (unfold encode encode_char in omega arith)

try_insert_lem_example :
    Returns
      (λ r.
        ((length (encode back) ≤ 3) × Inserted 10 ((97 ∷ []) ++ back) (233 ∷ back) r)
        ⊎ ((3 < length (encode back)) × (r ≡ err)))
      (try_insert release_build 10 sample (length (encode (97 ∷ []))) (encode back))
try_insert_lem_example =
    try_insert_lem release_build small sample front back (97 ∷ []) back (233 ∷ back) sample-Holds
      refl back_scalars

new_from_str_lem_example :
    Returns (λ b. Holds 10 b front []) (new_from_str debug_build 10 (encode front))
new_from_str_lem_example =
    new_from_str_lem debug_build small front front_scalars
      (unfold encode encode_char in omega arith)

remove_chars_lem_example :
    Returns (Removed 10 (233 ∷ back) ((97 ∷ []) ++ [])) (remove_chars debug_build 10 sample 1 2)
remove_chars_lem_example =
    remove_chars_lem debug_build small sample front back (97 ∷ []) (233 ∷ back) [] sample-Holds refl

remove_lem_example :
    Returns
      (Removed 10 (233 ∷ []) ((97 ∷ []) ++ back))
      (remove debug_build 10 sample (length (encode (97 ∷ []))) 2)
remove_lem_example =
    remove_lem debug_build small sample front back (97 ∷ []) (233 ∷ []) back sample-Holds refl 2
      (unfold encode encode_char in omega arith) (unfold encode encode_char in refl)

count_bytes_lem_example : count_bytes debug_build 10 sample 2 ≡ some (length (encode front))
count_bytes_lem_example =
    count_bytes_lem debug_build small sample front back front back sample-Holds refl

count_surrogate_pairs_lem_example :
    count_surrogate_pairs debug_build 10 sample 3 ≡ some (pairs (front ++ back))
count_surrogate_pairs_lem_example =
    count_surrogate_pairs_lem debug_build small sample front back (front ++ back) [] sample-Holds
      refl

count_chars_in_wchars_lem_example : count_chars_in_wchars debug_build 10 sample 4 ≡ some 3
count_chars_in_wchars_lem_example =
    count_chars_in_wchars_lem debug_build small sample front back (front ++ back) [] sample-Holds
      refl

to_string_lem_example : to_string debug_build 10 sample ≡ some (encode (front ++ back))
to_string_lem_example = to_string_lem debug_build small sample front back sample-Holds

check_lem_example : check debug_build 10 sample ≡ some tt
check_lem_example = check_lem debug_build small sample front back sample-Holds

take_rest_lem_example :
    Returns (λ (b, s). Holds 10 b front [] × (s ≡ encode back)) (take_rest debug_build 10 sample)
take_rest_lem_example = take_rest_lem debug_build small sample front back sample-Holds

-- The same text with the gap elsewhere.
abbrev moved_sample : GapBuffer
moved_sample = record {
  bytes = 97 ∷ 0 ∷ 0 ∷ 0 ∷ 195 ∷ 169 ∷ 240 ∷ 144 ∷ 134 ∷ 154 ∷ [];
  gap_start_bytes = 1;
  gap_start_chars = 1;
  gap_start_surrogate_pairs = 0;
  gap_start_lines = 0;
  gap_len = 3;
  all_ascii = false;
}

moved_sample-Holds : Holds 10 moved_sample (97 ∷ []) (233 ∷ back)
unfolding encode encode_char
moved_sample-Holds = record {
  gap = 0 ∷ 0 ∷ 0 ∷ [];
  bytes_eq = refl;
  gap_len_eq = refl;
  start_bytes = refl;
  start_chars = refl;
  start_pairs = refl;
  start_lines = refl;
  full = refl;
  scalars_before = (inl (omega arith), tt);
  scalars_after = (inl (omega arith), back_scalars);
  ascii_before = λ t. cc;
  ascii_after = λ t. cc;
}

eq_lem_example :
    eq debug_build 10 sample moved_sample
    ≡ some (list_eq (encode (front ++ back)) (encode ((97 ∷ []) ++ (233 ∷ back))))
eq_lem_example = eq_lem debug_build sample-Holds moved_sample-Holds

count_chars-encode_example : count_chars release_build (encode (front ++ back)) ≡ 3
count_chars-encode_example = count_chars-encode release_build (front ++ back) text_scalars

count_utf16_surrogates-encode_example :
    count_utf16_surrogates debug_build (encode (front ++ back)) ≡ 1
count_utf16_surrogates-encode_example =
    count_utf16_surrogates-encode debug_build (front ++ back) text_scalars

count_lines-encode_example : count_lines (encode (front ++ back)) ≡ 0
count_lines-encode_example = count_lines-encode debug_build (front ++ back) text_scalars

char_to_byte_idx-encode_example :
    char_to_byte_idx release_build (encode (front ++ back)) 2 ≡ some (length (encode front))
char_to_byte_idx-encode_example =
    char_to_byte_idx-encode release_build (front ++ back) 2 text_scalars

str_chars_to_bytes_rev-encode_example :
    str_chars_to_bytes_rev (encode (front ++ back)) 1 ≡ some (length (encode back))
str_chars_to_bytes_rev-encode_example = str_chars_to_bytes_rev-encode front back back_scalars

utf16_code_unit_to_char_idx-encode_example :
    utf16_code_unit_to_char_idx debug_build (encode ((front ++ back) ++ [])) 4 ≡ some 3
utf16_code_unit_to_char_idx-encode_example =
    utf16_code_unit_to_char_idx-encode debug_build (front ++ back) [] text_scalars
