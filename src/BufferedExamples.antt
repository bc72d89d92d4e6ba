-- ===== src/BufferedExamples.antt =====
-- The theorems on src/buffered.rs at work: typing and deleting in a rope with nodes of 10 bytes.
use jumprope_rs.Base.{
  ℕ, ◌<◌, ◌≡◌, ◌++◌, ◌>>=◌, refl, inl, true, false, some, [], ◌∷◌, arith, length, Returns, ◌==◌,
}
use jumprope_rs.Utf8.{IsScalar, encode, encode_char}
use jumprope_rs.FastStr.Naive.{debug_build}
use jumprope_rs.Buffered.{
  op_is_empty, Buffered, ins, del, insert, remove, len_chars, len_bytes, is_empty,
}
use jumprope_rs.Buffered.Views.{pending_ins, pending_del, inserting, deleting, Views}
use jumprope_rs.Buffered.Append.{joins, touches}
use jumprope_rs.Buffered.Edit.{Edited, insert-Views, remove-Views}
use jumprope_rs.Buffered.Reads.{lengths-Views, len_bytes-Views}
use jumprope_rs.Buffered.{new_from_str, into_inner}
use jumprope_rs.Buffered.Typing.{concat, type_texts, type_texts_lem}
use jumprope_rs.JumpRope.Shape.{HasText}
use jumprope_rs.RopeExamples.{text_scalars, long_text, long_scalars, turns, small, text, text_rope}

scalar : (c : ℕ) → c < 0xD800 → IsScalar c
scalar c h = inl h

-- The rope holds `hé`; `b` is to be inserted between the two.
abbrev pending_b : Buffered turns
pending_b = record { rope = text_rope.0; op = pending_ins (104 ∷ []) (98 ∷ []) }

pending_b-Views : Views 10 pending_b (104 ∷ 98 ∷ 233 ∷ [])
unfolding encode encode_char
pending_b-Views = record {
  text = text;
  has_text = text_rope.1;
  pending = inserting (104 ∷ []) (98 ∷ []) (233 ∷ []) (scalar 98 (omega arith), tt);
  text_fits = omega arith;
  fits = omega arith;
}

-- The same rope, of which the first character is to be removed.
abbrev pending_cut : Buffered turns
pending_cut = record { rope = text_rope.0; op = pending_del [] (104 ∷ []) }

pending_cut-Views : Views 10 pending_cut (233 ∷ [])
unfolding encode encode_char
pending_cut-Views = record {
  text = text;
  has_text = text_rope.1;
  pending = deleting [] (104 ∷ []) (233 ∷ []);
  text_fits = omega arith;
  fits = omega arith;
}

insert-Views_example :
    Edited debug_build 10 pending_b
      (joins pending_b.op (ins 2 (encode (233 ∷ []))))
      (104 ∷ 98 ∷ 233 ∷ 233 ∷ [])
      (pending_ins (104 ∷ 98 ∷ []) (233 ∷ []))
      (insert debug_build 10 pending_b 2 (encode (233 ∷ [])))
insert-Views_example =
    insert-Views debug_build 10 pending_b (104 ∷ 98 ∷ []) (233 ∷ []) (233 ∷ []) pending_b-Views
      (scalar 233 (omega arith), tt) (unfold encode encode_char in omega arith)

remove-Views_example :
    Edited debug_build 10 pending_b
      (joins pending_b.op (del 1 2))
      (104 ∷ 233 ∷ [])
      (pending_del (104 ∷ []) (98 ∷ []))
      (remove debug_build 10 pending_b 1 2)
remove-Views_example =
    remove-Views debug_build 10 pending_b (104 ∷ []) (98 ∷ []) (233 ∷ []) pending_b-Views

lengths-Views_example :
    (len_chars debug_build 10 pending_cut ≡ some 1)
    × (is_empty debug_build 10 pending_cut ≡ some (1 == 0))
lengths-Views_example = lengths-Views debug_build 10 small pending_cut (233 ∷ []) pending_cut-Views

len_bytes-Views_example :
    len_bytes debug_build 10 pending_b ≡ some (pending_b, length (encode (104 ∷ 98 ∷ 233 ∷ [])))
len_bytes-Views_example =
    len_bytes-Views debug_build 10 small pending_b (104 ∷ 98 ∷ 233 ∷ []) pending_b-Views refl

-- The insert above and the delete join what is pending, an insert elsewhere does not.
joins_examples :
    (joins pending_b.op (ins 2 (encode (233 ∷ []))) ≡ true)
    × (joins pending_b.op (del 1 2) ≡ true)
    × (joins pending_b.op (ins 0 (encode (233 ∷ []))) ≡ false)
unfolding joins touches op_is_empty
joins_examples = (refl, refl, refl)

type_texts_lem_example :
    Returns
      (λ r. HasText 10 r (text ++ concat (text ∷ [] ∷ long_text ∷ [])))
      (new_from_str debug_build 10 {G = turns} 0 (encode text) >>= λ b.
        type_texts debug_build 10 (text ∷ [] ∷ long_text ∷ []) 2 b >>= into_inner debug_build 10)
unfolding encode encode_char concat
type_texts_lem_example =
    type_texts_lem debug_build 10 small (omega arith) 0 text (text ∷ [] ∷ long_text ∷ [])
      text_scalars (text_scalars, (tt, (long_scalars, tt))) (omega arith)
