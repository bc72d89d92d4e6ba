-- ===== src/RopeExamples.antt =====
-- Runs of the rope, with nodes of 10 bytes and a generator of two bytes that take turns.
use jumprope_rs.Base.{
  ℕ, zero, suc, ◌-◌, ◌^◌, ◌≤◌, ◌<◌, ◌≡◌, ◌++◌, ◌∙◌, ap₂, refl, arith, inl, true, false, length, All,
  Returns, Returns-result, Option, none, some, List, [], ◌∷◌, if◌then◌else◌, ◌==◌, ◌>>=◌,
}
use jumprope_rs.Utf8.{IsScalar, encode, encode_char, pairs}
use jumprope_rs.FastStr.Utf16.{units}
use jumprope_rs.JumpRope.{new_with_rng, len_chars, len_wchars, len_bytes, is_empty, is_ascii_only}
use jumprope_rs.JumpRope.Cells.{texts}
use jumprope_rs.JumpRope.Cursor.{
  read_cursor_at_char, mut_cursor_at_end, mut_cursor_at_char, global_char_pos,
}
use jumprope_rs.JumpRope.Insert.{Editing, insert_node_at, insert_in_node, insert_nodes}
use jumprope_rs.JumpRope.Shape.{HasText, Full}
use jumprope_rs.JumpRope.Stands.{Stands}
use jumprope_rs.JumpRope.InNode.{insert_in_node_lem}
use jumprope_rs.JumpRope.AppendText.{insert-past_end, insert-short, new_from_str_text}
use jumprope_rs.JumpRope.Empty.{new_with_rng_lem, counts_lem}
use jumprope_rs.JumpRope.Top.{cursors-past_end, mut_cursor_at_char_lem, HasText-Stands}
use jumprope_rs.JumpRope.InsertNode.{insert_node_at-Stands}
use jumprope_rs.JumpRope.InsertNodes.{StandsAtEnd, insert_nodes_lem}
use jumprope_rs.FastStr.Naive.{debug_build}
use jumprope_rs.GapBuffer.Read.{to_string}
use jumprope_rs.JumpRope.{Rng, JumpRope, first_next, max_height, random_height}
use jumprope_rs.JumpRope.Height.{first, random_height_lem}
use jumprope_rs.JumpRope.Edit.{
  new_from_str, insert, remove, replace, insert_at_wchar, remove_at_wchar,
}

abbrev pub turns : Rng
turns = record {
  State = ℕ;
  seed_from = λ seed. seed;
  gen = λ s. (if s == 0 then 10 else 200, 1 - s);
}

-- The texts of the nodes from the one at an address.
abbrev node_texts : ℕ → JumpRope turns → ℕ → Option (List (List ℕ))
node_texts zero r a = none
node_texts (suc fuel) r a = do
  n ← r.nodes a
  text ← to_string debug_build 10 n.str
  next ← first_next n
  elim next.node [
    | none ↦ some (text ∷ [])
    | some a' ↦ do rest ← node_texts fuel r a'; some (text ∷ rest)
  ]

abbrev run : Option (List (List ℕ))
run = do
  r ← new_from_str debug_build 10 {G = turns} 0 (
      1 ∷ 2 ∷ 3 ∷ 4 ∷ 5 ∷ 6 ∷ 7 ∷ 8 ∷ 9 ∷ 10 ∷ 11 ∷ 12 ∷ 13 ∷ 14 ∷ 15 ∷ 240 ∷ 144 ∷ 134 ∷ 154 ∷ 16
      ∷ 17 ∷ 18 ∷ 19 ∷ [])
  r1 ← insert debug_build 10 r 7 (65 ∷ 66 ∷ 67 ∷ 68 ∷ 69 ∷ [])
  r2 ← remove debug_build 10 r1 1 14
  r3 ← replace debug_build 10 r2 2 3 (70 ∷ 71 ∷ [])
  (r4, _) ← insert_at_wchar debug_build 10 r3 7 (72 ∷ [])
  r5 ← remove_at_wchar debug_build 10 r4 0 2
  node_texts 20 r5 r5.head

random_height_lem_example :
    (1 ≤ first (random_height turns 0)) × (first (random_height turns 0) ≤ max_height)
random_height_lem_example = random_height_lem turns 0

-- A new rope, and a cursor in it.
pub small : 10 < 2 ^ 16
small = omega arith

empty : (r : JumpRope turns) × HasText 10 r []
empty = let (r, _, h) = Returns-result (new_with_rng_lem debug_build 10 small turns 0) in (r, h)

start : (c : Editing turns) × (xs : List ℕ) × Stands (Full 10) [] xs [] c
start =
    let (inner, _, found) =
      Returns-result (mut_cursor_at_char_lem debug_build 10 small empty.0 [] [] empty.1) in
    (record { rope = empty.0; inner = inner }, found.1.0, found.1.1)

append-eq-nil : (xs ys : List ℕ) → xs ++ ys ≡ [] → (xs ≡ []) × (ys ≡ [])
append-eq-nil [] ys h = (refl, h)
append-eq-nil (x ∷ xs) ys h = cc

abbrev pub text : List ℕ
text = 104 ∷ 233 ∷ []

pub text_scalars : All IsScalar text
text_scalars = (inl (omega arith), (inl (omega arith), tt))

nothing_behind : start.2.spot.place.ys ≡ []
nothing_behind =
    (append-eq-nil start.2.spot.place.ys (texts start.2.spot.place.after) start.2.spot.back_eq).0

no_text : start.2.spot.place.here.text ≡ []
no_text =
    let p = start.2.spot.place in
    p.text_eq
    ∙ ap₂ (λ xs ys. xs ++ ys) (append-eq-nil (texts p.before) p.xs start.2.spot.front_eq).1
        nothing_behind

pub text_rope : (r : JumpRope turns) × HasText 10 r text
unfolding encode encode_char
text_rope =
    let (c, _, st) = Returns-result (
      insert_node_at-Stands debug_build 10 small start.0 [] start.1 [] text start.2 nothing_behind
        text_scalars (omega arith) (omega arith) (omega arith)) in
    (c.rope, HasText-Stands 10 c text text [] st)

new_with_rng_lem_example : Returns (λ r. HasText 10 r []) (new_with_rng debug_build 10 turns 0)
new_with_rng_lem_example = new_with_rng_lem debug_build 10 small turns 0

counts_lem_example :
    (len_chars text_rope.0 ≡ some 2)
    × (len_wchars debug_build text_rope.0 ≡ some (units text))
    × (len_bytes text_rope.0 ≡ length (encode text))
    × (is_empty text_rope.0 ≡ false)
    × (is_ascii_only text_rope.0 ≡ some true)
counts_lem_example = counts_lem debug_build 10 small text_rope.0 text text_rope.1

mut_cursor_at_char_lem_example :
    Returns
      (λ inner.
        (global_char_pos text_rope.0 inner ≡ some 1)
        × ((xs : List ℕ) × Stands
              (Full 10)
              (104 ∷ [])
              xs
              (233 ∷ [])
              (record { rope = text_rope.0; inner = inner })))
      (mut_cursor_at_char debug_build 10 text_rope.0 1 true)
mut_cursor_at_char_lem_example =
    mut_cursor_at_char_lem debug_build 10 small text_rope.0 (104 ∷ []) (233 ∷ []) text_rope.1

insert_node_at-Stands_example :
    Returns
      (Stands (Full 10) text text [])
      (insert_node_at debug_build 10 start.0 (encode text) (length text) true (pairs text))
unfolding encode encode_char
insert_node_at-Stands_example =
    insert_node_at-Stands debug_build 10 small start.0 [] start.1 [] text start.2 nothing_behind
      text_scalars (omega arith) (omega arith) (omega arith)

insert_in_node_lem_example : Returns (Stands (Full 10) text (start.1 ++ text) []) (
    insert_in_node debug_build 10 start.0 start.2.spot.place.here.addr
      (length (encode start.2.spot.place.xs))
      (encode text)
      (length text)
      (pairs text))
unfolding encode encode_char
insert_in_node_lem_example =
    insert_in_node_lem debug_build 10 small start.0 [] start.1 [] text start.2 text_scalars
      (omega arith) (omega arith) start.2.spot.place.here.addr refl (rw no_text (omega arith))

-- Too long for one node of 10 bytes, with a character of two bytes over the place to cut.
abbrev pub long_text : List ℕ
long_text = 97 ∷ 98 ∷ 99 ∷ 100 ∷ 101 ∷ 102 ∷ 103 ∷ 104 ∷ 105 ∷ 233 ∷ 106 ∷ []

pub long_scalars : All IsScalar long_text
long_scalars = (
  inl (omega arith),
  (
    inl (omega arith),
    (
      inl (omega arith),
      (
        inl (omega arith),
        (
          inl (omega arith),
          (
            inl (omega arith),
            (
              inl (omega arith),
              (
                inl (omega arith),
                (inl (omega arith), (inl (omega arith), (inl (omega arith), tt))),
              ),
            ),
          ),
        ),
      ),
    ),
  ),
)

insert_nodes_lem_example :
    Returns (StandsAtEnd 10 long_text []) (
      insert_nodes debug_build 10 20 start.0
        (encode long_text)
        (length long_text)
        (pairs long_text))
unfolding encode encode_char
insert_nodes_lem_example =
    insert_nodes_lem debug_build 10 small (omega arith) [] 20 start.0 [] start.1 long_text start.2
      nothing_behind long_scalars (omega arith) (omega arith) (omega arith)

cursors-past_end_example :
    (mut_cursor_at_char debug_build 10 text_rope.0 3 true ≡ none)
    × (read_cursor_at_char debug_build 10 text_rope.0 3 true ≡ none)
    × Returns
        (λ inner. global_char_pos text_rope.0 inner ≡ some 2)
        (mut_cursor_at_end debug_build 10 text_rope.0)
cursors-past_end_example =
    cursors-past_end debug_build 10 small text_rope.0 text text_rope.1 3 true (omega arith)

insert-past_end_example :
    Returns
      (λ r. HasText 10 r (text ++ long_text))
      (insert debug_build 10 text_rope.0 5 (encode long_text))
unfolding encode encode_char
insert-past_end_example =
    insert-past_end debug_build 10 small (omega arith) text_rope.0 text long_text 5 text_rope.1
      (omega arith) long_scalars (omega arith)

new_from_str_text_example :
    Returns
      (λ r. HasText 10 r long_text)
      (new_from_str debug_build 10 {G = turns} 0 (encode long_text))
unfolding encode encode_char
new_from_str_text_example =
    new_from_str_text debug_build 10 small (omega arith) 0 long_text long_scalars (omega arith)

insert-short_example :
    Returns
      (λ r. HasText 10 r (104 ∷ 104 ∷ 233 ∷ 233 ∷ []))
      (insert debug_build 10 text_rope.0 1 (encode text))
unfolding encode encode_char
insert-short_example =
    insert-short debug_build 10 small text_rope.0 (104 ∷ []) text (233 ∷ []) text_rope.1
      text_scalars (omega arith)
