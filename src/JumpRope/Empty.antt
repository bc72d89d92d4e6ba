-- ===== src/JumpRope/Empty.antt =====
-- New ropes of src/jumprope.rs, and the counts of a rope.
use jumprope_rs.Base.{
  ℕ, ◌+◌, ◌^◌, ◌≤◌, ◌<◌, ◌≡◌, refl, ap, ◌∙◌, zero, suc, replicate, get_elem?, none, if◌then◌else◌,
  some, List, [], ◌∷◌, arith, length, All, Returns, returns, Returns-bind, ◌==◌,
}
use jumprope_rs.Utf8.{IsScalar, encode, pairs}
use jumprope_rs.FastStr.Utf16.{units}
use jumprope_rs.Utf8.Laws.{length-le-encode}
use jumprope_rs.Build.{Build}
use jumprope_rs.GapBuffer.Holds.{Holds}
use jumprope_rs.GapBuffer.Insert.{new_from_str_lem}
use jumprope_rs.JumpRope.{
  Rng, Node, JumpRope, max_height, entry_new, new_with_height, new_with_rng, len_chars, len_wchars,
  len_bytes, is_empty, is_ascii_only,
}
use jumprope_rs.JumpRope.Cells.{entry_end, grown}
use jumprope_rs.JumpRope.Store.{next_of, next_of_node}
use jumprope_rs.JumpRope.Shape.{HasText}
use jumprope_rs.JumpRope.Reach.{len_chars-IsRope, len_wchars-IsRope, whole_lem}

-- A new node.
pub record NewNode (size height : ℕ) (t : List ℕ) (n : Node) : Type 0 where
  pub height_eq : n.height ≡ height
  pub nexts_eq : n.nexts ≡ replicate (max_height + 1) entry_new
  pub held : Holds size n.str t []

module _ (e : Build) (size : ℕ) (small : size < 2 ^ 16) where
  pub new_with_height_lem :
      (height : ℕ) (cs : List ℕ)
      → All IsScalar cs
      → length (encode cs) ≤ size
      → Returns (NewNode size height cs) (new_with_height e size height (encode cs))
  unfolding new_with_height
  new_with_height_lem height cs scalars fits =
      Returns-bind (new_from_str_lem e small cs scalars fits)
        λ str held. returns (record { height_eq = refl; nexts_eq = refl; held = held })

  -- `new_with_rng` with any generator does not panic, and the rope is well-formed and has no text
  -- (`HasText`), if nodes have fewer than 65536 bytes.
  pub new_with_rng_lem :
      (G : Rng) (rng : G.State) → Returns (λ r. HasText size r []) (new_with_rng e size G rng)
  unfolding new_with_rng encode
  new_with_rng_lem G rng =
      Returns-bind (new_with_height_lem 1 [] tt (omega arith)) λ head h. returns (rope_of head h)
    where
      new_rope : Node → JumpRope G
      new_rope head = record {
        rng = rng;
        num_bytes = 0;
        head = 0;
        nodes = λ a. if a == 0 then some head else none;
        fresh = 1;
      }

      rope_of : (head : Node) → NewNode size 1 [] head → HasText size (new_rope head) []
      rope_of head h = record {
        levels = 1;
        top = record { addr = 0; height = max_height + 1; text = [] };
        rest = [];
        shape = record {
          head_eq = refl;
          top_height = refl;
          levels_pos = omega arith;
          levels_le = omega arith;
          lower = tt;
          heights_pos = tt;
          filled = tt;
          top_at = record {
            node = head;
            found = refl;
            height_eq = h.height_eq;
            wide = ap length h.nexts_eq;
            held = record { before = []; after = []; held = h.held; text_eq = refl };
          };
          nodes_at = tt;
          links = λ l lt. (
            (λ _.
                ap (next_of (new_rope head) l) refl
                ∙ next_of_node (new_rope head) l 0 head refl
                ∙ ap (λ xs. get_elem? xs l) h.nexts_eq
                ∙ only_level l lt),
            tt,
          );
          distinct = (tt, tt);
          used = (omega arith, tt);
          enough = omega arith;
          bytes = refl;
          fits = omega arith;
        };
        text_eq = refl;
      }
        where
          only_level :
              (l : ℕ)
              → l < 1
              → get_elem? (replicate (max_height + 1) entry_new) l ≡ some (grown [] entry_end)
          only_level zero lt = unfold entry_new in refl
          only_level (suc l) lt = absurd (omega arith)

-- A text of no bytes has no characters.
empty-same : {n : ℕ} (t : List ℕ) → n ≡ length (encode t) → (n == 0) ≡ (length t == 0)
unfolding encode
empty-same [] h = ground arith
empty-same (c ∷ t) h = let long = length-le-encode (c ∷ t) in ground (arith, h, long)

module _ (e : Build) (size : ℕ) (small : size < 2 ^ 16) {G : Rng} (r : JumpRope G) (t : List ℕ)
    (h : HasText size r t) where
  -- In a well-formed rope, of nodes of fewer than 65536 bytes, that has a text (`HasText`),
  -- `len_chars` and `len_wchars` do not panic or overflow and are the number of characters and of
  -- UTF-16 units of the text, `len_bytes` is the number of its bytes, `is_empty` tells whether it
  -- has no characters, and `is_ascii_only` whether no character needs a surrogate pair, which is
  -- not whether all are ASCII.
  pub counts_lem :
      (len_chars r ≡ some (length t))
      × (len_wchars e r ≡ some (units t))
      × (len_bytes r ≡ length (encode t))
      × (is_empty r ≡ (length t == 0))
      × (is_ascii_only r ≡ some (pairs t == 0))
  unfolding len_bytes is_empty is_ascii_only
  counts_lem =
      let bytes : r.num_bytes ≡ length (encode t) =
        h.shape.bytes ∙ ap (λ x. length (encode x)) h.text_eq in
      (
        len_chars-IsRope e size small r h.levels h.top h.rest h.shape
            ∙ ap (λ x. some (length x)) h.text_eq,
        len_wchars-IsRope e size small r h.levels h.top h.rest h.shape
            ∙ ap (λ x. some (units x)) h.text_eq,
        bytes,
        empty-same t bytes,
        rw (whole_lem e size small r h.levels h.top h.rest h.shape)
            (ap (λ n. some (n == 0)) (omega arith) ∙ ap (λ x. some (pairs x == 0)) h.text_eq),
      )
