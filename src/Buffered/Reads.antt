-- ===== src/Buffered/Reads.antt =====
-- The methods of src/buffered.rs that read a buffered rope without a flush, and a new one.
use jumprope_rs.Base.{
  ℕ, ◌+◌, ◌-◌, ◌^◌, ◌<◌, ◌≡◌, refl, ◌∙◌, some, List, [], ◌++◌, arith, ◌==◌, length, ap, Returns,
  returns, Returns-bind, length-append,
}
use jumprope_rs.Utf8.{encode, Fits}
use jumprope_rs.Utf8.Laws.{length-le-encode, encode-append}
use jumprope_rs.Build.{Build, add_usize_lem, sub_usize_lem}
use jumprope_rs.JumpRope.{Rng, new_from_seed}
use jumprope_rs.JumpRope.Empty.{counts_lem, new_with_rng_lem}
use jumprope_rs.Buffered.{
  kind_ins, BufferedOp, op_is_empty, op_len, Buffered, new, len_chars_by, len_chars, len_bytes_by,
  len_bytes, is_empty_by, is_empty,
}
use jumprope_rs.Buffered.Views.{Pending, inserting, deleting, Views, with_rope-Views}

module _ (e : Build) where
  len_chars-Pending :
      (op : BufferedOp) (text t : List ℕ)
      → Pending op text t
      → Fits t
      → len_chars_by e op.kind (length text) (op_len op) ≡ some (length t)
  unfolding len_chars_by op_len
  len_chars-Pending _ _ _ (inserting xs cs ys s) fits =
      let sum : length (xs ++ ys) + (length xs + length cs - length xs)
          ≡ length (xs ++ (cs ++ ys)) =
        omega (arith, length-append xs ys, length-append xs (cs ++ ys), length-append cs ys) in
      add_usize_lem e _ _ (omega (arith, sum, fits, length-le-encode (xs ++ (cs ++ ys))))
      ∙ ap some sum
  len_chars-Pending _ _ _ (deleting xs m ys) fits =
      let sizes : length (xs ++ (m ++ ys)) ≡ length (xs ++ ys) + length m =
        omega (arith, length-append xs ys, length-append xs (m ++ ys), length-append m ys) in
      sub_usize_lem e _ _ (omega (arith, sizes)) ∙ ap some (omega (arith, sizes))

  is_empty-Pending :
      (op : BufferedOp) (text t : List ℕ)
      → Pending op text t
      → is_empty_by e op.kind (length text) op ≡ some (length t == 0)
  unfolding is_empty_by op_len op_is_empty
  is_empty-Pending _ _ _ (inserting xs cs ys s) =
      ground (arith, length-append xs ys, length-append xs (cs ++ ys), length-append cs ys)
  is_empty-Pending _ _ _ (deleting xs m ys) =
      let sizes : length (xs ++ (m ++ ys)) ≡ length (xs ++ ys) + length m =
        omega (arith, length-append xs ys, length-append xs (m ++ ys), length-append m ys) in
      rw
        (sub_usize_lem e (length (xs ++ (m ++ ys))) (length xs + length m - length xs)
          (omega (arith, sizes)))
        (ap (λ n. some (n == 0)) (omega (arith, sizes)))

  bytes-Pending :
      (op : BufferedOp) (text t : List ℕ)
      → Pending op text t
      → op.kind ≡ kind_ins
      → length (encode text) + length op.ins_content ≡ length (encode t)
  bytes-Pending _ _ _ (inserting xs cs ys s) k = omega (
    arith,
    ap length (encode-append xs ys),
    ap length (encode-append xs (cs ++ ys)),
    ap length (encode-append cs ys),
    length-append (encode xs) (encode ys),
    length-append (encode xs) (encode (cs ++ ys)),
    length-append (encode cs) (encode ys),
  )
  bytes-Pending _ _ _ (deleting xs m ys) k = cc

module _ (e : Build) (size : ℕ) (small : size < 2 ^ 16) {G : Rng} where
  -- A new buffered rope stands for the empty text.
  new_lem : (seed : ℕ) → Returns (λ b. Views size b []) (new e size {G = G} seed)
  unfolding new new_from_seed encode
  new_lem seed =
      Returns-bind (new_with_rng_lem e size small G (G.seed_from seed))
        λ r h. returns (with_rope-Views size r [] h (unfold encode in omega arith))

  module _ (b : Buffered G) (t : List ℕ) (v : Views size b t) where
    -- In a buffered rope, of a rope that is well-formed and has a text, that stands for a text by
    -- its pending edit (`Views`), of nodes of fewer than 65536 bytes, `len_chars` does not panic
    -- or overflow and counts the characters of the text, with the pending edit and without a
    -- flush, and `is_empty` tells whether there are none.
    pub lengths-Views :
        (len_chars e size b ≡ some (length t)) × (is_empty e size b ≡ some (length t == 0))
    unfolding len_chars is_empty
    lengths-Views =
        let (chars, _, _, _, _) = counts_lem e size small b.rope v.text v.has_text in
        (
          rw chars (len_chars-Pending e b.op v.text t v.pending v.fits),
          rw chars (is_empty-Pending e b.op v.text t v.pending),
        )

    -- In a buffered rope, of a rope that is well-formed and has a text, that stands for a text by
    -- its pending edit (`Views`), of nodes of fewer than 65536 bytes, with an insert pending,
    -- `len_bytes` does not overflow, is the number of bytes of the text and leaves the buffer as
    -- it is.
    pub len_bytes-Views : b.op.kind ≡ kind_ins → len_bytes e size b ≡ some (b, length (encode t))
    unfolding len_bytes len_bytes_by
    len_bytes-Views k =
        let (_, _, bytes, _, _) = counts_lem e size small b.rope v.text v.has_text in
        let sum = bytes-Pending e b.op v.text t v.pending k in
        rw
          (
            k,
            bytes,
            add_usize_lem e (length (encode v.text)) (length b.op.ins_content)
                (omega (arith, sum, v.fits)),
            sum,
          )
          refl
