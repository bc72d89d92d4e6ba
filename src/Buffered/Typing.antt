-- ===== src/Buffered/Typing.antt =====
-- Text that is typed at the end of a buffered rope of src/buffered.rs: it gathers in the pending insert,
-- and the flush appends it to the rope.
use jumprope_rs.Base.{
  ℕ, ◌+◌, ◌^◌, ◌≤◌, ◌<◌, ◌≡◌, refl, sym, ap, ◌∙◌, subst, inl, inr, ◌⊎◌, Option, some, true, List,
  [], ◌∷◌, ◌++◌, arith, ◌==◌, length, length-append, append_assoc, append-nil, All, All-append,
  Returns, returns, Returns-bind, Returns-result, ok, ◌>>=◌,
}
use jumprope_rs.Utf8.{IsScalar, encode, Fits}
use jumprope_rs.Utf8.Laws.{length-le-encode, encode-append}
use jumprope_rs.Build.{Build, add_usize_lem}
use jumprope_rs.FastStr.Laws.{count_chars-encode}
use jumprope_rs.GapBuffer.Shift.{length-encode-append}
use jumprope_rs.JumpRope.{Rng}
use jumprope_rs.JumpRope.Shape.{HasText}
use jumprope_rs.JumpRope.AppendText.{insert-past_end, new_from_str_text}
use jumprope_rs.Buffered.{
  kind_ins, BufferedOp, BufferedOp_new, ins, op_is_empty, merge_op, try_append, Buffered, with_rope,
  new_from_str, apply_op, flush_mut, push_result, internal_push_op, insert, into_inner,
}
use jumprope_rs.Buffered.Views.{pending_ins, some_range, no_range}
use jumprope_rs.Buffered.Append.{set-ins}
use jumprope_rs.Buffered.Edit.{try_append-merge, no_bytes}

-- The texts one after another.
unfoldable pub concat : List (List ℕ) → List ℕ
concat [] = []
concat (t ∷ texts) = t ++ concat texts

-- The rope has the text `us`, and `cs` is pending behind it.
pub record Typed (size : ℕ) {G : Rng} (us cs : List ℕ) (b : Buffered G) : Type 0 where
  pub has_text : HasText size b.rope us
  pub scalars : All IsScalar cs
  pub pending :
      (b.op ≡ pending_ins us cs) ⊎ ((cs ≡ []) × (op_is_empty b.op ≡ true) × (b.op.ins_content ≡ []))

module _ (e : Build) where
  -- The pending insert grows at its end.
  grow :
      (us cs ds : List ℕ)
      → All IsScalar ds
      → length us + length cs + length ds < 2 ^ 64
      → merge_op e kind_ins (pending_ins us cs) (ins (length us + length cs) (encode ds))
        ≡ some (ok (pending_ins us (cs ++ ds)))
  unfolding merge_op
  grow us cs ds s small =
      let at_end : (length us + length cs == length us + length cs) ≡ true = ground arith in
      let total : length us + length cs + length ds ≡ length us + length (cs ++ ds) =
        omega (arith, length-append cs ds) in
      rw
        (
          at_end,
          count_chars-encode e ds s,
          add_usize_lem e (length us + length cs) (length ds) small,
          total,
          ← encode-append cs ds,
        )
        refl

  at_start :
      (us ds : List ℕ) (op op' : BufferedOp)
      → try_append e op (ins (length us) (encode ds)) ≡ some (ok op')
      → try_append e op (ins (length us + 0) (encode ds)) ≡ some (ok op')
  at_start us ds op op' h =
      let start : length us ≡ length us + 0 = omega arith in
      subst (λ n. try_append e op (ins n (encode ds)) ≡ some (ok op')) start h

  typed_op :
      (us cs ds : List ℕ) (op : BufferedOp)
      → (op ≡ pending_ins us cs) ⊎ ((cs ≡ []) × (op_is_empty op ≡ true) × (op.ins_content ≡ []))
      → All IsScalar ds
      → length us + length cs + length ds < 2 ^ 64
      → try_append e op (ins (length us + length cs) (encode ds))
        ≡ some (ok (pending_ins us (cs ++ ds)))
  typed_op us [] ds op (inl at) s small = rw at (
      at_start us ds (pending_ins us []) (pending_ins us ds) (
        set-ins e (pending_ins us []) us ds [] (no_range kind_ins (encode []) (length us))
          (no_bytes e) s (omega arith)))
  typed_op us (c ∷ cs) ds op (inl at) s small = rw at (
      try_append-merge e (pending_ins us (c ∷ cs)) (ins (length us + length (c ∷ cs)) (encode ds))
        (some_range kind_ins (encode (c ∷ cs)) (length us) (length cs))
      ∙ grow us (c ∷ cs) ds s small)
  typed_op us cs ds op (inr (none_yet, empty, none_left)) s small = rw none_yet (
      at_start us ds op (pending_ins us ds) (set-ins e op us ds [] empty none_left s (omega arith)))

  module _ (size : ℕ) {G : Rng} where
    type_step :
        (b : Buffered G) (us cs ds : List ℕ)
        → Typed size us cs b
        → All IsScalar ds
        → length us + length cs + length ds < 2 ^ 64
        → Returns (Typed size us (cs ++ ds)) (insert e size b (length us + length cs) (encode ds))
    unfolding insert internal_push_op push_result
    type_step b us cs ds h s small = rw (typed_op us cs ds b.op h.pending s small) (
        returns (record {
          has_text = h.has_text;
          scalars = All-append IsScalar cs ds h.scalars s;
          pending = inl refl;
        }))

    -- The texts are inserted one after another, each at the end.
    unfoldable pub type_texts : List (List ℕ) → ℕ → Buffered G → Option (Buffered G)
    type_texts [] n b = some b
    type_texts (ds ∷ texts) n b = do
      b' ← insert e size b n (encode ds)
      type_texts texts (n + length ds) b'

    module _ (small : size < 2 ^ 16) (big : 4 ≤ size) where
      flush_mut-Typed :
          (b : Buffered G) (us cs : List ℕ)
          → Typed size us cs b
          → Fits (us ++ cs)
          → Returns (λ b'. HasText size b'.rope (us ++ cs)) (flush_mut e size b)
      unfolding flush_mut apply_op
      flush_mut-Typed b us [] h fits =
          let empty : op_is_empty b.op ≡ true = elim h.pending [
            | inl at ↦ ap op_is_empty at ∙ no_range kind_ins (encode []) (length us)
            | inr (_, empty, _) ↦ empty
          ] in
          rw empty (returns (subst (HasText size b.rope) (sym (append-nil us)) h.has_text))
      flush_mut-Typed b us (c ∷ cs) h fits = elim h.pending [
        | inl at ↦
            rw (at, some_range kind_ins (encode (c ∷ cs)) (length us) (length cs))
              (Returns-bind
                (insert-past_end e size small big b.rope us (c ∷ cs) (length us) h.has_text
                  (omega arith) h.scalars fits)
                λ r done. returns done)
        | inr (none_yet, _, _) ↦ absurd (omega (arith, ap length none_yet))
      ]

      type_texts-Typed :
          (texts : List (List ℕ)) (b : Buffered G) (us cs : List ℕ)
          → Typed size us cs b
          → All (All IsScalar) texts
          → Fits (us ++ (cs ++ concat texts))
          → Returns
              (λ r. HasText size r (us ++ (cs ++ concat texts)))
              (type_texts texts (length us + length cs) b >>= into_inner e size)
      unfolding type_texts into_inner concat
      type_texts-Typed [] b us cs h s fits =
          let all : us ++ (cs ++ []) ≡ us ++ cs = ap (us ++◌) (append-nil cs) in
          Returns-bind (flush_mut-Typed b us cs h (subst Fits all fits))
            λ b' done. returns (subst (HasText size b'.rope) (sym all) done)
      type_texts-Typed (ds ∷ texts) b us cs h (s, ss) fits =
          let all : us ++ (cs ++ (ds ++ concat texts)) ≡ us ++ ((cs ++ ds) ++ concat texts) =
            ap (us ++◌) (sym (append_assoc cs ds (concat texts))) in
          let total : length us + length cs + length ds ≡ length us + length (cs ++ ds) =
            omega (arith, length-append cs ds) in
          let bound : length us + length cs + length ds < 2 ^ 64 = omega (
            arith,
            fits,
            length-le-encode (us ++ (cs ++ (ds ++ concat texts))),
            length-append us (cs ++ (ds ++ concat texts)),
            length-append cs (ds ++ concat texts),
            length-append ds (concat texts),
          ) in
          let (b', typed, h') = Returns-result (type_step b us cs ds h s bound) in
          rw (typed, total)
            (subst
              (λ t.
                Returns (λ r. HasText size r t)
                  (type_texts texts (length us + length (cs ++ ds)) b' >>= into_inner e size))
              (sym all) (type_texts-Typed texts b' us (cs ++ ds) h' ss (subst Fits all fits)))

      -- With nodes of at least 4 and fewer than 65536 bytes and any generator, take a
      -- `JumpRopeBuf` made by `new_from_str` of a text, then any number of `insert`s, each at the
      -- end of the text so far (`type_texts`), and then `into_inner`. If the whole text fits in
      -- memory, nothing panics, in any build, and the rope that comes out is well-formed and has
      -- the text: the first one and what was inserted, in order (`HasText`).
      pub type_texts_lem :
          (seed : ℕ) (t : List ℕ) (texts : List (List ℕ))
          → All IsScalar t
          → All (All IsScalar) texts
          → Fits (t ++ concat texts)
          → Returns
              (λ r. HasText size r (t ++ concat texts))
              (new_from_str e size {G = G} seed (encode t) >>= λ b.
                type_texts texts (length t) b >>= into_inner e size)
      unfolding new_from_str with_rope BufferedOp_new
      type_texts_lem seed t texts s ss fits =
          let fits_t : Fits t = omega (arith, fits, length-encode-append t (concat texts)) in
          let (r, made, h) =
            Returns-result (new_from_str_text e size small {G = G} big seed t s fits_t) in
          rw made (
            subst
              (λ n.
                Returns (λ r. HasText size r (t ++ concat texts))
                  (type_texts texts n (with_rope r) >>= into_inner e size))
              (the_length t)
              (type_texts-Typed texts (with_rope r) t []
                (record {
                  has_text = h;
                  scalars = tt;
                  pending = inr (refl, (unfold op_is_empty in refl), refl);
                })
                ss fits))
        where
          the_length : (t : List ℕ) → length t + 0 ≡ length t
          the_length t = omega arith
