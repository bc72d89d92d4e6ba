-- ===== src/Buffered/Edit.antt =====
-- `insert` and `remove` of src/buffered.rs: an edit that joins the pending one leaves the rope alone,
-- another one makes the pending edit to the rope first.
use jumprope_rs.Base.{
  Returns-result, Bool, Option, none, some, err, unwrap, ◌⊎◌, inl, inr, ◌>>=◌, ℕ, ◌+◌, ◌^◌, ◌<◌,
  ◌≡◌, refl, sym, true, false, List, [], ◌∷◌, ◌++◌, arith, length, All, ap, Returns, returns,
  Result, ok, length-append,
}
use jumprope_rs.Utf8.{IsScalar, encode}
use jumprope_rs.Utf8.Laws.{length-le-encode, encode-append}
use jumprope_rs.Build.{Build}
use jumprope_rs.Utf8.{Fits}
use jumprope_rs.JumpRope.{Rng, JumpRope}
use jumprope_rs.Buffered.{
  clear, apply_op, flush_mut, kind_ins, kind_del, BufferedOp, Op, ins, del, op_is_empty, merge_op,
  try_append, Buffered, push_result, internal_push_op, insert, remove,
}
use jumprope_rs.Buffered.Views.{
  pending_ins, pending_del, Pending, inserting, deleting, some_range, no_range, Views,
}
use jumprope_rs.Buffered.Append.{
  joins, touches, Outcome, merged, rejected, Pending-cast, set-ins, set-del, merge_ins-ins,
  merge_ins-del, merge_del-del,
}

pub length-Fits : (xs ys : List ℕ) → Fits (xs ++ ys) → length xs + length ys < 2 ^ 63
length-Fits xs ys h = omega (arith, length-append xs ys, length-le-encode (xs ++ ys))

cleared-empty : (op : BufferedOp) → op_is_empty (clear op) ≡ true
unfolding clear op_is_empty
cleared-empty op = refl

cleared-content : (op : BufferedOp) → (clear op).ins_content ≡ []
unfolding clear
cleared-content op = refl

module _ (e : Build) where
  pub try_append-merge :
      (op : BufferedOp) (edit : Op)
      → op_is_empty op ≡ false
      → try_append e op edit ≡ merge_op e op.kind op edit
  unfolding try_append
  try_append-merge op edit some_pending = rw some_pending

  pub no_bytes : encode [] ≡ []
  unfolding encode
  no_bytes = refl

  -- What `try_append` does with an insert of `ds` between `us` and `vs`.
  module _ (us ds vs : List ℕ) (s : All IsScalar ds) (small : length us + length ds < 2 ^ 64) where
    append-ins :
        (op : BufferedOp) (text t : List ℕ)
        → Pending op text t
        → t ≡ us ++ vs
        → Returns
            (Outcome text (us ++ (ds ++ vs)) (joins op (ins (length us) (encode ds))))
            (try_append e op (ins (length us) (encode ds)))
    unfolding joins touches
    append-ins _ _ _ (inserting xs [] ys t) same =
        rw
          (
            no_range kind_ins (encode []) (length xs),
            set-ins e _ us ds vs (no_range kind_ins (encode []) (length xs)) no_bytes s small,
          )
          (returns (merged (Pending-cast refl (sym same) refl (inserting us ds vs s))))
    append-ins _ _ _ (inserting xs (c ∷ cs) ys t) same =
        rw
          (
            some_range kind_ins (encode (c ∷ cs)) (length xs) (length cs),
            try_append-merge _ (ins (length us) (encode ds))
                (some_range kind_ins (encode (c ∷ cs)) (length xs) (length cs)),
          )
          (merge_ins-ins e us ds vs s xs (c ∷ cs) ys t same small)
    append-ins _ _ _ (deleting xs [] ys) same =
        rw
          (
            no_range kind_del [] (length xs),
            set-ins e _ us ds vs (no_range kind_del [] (length xs)) refl s small,
          )
          (returns (merged (Pending-cast refl (sym same) refl (inserting us ds vs s))))
    append-ins _ _ _ (deleting xs (c ∷ m) ys) same =
        rw
          (
            some_range kind_del [] (length xs) (length m),
            try_append-merge _ (ins (length us) (encode ds))
                (some_range kind_del [] (length xs) (length m)),
          )
          (unfold merge_op in returns rejected)

    flushed-ins :
        (op : BufferedOp) (t : List ℕ)
        → op_is_empty op ≡ true
        → op.ins_content ≡ []
        → t ≡ us ++ vs
        → Returns
            (λ r. (o : BufferedOp) × (r ≡ ok o) × Pending o t (us ++ (ds ++ vs)))
            (try_append e op (ins (length us) (encode ds)))
    flushed-ins op t empty none_left same = rw (set-ins e op us ds vs empty none_left s small) (
        returns (pending_ins us ds, refl, Pending-cast refl (sym same) refl (inserting us ds vs s)))

  -- And with a delete of `n` between them.
  module _ (us n vs : List ℕ) where
    append-del :
        (op : BufferedOp) (text t : List ℕ)
        → Pending op text t
        → length text < 2 ^ 64
        → t ≡ us ++ (n ++ vs)
        → Returns
            (Outcome text (us ++ vs) (joins op (del (length us) (length us + length n))))
            (try_append e op (del (length us) (length us + length n)))
    unfolding joins touches
    append-del _ _ _ (inserting xs [] ys t) small same =
        rw
          (
            no_range kind_ins (encode []) (length xs),
            set-del e _ us n vs (no_range kind_ins (encode []) (length xs)) no_bytes,
          )
          (returns (merged (Pending-cast refl (sym same) refl (deleting us n vs))))
    append-del _ _ _ (inserting xs (c ∷ cs) ys t) small same =
        rw
          (
            some_range kind_ins (encode (c ∷ cs)) (length xs) (length cs),
            try_append-merge _ (del (length us) (length us + length n))
                (some_range kind_ins (encode (c ∷ cs)) (length xs) (length cs)),
          )
          (merge_ins-del e us n vs xs (c ∷ cs) ys t same)
    append-del _ _ _ (deleting xs [] ys) small same =
        rw
          (
            no_range kind_del [] (length xs),
            set-del e _ us n vs (no_range kind_del [] (length xs)) refl,
          )
          (returns (merged (Pending-cast refl (sym same) refl (deleting us n vs))))
    append-del _ _ _ (deleting xs (c ∷ m) ys) small same =
        rw
          (
            some_range kind_del [] (length xs) (length m),
            try_append-merge _ (del (length us) (length us + length n))
                (some_range kind_del [] (length xs) (length m)),
          )
          (merge_del-del e us n vs xs (c ∷ m) ys same small)

    flushed-del :
        (op : BufferedOp) (t : List ℕ)
        → op_is_empty op ≡ true
        → op.ins_content ≡ []
        → t ≡ us ++ (n ++ vs)
        → Returns
            (λ r. (o : BufferedOp) × (r ≡ ok o) × Pending o t (us ++ vs))
            (try_append e op (del (length us) (length us + length n)))
    flushed-del op t empty none_left same =
        rw (set-del e op us n vs empty none_left)
          (returns (pending_del us n, refl, Pending-cast refl (sym same) refl (deleting us n vs)))

  module _ (size : ℕ) {G : Rng} where
    -- The pending edit made to the rope, and another one pending.
    abbrev apart : Buffered G → BufferedOp → Option (Buffered G)
    apart b op = do
      rope ← apply_op e size b.rope b.op b.op.kind
      some (record { rope = rope; op = op })

    push_result-apart :
        (b : Buffered G) (edit : Op) (op : BufferedOp)
        → op_is_empty b.op ≡ false
        → try_append e (clear b.op) edit ≡ some (ok op)
        → push_result e size b edit err ≡ apart b op
    unfolding push_result flush_mut
    push_result-apart b edit op some_pending again =
        rw some_pending (go (apply_op e size b.rope b.op b.op.kind))
      where
        go :
            (m : Option (JumpRope G))
            → (do
              flushed ← (do
                rope ← m
                let cleared : Buffered G = record { rope = rope; op = clear b.op }
                some cleared)
              result ← try_append e flushed.op edit
              op' ← unwrap result
              some (record flushed { op = op' }))
              ≡ (do rope ← m; some (record { rope = rope; op = op }))
        go none = refl
        go (some rope) = rw again refl

    -- What an edit does that makes of the view `t` the text `t'`, and is `op` alone.
    abbrev pub Edited : Buffered G → Bool → List ℕ → BufferedOp → Option (Buffered G) → Type 0
    Edited b joined t' op result =
        ((joined ≡ true) × Returns (λ b'. (b'.rope ≡ b.rope) × Views size b' t') result)
        ⊎ ((joined ≡ false) × (result ≡ apart b op))

    push_result_lem :
        (b : Buffered G) (t t' : List ℕ) (edit : Op) (op : BufferedOp) (joined : Bool)
        (r : Result BufferedOp) (v : Views size b t)
        → joins b.op edit ≡ joined
        → Fits t'
        → Outcome v.text t' joined r
        → try_append e (clear b.op) edit ≡ some (ok op)
        → Edited b joined t' op (push_result e size b edit r)
    unfolding joins push_result
    push_result_lem b t t' edit op _ _ v j fits (merged p) again = inl (
      refl,
      returns (
        refl,
        record {
          text = v.text;
          has_text = v.has_text;
          pending = p;
          text_fits = v.text_fits;
          fits = fits;
        },
      ),
    )
    push_result_lem b t t' edit op _ _ v j fits rejected again =
        inr (refl, push_result-apart b edit op (ground arith) again)

    -- In a buffered rope, of a rope that is well-formed and has a text, that stands for a text by
    -- its pending edit (`Views`), take an `insert` at a place in the text, after which the text
    -- fits in memory. If it joins the pending edit (`joins`), it does not panic, the rope stays
    -- as it is and the buffer stands for the text with the new characters at the place. Otherwise
    -- it is exactly the pending edit made to the rope, by `insert` or `remove` of `JumpRope`, and
    -- then the new insert alone pending; what the rope does with the edit is not stated.
    pub insert-Views :
        (b : Buffered G) (us ds vs : List ℕ)
        → Views size b (us ++ vs)
        → All IsScalar ds
        → Fits (us ++ (ds ++ vs))
        → Edited b
            (joins b.op (ins (length us) (encode ds)))
            (us ++ (ds ++ vs))
            (pending_ins us ds)
            (insert e size b (length us) (encode ds))
    unfolding insert internal_push_op
    insert-Views b us ds vs v s fits =
        let (r, tried, outcome) =
          Returns-result (append-ins us ds vs s small b.op v.text (us ++ vs) v.pending refl) in
        rw tried (
          push_result_lem b (us ++ vs) _ (ins (length us) (encode ds)) _ _ r v refl fits outcome
            (set-ins e (clear b.op) us ds vs (cleared-empty b.op) (cleared-content b.op) s small))
      where
        small : length us + length ds < 2 ^ 64
        small = omega (arith, length-Fits us (ds ++ vs) fits, length-append ds vs)

    -- In a buffered rope, of a rope that is well-formed and has a text, that stands for a text by
    -- its pending edit (`Views`), take a `remove` of a range in the text. If it joins the pending
    -- edit (`joins`), it does not panic, the rope stays as it is and the buffer stands for the
    -- text without those characters: the end of the pending insert is trimmed, by characters, or
    -- the pending delete grows. Otherwise it is exactly the pending edit made to the rope, by
    -- `insert` or `remove` of `JumpRope`, and then the new delete alone pending; what the rope
    -- does with the edit is not stated.
    pub remove-Views :
        (b : Buffered G) (us n vs : List ℕ)
        → Views size b (us ++ (n ++ vs))
        → Edited b
            (joins b.op (del (length us) (length us + length n)))
            (us ++ vs)
            (pending_del us n)
            (remove e size b (length us) (length us + length n))
    unfolding remove internal_push_op
    remove-Views b us n vs v =
        let (r, tried, outcome) =
          Returns-result (append-del us n vs b.op v.text _ v.pending small refl) in
        rw tried (
          push_result_lem b (us ++ (n ++ vs)) _ (del (length us) (length us + length n)) _ _ r v
            refl fits outcome
            (set-del e (clear b.op) us n vs (cleared-empty b.op) (cleared-content b.op)))
      where
        small : length v.text < 2 ^ 64
        small = omega (arith, length-le-encode v.text, v.text_fits)

        fits : Fits (us ++ vs)
        fits = rw (encode-append us vs) (
            omega (
              arith,
              v.fits,
              ap length (encode-append us (n ++ vs)),
              ap length (encode-append n vs),
              length-append (encode us) (encode (n ++ vs)),
              length-append (encode n) (encode vs),
              length-append (encode us) (encode vs),
            ))
