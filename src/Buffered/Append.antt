-- ===== src/Buffered/Append.antt =====
-- `try_append`: an edit is either merged into the pending one, or turned down.
use jumprope_rs.Base.{
  ℕ, Bool, false, ◌||◌, ◌+◌, ◌-◌, ◌^◌, ◌≤◌, ◌<◌, ◌≡◌, refl, sym, ◌∙◌, ◌&&◌, true, false, some, List,
  [], ◌∷◌, ◌++◌, arith, leb, ◌==◌, if◌then◌else◌, Bool-cases, inl, inr, length, All, All-append, ap,
  ap₂, Returns, returns, ◌>>=◌, Result, ok, err, append_assoc, length-append, append_ends,
  append_around, append_cancel, All-append_left, All-append_right, take-append,
}
use jumprope_rs.Utf8.{IsScalar, encode}
use jumprope_rs.Utf8.Laws.{encode-append, IsAscii, IsAscii-of_encode, length-encode_ascii}
use jumprope_rs.Utf8.Boundary.{is_char_boundary-encode}
use jumprope_rs.Build.{Build, add_usize_lem, sub_usize_lem}
use jumprope_rs.FastStr.{char_to_byte_idx}
use jumprope_rs.FastStr.Laws.{count_chars-encode, char_to_byte_idx-encode}
use jumprope_rs.Buffered.{
  Kind, kind_ins, kind_del, BufferedOp, Op, ins, del, op_is_empty, op_len, truncate, set_op,
  trim_ins, merge_op, try_append,
}
use jumprope_rs.Buffered.Views.{pending_ins, pending_del, Pending, inserting, deleting}

-- Whether text goes on where the pending text ends, the end of the pending text is deleted, or a
-- deleted range reaches where the pending range was.
unfoldable pub touches : Kind → BufferedOp → Op → Bool
touches kind_ins op (ins pos content) = pos == op.end
touches kind_ins op (del start end) = end == op.end && leb op.start start
touches kind_del op (ins pos content) = false
touches kind_del op (del start end) = leb start op.start && leb op.start end

-- Whether an edit can join the pending one.
unfoldable pub joins : BufferedOp → Op → Bool
joins op edit = op_is_empty op || touches op.kind op edit

-- What becomes of an edit that makes of the view the text `t`: if it joins the pending one, the
-- pending edit that makes `t` of the text of the rope; it is turned down otherwise.
pub data Outcome (text t : List ℕ) : Bool → Result BufferedOp → Type 0 where
  merged : {op : BufferedOp} → Pending op text t → Outcome text t true (ok op)
  rejected : Outcome text t false err

pub Pending-cast :
    {op op' : BufferedOp} {a b t u : List ℕ}
    → op ≡ op'
    → a ≡ b
    → t ≡ u
    → Pending op a t
    → Pending op' b u
Pending-cast o p q h = rw (← o, ← p, ← q) h

module _ (e : Build) where
  -- An empty buffer takes any edit.
  pub set-ins :
      (op : BufferedOp) (us ds vs : List ℕ)
      → op_is_empty op ≡ true
      → op.ins_content ≡ []
      → All IsScalar ds
      → length us + length ds < 2 ^ 64
      → try_append e op (ins (length us) (encode ds)) ≡ some (ok (pending_ins us ds))
  unfolding try_append set_op
  set-ins op us ds vs empty none_left s small =
      rw
        (empty, count_chars-encode e ds s, add_usize_lem e (length us) (length ds) small, none_left)

  pub set-del :
      (op : BufferedOp) (us n vs : List ℕ)
      → op_is_empty op ≡ true
      → op.ins_content ≡ []
      → try_append e op (del (length us) (length us + length n)) ≡ some (ok (pending_del us n))
  unfolding try_append set_op
  set-del op us n vs empty none_left = rw (empty, none_left) (ground arith)

  truncate-encode :
      (p q : List ℕ)
      → All IsScalar q
      → truncate (encode (p ++ q)) (length (encode p)) ≡ some (encode p)
  unfolding truncate
  truncate-encode p q s =
      rw
        (
          is_char_boundary-encode p q s,
          encode-append p q,
          take-append (length (encode p)) (encode p) (encode q) refl,
        )
        (ground (arith, length-append (encode p) (encode q)))

  ascii_prefix :
      (p q : List ℕ) → length (encode (p ++ q)) ≤ length (p ++ q) → length (encode p) ≡ length p
  ascii_prefix p q h =
      length-encode_ascii p (All-append_left IsAscii p q (IsAscii-of_encode (p ++ q) h))

  -- The bytes that the kept characters take.
  kept_bytes :
      (p q : List ℕ)
      → All IsScalar (p ++ q)
      → (if length (p ++ q) == length (encode (p ++ q))
          then some (length p)
          else char_to_byte_idx e (encode (p ++ q)) (length p))
        ≡ some (length (encode p))
  kept_bytes p q s = ground (
    arith,
    ascii_prefix p q,
    char_to_byte_idx-encode e (p ++ q) (length p) s,
    take-append (length p) p q refl,
  )

  trim_some :
      (xs p q : List ℕ)
      → 0 < length p
      → All IsScalar (p ++ q)
      → trim_ins e (pending_ins xs (p ++ q)) (length xs + length p) ≡ some (pending_ins xs p)
  unfolding trim_ins op_len
  trim_some xs p q pos s =
      let not_all : (length xs + length p == length xs) ≡ false = ground arith in
      let offset : length xs + length p - length xs ≡ length p = omega arith in
      let size : length xs + length (p ++ q) - length xs ≡ length (p ++ q) = omega arith in
      rw (
        not_all,
        sub_usize_lem e (length xs + length p) (length xs) (omega arith),
        offset,
        size,
        kept_bytes p q s,
        truncate-encode p q (All-append_right IsScalar p q s),
      )

  trim_ins_lem :
      (xs p q : List ℕ)
      → All IsScalar (p ++ q)
      → trim_ins e (pending_ins xs (p ++ q)) (length xs + length p) ≡ some (pending_ins xs p)
  trim_ins_lem xs [] q s = unfold trim_ins encode in ground arith
  trim_ins_lem xs (c ∷ p) q s = trim_some xs (c ∷ p) q (omega arith) s

  module _ (us ds vs : List ℕ) (s : All IsScalar ds) where
    appended :
        (xs cs ys : List ℕ)
        → (us ≡ xs ++ cs)
        → (vs ≡ ys)
        → All IsScalar cs
        → Pending (pending_ins xs (cs ++ ds)) (xs ++ ys) (us ++ (ds ++ vs))
    appended xs cs ys p q t =
        Pending-cast refl refl
          (ap (xs ++◌) (append_assoc cs ds ys)
            ∙ sym (append_assoc xs cs (ds ++ ys))
            ∙ sym (ap₂ (λ a b. a ++ (ds ++ b)) p q))
          (inserting xs (cs ++ ds) ys (All-append IsScalar cs ds t s))

    pub merge_ins-ins :
        (xs cs ys : List ℕ)
        → All IsScalar cs
        → xs ++ (cs ++ ys) ≡ us ++ vs
        → length us + length ds < 2 ^ 64
        → Returns
            (Outcome (xs ++ ys) (us ++ (ds ++ vs)) (length us == length xs + length cs))
            (merge_op e kind_ins (pending_ins xs cs) (ins (length us) (encode ds)))
    unfolding merge_op
    merge_ins-ins xs cs ys t same small = elim (Bool-cases (length us == length xs + length cs)) [
      | inl at_end ↦
          let size : length us ≡ length xs + length cs = ground arith in
          let (p, q) =
            append_cancel us vs (xs ++ cs) ys (omega (arith, length-append xs cs))
              (append_assoc xs cs ys ∙ same) in
          let bound : length xs + length cs + length ds < 2 ^ 64 = omega arith in
          let total : length xs + length cs + length ds ≡ length xs + length (cs ++ ds) =
            omega (arith, length-append cs ds) in
          rw
            (
              at_end,
              count_chars-encode e ds s,
              add_usize_lem e (length xs + length cs) (length ds) bound,
              total,
              ← encode-append cs ds,
            )
            (returns (merged (appended xs cs ys (sym p) (sym q) t)))
      | inr off ↦ rw off (returns rejected)
    ]

  module _ (us n vs : List ℕ) where
    -- The end of the pending insert is deleted again.
    cut_end :
        (xs p ys : List ℕ)
        → All IsScalar (p ++ n)
        → us ≡ xs ++ p
        → vs ≡ ys
        → Returns
            (Outcome (xs ++ ys) (us ++ vs) true)
            (trim_ins e (pending_ins xs (p ++ n)) (length us) >>= λ o. some (ok o))
    cut_end xs p ys s a d =
        rw (ap length a, length-append xs p, trim_ins_lem xs p n s)
          (returns (
            merged (
              Pending-cast refl refl (sym (append_assoc xs p ys) ∙ sym (ap₂ ◌++◌ a d))
                (inserting xs p ys (All-append_left IsScalar p n s)))))

    pub merge_ins-del :
        (xs cs ys : List ℕ)
        → All IsScalar cs
        → xs ++ (cs ++ ys) ≡ us ++ (n ++ vs)
        → Returns
            (Outcome
              (xs ++ ys)
              (us ++ vs)
              (length us + length n == length xs + length cs && leb (length xs) (length us)))
            (merge_op e kind_ins (pending_ins xs cs) (del (length us) (length us + length n)))
    unfolding merge_op
    merge_ins-del xs cs ys s same =
        elim (Bool-cases
          (length us + length n == length xs + length cs && leb (length xs) (length us))) [
            | inl inside ↦
                let (p, a, b, d) =
                  append_ends us n vs xs cs ys (ground arith) (ground arith) same in
                rw (inside, b) (cut_end xs p ys (rw (← b) s) a d)
            | inr off ↦ rw off (returns rejected)
          ]

    -- The pending range grows to both sides.
    grown :
        (xs m ys p q : List ℕ)
        → xs ≡ us ++ p
        → ys ≡ q ++ vs
        → Pending (pending_del us (p ++ (m ++ q))) (xs ++ (m ++ ys)) (us ++ vs)
    grown xs m ys p q a b =
        Pending-cast refl
          (ap (us ++◌) (append_assoc p (m ++ q) vs ∙ ap (p ++◌) (append_assoc m q vs))
            ∙ sym (append_assoc us p (m ++ (q ++ vs)))
            ∙ sym (ap₂ (λ l r. l ++ (m ++ r)) a b))
          refl (deleting us (p ++ (m ++ q)) vs)

    pub merge_del-del :
        (xs m ys : List ℕ)
        → xs ++ ys ≡ us ++ (n ++ vs)
        → length (xs ++ (m ++ ys)) < 2 ^ 64
        → Returns
            (Outcome
              (xs ++ (m ++ ys))
              (us ++ vs)
              (leb (length us) (length xs) && leb (length xs) (length us + length n)))
            (merge_op e kind_del (pending_del xs m) (del (length us) (length us + length n)))
    unfolding merge_op
    merge_del-del xs m ys same small =
        elim (Bool-cases (leb (length us) (length xs) && leb (length xs) (length us + length n))) [
          | inl inside ↦
              let (p, q, a, b, d) =
                append_around us n vs xs ys (ground arith) (ground arith) same in
              let more : length us + length n - length xs ≡ length q =
                omega (arith, ap length a, ap length b, length-append us p, length-append p q) in
              let last : length xs + length m + length q ≡ length us + length (p ++ (m ++ q)) =
                omega (
                  arith,
                  ap length a,
                  length-append us p,
                  length-append p (m ++ q),
                  length-append m q,
                ) in
              let bound : length xs + length m + length q < 2 ^ 64 = omega (
                arith,
                small,
                length-append xs (m ++ ys),
                length-append m ys,
                ap length d,
                length-append q vs,
              ) in
              rw
                (
                  inside,
                  sub_usize_lem e (length us + length n) (length xs) (ground arith),
                  more,
                  add_usize_lem e (length xs + length m) (length q) bound,
                  last,
                )
                (returns (merged (grown xs m ys p q a d)))
          | inr off ↦ rw off (returns rejected)
        ]
