-- ===== src/Buffered.antt =====
-- src/buffered.rs: `JumpRopeBuf`, a rope with one pending edit. The `RefCell` is explicit state: a
-- method that flushes returns the new contents. The rope is that of JumpRope.antt. A `Range` is
-- given by its two ends. `none` is a panic, `err` the code's `Err(())`.
pub mod Views
pub mod Append
pub mod Edit
pub mod Reads
pub mod Typing
use jumprope_rs.Base.{
  ℕ, ◌+◌, ◌-◌, Bool, true, false, not, ◌&&◌, Option, none, some, List, [], ◌++◌, ltb, leb, ◌==◌,
  if◌then◌else◌, length, take, assert, ◌>>=◌, ◌>>◌, Result, ok, err, unwrap,
}
use jumprope_rs.Utf8.{is_char_boundary}
use jumprope_rs.Build.{Build, add_usize, sub_usize, debug_assert}
use jumprope_rs.FastStr.{count_chars, char_to_byte_idx}
use jumprope_rs.JumpRope.{Rng, JumpRope, new_from_seed}
use jumprope_rs.JumpRope.{len_chars as rope_len_chars, len_bytes as rope_len_bytes}
use jumprope_rs.JumpRope.Edit.{
  insert as rope_insert, remove as rope_remove, new_from_str as rope_from_str,
}

pub data Kind : Type 0 where
  kind_ins : Kind
  kind_del : Kind

pub record BufferedOp : Type 0 where
  pub kind : Kind
  pub ins_content : List ℕ
  pub start : ℕ
  pub end : ℕ

-- `Del` has the start and the end.
pub data Op : Type 0 where
  ins : ℕ → List ℕ → Op
  del : ℕ → ℕ → Op

unfoldable pub BufferedOp_new : BufferedOp
BufferedOp_new = record { kind = kind_ins; ins_content = []; start = 0; end = 0 }

-- `Range::is_empty`
unfoldable pub op_is_empty : BufferedOp → Bool
op_is_empty op = not (ltb op.start op.end)

-- `Range::len`
unfoldable pub op_len : BufferedOp → ℕ
op_len op = op.end - op.start

unfoldable pub clear : BufferedOp → BufferedOp
clear op = record op { ins_content = []; start = 0; end = 0 }

-- `String::truncate`
unfoldable pub truncate : List ℕ → ℕ → Option (List ℕ)
truncate s n =
    if leb n (length s) then (do assert (is_char_boundary s n); some (take n s)) else some s

module _ (e : Build) where
  -- The buffer is empty: it becomes the operation.
  unfoldable pub set_op : BufferedOp → Op → Option BufferedOp
  set_op op (ins pos content) = do
    end ← add_usize e pos (count_chars e content)
    some (record {
      kind = kind_ins;
      ins_content = op.ins_content ++ content;
      start = pos;
      end = end;
    })
  set_op op (del start end) = do
    debug_assert e (length op.ins_content == 0)
    some (record op { kind = kind_del; start = start; end = end })

  -- A delete that ends where the pending insert ends.
  unfoldable pub trim_ins : BufferedOp → ℕ → Option BufferedOp
  trim_ins op start =
      if start == op.start then some (record op { ins_content = []; end = op.start }) else do
        char_offset ← sub_usize e start op.start
        byte_offset ←
            if op_len op == length op.ins_content
            then some char_offset
            else char_to_byte_idx e op.ins_content char_offset
        content ← truncate op.ins_content byte_offset
        some (record op { ins_content = content; end = start })

  unfoldable pub merge_op : Kind → BufferedOp → Op → Option (Result BufferedOp)
  merge_op kind_ins op (ins pos content) =
      if pos == op.end
      then (do
        end ← add_usize e op.end (count_chars e content)
        some (ok (record op { ins_content = op.ins_content ++ content; end = end })))
      else some err
  merge_op kind_ins op (del start end) =
      if end == op.end && leb op.start start
      then (do trimmed ← trim_ins op start; some (ok trimmed))
      else some err
  merge_op kind_del op (del start end) =
      if leb start op.start && leb op.start end
      then (do
        more ← sub_usize e end op.start
        last ← add_usize e op.end more
        some (ok (record op { start = start; end = last })))
      else some err
  merge_op kind_del op (ins pos content) = some err

  unfoldable pub try_append : BufferedOp → Op → Option (Result BufferedOp)
  try_append op edit =
      if op_is_empty op then (do set ← set_op op edit; some (ok set)) else merge_op op.kind op edit

pub record Buffered (G : Rng) : Type 0 where
  pub rope : JumpRope G
  pub op : BufferedOp

unfoldable pub with_rope : {G : Rng} → JumpRope G → Buffered G
with_rope rope = record { rope = rope; op = BufferedOp_new }

module _ (e : Build) where
  unfoldable pub len_chars_by : Kind → ℕ → ℕ → Option ℕ
  len_chars_by kind_ins chars n = add_usize e chars n
  len_chars_by kind_del chars n = sub_usize e chars n

  unfoldable pub is_empty_by : Kind → ℕ → BufferedOp → Option Bool
  is_empty_by kind_ins chars op = some (chars == 0 && op_is_empty op)
  is_empty_by kind_del chars op = do n ← sub_usize e chars (op_len op); some (n == 0)

module _ (e : Build) (size : ℕ) {G : Rng} where
  -- The generator of the rope starts from the seed.
  unfoldable pub new : ℕ → Option (Buffered G)
  new seed = do rope ← new_from_seed e size G seed; some (with_rope rope)

  unfoldable pub new_from_str : ℕ → List ℕ → Option (Buffered G)
  new_from_str seed s = do rope ← rope_from_str e size seed s; some (with_rope rope)

  -- The pending operation on the rope.
  unfoldable pub apply_op : JumpRope G → BufferedOp → Kind → Option (JumpRope G)
  apply_op rope op kind_ins = rope_insert e size rope op.start op.ins_content
  apply_op rope op kind_del = rope_remove e size rope op.start op.end

  unfoldable pub flush_mut : Buffered G → Option (Buffered G)
  flush_mut b =
      if op_is_empty b.op
      then some b
      else do rope ← apply_op b.rope b.op b.op.kind; some (record { rope = rope; op = clear b.op })

  unfoldable pub push_result : Buffered G → Op → Result BufferedOp → Option (Buffered G)
  push_result b edit (ok op) = some (record b { op = op })
  push_result b edit err = do
    flushed ← flush_mut b
    result ← try_append e flushed.op edit
    op ← unwrap result
    some (record flushed { op = op })

  unfoldable pub internal_push_op : Buffered G → Op → Option (Buffered G)
  internal_push_op b edit = do result ← try_append e b.op edit; push_result b edit result

  unfoldable pub insert : Buffered G → ℕ → List ℕ → Option (Buffered G)
  insert b pos content = internal_push_op b (ins pos content)

  unfoldable pub remove : Buffered G → ℕ → ℕ → Option (Buffered G)
  remove b start end = internal_push_op b (del start end)

  unfoldable pub len_chars : Buffered G → Option ℕ
  len_chars b = do chars ← rope_len_chars b.rope; len_chars_by e b.op.kind chars (op_len b.op)

  unfoldable pub len_bytes_by : Kind → Buffered G → Option (Buffered G × ℕ)
  len_bytes_by kind_ins b = do
    n ← add_usize e (rope_len_bytes b.rope) (length b.op.ins_content)
    some (b, n)
  len_bytes_by kind_del b = do flushed ← flush_mut b; some (flushed, rope_len_bytes flushed.rope)

  unfoldable pub len_bytes : Buffered G → Option (Buffered G × ℕ)
  len_bytes b = len_bytes_by b.op.kind b

  unfoldable pub is_empty : Buffered G → Option Bool
  is_empty b = do chars ← rope_len_chars b.rope; is_empty_by e b.op.kind chars b.op

  unfoldable pub into_inner : Buffered G → Option (JumpRope G)
  into_inner b = do flushed ← flush_mut b; some flushed.rope

  -- `borrow`, and `as_mut`: the rope, in a buffer that is flushed.
  unfoldable pub borrow : Buffered G → Option (Buffered G × JumpRope G)
  borrow b = do flushed ← flush_mut b; some (flushed, flushed.rope)
