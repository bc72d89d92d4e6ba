-- ===== src/Lib.antt =====
-- The crate `jumprope`: a rope for text, a skip list of nodes that hold gap buffers, with a wrapper
-- that buffers edits.
--
-- The parts, from the bottom:
--
-- * Utf8.antt is what Rust's `str` is made of: a text is a list of Unicode scalar values, and its
--   bytes are `encode` of the list.
-- * Build.antt has what the code is built with: whether debug assertions and overflow checks are on,
--   whether Miri runs, and the crate `str_indices`, which is a parameter with its documented
--   behaviour as laws. Arithmetic on `u16` and `usize` panics or wraps as the build says.
-- * FastStr.antt is src/fast_str_tools.rs and the functions of src/utils.rs that the rope uses.
-- * GapBuffer.antt is src/gapbuffer.rs, the text of one node: `bytes` is the field `data`, of `len`
--   bytes. The children Read and Edit have the methods that read a buffer and those that change it.
--   GapBuffer/Holds.antt says what a buffer stands for: a text before its gap and one behind it, with
--   the counts that go with them.
-- * JumpRope.antt is src/jumprope.rs, the skip list, over a store of nodes, with its cursors in
--   JumpRope/Cursor.antt, insertion and deletion at a cursor in JumpRope/Insert.antt and
--   JumpRope/Delete.antt, and the public edits in JumpRope/Edit.antt. The generator of random bytes
--   of the crate `rand` is a parameter.
-- * A well-formed rope is a list of cells, in order: JumpRope/Cells.antt and JumpRope/Level.antt say
--   what the entries of the nodes are at each level, JumpRope/Shape.antt puts this together, and
--   JumpRope/Place.antt says what an edit cursor is. JumpRope/Walk.antt is about the walk to a place,
--   JumpRope/InNode.antt about an insertion in one node, JumpRope/InsertNode.antt about a new node,
--   JumpRope/InsertNodes.antt about a text of several nodes, and JumpRope/InsertAtEnd.antt and
--   JumpRope/AppendText.antt about an insertion that splits no node, in a node with room or behind the
--   last one. JumpRope/Store.antt, JumpRope/Relink.antt, JumpRope/Offsets.antt, JumpRope/GrowHead.antt
--   and JumpRope/LinkLoops.antt have the writes and loops that these are made of.
-- * Buffered.antt is src/buffered.rs, `JumpRopeBuf` over the rope of JumpRope.antt. Its one pending
--   edit is a `BufferedOp`; the `RefCell` is explicit state. Buffered/Views.antt says which text a
--   buffered rope stands for, Buffered/Append.antt which edits join the pending one, and
--   Buffered/Typing.antt is about text typed at the end.
--
-- A function that may panic returns an `Option`, and `none` is a panic; `Returns P r` says that `r`
-- does not panic and that its result has `P`. The theorems on gap buffers are for every build, debug
-- or not. The features `wchar_conversion` and `line_conversion` are both on.
--
-- Bounds: the size of a buffer is the const generic `LEN`, an argument `len` here, and the counters are
-- `u16`, so the theorems ask for `len < 2 ^ 16`; the code's sizes are 10 and 392. Texts in a rope fit
-- in memory: they have fewer than 2 ^ 63 bytes, the largest allocation in Rust. Most
-- loops recur on the text that is left. Those of the skip list run on fuel: a walk has as much as
-- there are nodes and levels, and a deletion as much as there are characters to delete.
--
-- Of `insert` of `JumpRope` as a whole the theorems cover the end of the text and ropes whose text is
-- no longer than a node, of `remove` nothing. What a flush of the buffer makes of the text is said only
-- for text that was typed at the end.
--
-- Not modelled: of src/jumprope.rs `check`, `eq_str`, cloning and dropping, and the comparisons of
-- src/buffered.rs, which rest on these; the iterators of src/iter.rs; formatting, `GetSize`, the
-- benchmarks, the C rope, the WebAssembly bindings and the tests.
pub mod Base
pub mod Utf8
pub mod Build
pub mod FastStr
pub mod GapBuffer
pub mod Buffered
pub mod JumpRope
pub mod Examples
pub mod BufferedExamples
pub mod RopeExamples
