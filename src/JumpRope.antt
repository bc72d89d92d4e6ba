-- ===== src/JumpRope.antt =====
-- src/jumprope.rs: the skip list. Nodes stand in a store, by their addresses; a pointer is an address,
-- or `none` if it is null. A failed read of the store, which the code rules out, is a panic too. The
-- generator of random bytes is a parameter; `size` is `NODE_STR_SIZE`.
pub mod Height
pub mod Cells
pub mod Level
pub mod Store
pub mod Entries
pub mod Shape
pub mod Place
pub mod Walk
pub mod Reach
pub mod Relink
pub mod Offsets
pub mod Rebuild
pub mod Stands
pub mod InNode
pub mod Empty
pub mod Top
pub mod Alloc
pub mod GrowHead
pub mod Link
pub mod LinkLoops
pub mod Linked
pub mod InsertNode
pub mod Chunks
pub mod AtCursor
pub mod InsertNodes
pub mod InsertAtEnd
pub mod AppendText
pub mod Cursor
pub mod Insert
pub mod Delete
pub mod Edit
use jumprope_rs.Base.{
  ℕ, zero, suc, ◌+◌, ◌-◌, ◌<◌, ◌^◌, ◌%◌, Bool, Option, none, some, List, [], ◌∷◌, ltb, leb, ◌==◌,
  if◌then◌else◌, length, get_elem?, set, take, replicate, assert, ◌>>=◌, ◌>>◌,
}
use jumprope_rs.Build.{Build, add_usize}
use jumprope_rs.GapBuffer.{GapBuffer}
use jumprope_rs.GapBuffer.Edit.{new_from_str}

-- The crate `rand`: a generator of bytes.
pub record Rng : Type 1 where
  pub State : Type 0
  pub seed_from : ℕ → State
  pub gen : State → ℕ × State

abbrev pub bias : ℕ
bias = 65

abbrev pub max_height : ℕ
max_height = 20

pub record SkipEntry : Type 0 where
  pub node : Option ℕ
  pub skip_chars : ℕ
  pub skip_pairs : ℕ

pub record Node : Type 0 where
  pub str : GapBuffer
  pub height : ℕ
  pub nexts : List SkipEntry

-- `head` is the address of the node inside the rope. `nodes` is the store, and `fresh` the next
-- address.
pub record JumpRope (G : Rng) : Type 0 where
  pub rng : G.State
  pub num_bytes : ℕ
  pub head : ℕ
  pub nodes : ℕ → Option Node
  pub fresh : ℕ

unfoldable pub entry_new : SkipEntry
entry_new = record { node = none; skip_chars = 0; skip_pairs = 0 }

-- The loop of `random_height`: at most `left` more levels.
unfoldable pub random_height_from : (G : Rng) → ℕ → ℕ → G.State → ℕ × G.State
random_height_from G zero h s = (h, s)
random_height_from G (suc left) h s =
    let (byte, s') = G.gen s in
    let rest = random_height_from G left (h + 1) s' in if ltb byte bias then rest else (h, s')

unfoldable pub random_height : (G : Rng) → G.State → ℕ × G.State
random_height G s = random_height_from G (max_height - 1) 1 s

-- `a.wrapping_add(b)` on `usize`
unfoldable pub wrapping_add : ℕ → ℕ → ℕ
wrapping_add a b = (a + b) % 2 ^ 64

-- `-(n as isize) as usize`
unfoldable pub negated : ℕ → ℕ
negated n = (2 ^ 64 - n) % 2 ^ 64

-- `entries[i] = entry`
unfoldable pub put_entry : List SkipEntry → ℕ → SkipEntry → Option (List SkipEntry)
put_entry entries i entry = if ltb i (length entries) then some (set entries i entry) else none

-- The entries below a height, changed.
unfoldable pub map_entries :
    (SkipEntry → Option SkipEntry) → ℕ → List SkipEntry → Option (List SkipEntry)
map_entries f zero entries = some entries
map_entries f (suc n) [] = none
map_entries f (suc n) (x ∷ entries) = do y ← f x; rest ← map_entries f n entries; some (y ∷ rest)

module _ (e : Build) (size : ℕ) where
  unfoldable pub new_with_height : ℕ → List ℕ → Option Node
  new_with_height height content = do
    str ← new_from_str e size content
    some (record { str = str; height = height; nexts = replicate (max_height + 1) entry_new })

-- `first_next`
unfoldable pub first_next : Node → Option SkipEntry
first_next n = get_elem? n.nexts 0

unfoldable pub num_chars : Node → Option ℕ
num_chars n = do next ← first_next n; some next.skip_chars

unfoldable pub num_surrogate_pairs : Node → Option ℕ
num_surrogate_pairs n = do next ← first_next n; some next.skip_pairs

module _ {G : Rng} where
  -- `*p`
  unfoldable pub deref : JumpRope G → Option ℕ → Option Node
  deref r p = p >>= r.nodes

  unfoldable pub put_node : JumpRope G → ℕ → Option Node → JumpRope G
  put_node r a n = record r { nodes = λ a'. if a' == a then n else r.nodes a' }

  -- `(*p).nexts[i]`
  unfoldable pub next_at : JumpRope G → Option ℕ → ℕ → Option SkipEntry
  next_at r p i = do n ← deref r p; get_elem? n.nexts i

  -- `(*p).nexts[i] = entry`
  unfoldable pub put_next : JumpRope G → Option ℕ → ℕ → SkipEntry → Option (JumpRope G)
  put_next r p i entry = do
    a ← p
    n ← r.nodes a
    nexts ← put_entry n.nexts i entry
    some (put_node r a (some (record n { nexts = nexts })))

  -- The entry of the head that skips the whole rope.
  unfoldable pub whole : JumpRope G → Option SkipEntry
  whole r = do h ← r.nodes r.head; assert (leb 1 h.height); get_elem? h.nexts (h.height - 1)

  unfoldable pub len_chars : JumpRope G → Option ℕ
  len_chars r = do entry ← whole r; some entry.skip_chars

  unfoldable pub is_ascii_only : JumpRope G → Option Bool
  is_ascii_only r = do entry ← whole r; some (entry.skip_pairs == 0)

  unfoldable pub len_bytes : JumpRope G → ℕ
  len_bytes r = r.num_bytes

  unfoldable pub is_empty : JumpRope G → Bool
  is_empty r = r.num_bytes == 0

  unfoldable pub len_wchars : Build → JumpRope G → Option ℕ
  len_wchars e r = do entry ← whole r; add_usize e entry.skip_pairs entry.skip_chars

module _ (e : Build) (size : ℕ) (G : Rng) where
  unfoldable pub new_with_rng : G.State → Option (JumpRope G)
  new_with_rng rng = do
    head ← new_with_height e size 1 []
    some (record {
      rng = rng;
      num_bytes = 0;
      head = 0;
      nodes = λ a. if a == 0 then some head else none;
      fresh = 1;
    })

  unfoldable pub new_from_seed : ℕ → Option (JumpRope G)
  new_from_seed seed = new_with_rng (G.seed_from seed)
