-- ===== src/Heap.antt =====
-- kernel/src/mm/heap.cpp: the kernel heap. A `HeapSegmentDesc` is 24 bytes: `left`, `right`,
-- `doubleList` at byte 8, `availableSize` and, at byte 20, `headerOffset`. Its fields are cells of the
-- memory: `left`, `right` and `avail` by the address of the descriptor, the pointers of `doubleList`
-- by the address of that member, and `headerOffset` by the address of its own word, since
-- `*((word_t *)p - 1)` reads the same word in front of a block's data. An operation is one
-- step: free reads the word in front of the data and the block's `doubleList.next` before it takes the
-- lock, and what other threads do in between is left out, as are the counters of the _DEBUG build.
pub mod Blocks
pub mod Region
pub mod Listed
pub mod Allocate
pub mod FreeList
pub mod Invariant
pub mod Merge
pub mod Coalesce
pub mod Kept
pub mod Neighbours
pub mod Free
pub mod Split
mod Tests
use power_pc_demo_os.Common.{
  ℕ, zero, suc, ◌+◌, ◌-◌, Bool, true, false, not, ◌&&◌, ◌||◌, Option, none, some, ◌==◌, ltb, leb,
  if◌then◌else◌, update, word_size, add_word, sub_word, align_up, align_down,
}
use power_pc_demo_os.RingList.{Store, null, add_header, add_tail, del_node, init_ring}

abbrev pub desc_size : ℕ
desc_size = 24

abbrev pub page_size : ℕ
page_size = 4096

pub record Memory : Type 0 where
  pub left : ℕ → ℕ
  pub right : ℕ → ℕ
  pub avail : ℕ → ℕ
  pub word : ℕ → ℕ
  pub links : Store

-- The `Heap` object: `header` is the address of its `_freeRingListHeader`.
pub record Heap : Type 0 where
  pub mem : Memory
  pub header : ℕ
  pub start : ℕ
  pub end : ℕ

abbrev pub list_of : ℕ → ℕ
list_of node = node + 8

-- `List_Entry(p, HeapSegmentDesc, doubleList)`
abbrev pub entry : ℕ → ℕ
entry p = p - 8

abbrev pub offset_cell : ℕ → ℕ
offset_cell node = node + 20

abbrev pub offset : Memory → ℕ → ℕ
offset m node = m.word (offset_cell node)

abbrev pub set_left : Memory → ℕ → ℕ → Memory
set_left m p v = record m { left = update m.left p v }

abbrev pub set_right : Memory → ℕ → ℕ → Memory
set_right m p v = record m { right = update m.right p v }

abbrev pub set_avail : Memory → ℕ → ℕ → Memory
set_avail m p v = record m { avail = update m.avail p v }

abbrev pub set_offset : Memory → ℕ → ℕ → Memory
set_offset m p v = record m { word = update m.word (offset_cell p) v }

-- A block of more than a page goes to the end of the free list, a smaller one to its front.
unfoldable pub add_free : Heap → ℕ → Heap
add_free h node =
    let m = h.mem in
    record h {
      mem = record m {
        links =
            if ltb page_size (m.avail node)
            then add_tail m.links h.header (list_of node)
            else add_header m.links h.header (list_of node);
      };
    }

unfoldable pub del_free : Heap → ℕ → Heap
del_free h node =
    let m = h.mem in record h { mem = record m { links = del_node m.links (list_of node) } }

-- `if (p->right != 0) p->right->left = p`, which links a block that took the place of another.
unfoldable pub relink_right : Memory → ℕ → Memory
relink_right m p = if m.right p == null then m else set_left m (m.right p) p

-- The block that is split off behind the first `needed` bytes of `node`'s data, `left_size` bytes
-- with its descriptor.
unfoldable pub split : Memory → ℕ → ℕ → ℕ → ℕ → Memory
unfolding relink_right
split m node new needed left_size =
    let m1 = set_right m new (m.right node) in
    let m2 = set_left m1 new node in
    let m3 = set_right m2 node new in
    let m4 = relink_right m3 new in
    let m5 = set_avail m4 new (left_size - desc_size) in
    let m6 = set_offset m5 new desc_size in set_avail m6 node needed

-- `Heap::addHeapBlock(from, to)`
unfoldable pub add_heap_block : Heap → ℕ → ℕ → Heap
add_heap_block h from to =
    let h1 =
      if h.mem.links.next h.header == null
      then record {
        mem = record h.mem { links = init_ring h.mem.links h.header };
        header = h.header;
        start = from;
        end = to;
      }
      else h in
    let m1 = set_left (set_right h1.mem from 0) from 0 in
    let m2 =
      set_avail (set_offset m1 from desc_size) from (sub_word (sub_word to from) desc_size) in
    record {
      mem = record m2 { links = add_tail m2.links h.header (list_of from) };
      header = h.header;
      start = if ltb from h1.start then from else h1.start;
      end = if ltb h1.end to then to else h1.end;
    }

-- What `allocate` does with the block that it found.
unfoldable pub carve : Heap → ℕ → ℕ → ℕ × Heap
unfolding split add_free del_free
carve h node needed =
    let m = h.mem in
    let left_size = m.avail node - needed in
    let ret = add_word node (offset m node) in
    let new = add_word ret needed in
    let h' =
      if ltb desc_size left_size
      then add_free (record h { mem = split m node new needed left_size }) new
      else h in
    (ret, del_free h' node)

-- The loop over the free list: the first block with enough room, on fuel for the nodes to visit.
unfoldable pub find_fit : ℕ → Heap → ℕ → ℕ → Option ℕ
find_fit zero h p needed = none
find_fit (suc fuel) h p needed =
    let rest = find_fit fuel h (h.mem.links.next p) needed in
    if p == h.header
    then none
    else if leb needed (h.mem.avail (entry p))
    then some (entry p)
    else rest

-- `Heap::allocate(neededSize)`: the address of the data, null if no block fits.
unfoldable pub allocate : ℕ → Heap → ℕ → ℕ × Heap
allocate fuel h size =
    let needed = align_up size 4 in
    elim (find_fit fuel h (h.mem.links.next h.header) needed) [
      | none ↦ (null, h)
      | some node ↦ carve h node needed
    ]

-- `zero_block(node, node->headerOffset)` over the fields of the descriptor and the words behind.
unfoldable pub zero_header : Memory → ℕ → Memory
zero_header m node = record m {
  left = update m.left node 0;
  right = update m.right node 0;
  avail = update m.avail node 0;
  word = λ a. if leb node a && ltb a (node + offset m node) then 0 else m.word a;
  links = record {
    next = update m.links.next (list_of node) 0;
    prev = update m.links.prev (list_of node) 0;
  };
}

-- `node` takes over the block behind it, whose descriptor is wiped.
unfoldable pub absorb : Memory → ℕ → ℕ → Memory
unfolding relink_right zero_header
absorb m node gone =
    let m1 = set_right m node (m.right gone) in
    let m2 = relink_right m1 node in
    let m3 =
      set_avail m2 node (add_word (m2.avail node) (add_word (m2.avail gone) (offset m2 gone))) in
    zero_header m3 gone

-- A block is on the free list when its list pointer is set.
unfoldable pub is_listed : Memory → ℕ → Bool
is_listed m node = not (node == null) && not (m.links.prev (list_of node) == 0)

unfoldable pub merge_right : Heap → ℕ → Heap
unfolding is_listed del_free absorb
merge_right h node =
    let right = h.mem.right node in
    let h' = del_free h right in
    if is_listed h.mem right then record h' { mem = absorb h'.mem node right } else h

-- The padding in front of an aligned block goes back to it.
unfoldable pub take_padding : Memory → ℕ → Memory
take_padding m node =
    if ltb desc_size (offset m node)
    then set_offset (set_avail m node (add_word (m.avail node) (offset m node - desc_size))) node
        desc_size
    else m

unfoldable pub merge_left : Heap → ℕ → Heap
unfolding is_listed absorb take_padding add_free
merge_left h node =
    let left = h.mem.left node in
    if is_listed h.mem left
    then record h { mem = absorb h.mem left node }
    else add_free (record h { mem = take_padding h.mem node }) node

-- `Heap::free(baseAddr)`
unfoldable pub free : Heap → ℕ → Heap
unfolding merge_right merge_left
free h base =
    let back = h.mem.word (sub_word base 4) in
    let node = sub_word base back in
    if base == null
    then h
    else if ltb base h.start || ltb h.end base
    then h
    else if ltb back desc_size
    then h
    else if not (h.mem.links.next (list_of node) == 0)
    then h
    else merge_left (merge_right h node) node
