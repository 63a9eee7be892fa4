-- ===== src/Heap/Region.antt =====
-- `Heap::addHeapBlock(from, to)`: the first region that a fresh heap is given.
use power_pc_demo_os.Common.{
  ℕ, ◌+◌, ◌-◌, ◌≤◌, ◌<◌, ◌≡◌, ◌⊎◌, refl, [], ◌∷◌, arith, word_size, sub_word-small,
}
use power_pc_demo_os.RingList.{init_ring, add_tail}
use power_pc_demo_os.RingList.Ring.{init_ring-Ring, add_tail-Ring}
use power_pc_demo_os.Heap.{Heap, list_of, add_heap_block, desc_size}
use power_pc_demo_os.Heap.Blocks.{Block}
use power_pc_demo_os.Heap.Invariant.{IsHeap}

region-Block :
    (h : Heap) (from to : ℕ)
    → h.mem.links.next h.header ≡ 0
    → 0 < from
    → from + desc_size ≤ to
    → to < word_size
    → Block (add_heap_block h from to).mem from 0 0 to
unfolding add_heap_block
region-Block h from to fresh pos room small = ground (
  arith,
  sub_word-small to from small (omega arith),
  sub_word-small (to - from) desc_size (omega arith) (omega arith),
)

region-links :
    (h : Heap) (from to : ℕ)
    → h.mem.links.next h.header ≡ 0
    → (add_heap_block h from to).mem.links
      ≡ add_tail (init_ring h.mem.links h.header) h.header (list_of from)
unfolding add_heap_block
region-links h from to fresh = rw fresh refl

-- A heap whose list header was never linked is well formed once it is given a region that does not
-- hold the header: one block, free, that reaches to the region's end.
pub add_heap_block-IsHeap :
    (h : Heap) (from to : ℕ)
    → h.mem.links.next h.header ≡ 0
    → 0 < from
    → from + desc_size ≤ to
    → to < word_size
    → 0 < h.header
    → (h.header < from) ⊎ (to ≤ h.header)
    → let h' = add_heap_block h from to in
      IsHeap h' (from ∷ []) (list_of from ∷ []) to
      × (h'.start ≡ from)
      × (h'.end ≡ to)
      × (h'.mem.avail from ≡ to - from - desc_size)
unfolding add_heap_block
add_heap_block-IsHeap h from to fresh pos room small header_set away = (
  record {
    tiles = (region-Block h from to fresh pos room small, tt);
    small = small;
    ring =
        rw (region-links h from to fresh)
          (add_tail-Ring (list_of from) (init_ring-Ring h.mem.links h.header) (omega arith) refl);
    listed = λ p i. ground arith;
    unlisted = λ n i out. absurd (ground arith);
    apart = λ n lo hi e. absurd (omega arith);
    header_set = header_set;
  },
  rw fresh (ground arith),
  rw fresh (ground arith),
  ground (
    arith,
    sub_word-small to from small (omega arith),
    sub_word-small (to - from) desc_size (omega arith) (omega arith),
  ),
)
