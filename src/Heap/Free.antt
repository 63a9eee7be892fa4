-- ===== src/Heap/Free.antt =====
-- `Heap::free(baseAddr)` on the address of a block that `allocate` took: the block is free again,
-- joined with its free neighbours, and the heap stays well formed.
use power_pc_demo_os.Common.{ℕ, ◌+◌, ◌≤◌, ◌<◌, ◌≡◌, ◌⊎◌, true, List, arith, has, sub_word}
use power_pc_demo_os.Heap.{Heap, offset, list_of, free, desc_size}
use power_pc_demo_os.Heap.Invariant.{IsHeap}
use power_pc_demo_os.Heap.Neighbours.{Others}

-- What `free` makes of the heap: it is well formed up to the same end, the bytes of the freed block lie
-- inside one block, `home`, that is on the free list, and every other block in use is left as it was.
pub record Freed (h h' : Heap) (ns fs : List ℕ) (x e : ℕ) : Type 0 where
  pub blocks : List ℕ
  pub free_list : List ℕ
  pub heap : IsHeap h' blocks free_list e
  pub home : ℕ
  pub home_in : has home blocks ≡ true
  pub home_listed : has (list_of home) free_list ≡ true
  pub starts : home ≤ x
  pub covers : x + offset h.mem x + h.mem.avail x ≤ home + offset h'.mem home + h'.mem.avail home
  pub others : Others h h' ns fs blocks free_list x

-- `free` does nothing to null, to an address outside of the heap, to one whose word in front is no
-- header size, and to a block that is already on the free list.
pub free-ignored :
    (h : Heap) (base : ℕ)
    → let back = h.mem.word (sub_word base 4) in
      (base ≡ 0)
        ⊎ (base < h.start)
        ⊎ (h.end < base)
        ⊎ (back < desc_size)
        ⊎ (0 < h.mem.links.next (list_of (sub_word base back)))
      → free h base ≡ h
unfolding free
free-ignored h base c = ground arith
