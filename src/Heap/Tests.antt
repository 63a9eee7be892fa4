-- ===== src/Heap/Tests.antt =====
-- Runs of the kernel heap: a region from 4096 to 8192, the list header at 100.
use power_pc_demo_os.Common.{
  ℕ, has, true, ◌-◌, ◌<◌, ◌≡◌, refl, inl, [], ◌∷◌, arith, align_up, sub_word,
}
use power_pc_demo_os.RingList.{init_ring, add_header, add_tail, del_node}
use power_pc_demo_os.Heap.{Heap, entry, add_heap_block, allocate, free, find_fit, carve}
use power_pc_demo_os.Heap.Invariant.{IsHeap, first_fit}
use power_pc_demo_os.Heap.Region.{add_heap_block-IsHeap}
use power_pc_demo_os.Heap.Allocate.{Taken, allocate-Taken, allocate-null}

abbrev fresh : Heap
fresh = record {
  mem = record {
    left = λ _. 0;
    right = λ _. 0;
    avail = λ _. 0;
    word = λ _. 0;
    links = record { next = λ _. 0; prev = λ _. 0 };
  };
  header = 100;
  start = 0;
  end = 0;
}

abbrev region : Heap
region = add_heap_block fresh 4096 8192

add_heap_block-IsHeap_example :
    IsHeap region (4096 ∷ []) (4104 ∷ []) 8192
    × (region.start ≡ 4096)
    × (region.end ≡ 8192)
    × (region.mem.avail 4096 ≡ 8192 - 4096 - 24)
add_heap_block-IsHeap_example =
    add_heap_block-IsHeap fresh 4096 8192 refl (omega arith) (omega arith) (omega arith)
      (omega arith) (inl (omega arith))

region-IsHeap : IsHeap region (4096 ∷ []) (4104 ∷ []) 8192
region-IsHeap =
    (add_heap_block-IsHeap fresh 4096 8192 refl (omega arith) (omega arith) (omega arith)
      (omega arith) (inl (omega arith))).0

-- 101 bytes are rounded to 104, and the rest of the region becomes a block at 4224.
allocate_first : (allocate 3 region 101).0 ≡ 4120
unfolding allocate find_fit carve align_up add_heap_block add_tail init_ring sub_word
allocate_first = refl

allocate_second : (allocate 3 (allocate 3 region 101).1 8).0 ≡ 4248
unfolding allocate find_fit carve align_up add_heap_block add_tail init_ring sub_word del_node
    add_header
allocate_second = refl

allocate-Taken_example :
    Taken region (4096 ∷ []) (4104 ∷ []) 8192 4096 (align_up 101 4) (allocate 3 region 101)
unfolding first_fit add_heap_block align_up sub_word
allocate-Taken_example = allocate-Taken 3 101 4096 region-IsHeap (omega arith) refl

allocate-null_example :
    ((p : ℕ) → has p (4104 ∷ []) ≡ true → region.mem.avail (entry p) < align_up 5000 4)
    × ((allocate 3 region 5000).1 ≡ region)
unfolding allocate find_fit carve align_up add_heap_block add_tail init_ring sub_word
allocate-null_example = allocate-null 3 5000 region-IsHeap (omega arith) refl

-- The two blocks are one again.
free_merges : (free (allocate 3 region 101).1 4120).mem.avail 4096 ≡ 4072
unfolding free allocate find_fit carve align_up add_heap_block add_tail init_ring sub_word del_node
    add_header
free_merges = refl
