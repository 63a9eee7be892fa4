-- ===== src/Heap/Allocate.antt =====
-- `Heap::allocate(neededSize)`: which block it takes, and that the heap stays well formed.
use power_pc_demo_os.Common.{
  ℕ, ◌+◌, ◌-◌, ◌≤◌, ◌<◌, ◌≡◌, ◌∙◌, refl, true, false, List, arith, ltb, has, erase, Bool-cases,
  Option-cases, inl, inr, word_size, ap, Option, none, some, length, has-erase_self, add_word-small,
  align_up, sym,
}
use power_pc_demo_os.RingList.{null}
use power_pc_demo_os.Heap.{
  Memory, Heap, offset, list_of, entry, add_free, del_free, split, carve, allocate, desc_size,
  find_fit,
}
use power_pc_demo_os.Heap.Blocks.{Tiles-Inside}
use power_pc_demo_os.Heap.Split.{split-node, insert_after, Fits, has-insert_after}
use power_pc_demo_os.Heap.FreeList.{put_free, has-put_free, add_free-SameBlock, del_free-SameBlock}
use power_pc_demo_os.Heap.Invariant.{
  IsHeap, first_fit, first_fit-some, first_fit-none, find_fit_lem,
}
use power_pc_demo_os.Heap.Listed.{del_free-IsHeap, split_put-IsHeap}

entry-list_of : (x : ℕ) → entry (list_of x) ≡ x
entry-list_of x = omega arith

-- What `allocate` makes of the block that it found: the result, the block, and the heap behind it.
pub record Taken (h : Heap) (ns fs : List ℕ) (e x needed : ℕ) (out : ℕ × Heap) : Type 0 where
  pub blocks : List ℕ
  pub free_list : List ℕ
  pub heap : IsHeap out.1 blocks free_list e
  pub block_in : has x blocks ≡ true
  pub off_list : has (list_of x) free_list ≡ false
  pub address : out.0 ≡ x + offset out.1.mem x
  pub room : needed ≤ out.1.mem.avail x
  pub little_waste : out.1.mem.avail x ≤ needed + desc_size

split_size :
    (m : Memory) (x needed : ℕ)
    → ltb desc_size (m.avail x - needed) ≡ true
    → desc_size < m.avail x - needed
split_size m x needed big = ground arith

carve-exact :
    (h : Heap) (x needed : ℕ)
    → ltb desc_size (h.mem.avail x - needed) ≡ false
    → x + offset h.mem x < word_size
    → carve h x needed ≡ (x + offset h.mem x, del_free h x)
unfolding carve
carve-exact h x needed exact fits = rw exact (rw (add_word-small x (offset h.mem x) fits) refl)

carve-split :
    (h : Heap) (x needed : ℕ)
    → ltb desc_size (h.mem.avail x - needed) ≡ true
    → x + offset h.mem x + needed < word_size
    → let new = x + offset h.mem x + needed in
      let h' = record h { mem = split h.mem x new needed (h.mem.avail x - needed) } in
      carve h x needed ≡ (x + offset h.mem x, del_free (add_free h' new) x)
unfolding carve
carve-split h x needed big fits = rw big (
    rw (add_word-small x (offset h.mem x) (omega arith))
      (rw (add_word-small (x + offset h.mem x) needed fits) refl))

exact-Taken :
    {h : Heap} {ns fs : List ℕ} {e : ℕ} (x needed : ℕ)
    → IsHeap h ns fs e
    → has x ns ≡ true
    → has (list_of x) fs ≡ true
    → needed ≤ h.mem.avail x
    → h.mem.avail x - needed ≤ desc_size
    → Taken h ns fs e x needed (x + offset h.mem x, del_free h x)
unfolding del_free
exact-Taken {h} {ns} {fs} {e} x needed v i l room waste = record {
  blocks = ns;
  free_list = erase (list_of x) fs;
  heap = del_free-IsHeap x v l;
  block_in = i;
  off_list = has-erase_self (list_of x) fs v.ring.distinct;
  address = refl;
  room = room;
  little_waste = omega arith;
}

split-Taken :
    {h : Heap} {ns fs : List ℕ} {e : ℕ} (x new needed left : ℕ)
    → IsHeap h ns fs e
    → has x ns ≡ true
    → has (list_of x) fs ≡ true
    → Fits h.mem x new needed left e
    → let h' = record h { mem = split h.mem x new needed left } in
      Taken h ns fs e x needed (x + offset h.mem x, del_free (add_free h' new) x)
split-Taken {h} {ns} {fs} {e} x new needed left v i l f =
    let h' : Heap = record h { mem = split h.mem x new needed left } in
    let put = add_free h' new in
    let before = split_put-IsHeap x new needed left v i f in
    let still : has (list_of x) (put_free h' new fs) ≡ true =
      has-put_free h' new (list_of x) fs ∙ (ground arith) in
    let inside = f.3 in
    let header = inside.header in
    let right = inside.right in
    let node = split-node h.mem x new needed left (omega arith) (omega arith) in
    let added = add_free-SameBlock h' new x in
    let gone = del_free-SameBlock put x x in
    record {
      blocks = insert_after x new ns;
      free_list = erase (list_of x) (put_free h' new fs);
      heap = del_free-IsHeap x before still;
      block_in = has-insert_after x new x ns i ∙ (ground arith);
      off_list = has-erase_self (list_of x) (put_free h' new fs) before.ring.distinct;
      address = ap (λ o. x + o) (sym (gone.word ∙ added.word ∙ node.3));
      room = omega (arith, gone.avail, added.avail, node.2);
      little_waste = omega (arith, gone.avail, added.avail, node.2);
    }

carve-Taken :
    {h : Heap} {ns fs : List ℕ} {e : ℕ} (x needed : ℕ)
    → IsHeap h ns fs e
    → has x ns ≡ true
    → has (list_of x) fs ≡ true
    → needed ≤ h.mem.avail x
    → Taken h ns fs e x needed (carve h x needed)
carve-Taken {h} {ns} {fs} {e} x needed v i l room =
    let inside = Tiles-Inside h.mem 0 ns e x v.tiles i in
    let ends = inside.ends in
    let small = v.small in
    elim (Bool-cases (ltb desc_size (h.mem.avail x - needed))) [
      | inl big ↦
          let fits : x + offset h.mem x + needed < word_size = omega arith in
          rw (carve-split h x needed big fits) (
            split-Taken x (x + offset h.mem x + needed) needed (h.mem.avail x - needed) v i l
              (refl, omega arith, split_size h.mem x needed big, inside))
      | inr exact ↦
          let fits : x + offset h.mem x < word_size = omega arith in
          rw (carve-exact h x needed exact fits) (exact-Taken x needed v i l room (ground arith))
    ]

allocate_by :
    (fuel : ℕ) (h : Heap) (size : ℕ) (r : Option ℕ)
    → find_fit fuel h (h.mem.links.next h.header) (align_up size 4) ≡ r
    → allocate fuel h size
      ≡ (elim r [ none ↦ (null, h) | some node ↦ carve h node (align_up size 4) ])
unfolding allocate
allocate_by fuel h size r e =
    ap
      (λ s. elim s as (λ _. ℕ × Heap) [
        | none ↦ (null, h)
        | some node ↦ carve h node (align_up size 4)
      ])
      e

-- When `allocate` succeeds, on fuel for the free list's length, the block that it took is off the free
-- list, the result is the address of its data, it has room for the rounded size, at most a descriptor
-- more than that is wasted, and the heap is well formed again.
pub allocate-Taken :
    {h : Heap} {ns fs : List ℕ} {e : ℕ} (fuel size x : ℕ)
    → IsHeap h ns fs e
    → length fs < fuel
    → first_fit h.mem (align_up size 4) fs ≡ some x
    → Taken h ns fs e x (align_up size 4) (allocate fuel h size)
allocate-Taken {h} {ns} {fs} {e} fuel size x v enough found =
    let needed = align_up size 4 in
    let scan = find_fit_lem fuel h needed fs v.ring enough ∙ found in
    let fit = first_fit-some h.mem needed fs x (λ p i. (v.listed p i).0) found in
    let spot = v.listed (list_of x) fit.1 in
    let i : has x ns ≡ true = rw (entry-list_of x) at spot.1 in
    rw (allocate_by fuel h size (some x) scan) (carve-Taken x needed v i fit.1 fit.0)

allocate-fails :
    {h : Heap} {ns fs : List ℕ} {e : ℕ} (fuel size : ℕ)
    → IsHeap h ns fs e
    → length fs < fuel
    → first_fit h.mem (align_up size 4) fs ≡ none
    → allocate fuel h size ≡ (null, h)
allocate-fails {h} {ns} {fs} {e} fuel size v enough missing =
    allocate_by fuel h size none (find_fit_lem fuel h (align_up size 4) fs v.ring enough ∙ missing)

-- When `allocate` returns null, on fuel for the free list's length, each block of the free list is
-- smaller than the rounded size, and the heap is as it was.
pub allocate-null :
    {h : Heap} {ns fs : List ℕ} {e : ℕ} (fuel size : ℕ)
    → IsHeap h ns fs e
    → length fs < fuel
    → (allocate fuel h size).0 ≡ null
    → ((p : ℕ) → has p fs ≡ true → h.mem.avail (entry p) < align_up size 4)
      × ((allocate fuel h size).1 ≡ h)
allocate-null {h} {ns} {fs} {e} fuel size v enough failed =
    elim (Option-cases (first_fit h.mem (align_up size 4) fs)) [
      | inl missing ↦ (
        λ p i. first_fit-none h.mem (align_up size 4) fs p missing i,
        ap (λ r. r.1) (allocate-fails fuel size v enough missing),
      )
      | inr found ↦
          let t = allocate-Taken fuel size found.0 v enough found.1 in
          let at = t.address in
          let inside = Tiles-Inside _ 0 t.blocks e found.0 t.heap.tiles t.block_in in
          let pos = inside.not_null in absurd (omega arith)
    ]
