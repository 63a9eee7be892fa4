-- ===== src/Heap/Listed.antt =====
-- The free list of the kernel heap as `allocate` and `free` change it: a block that leaves it, and a
-- block that is split off and put on it, in a heap that stays well formed.
use power_pc_demo_os.Common.{
  ℕ, ◌≤◌, ◌≡◌, ◌≢◌, ◌∙◌, true, false, List, arith, ◌==◌, if◌then◌else◌, has, erase, Bool-cases, inl,
  inr, ==_iff, ap, has-erase_ne, has_of_erase, has-cons_two, sym,
}
use power_pc_demo_os.RingList.Ring.{Ring}
use power_pc_demo_os.Heap.{Memory, Heap, list_of, entry, add_free, del_free, split}
use power_pc_demo_os.Heap.Blocks.{Tiles-frame, Tiles-range, Tiles-within}
use power_pc_demo_os.Heap.Split.{
  split-Tiles, insert_after, Fits, right_of-insert_after, has-insert_after,
}
use power_pc_demo_os.Heap.FreeList.{
  put_free, has-put_free, add_free-Ring, add_free-SameOutside, add_free-SameBlock,
  del_free-SameBlock, del_free-Ring, del_free-SameOutside, del_free-null,
}
use power_pc_demo_os.Heap.Invariant.{IsHeap}

pub member_apart :
    {h : Heap} {ns fs : List ℕ} {e : ℕ} (k : ℕ)
    → IsHeap h ns fs e
    → has k ns ≡ true
    → list_of k ≢ h.header
member_apart {h} {ns} {e = e} k v i =
    let r = Tiles-range h.mem 0 ns e k v.tiles i in v.apart k r.0 r.1

-- A block that leaves the free list has its list pointers cleared.
pub del_free-IsHeap :
    {h : Heap} {ns fs : List ℕ} {e : ℕ} (n : ℕ)
    → IsHeap h ns fs e
    → has (list_of n) fs ≡ true
    → IsHeap (del_free h n) ns (erase (list_of n) fs) e
unfolding del_free
del_free-IsHeap {h} {ns} {fs} {e} n v i = record {
  tiles = Tiles-frame h.mem _ 0 ns e v.tiles (λ k _. del_free-SameBlock h n k);
  small = v.small;
  ring = del_free-Ring h n fs v.ring i;
  listed = λ p k. v.listed p (has_of_erase p (list_of n) fs k);
  unlisted = λ k k_in out. elim (Bool-cases (k == n)) [
    | inl same ↦ let e' = (==_iff k n).0 same in rw e' (del_free-null h n)
    | inr other ↦
        let out' : has (list_of k) fs ≡ false =
          sym (has-erase_ne (list_of k) (list_of n) fs (ground arith)) ∙ out in
        let away = member_apart k v k_in in
        let same = del_free-SameOutside h n fs v.ring i (list_of k) (ground arith) in
        let was = v.unlisted k k_in out' in (same.0 ∙ was.0, same.1 ∙ was.1)
  ];
  apart = v.apart;
  header_set = v.header_set;
}

split_links : (m : Memory) (x new needed left : ℕ) → (split m x new needed left).links ≡ m.links
unfolding split
split_links m x new needed left = ground arith

pub not_listed :
    {h : Heap} {ns fs : List ℕ} {e : ℕ} (k : ℕ)
    → IsHeap h ns fs e
    → has k ns ≡ false
    → has (list_of k) fs ≡ false
not_listed {ns} {fs} k v out = elim (Bool-cases (has (list_of k) fs)) [
  | inr o ↦ o
  | inl i ↦
      let e : entry (list_of k) ≡ k = omega arith in
      let k_in : has k ns ≡ true = rw e at (v.listed (list_of k) i).1 in absurd (cc)
]

put_listed :
    (h : Heap) (x new p : ℕ) (ns fs : List ℕ)
    → has x ns ≡ true
    → (has p fs ≡ true → (8 ≤ p) × (has (entry p) ns ≡ true))
    → has p (put_free h new fs) ≡ true
    → (8 ≤ p) × (has (entry p) (insert_after x new ns) ≡ true)
put_listed h x new p ns fs i was k =
    let k' = sym (has-put_free h new p fs) ∙ k in
    rw (has-insert_after x new (entry p) ns i) (ground (arith, was))

shift : (k n : ℕ) → k ≢ n → list_of k ≢ list_of n
shift k n ne e = ne (omega arith)

not_new :
    (k new : ℕ) (ns fs : List ℕ)
    → (if k == new then true else has k ns) ≡ true
    → (if list_of k == list_of new then true else has (list_of k) fs) ≡ false
    → (k ≢ new) × (has k ns ≡ true) × (has (list_of k) fs ≡ false)
not_new k new ns fs a b = ground arith

-- A block that is split off and put on the free list.
pub split_put-IsHeap :
    {h : Heap} {ns fs : List ℕ} {e : ℕ} (x new needed left : ℕ)
    → IsHeap h ns fs e
    → has x ns ≡ true
    → Fits h.mem x new needed left e
    → let h' = record h { mem = split h.mem x new needed left } in
      IsHeap (add_free h' new) (insert_after x new ns) (put_free h' new fs) e
unfolding add_free
split_put-IsHeap {h} {ns} {fs} {e} x new needed left v i f =
    let h' : Heap = record h { mem = split h.mem x new needed left } in
    let inside = f.3 in
    let ends = inside.ends in
    let header = inside.header in
    let xr = Tiles-range h.mem 0 ns e x v.tiles i in
    let new_apart = v.apart new (omega arith) (omega arith) in
    let new_out : has (list_of new) fs ≡ false =
      not_listed new v (Tiles-within h.mem 0 ns e x new v.tiles i (omega arith) (omega arith)) in
    let ring : Ring h'.mem.links h.header fs = rw (split_links h.mem x new needed left) v.ring in
    record {
      tiles =
          Tiles-frame h'.mem _ 0 (insert_after x new ns) e
            (split-Tiles h.mem x new needed left 0 ns e f v.tiles i)
            (λ k _. add_free-SameBlock h' new k);
      small = v.small;
      ring = add_free-Ring h' new fs ring new_apart new_out;
      listed = λ p k. put_listed h' x new p ns fs i (v.listed p) k;
      unlisted = λ k k_in out.
          let k_not = sym (has-put_free h' new (list_of k) fs) ∙ out in
          let k_was = sym (has-insert_after x new k ns i) ∙ k_in in
          let old = not_new k new ns fs k_was k_not in
          let away = member_apart k v old.1 in
          let same =
            add_free-SameOutside h' new fs ring (list_of k)
              (has-cons_two (list_of k) (list_of new) h.header fs (shift k new old.0) away old.2) in
          let links = split_links h.mem x new needed left in
          let was = v.unlisted k old.1 old.2 in
          (
            same.0 ∙ (ap (λ s. s.next (list_of k)) links ∙ was.0),
            same.1 ∙ (ap (λ s. s.prev (list_of k)) links ∙ was.1),
          );
      apart = rw (right_of-insert_after h.mem x new needed left ns i) v.apart;
      header_set = v.header_set;
    }
