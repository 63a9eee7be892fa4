-- ===== src/Heap/Coalesce.antt =====
-- The steps of `Heap::free` one by one: a block that takes over its right neighbour, the padding that
-- goes back to a block, and a block that goes on the free list.
use power_pc_demo_os.Common.{
  ℕ, ◌+◌, ◌-◌, ◌≤◌, ◌<◌, ◌≡◌, ◌≢◌, ◌∙◌, refl, true, false, List, [], ◌∷◌, arith, ◌==◌,
  if◌then◌else◌, has, erase, Bool-cases, inl, inr, ==_iff, word_size, sym, has-erase_ne,
  has_of_erase, has-cons_two, add_word-small,
}
use power_pc_demo_os.RingList.Frame.{Ring-frame, SameOutside, Apart}
use power_pc_demo_os.Heap.{
  Memory, Heap, offset, list_of, entry, add_free, absorb, take_padding, desc_size,
}
use power_pc_demo_os.Heap.Blocks.{
  Tiles, SameBlock, Tiles-frame, Tiles-range, Tiles-Inside, Inside, right_of, Tiles-right,
}
use power_pc_demo_os.Heap.Merge.{absorb-Tiles, absorb-node}
use power_pc_demo_os.Heap.FreeList.{
  put_free, has-put_free, add_free-Ring, add_free-SameOutside, add_free-SameBlock,
}
use power_pc_demo_os.Heap.Invariant.{IsHeap}
use power_pc_demo_os.Heap.Listed.{member_apart}

absorb-SameOutside :
    (m : Memory) (x g : ℕ) → SameOutside (list_of g ∷ []) m.links (absorb m x g).links
unfolding absorb
absorb-SameOutside m x g p o = ground arith

absorb-null :
    (m : Memory) (x g : ℕ)
    → ((absorb m x g).links.next (list_of g) ≡ 0) × ((absorb m x g).links.prev (list_of g) ≡ 0)
unfolding absorb
absorb-null m x g = ground arith

-- The block that takes over another ends where that one ended.
pub absorb-ends :
    {h : Heap} {ns fs : List ℕ} {e : ℕ} (x g : ℕ)
    → IsHeap h ns fs e
    → has x ns ≡ true
    → h.mem.right x ≡ g
    → 0 < g
    → let m' = absorb h.mem x g in
      (offset m' x ≡ offset h.mem x)
      × (m'.avail x ≡ h.mem.avail x + (h.mem.avail g + offset h.mem g))
      × (x + offset h.mem x + h.mem.avail x ≡ g)
      × (x < g)
absorb-ends {h} {ns} {fs} {e} x g v i r pos =
    let inside = Tiles-Inside h.mem 0 ns e x v.tiles i in
    let g_inside =
      Tiles-Inside h.mem 0 ns e g v.tiles (Tiles-right h.mem 0 ns e x g v.tiles i r pos) in
    let header = inside.header in
    let behind = inside.right in
    let g_header = g_inside.header in
    let g_behind = g_inside.right in
    let g_ends = g_inside.ends in
    let small = v.small in
    let node = absorb-node h.mem x g (omega arith) (omega arith) (omega arith) (omega arith) in
    (node.3, node.2, omega arith, omega arith)

right_of-erase : (g : ℕ) (ns : List ℕ) → right_of ns < g → right_of (erase g ns) ≡ right_of ns
right_of-erase g [] h = refl
right_of-erase g (n ∷ ns) h = ground arith

listed_out :
    (g p : ℕ) (ns fs : List ℕ)
    → has (list_of g) fs ≡ false
    → (has p fs ≡ true → (8 ≤ p) × (has (entry p) ns ≡ true))
    → has p fs ≡ true
    → (8 ≤ p) × (has (entry p) (erase g ns) ≡ true)
listed_out g p ns fs out was i =
    let at = was i in
    let ne : entry p ≢ g = λ e. absurd (clash e at.0) in
    (at.0, has-erase_ne (entry p) g ns ne ∙ at.1)
  where
    clash : entry p ≡ g → 8 ≤ p → ⊥
    clash e low = let same : p ≡ list_of g = omega arith in ground arith

pub absorb-IsHeap :
    {h : Heap} {ns fs : List ℕ} {e : ℕ} (x g : ℕ)
    → IsHeap h ns fs e
    → has x ns ≡ true
    → h.mem.right x ≡ g
    → 0 < g
    → has (list_of g) fs ≡ false
    → IsHeap (record h { mem = absorb h.mem x g }) (erase g ns) fs e
absorb-IsHeap {h} {ns} {fs} {e} x g v i r pos out =
    let g_in = Tiles-right h.mem 0 ns e x g v.tiles i r pos in
    let away = member_apart g v g_in in
    let x_range = Tiles-range h.mem 0 ns e x v.tiles i in
    let inside = Tiles-Inside h.mem 0 ns e x v.tiles i in
    let header = inside.header in
    let behind = inside.right in
    record {
      tiles = absorb-Tiles h.mem x g 0 ns e v.tiles v.small i r pos;
      small = v.small;
      ring =
          Ring-frame (list_of g ∷ []) v.ring (not_g (list_of g) h.header fs away out)
            (absorb-SameOutside h.mem x g);
      listed = λ p k. listed_out g p ns fs out (v.listed p) k;
      unlisted = λ k k_in k_out. elim (Bool-cases (k == g)) [
        | inl same ↦ rw ((==_iff k g).0 same) (absorb-null h.mem x g)
        | inr other ↦
            let was = v.unlisted k (has_of_erase k g ns k_in) k_out in
            let same = absorb-SameOutside h.mem x g (list_of k) (alone k g other) in
            (same.0 ∙ was.0, same.1 ∙ was.1)
      ];
      apart = rw (right_of-erase g ns (omega arith)) v.apart;
      header_set = v.header_set;
    }
  where
    not_g :
        (d header : ℕ) (ps : List ℕ) → d ≢ header → has d ps ≡ false → Apart (header ∷ ps) (d ∷ [])
    not_g d header ps away out p k = ground arith

    alone : (k g : ℕ) → (k == g) ≡ false → has (list_of k) (list_of g ∷ []) ≡ false
    alone k g ne = ground arith

-- A block whose header and data changed places without moving its end.
resize-Tiles :
    (m m' : Memory) (x l : ℕ) (ns : List ℕ) (e : ℕ)
    → Tiles m l ns e
    → ((k : ℕ) → k ≢ x → SameBlock m m' k)
    → (m'.left x ≡ m.left x)
      × (m'.right x ≡ m.right x)
      × (desc_size ≤ offset m' x)
      × (offset m' x + m'.avail x ≡ offset m x + m.avail x)
    → Tiles m' l ns e
resize-Tiles m m' x l [] e t same at = tt
resize-Tiles m m' x l (n ∷ ns) e t same at = (
  elim (Bool-cases (n == x)) [
    | inl here ↦ ground (arith, t.0, at)
    | inr other ↦ ground (arith, t.0, same n)
  ],
  resize-Tiles m m' x n ns e t.1 same at,
)

padding-other : (m : Memory) (x k : ℕ) → k ≢ x → SameBlock m (take_padding m x) k
unfolding take_padding
padding-other m x k ne = ground arith

pub padding-at :
    (m : Memory) (x e : ℕ)
    → Inside m e x
    → e < word_size
    → let m' = take_padding m x in
      (m'.left x ≡ m.left x)
      × (m'.right x ≡ m.right x)
      × (offset m' x ≡ desc_size)
      × (offset m' x + m'.avail x ≡ offset m x + m.avail x)
unfolding take_padding
padding-at m x e i small = ground (arith, i, add_word-small (m.avail x) (offset m x - desc_size))

padding-links : (m : Memory) (x : ℕ) → (take_padding m x).links ≡ m.links
unfolding take_padding
padding-links m x = ground arith

pub padding_IsHeap :
    {h : Heap} {ns fs : List ℕ} {e : ℕ} (x : ℕ)
    → IsHeap h ns fs e
    → has x ns ≡ true
    → IsHeap (record h { mem = take_padding h.mem x }) ns fs e
padding_IsHeap {h} {ns} {fs} {e} x v i =
    let inside = Tiles-Inside h.mem 0 ns e x v.tiles i in
    let at = padding-at h.mem x e inside v.small in
    record {
      tiles =
          resize-Tiles h.mem _ x 0 ns e v.tiles (padding-other h.mem x)
            (at.0, at.1, omega arith, at.3);
      small = v.small;
      ring = rw (padding-links h.mem x) v.ring;
      listed = v.listed;
      unlisted = rw (padding-links h.mem x) v.unlisted;
      apart = v.apart;
      header_set = v.header_set;
    }

-- A block that was on no list goes on the free list.
pub add_free-IsHeap :
    {h : Heap} {ns fs : List ℕ} {e : ℕ} (x : ℕ)
    → IsHeap h ns fs e
    → has x ns ≡ true
    → has (list_of x) fs ≡ false
    → IsHeap (add_free h x) ns (put_free h x fs) e
unfolding add_free
add_free-IsHeap {h} {ns} {fs} {e} x v i out = record {
  tiles = Tiles-frame h.mem _ 0 ns e v.tiles (λ k _. add_free-SameBlock h x k);
  small = v.small;
  ring = add_free-Ring h x fs v.ring (member_apart x v i) out;
  listed = λ p k. put_here x p ns fs i (v.listed p) (sym (has-put_free h x p fs) ∙ k);
  unlisted = λ k k_in k_out.
      let k_not = sym (has-put_free h x (list_of k) fs) ∙ k_out in
      let old = not_put k x fs k_not in
      let away = member_apart k v k_in in
      let same =
        add_free-SameOutside h x fs v.ring (list_of k)
          (has-cons_two (list_of k) (list_of x) h.header fs old.0 away old.1) in
      let was = v.unlisted k k_in old.1 in (same.0 ∙ was.0, same.1 ∙ was.1);
  apart = v.apart;
  header_set = v.header_set;
}
  where
    put_here :
        (x p : ℕ) (ns fs : List ℕ)
        → has x ns ≡ true
        → (has p fs ≡ true → (8 ≤ p) × (has (entry p) ns ≡ true))
        → (if p == list_of x then true else has p fs) ≡ true
        → (8 ≤ p) × (has (entry p) ns ≡ true)
    put_here x p ns fs i was k = ground (arith, was)

    not_put :
        (k x : ℕ) (fs : List ℕ)
        → (if list_of k == list_of x then true else has (list_of k) fs) ≡ false
        → (list_of k ≢ list_of x) × (has (list_of k) fs ≡ false)
    not_put k x fs h = ground arith
