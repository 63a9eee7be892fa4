-- ===== src/Heap/FreeList.antt =====
-- What taking a block off the free list and putting one on it do to the invariant's parts.
use power_pc_demo_os.Common.{
  ℕ, ◌≡◌, ◌≢◌, true, false, List, [], ◌∷◌, ◌++◌, arith, ◌==◌, ltb, if◌then◌else◌, has, erase,
  Bool-cases, inl, inr, has-append,
}
use power_pc_demo_os.RingList.Ring.{
  Ring, add_tail-Ring, add_header-Ring, del_node-Ring, del_node-null,
}
use power_pc_demo_os.RingList.Frame.{
  SameOutside, add_tail-SameOutside, add_header-SameOutside, del_node-SameOutside,
}
use power_pc_demo_os.Heap.{Heap, list_of, add_free, del_free, page_size}
use power_pc_demo_os.Heap.Blocks.{SameBlock}

-- The free list after a block is put on it.
abbrev pub put_free : Heap → ℕ → List ℕ → List ℕ
put_free h n fs = if ltb page_size (h.mem.avail n) then fs ++ list_of n ∷ [] else list_of n ∷ fs

pub add_free-Ring :
    (h : Heap) (n : ℕ) (fs : List ℕ)
    → Ring h.mem.links h.header fs
    → list_of n ≢ h.header
    → has (list_of n) fs ≡ false
    → Ring (add_free h n).mem.links h.header (put_free h n fs)
unfolding add_free
add_free-Ring h n fs r a o = elim (Bool-cases (ltb page_size (h.mem.avail n))) [
  | inl big ↦ rw big (add_tail-Ring (list_of n) r a o)
  | inr little ↦ rw little (add_header-Ring (list_of n) r a o)
]

pub add_free-SameOutside :
    (h : Heap) (n : ℕ) (fs : List ℕ)
    → Ring h.mem.links h.header fs
    → SameOutside (list_of n ∷ h.header ∷ fs) h.mem.links (add_free h n).mem.links
unfolding add_free
add_free-SameOutside h n fs r = elim (Bool-cases (ltb page_size (h.mem.avail n))) [
  | inl big ↦ rw big (add_tail-SameOutside (list_of n) r)
  | inr little ↦ rw little (add_header-SameOutside (list_of n) r)
]

-- Only the pointers of the list change.
pub add_free-SameBlock : (h : Heap) (n p : ℕ) → SameBlock h.mem (add_free h n).mem p
unfolding add_free
add_free-SameBlock h n p = ground arith

pub del_free-SameBlock : (h : Heap) (n p : ℕ) → SameBlock h.mem (del_free h n).mem p
unfolding del_free
del_free-SameBlock h n p = ground arith

pub del_free-Ring :
    (h : Heap) (n : ℕ) (fs : List ℕ)
    → Ring h.mem.links h.header fs
    → has (list_of n) fs ≡ true
    → Ring (del_free h n).mem.links h.header (erase (list_of n) fs)
unfolding del_free
del_free-Ring h n fs r i = del_node-Ring (list_of n) r i

pub del_free-SameOutside :
    (h : Heap) (n : ℕ) (fs : List ℕ)
    → Ring h.mem.links h.header fs
    → has (list_of n) fs ≡ true
    → SameOutside (h.header ∷ fs) h.mem.links (del_free h n).mem.links
unfolding del_free
del_free-SameOutside h n fs r i = del_node-SameOutside (list_of n) r i

pub del_free-null :
    (h : Heap) (n : ℕ)
    → ((del_free h n).mem.links.next (list_of n) ≡ 0)
      × ((del_free h n).mem.links.prev (list_of n) ≡ 0)
unfolding del_free
del_free-null h n = del_node-null h.mem.links (list_of n)

pub has-put_free :
    (h : Heap) (n p : ℕ) (fs : List ℕ)
    → has p (put_free h n fs) ≡ (if p == list_of n then true else has p fs)
has-put_free h n p fs = ground (arith, has-append p fs (list_of n ∷ []))
