-- ===== src/Heap/Invariant.antt =====
-- The invariant of the kernel heap: the blocks tile the region, and those on the free list are
-- exactly those whose list pointers are set.
use power_pc_demo_os.Common.{
  ℕ, zero, suc, ◌+◌, ◌≤◌, ◌<◌, ◌≡◌, ◌≢◌, true, false, List, [], ◌∷◌, arith, leb, if◌then◌else◌, has,
  word_size, Option, none, some, length,
}
use power_pc_demo_os.RingList.Links.{Links}
use power_pc_demo_os.RingList.Ring.{Ring}
use power_pc_demo_os.Heap.{Memory, Heap, list_of, entry, find_fit, desc_size}
use power_pc_demo_os.Heap.Blocks.{Tiles, right_of}

-- `ns` are the blocks up to `e`, and `fs` the list members of the free ones, in the list's order.
pub record IsHeap (h : Heap) (ns fs : List ℕ) (e : ℕ) : Type 0 where
  pub tiles : Tiles h.mem 0 ns e
  pub small : e < word_size
  pub ring : Ring h.mem.links h.header fs
  pub listed : (p : ℕ) → has p fs ≡ true → (8 ≤ p) × (has (entry p) ns ≡ true)
  pub unlisted :
      (n : ℕ)
      → has n ns ≡ true
      → has (list_of n) fs ≡ false
      → (h.mem.links.next (list_of n) ≡ 0) × (h.mem.links.prev (list_of n) ≡ 0)
  pub apart : (n : ℕ) → right_of ns ≤ n → n + desc_size ≤ e → list_of n ≢ h.header
  pub header_set : 0 < h.header

-- The first block of the free list that has room.
unfoldable pub first_fit : Memory → ℕ → List ℕ → Option ℕ
first_fit m needed [] = none
first_fit m needed (p ∷ ps) =
    if leb needed (m.avail (entry p)) then some (entry p) else first_fit m needed ps

find_fit-Links :
    (fuel : ℕ) (h : Heap) (needed a : ℕ) (fs : List ℕ)
    → Links h.mem.links a fs h.header
    → has h.header fs ≡ false
    → length fs < fuel
    → find_fit fuel h (h.mem.links.next a) needed ≡ first_fit h.mem needed fs
unfolding find_fit first_fit
find_fit-Links zero h needed a fs l o f = absurd (omega arith)
find_fit-Links (suc fuel) h needed a [] l o f = ground arith
find_fit-Links (suc fuel) h needed a (p ∷ ps) l o f =
    ground (arith, find_fit-Links fuel h needed p ps l.2)

pub find_fit_lem :
    (fuel : ℕ) (h : Heap) (needed : ℕ) (fs : List ℕ)
    → Ring h.mem.links h.header fs
    → length fs < fuel
    → find_fit fuel h (h.mem.links.next h.header) needed ≡ first_fit h.mem needed fs
find_fit_lem fuel h needed fs r f = find_fit-Links fuel h needed h.header fs r.links r.outside f

pub first_fit-some :
    (m : Memory) (needed : ℕ) (fs : List ℕ) (n : ℕ)
    → ((p : ℕ) → has p fs ≡ true → 8 ≤ p)
    → first_fit m needed fs ≡ some n
    → (needed ≤ m.avail n) × (has (list_of n) fs ≡ true)
unfolding first_fit
first_fit-some m needed [] n low e = cc
first_fit-some m needed (p ∷ ps) n low e =
    ground (arith, low p (ground arith), first_fit-some m needed ps n (λ q i. low q (ground arith)))

pub first_fit-none :
    (m : Memory) (needed : ℕ) (fs : List ℕ) (p : ℕ)
    → first_fit m needed fs ≡ none
    → has p fs ≡ true
    → m.avail (entry p) < needed
unfolding first_fit
first_fit-none m needed [] p e i = cc
first_fit-none m needed (q ∷ ps) p e i = ground (arith, first_fit-none m needed ps p)
