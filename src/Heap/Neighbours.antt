-- ===== src/Heap/Neighbours.antt =====
-- The neighbours of a block that `Heap::free` looks at, and what joining it to the right one makes of the
-- heap.
use power_pc_demo_os.Common.{
  ◌≢◌, ℕ, ◌≤◌, ◌<◌, ◌≡◌, ◌∙◌, ◌⊎◌, refl, true, false, List, [], ◌∷◌, arith, ◌==◌, has, erase,
  Bool-cases, inl, inr, ap, sym, has-erase_ne, has-erase_self, has-erase,
}
use power_pc_demo_os.Heap.{Memory, Heap, offset, list_of, del_free, absorb, is_listed, merge_right}
use power_pc_demo_os.Heap.Blocks.{Tiles, Tiles-Inside, right_of, Tiles-right, other_has}
use power_pc_demo_os.Heap.Kept.{
  IsLive, Kept, Kept-refl, Kept-trans, Tiles-apart, absorb-Kept, del_free-Kept,
}
use power_pc_demo_os.Heap.FreeList.{del_free-SameBlock}
use power_pc_demo_os.Heap.Invariant.{IsHeap}
use power_pc_demo_os.Heap.Listed.{del_free-IsHeap}
use power_pc_demo_os.Heap.Coalesce.{absorb-ends, absorb-IsHeap}

-- The left neighbour of a block is a block of the tiling, and its right neighbour is the block.
pub Tiles-left :
    (m : Memory) (l : ℕ) (ns : List ℕ) (e x g : ℕ)
    → Tiles m l ns e
    → has x ns ≡ true
    → m.left x ≡ g
    → ((g ≡ l) × (x ≡ right_of ns)) ⊎ ((has g ns ≡ true) × (m.right g ≡ x))
Tiles-left m l [] e x g t h r = absurd (ground arith)
Tiles-left m l (n ∷ ns) e x g t h r = elim (Bool-cases (x == n)) [
  | inl same ↦ inl (ground (arith, t.0))
  | inr other ↦ elim (Tiles-left m n ns e x g t.1 (other_has x n ns other h) r) [
    | inl at ↦ inr (next_to t.0.to_right at.0 at.1)
    | inr deep ↦ inr (deeper deep.0, deep.1)
  ]
]
  where
    next_to :
        m.right n ≡ right_of ns
        → g ≡ n
        → x ≡ right_of ns
        → (has g (n ∷ ns) ≡ true) × (m.right g ≡ x)
    next_to r a b = (ground arith, ap m.right a ∙ r ∙ sym b)

    deeper : has g ns ≡ true → has g (n ∷ ns) ≡ true
    deeper i = ground arith

-- What `is_listed` finds out of a neighbour.
pub is_listed-has :
    {h : Heap} {ns fs : List ℕ} {e : ℕ} (g : ℕ)
    → IsHeap h ns fs e
    → (0 < g → has g ns ≡ true)
    → is_listed h.mem g ≡ true
    → (0 < g) × (has g ns ≡ true) × (has (list_of g) fs ≡ true)
unfolding is_listed
is_listed-has {h} {ns} {fs} g v known t =
    let pos : 0 < g = ground arith in
    let i = known pos in
    elim (Bool-cases (has (list_of g) fs)) [
      | inl on ↦ (pos, i, on)
      | inr out ↦ let null = (v.unlisted g i out).1 in absurd (ground arith)
    ]

-- Every other block in use is still one, with its size and its words.
abbrev pub Others : Heap → Heap → List ℕ → List ℕ → List ℕ → List ℕ → ℕ → Type 0
Others h h' ns fs blocks free_list x =
    (n : ℕ) → IsLive ns fs n → n ≢ x → IsLive blocks free_list n × Kept h.mem h'.mem n

-- What `absorb` of `g` into `x` leaves.
pub absorb-Others :
    {h : Heap} {ns fs : List ℕ} {e : ℕ} (x g : ℕ)
    → IsHeap h ns fs e
    → has g ns ≡ true
    → (n : ℕ) → IsLive ns fs n
    → n ≢ x
    → n ≢ g
    → IsLive (erase g ns) fs n × Kept h.mem (absorb h.mem x g) n
absorb-Others {h} {ns} {fs} {e} x g v g_in n (i, out) nx ng =
    let inside = Tiles-Inside h.mem 0 ns e n v.tiles i in
    (
      (has-erase_ne n g ns ng ∙ i, out),
      absorb-Kept h.mem x g n nx ng inside.header (Tiles-apart h.mem 0 ns e n g v.tiles i g_in ng),
    )

-- A block that is off the free list is none of those on it.
pub not_listed :
    (n g : ℕ) (fs : List ℕ) → has (list_of n) fs ≡ false → has (list_of g) fs ≡ true → n ≢ g
not_listed n g fs out on e = let same = ap (λ k. has (list_of k) fs) e in absurd (ground arith)

-- The block `x` is still there, unlisted, with its header, and no smaller.
pub record Grown (h h' : Heap) (ns fs : List ℕ) (x e : ℕ) : Type 0 where
  pub blocks : List ℕ
  pub free_list : List ℕ
  pub heap : IsHeap h' blocks free_list e
  pub block_in : has x blocks ≡ true
  pub off_list : has (list_of x) free_list ≡ false
  pub header : offset h'.mem x ≡ offset h.mem x
  pub room : h.mem.avail x ≤ h'.mem.avail x
  pub others : Others h h' ns fs blocks free_list x

pub merge_right-Grown :
    {h : Heap} {ns fs : List ℕ} {e : ℕ} (x : ℕ)
    → IsHeap h ns fs e
    → has x ns ≡ true
    → has (list_of x) fs ≡ false
    → Grown h (merge_right h x) ns fs x e
unfolding merge_right
merge_right-Grown {h} {ns} {fs} {e} x v i out =
    elim (Bool-cases (is_listed h.mem (h.mem.right x))) [
      | inr lone ↦ rw lone (record {
        blocks = ns;
        free_list = fs;
        heap = v;
        block_in = i;
        off_list = out;
        header = refl;
        room = omega arith;
        others = λ n live nx. (live, Kept-refl h.mem n);
      })
      | inl free_right ↦
          let g = h.mem.right x in
          let g_is = is_listed-has g v (Tiles-right h.mem 0 ns e x g v.tiles i refl) free_right in
          rw free_right (taken g refl g_is.0 g_is.1 g_is.2)
    ]
  where
    taken :
        (g : ℕ)
        → h.mem.right x ≡ g
        → 0 < g
        → has g ns ≡ true
        → has (list_of g) fs ≡ true
        → let h' = del_free h g in Grown h (record h' { mem = absorb h'.mem x g }) ns fs x e
    taken g r pos g_in on =
        let h' = del_free h g in
        let v' = del_free-IsHeap g v on in
        let same = del_free-SameBlock h g x in
        let gone = has-erase_self (list_of g) fs v.ring.distinct in
        let ends = absorb-ends x g v' i r pos in
        record {
          blocks = erase g ns;
          free_list = erase (list_of g) fs;
          heap = absorb-IsHeap x g v' i r pos gone;
          block_in = has-erase_ne x g ns (omega (arith, ends.3)) ∙ i;
          off_list = has-erase (list_of x) (list_of g) fs out;
          header = ends.0;
          room = omega (arith, ends.1);
          others = λ n live nx.
              let still : IsLive ns (erase (list_of g) fs) n =
                (live.0, has-erase (list_of n) (list_of g) fs live.1) in
              let (kept, words) =
                absorb-Others x g v' g_in n still nx (not_listed n g fs live.1 on) in
              (kept, Kept-trans (del_free-Kept h g n) words);
        }
