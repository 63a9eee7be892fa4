-- ===== src/Heap/Kept.antt =====
-- What `Heap::free` leaves of the blocks that are in use: their sizes and every word of theirs.
use power_pc_demo_os.Common.{
  ap, ltb, leb, ◌&&◌, if◌then◌else◌, ℕ, ◌+◌, ◌≤◌, ◌<◌, ◌≡◌, ◌≢◌, ◌∙◌, ◌⊎◌, refl, true, false, List,
  [], ◌∷◌, arith, ◌==◌, has, Bool-cases, inl, inr, ==_iff,
}
use power_pc_demo_os.RingList.{null}
use power_pc_demo_os.Heap.{
  Memory, Heap, offset, list_of, desc_size, add_free, del_free, absorb, take_padding, relink_right,
  set_right, offset_cell,
}
use power_pc_demo_os.Heap.Blocks.{Tiles, Tiles-behind, other_has}

-- A block that is off the free list.
abbrev pub IsLive : List ℕ → List ℕ → ℕ → Type 0
IsLive ns fs n = (has n ns ≡ true) × (has (list_of n) fs ≡ false)

-- The block `n` has its header, its size and its words.
pub record Kept (m m' : Memory) (n : ℕ) : Type 0 where
  pub header : offset m' n ≡ offset m n
  pub avail : m'.avail n ≡ m.avail n
  pub words : (a : ℕ) → n ≤ a → a < n + offset m n + m.avail n → m'.word a ≡ m.word a

pub Kept-refl : (m : Memory) (n : ℕ) → Kept m m n
Kept-refl m n = record { header = refl; avail = refl; words = λ a lo hi. refl }

pub Kept-trans : {m m' m'' : Memory} {n : ℕ} → Kept m m' n → Kept m' m'' n → Kept m m'' n
Kept-trans k l = record {
  header = l.header ∙ k.header;
  avail = l.avail ∙ k.avail;
  words = λ a lo hi. l.words a lo (omega (arith, k.header, k.avail, hi)) ∙ k.words a lo hi;
}

-- Two blocks of a tiling do not meet.
pub Tiles-apart :
    (m : Memory) (l : ℕ) (ns : List ℕ) (e x g : ℕ)
    → Tiles m l ns e
    → has x ns ≡ true
    → has g ns ≡ true
    → x ≢ g
    → (x + offset m x + m.avail x ≤ g) ⊎ (g + offset m g + m.avail g ≤ x)
Tiles-apart m l [] e x g t i j ne = absurd (ground arith)
Tiles-apart m l (n ∷ ns) e x g t i j ne = elim (Bool-cases (x == n)) [
  | inl same ↦
      let x_is = (==_iff x n).0 same in
      let behind = Tiles-behind m l n ns e g t (ground arith) in rw x_is (inl behind)
  | inr other ↦ elim (Bool-cases (g == n)) [
    | inl same ↦
        let g_is = (==_iff g n).0 same in
        let behind = Tiles-behind m l n ns e x t (ground arith) in rw g_is (inr behind)
    | inr far ↦ Tiles-apart m n ns e x g t.1 (other_has x n ns other i) (other_has g n ns far j) ne
  ]
]

relink_right-word : (m : Memory) (p : ℕ) → (relink_right m p).word ≡ m.word
unfolding relink_right
relink_right-word m p = elim (Bool-cases (m.right p == null)) [
  | inl no_right ↦ rw no_right refl
  | inr some_right ↦ rw some_right refl
]

-- Only the header of the block that is taken over is wiped.
absorb-word :
    (m : Memory) (x g a : ℕ)
    → (absorb m x g).word a ≡ (if leb g a && ltb a (g + offset m g) then 0 else m.word a)
unfolding absorb
absorb-word m x g a =
    ap (λ (w : ℕ → ℕ). if leb g a && ltb a (g + w (offset_cell g)) then 0 else w a)
      (relink_right-word (set_right m x (m.right g)) x)

pub absorb-Kept :
    (m : Memory) (x g n : ℕ)
    → n ≢ x
    → n ≢ g
    → desc_size ≤ offset m n
    → ((n + offset m n + m.avail n ≤ g) ⊎ (g + offset m g + m.avail g ≤ n))
    → Kept m (absorb m x g) n
unfolding absorb
absorb-Kept m x g n nx ng h a = record {
  header = ground arith;
  avail = ground arith;
  words = λ c lo hi. absorb-word m x g c ∙ (ground arith);
}

pub del_free-Kept : (h : Heap) (g n : ℕ) → Kept h.mem (del_free h g).mem n
unfolding del_free
del_free-Kept h g n = record { header = refl; avail = refl; words = λ a lo hi. refl }

pub add_free-Kept : (h : Heap) (g n : ℕ) → Kept h.mem (add_free h g).mem n
unfolding add_free
add_free-Kept h g n = record { header = refl; avail = refl; words = λ a lo hi. refl }

padding-word : (m : Memory) (x a : ℕ) → (a == x + 20) ≡ false → (take_padding m x).word a ≡ m.word a
unfolding take_padding
padding-word m x a ne = elim (Bool-cases (ltb desc_size (offset m x))) [
  | inl padded ↦ rw (padded, ne) refl
  | inr plain ↦ rw plain refl
]

pub padding-Kept :
    (m : Memory) (x n : ℕ)
    → n ≢ x
    → desc_size ≤ offset m n
    → desc_size ≤ offset m x
    → ((n + offset m n + m.avail n ≤ x) ⊎ (x + offset m x + m.avail x ≤ n))
    → Kept m (take_padding m x) n
unfolding take_padding
padding-Kept m x n ne hn hx a = record {
  header = padding-word m x (n + 20) (ground arith);
  avail = same;
  words = λ c lo hi. padding-word m x c (ground arith);
}
  where
    same : (take_padding m x).avail n ≡ m.avail n
    same = ground arith
