-- ===== src/Heap/Blocks.antt =====
-- The blocks of a region of the heap, in the order of their addresses: linked by `left` and `right`,
-- each ending where the next begins, as `Heap::verifyPhyBlock` checks.
use power_pc_demo_os.Common.{
  ◌<◌, ◌⊎◌, refl, ℕ, ◌+◌, ◌≤◌, ◌≡◌, true, false, List, [], ◌∷◌, arith, ◌==◌, has, Bool-cases, inl,
  inr, ==_iff,
}
use power_pc_demo_os.Heap.{Memory, offset, desc_size}

-- A block: its neighbours, its header, and where it ends.
pub record Block (m : Memory) (n l r e : ℕ) : Type 0 where
  pub not_null : 0 < n
  pub to_left : m.left n ≡ l
  pub to_right : m.right n ≡ r
  pub header : desc_size ≤ offset m n
  pub ends : n + offset m n + m.avail n ≡ e

-- What stands behind a block that the blocks `ns` follow.
abbrev pub right_of : List ℕ → ℕ
right_of [] = 0
right_of (k ∷ ks) = k

abbrev pub end_of : List ℕ → ℕ → ℕ
end_of [] e = e
end_of (k ∷ ks) e = k

-- The blocks `ns`, behind the block `l`, tile the memory up to `e`.
abbrev pub Tiles : Memory → ℕ → List ℕ → ℕ → Type 0
Tiles m l [] e = Unit {0}
Tiles m l (n ∷ ns) e = Block m n l (right_of ns) (end_of ns e) × Tiles m n ns e

-- The fields of `n` are the same in both memories.
pub record SameBlock (m m' : Memory) (n : ℕ) : Type 0 where
  pub left : m'.left n ≡ m.left n
  pub right : m'.right n ≡ m.right n
  pub avail : m'.avail n ≡ m.avail n
  pub word : offset m' n ≡ offset m n

pub SameBlock-Block :
    {m m' : Memory} {n l r e : ℕ} → SameBlock m m' n → Block m n l r e → Block m' n l r e
SameBlock-Block s b = ground (arith, s, b)

pub Tiles-frame :
    (m m' : Memory) (l : ℕ) (ns : List ℕ) (e : ℕ)
    → Tiles m l ns e
    → ((n : ℕ) → has n ns ≡ true → SameBlock m m' n)
    → Tiles m' l ns e
Tiles-frame m m' l [] e t same = tt
Tiles-frame m m' l (n ∷ ns) e t same = (
  SameBlock-Block (same n (ground arith)) t.0,
  Tiles-frame m m' n ns e t.1 (λ k h. same k (ground arith)),
)

pub Block-size : {m : Memory} {n l r e : ℕ} → Block m n l r e → n + desc_size ≤ e
Block-size b = omega arith

pub other_has : (k n : ℕ) (ns : List ℕ) → (k == n) ≡ false → has k (n ∷ ns) ≡ true → has k ns ≡ true
other_has k n ns e h = ground arith

-- Each block lies between the first and the end, and holds at least its descriptor.
pub Tiles-bounds :
    (m : Memory) (l n : ℕ) (ns : List ℕ) (e k : ℕ)
    → Tiles m l (n ∷ ns) e
    → has k (n ∷ ns) ≡ true
    → (n ≤ k) × (k + desc_size ≤ e)
Tiles-bounds m l n [] e k t h =
    let size = Block-size t.0 in let same : k ≡ n = ground arith in (omega arith, omega arith)
Tiles-bounds m l n (x ∷ ns) e k t h =
    let size = Block-size t.0 in
    elim (Bool-cases (k == n)) [
      | inl same ↦
          let same' = (==_iff k n).0 same in
          let ih = Tiles-bounds m n x ns e x t.1 (ground arith) in (omega arith, omega arith)
      | inr other ↦
          let ih = Tiles-bounds m n x ns e k t.1 (other_has k n (x ∷ ns) other h) in
          (omega arith, ih.1)
    ]

-- The blocks behind `n` lie behind its end.
pub Tiles-behind :
    (m : Memory) (l n : ℕ) (ns : List ℕ) (e k : ℕ)
    → Tiles m l (n ∷ ns) e
    → has k ns ≡ true
    → n + offset m n + m.avail n ≤ k
Tiles-behind m l n [] e k t h = absurd (ground arith)
Tiles-behind m l n (x ∷ ns) e k t h =
    let ih = Tiles-bounds m n x ns e k t.1 h in let ends = t.0.ends in omega arith

-- What the tiling says of one of its blocks by itself.
pub record Inside (m : Memory) (e x : ℕ) : Type 0 where
  pub not_null : 0 < x
  pub header : desc_size ≤ offset m x
  pub ends : x + offset m x + m.avail x ≤ e
  pub right : (m.right x ≡ 0) ⊎ (x + offset m x + m.avail x ≡ m.right x)

pub Tiles-Inside :
    (m : Memory) (l : ℕ) (ns : List ℕ) (e x : ℕ) → Tiles m l ns e → has x ns ≡ true → Inside m e x
Tiles-Inside m l [] e x t h = absurd (ground arith)
Tiles-Inside m l (n ∷ ns) e x t h = elim (Bool-cases (x == n)) [
  | inl same ↦ let same' = (==_iff x n).0 same in rw same' (first ns t)
  | inr other ↦ Tiles-Inside m n ns e x t.1 (other_has x n ns other h)
]
  where
    first : (ks : List ℕ) → Tiles m l (n ∷ ks) e → Inside m e n
    first [] u = record {
      not_null = u.0.not_null;
      header = u.0.header;
      ends = ground (arith, u.0);
      right = inl u.0.to_right;
    }
    first (k ∷ ks) u =
        let b = Tiles-bounds m n k ks e k u.1 (ground arith) in
        let ends = u.0.ends in
        let r = u.0.to_right in
        record {
          not_null = u.0.not_null;
          header = u.0.header;
          ends = omega arith;
          right = inr (omega arith);
        }

-- The block behind a block of the tiling is one of the tiling.
pub Tiles-right :
    (m : Memory) (l : ℕ) (ns : List ℕ) (e x g : ℕ)
    → Tiles m l ns e
    → has x ns ≡ true
    → m.right x ≡ g
    → 0 < g
    → has g ns ≡ true
Tiles-right m l [] e x g t h r pos = absurd (ground arith)
Tiles-right m l (n ∷ []) e x g t h r pos = absurd (ground (arith, t.0))
Tiles-right m l (n ∷ k ∷ ns) e x g t h r pos = elim (Bool-cases (x == n)) [
  | inl same ↦ let right = t.0.to_right in ground arith
  | inr other ↦
      let ih = Tiles-right m n (k ∷ ns) e x g t.1 (other_has x n (k ∷ ns) other h) r pos in
      ground arith
]

pub Tiles-range :
    (m : Memory) (l : ℕ) (ns : List ℕ) (e k : ℕ)
    → Tiles m l ns e
    → has k ns ≡ true
    → (right_of ns ≤ k) × (k + desc_size ≤ e)
Tiles-range m l [] e k t h = absurd (ground arith)
Tiles-range m l (n ∷ ns) e k t h = Tiles-bounds m l n ns e k t h

-- No block starts inside another.
pub Tiles-within :
    (m : Memory) (l : ℕ) (ns : List ℕ) (e x a : ℕ)
    → Tiles m l ns e
    → has x ns ≡ true
    → x < a
    → a < x + offset m x + m.avail x
    → has a ns ≡ false
Tiles-within m l [] e x a t h lo hi = refl
Tiles-within m l (n ∷ ns) e x a t h lo hi = elim (Bool-cases (x == n)) [
  | inl same ↦
      let same' = (==_iff x n).0 same in
      elim (Bool-cases (has a ns)) [
        | inl inside ↦
            let behind = Tiles-behind m l n ns e a t inside in
            absurd (not_before n x a same' hi behind)
        | inr out ↦ let ne : (a == n) ≡ false = ground arith in rw (ne, out) refl
      ]
  | inr other ↦
      let x_in = other_has x n ns other h in
      let behind = Tiles-behind m l n ns e x t x_in in
      let ne : (a == n) ≡ false = ground arith in
      rw (ne, Tiles-within m n ns e x a t.1 x_in lo hi) refl
]
  where
    not_before :
        (n x a : ℕ) → x ≡ n → a < x + offset m x + m.avail x → n + offset m n + m.avail n ≤ a → ⊥
    not_before n x a same hi lo = ground arith
