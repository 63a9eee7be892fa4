-- ===== src/Heap/Split.antt =====
-- A block that `allocate` splits becomes two, and the tiling stays a tiling.
use power_pc_demo_os.Common.{
  ℕ, ◌+◌, ◌-◌, ◌≤◌, ◌<◌, ◌≡◌, ◌≢◌, true, List, [], ◌∷◌, arith, ◌==◌, if◌then◌else◌, has, Bool-cases,
  inl, inr, ==_iff,
}
use power_pc_demo_os.Heap.{Memory, offset, desc_size, split}
use power_pc_demo_os.Heap.Blocks.{
  Block, Tiles, right_of, end_of, SameBlock, SameBlock-Block, Tiles-frame, Tiles-behind, Inside,
  Tiles-Inside, other_has,
}

abbrev pub insert_after : ℕ → ℕ → List ℕ → List ℕ
insert_after x new [] = []
insert_after x new (n ∷ ns) = if n == x then n ∷ new ∷ ns else n ∷ insert_after x new ns

module _ (m : Memory) (x new needed left : ℕ) where
  split-other :
      (p : ℕ) → p ≢ x → p ≢ new → p ≢ m.right x → SameBlock m (split m x new needed left) p
  unfolding split
  split-other p a b c = ground arith

  pub split-node :
      x ≢ new
      → x ≢ m.right x
      → let m' = split m x new needed left in
        (m'.left x ≡ m.left x)
        × (m'.right x ≡ new)
        × (m'.avail x ≡ needed)
        × (offset m' x ≡ offset m x)
  unfolding split
  split-node a b = ground arith

  split-new :
      x ≢ new
      → new ≢ m.right x
      → let m' = split m x new needed left in
        (m'.left new ≡ x)
        × (m'.right new ≡ m.right x)
        × (m'.avail new ≡ left - desc_size)
        × (offset m' new ≡ desc_size)
  unfolding split
  split-new a b = ground arith

  split-right :
      (r : ℕ)
      → r ≡ m.right x
      → r ≢ x
      → r ≢ new
      → 0 < r
      → x ≢ new
      → let m' = split m x new needed left in
        (m'.left r ≡ new)
        × (m'.right r ≡ m.right r)
        × (m'.avail r ≡ m.avail r)
        × (offset m' r ≡ offset m r)
  unfolding split
  split-right r e a b c d = ground arith

-- A block whose `left` alone changed.
pub relinked :
    (m m' : Memory) (n l l' r e : ℕ)
    → Block m n l r e
    → (m'.left n ≡ l')
      × (m'.right n ≡ m.right n)
      × (m'.avail n ≡ m.avail n)
      × (offset m' n ≡ offset m n)
    → Block m' n l' r e
relinked m m' n l l' r e b s = ground (arith, b, s)

module _ (m : Memory) (x new needed left : ℕ) where
  abbrev pub Fits : ℕ → Type 0
  Fits e =
      (new ≡ x + offset m x + needed)
      × (needed + left ≡ m.avail x)
      × (desc_size < left)
      × Inside m e x

  split-behind :
      (ys : List ℕ) (l e : ℕ)
      → Fits e
      → Tiles m l (x ∷ ys) e
      → Tiles (split m x new needed left) new ys e
  split-behind [] l e f t = tt
  split-behind (z ∷ zs) l e f t =
      let header = t.0.header in
      let ends = t.0.ends in
      let r = t.0.to_right in
      let z_in = Tiles-Inside m x (z ∷ zs) e z t.1 (ground arith) in
      (
        relinked m _ z x new (right_of zs) (end_of zs e) t.1.0 (
            split-right m x new needed left z (omega arith) (omega arith) (omega arith)
              z_in.not_null (omega arith)),
        Tiles-frame m _ z zs e t.1.1 λ k h.
            let behind = Tiles-behind m x z zs e k t.1 h in
            let zh = z_in.header in
            split-other m x new needed left k (omega arith) (omega arith) (omega arith),
      )

  -- A block in front of the one that is split is none of those that change.
  before :
      {n l r d e : ℕ}
      → Fits e
      → n + offset m n + m.avail n ≤ x
      → Block m n l r d
      → (n ≢ x) × (n ≢ new) × (n ≢ m.right x)
  before f h b = ground (arith, f, b)

  at_split :
      (l : ℕ) (ys : List ℕ) (e : ℕ)
      → Fits e
      → Tiles m l (x ∷ ys) e
      → Tiles (split m x new needed left) l (x ∷ new ∷ ys) e
  at_split l ys e f t =
      let i = f.3 in
      let r = i.right in
      let header = i.header in
      let node = split-node m x new needed left (omega arith) (omega arith) in
      let second = split-new m x new needed left (omega arith) (omega arith) in
      (ground (arith, node, t.0, f), (ground (arith, second, t.0, f), split-behind ys l e f t))

  pub right_of-insert_after :
      (ns : List ℕ) → has x ns ≡ true → right_of (insert_after x new ns) ≡ right_of ns
  right_of-insert_after [] h = absurd (ground arith)
  right_of-insert_after (n ∷ ns) h = ground arith

  end_of-insert_after :
      (ns : List ℕ) (e : ℕ) → has x ns ≡ true → end_of (insert_after x new ns) e ≡ end_of ns e
  end_of-insert_after [] e h = absurd (ground arith)
  end_of-insert_after (n ∷ ns) e h = ground arith

  -- The new block stands behind the one that was split.
  pub split-Tiles :
      (l : ℕ) (ns : List ℕ) (e : ℕ)
      → Fits e
      → Tiles m l ns e
      → has x ns ≡ true
      → Tiles (split m x new needed left) l (insert_after x new ns) e
  split-Tiles l [] e f t h = absurd (ground arith)
  split-Tiles l (n ∷ ns) e f t h = elim (Bool-cases (n == x)) [
    | inl same ↦ rw same (at_node ns ((==_iff n x).0 same) t)
    | inr other ↦
        let h' = other_has x n ns (ground arith) h in
        let apart = before f (Tiles-behind m l n ns e x t h') t.0 in
        rw (other, right_of-insert_after ns h', end_of-insert_after ns e h')
          (
            SameBlock-Block (split-other m x new needed left n apart.0 apart.1 apart.2) t.0,
            split-Tiles n ns e f t.1 h',
          )
  ]
    where
      at_node :
          (ys : List ℕ)
          → n ≡ x
          → Tiles m l (n ∷ ys) e
          → Tiles (split m x new needed left) l (n ∷ new ∷ ys) e
      at_node ys same u =
          let u' : Tiles m l (x ∷ ys) e = rw same at u in rw same (at_split l ys e f u')

pub has-insert_after :
    (x new k : ℕ) (ns : List ℕ)
    → has x ns ≡ true
    → has k (insert_after x new ns) ≡ (if k == new then true else has k ns)
has-insert_after x new k [] h = absurd (ground arith)
has-insert_after x new k (n ∷ ns) h = ground (arith, has-insert_after x new k ns)
