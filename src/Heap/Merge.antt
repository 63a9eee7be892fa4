-- ===== src/Heap/Merge.antt =====
-- A block that takes over the block behind it, and the tiling that is left.
use power_pc_demo_os.Common.{
  ℕ, ◌+◌, ◌≤◌, ◌<◌, ◌≡◌, ◌≢◌, ◌⊎◌, true, false, List, [], ◌∷◌, arith, ◌==◌, has, erase, Bool-cases,
  inl, inr, ==_iff, word_size, add_word-small,
}
use power_pc_demo_os.Heap.{Memory, offset, desc_size, absorb}
use power_pc_demo_os.Heap.Blocks.{
  Tiles, right_of, end_of, SameBlock, SameBlock-Block, Tiles-frame, Tiles-bounds, Tiles-behind,
  Inside, Tiles-Inside, other_has, Block-size, Tiles-right,
}
use power_pc_demo_os.Heap.Split.{relinked}

module _ (m : Memory) (x g : ℕ) where
  absorb-other :
      (p : ℕ)
      → p ≢ x
      → p ≢ g
      → p ≢ m.right g
      → (p + desc_size ≤ g) ⊎ (g + offset m g ≤ p)
      → x ≢ g
      → SameBlock m (absorb m x g) p
  unfolding absorb
  absorb-other p a b c d e = ground arith

  pub absorb-node :
      x ≢ g
      → x ≢ m.right g
      → x + desc_size ≤ g
      → m.avail x + (m.avail g + offset m g) < word_size
      → let m' = absorb m x g in
        (m'.left x ≡ m.left x)
        × (m'.right x ≡ m.right g)
        × (m'.avail x ≡ m.avail x + (m.avail g + offset m g))
        × (offset m' x ≡ offset m x)
  unfolding absorb
  absorb-node a b c d = ground (
    arith,
    add_word-small (m.avail x) (m.avail g + offset m g),
    add_word-small (m.avail g) (offset m g),
  )

  absorb-right :
      (r : ℕ)
      → r ≡ m.right g
      → r ≢ x
      → r ≢ g
      → g + offset m g ≤ r
      → 0 < r
      → x ≢ g
      → let m' = absorb m x g in
        (m'.left r ≡ x)
        × (m'.right r ≡ m.right r)
        × (m'.avail r ≡ m.avail r)
        × (offset m' r ≡ offset m r)
  unfolding absorb
  absorb-right r e a b c d f = ground arith

module _ (m : Memory) (x g : ℕ) where
  absorb-behind :
      (ys : List ℕ) (e : ℕ) → Tiles m x (g ∷ ys) e → x + desc_size ≤ g → Tiles (absorb m x g) x ys e
  absorb-behind [] e t h = tt
  absorb-behind (z ∷ zs) e t h =
      let r = t.0.to_right in
      let ends = t.0.ends in
      let z_in = Tiles-Inside m g (z ∷ zs) e z t.1 (ground arith) in
      let pos = z_in.not_null in
      (
        relinked m _ z g x (right_of zs) (end_of zs e) t.1.0 (
            absorb-right m x g z (omega arith) (omega arith) (ground (arith, t.0)) (omega arith) pos
              (omega arith)),
        Tiles-frame m _ z zs e t.1.1 λ k i.
            let behind = Tiles-behind m g z zs e k t.1 i in
            let zh = z_in.header in
            absorb-other m x g k (omega arith) (omega arith) (omega arith) (inr (omega arith))
              (omega arith),
      )

  absorb-at :
      (l : ℕ) (ys : List ℕ) (e : ℕ)
      → Tiles m l (x ∷ g ∷ ys) e
      → e < word_size
      → Tiles (absorb m x g) l (x ∷ ys) e
  absorb-at l ys e t small =
      let size = t.0.ends in
      let header = t.0.header in
      let g_in = Tiles-Inside m x (g ∷ ys) e g t.1 (ground arith) in
      let g_ends = g_in.ends in
      let r = g_in.right in
      let node = absorb-node m x g (omega arith) (omega arith) (omega arith) (omega arith) in
      (ground (arith, node, t.0, t.1.0), absorb-behind ys e t.1 (omega arith))

  absorb-here :
      (n k l : ℕ) (ys : List ℕ) (e : ℕ)
      → n ≡ x
      → k ≡ g
      → Tiles m l (n ∷ k ∷ ys) e
      → e < word_size
      → Tiles (absorb m x g) l (n ∷ ys) e
  absorb-here n k l ys e p q t small =
      let t' : Tiles m l (x ∷ k ∷ ys) e = rw p at t in
      let t'' : Tiles m l (x ∷ g ∷ ys) e = rw q at t' in rw p (absorb-at l ys e t'' small)

  behind_of : {e : ℕ} → m.right x ≡ g → 0 < g → Inside m e x → x + desc_size ≤ g
  behind_of r pos i = ground (arith, i)

  -- The block that was taken over is gone from the tiling.
  pub absorb-Tiles :
      (l : ℕ) (ns : List ℕ) (e : ℕ)
      → Tiles m l ns e
      → e < word_size
      → has x ns ≡ true
      → m.right x ≡ g
      → 0 < g
      → Tiles (absorb m x g) l (erase g ns) e
  absorb-Tiles l [] e t small h r pos = absurd (ground arith)
  absorb-Tiles l (n ∷ []) e t small h r pos = absurd (ground (arith, t.0))
  absorb-Tiles l (n ∷ k ∷ ns) e t small h r pos = elim (Bool-cases (n == x)) [
    | inl same ↦
        let n_is = (==_iff n x).0 same in
        let right = t.0.to_right in
        let size = Block-size t.0 in
        let k_is : k ≡ g = ground arith in
        let kg : (k == g) ≡ true = ground arith in
        let ng : (n == g) ≡ false = ground arith in
        rw (ng, kg) (absorb-here n k l ns e n_is k_is t small)
    | inr other ↦
        let h' = other_has x n (k ∷ ns) (ground arith) h in
        let x_in = Tiles-Inside m n (k ∷ ns) e x t.1 h' in
        let after = behind_of r pos x_in in
        let bounds = Tiles-bounds m n k ns e x t.1 h' in
        let size = Block-size t.0 in
        let g_in =
          Tiles-Inside m n (k ∷ ns) e g t.1 (Tiles-right m n (k ∷ ns) e x g t.1 h' r pos) in
        let g_right = g_in.right in
        let n_pos = t.0.not_null in
        let kg : (k == g) ≡ false = ground arith in
        let ng : (n == g) ≡ false = ground arith in
        let ih = absorb-Tiles n (k ∷ ns) e t.1 small h' r pos in
        rw (ng, kg)
          (
            SameBlock-Block
                (absorb-other m x g n (omega arith) (omega arith) (omega arith) (inl (omega arith))
                  (omega arith))
                t.0,
            rw kg at ih,
          )
  ]
