-- ===== src/Vfs/Tree/Pool.antt =====
-- The pool of nodes of kernel/src/vfs/vfsmanager.cpp, with the sum that its `verify` tests.
use power_pc_demo_os.Common.{
  ℕ, suc, ◌+◌, ◌<◌, ◌≡◌, ◌≢◌, refl, sym, true, false, List, [], ◌∷◌, ◌++◌, ==_refl, update, length,
  length-append, has, erase, Bool-cases, inl, inr, arith, subst,
}
use power_pc_demo_os.RingList.{is_empty, del_node}
use power_pc_demo_os.RingList.Ring.{Ring, add_tail-Ring, del_node-Ring, is_empty-Ring}
use power_pc_demo_os.Vfs.Tree.{Tree, invalid, allocate_node, take_node, deallocate}

-- `nodeArray` has 200 nodes: the free ones are on the ring, the others are counted.
abbrev pub IsPool : Tree → List ℕ → Type 0
IsPool t free = Ring t.links t.free_list free × (length free + t.allocated ≡ 200)

-- What allocate gives for each pool.
abbrev pub Allocated : Tree → List ℕ → ℕ × Tree → Type 0
Allocated t [] (n, t') = (n ≡ 0) × (t' ≡ t)
Allocated t (x ∷ free) (n, t') =
    (n ≡ x) × IsPool t' free × (t'.table (t.node_id x) ≡ x) × (has x free ≡ false)

erase_head : (x : ℕ) (xs : List ℕ) → erase x (x ∷ xs) ≡ xs
erase_head x xs = rw (==_refl x) refl

has_head : (x : ℕ) (xs : List ℕ) → has x (x ∷ xs) ≡ true
has_head x xs = rw (==_refl x) refl

one_less : (k n : ℕ) → suc k + n ≡ 200 → k + (n + 1) ≡ 200
one_less k n e = omega arith

take_node-IsPool :
    (t : Tree) (x : ℕ) (free : List ℕ)
    → IsPool t (x ∷ free)
    → let t' = take_node t x in IsPool t' free × (t'.table (t.node_id x) ≡ x) × (has x free ≡ false)
unfolding take_node
take_node-IsPool t x free (r, n) =
    let taken = del_node-Ring x r (has_head x free) in
    (
      (
        subst (Ring (del_node t.links x) t.free_list) (erase_head x free) taken,
        one_less (length free) t.allocated n,
      ),
      entered t.table (t.node_id x),
      r.distinct.0,
    )
  where
    entered : (table : ℕ → ℕ) (i : ℕ) → update table i x i ≡ x
    entered table i = rw (==_refl i) refl

-- allocate of VFSManager takes the first free node off the pool, which keeps its sum of free and
-- allocated nodes, and enters it in the table under its number; with no free node it returns NULL and
-- changes nothing.
pub allocate_node-IsPool :
    (t : Tree) (free : List ℕ) → IsPool t free → Allocated t free (allocate_node t)
unfolding allocate_node
allocate_node-IsPool t [] (r, n) =
    let none_left = (is_empty-Ring [] r).1 refl in rw none_left (refl, refl)
allocate_node-IsPool t (x ∷ free) (r, n) =
    let first : t.links.next t.free_list ≡ x = r.links.0 in
    let e : allocate_node t ≡ (x, take_node t x) = rw (not_empty r, first) refl in
    subst (Allocated t (x ∷ free)) (sym e)
      (let (p, e, o) = take_node-IsPool t x free (r, n) in (refl, p, e, o))
  where
    not_empty : Ring t.links t.free_list (x ∷ free) → is_empty t.links t.free_list ≡ false
    not_empty r = elim (Bool-cases (is_empty t.links t.free_list)) [
      | inl empty ↦ let e = (is_empty-Ring (x ∷ free) r).0 empty in absurd (ground arith)
      | inr some_left ↦ some_left
    ]

-- deallocate of a node that is allocated puts it last into the pool, invalid and out of the table, and
-- keeps the sum of free and allocated nodes.
pub deallocate-IsPool :
    (t : Tree) (free : List ℕ) (n : ℕ)
    → IsPool t free
    → 0 < t.allocated
    → n ≢ t.free_list
    → has n free ≡ false
    → let t' = deallocate t n in
      IsPool t' (free ++ n ∷ []) × (t'.kind n ≡ invalid) × (t'.table (t.node_id n) ≡ 0)
unfolding deallocate
deallocate-IsPool t free n (r, sum) used ne out = (
  (add_tail-Ring n r ne out, omega (arith, length-append free (n ∷ []))),
  ground arith,
  ground arith,
)
