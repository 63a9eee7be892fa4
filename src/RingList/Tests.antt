-- ===== src/RingList/Tests.antt =====
-- Runs of the ring lists of include/list.h: a header at 100, nodes at 8, 16 and 24.
use power_pc_demo_os.Common.{ℕ, ◌≡◌, refl, List, [], ◌∷◌, arith}
use power_pc_demo_os.RingList.{
  Store, SingleStore, init_ring, add_header, add_tail, del_node, walk, init_single,
  add_single_header,
}
use power_pc_demo_os.RingList.Ring.{Ring, init_ring-Ring, add_tail-Ring, del_node-Ring, walk-Ring}
use power_pc_demo_os.RingList.Single.{
  SingleRing, init_single-SingleRing, add_single_header-SingleRing,
}

abbrev blank : Store
blank = record { next = λ _. 0; prev = λ _. 0 }

abbrev one : Store
one = add_tail (init_ring blank 100) 100 8

abbrev two : Store
two = add_tail one 100 16

one-Ring : Ring one 100 (8 ∷ [])
one-Ring = add_tail-Ring 8 (init_ring-Ring blank 100) (omega arith) refl

two-Ring : Ring two 100 (8 ∷ 16 ∷ [])
two-Ring = add_tail-Ring 16 one-Ring (omega arith) refl

walk_three :
    walk 9 (add_header two 100 24) 100 ((add_header two 100 24).next 100) ≡ 24 ∷ 8 ∷ 16 ∷ []
unfolding walk add_header add_tail init_ring
walk_three = refl

walk_deleted : walk 9 (del_node two 8) 100 ((del_node two 8).next 100) ≡ 16 ∷ []
unfolding walk del_node add_tail init_ring
walk_deleted = refl

del_node-Ring_example : Ring (del_node two 8) 100 (16 ∷ [])
del_node-Ring_example = del_node-Ring 8 two-Ring refl

abbrev nodes : List ℕ
nodes = 8 ∷ 16 ∷ []

walk-Ring_example : walk 3 two 100 (two.next 100) ≡ 8 ∷ 16 ∷ []
walk-Ring_example = walk-Ring 3 two-Ring (omega arith)

abbrev single : SingleStore
single = add_single_header (init_single (λ _. 0) 100) 100 8

single-SingleRing : SingleRing single 100 (8 ∷ [])
single-SingleRing =
    add_single_header-SingleRing 8 (init_single-SingleRing (λ _. 0) 100) (omega arith) refl
