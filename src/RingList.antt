-- ===== src/RingList.antt =====
-- include/list.h: the intrusive ring lists. A node is an address, the two pointers of the node are
-- the cells `next` and `prev` of the store at that address, and NULL is 0. The statements of each
-- function are made in the order of the source, each reading the store that the last one left.
pub mod Frame
pub mod Links
pub mod Ring
pub mod Rotate
pub mod Single
mod Tests
use power_pc_demo_os.Common.{ℕ, zero, suc, Bool, List, [], ◌∷◌, ◌==◌, if◌then◌else◌, update}

abbrev pub null : ℕ
null = 0

-- `DoubleList` of all nodes.
pub record Store : Type 0 where
  pub next : ℕ → ℕ
  pub prev : ℕ → ℕ

abbrev pub set_next : Store → ℕ → ℕ → Store
set_next s p q = record s { next = update s.next p q }

abbrev pub set_prev : Store → ℕ → ℕ → Store
set_prev s p q = record s { prev = update s.prev p q }

unfoldable pub init_ring : Store → ℕ → Store
init_ring s header = set_prev (set_next s header header) header header

unfoldable pub add_header : Store → ℕ → ℕ → Store
add_header s header node =
    let s1 = set_next s node (s.next header) in
    let s2 = set_prev s1 node header in
    let s3 = set_next s2 header node in set_prev s3 (s3.next node) node

unfoldable pub add_tail : Store → ℕ → ℕ → Store
add_tail s header node =
    let s1 = set_prev s node (s.prev header) in
    let s2 = set_next s1 node header in
    let s3 = set_prev s2 header node in set_next s3 (s3.prev node) node

unfoldable pub del_node : Store → ℕ → Store
del_node s node =
    let s1 = set_next s (s.prev node) (s.next node) in
    let s2 = set_prev s1 (s1.next node) (s1.prev node) in set_next (set_prev s2 node null) node null

unfoldable pub is_empty : Store → ℕ → Bool
is_empty s header = s.next header == header

-- `RingList_Foreach` from a node to the header: the nodes that the loop visits, on fuel.
unfoldable pub walk : ℕ → Store → ℕ → ℕ → List ℕ
walk zero s header p = []
walk (suc fuel) s header p =
    let rest = walk fuel s header (s.next p) in if p == header then [] else p ∷ rest

-- `SingleList` of all nodes: the `next` pointers.
abbrev pub SingleStore : Type 0
SingleStore = ℕ → ℕ

unfoldable pub init_single : SingleStore → ℕ → SingleStore
init_single s list = update s list list

unfoldable pub add_single_header : SingleStore → ℕ → ℕ → SingleStore
add_single_header s header node = let s1 = update s node (s header) in update s1 header node

-- The removed node and the store. Its own pointer stays as it was.
unfoldable pub del_single_header : SingleStore → ℕ → ℕ × SingleStore
del_single_header s header = let node = s header in (node, update s header (s node))
