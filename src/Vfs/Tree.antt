-- ===== src/Vfs/Tree.antt =====
-- kernel/src/vfs/vfsnode.cpp, vfsdir.cpp and vfsmanager.cpp: the nodes, the rings of children of a
-- directory and the pool of free nodes. A node is the address of its `_pList`, NULL is 0, and a name
-- is an address in a memory of bytes. The locks are held from the first access to the last.
pub mod Find
pub mod Remove
pub mod Pool
pub mod FullPath
use power_pc_demo_os.Common.{
  ℕ, zero, suc, ◌+◌, ◌-◌, ◌*◌, ◌%◌, ◌^◌, Bool, true, false, not, ◌&&◌, ◌||◌, Option, none, some,
  List, [], ◌∷◌, ◌==◌, ltb, if◌then◌else◌, ◌>>=◌, update, ℤ, pos, is_zero,
}
use power_pc_demo_os.CString.{Bytes}
use power_pc_demo_os.CString.Length.{strlen}
use power_pc_demo_os.CString.Compare.{strncmp}
use power_pc_demo_os.CString.Block.{memcpy}
use power_pc_demo_os.RingList.{Store, init_ring, add_tail, del_node, is_empty}

-- `VFSNodeType`
pub data Kind : Type 0 where
  invalid directory hard_link sym_link file device : Kind

abbrev pub is_directory : Kind → Bool
is_directory directory = true
is_directory _ = false

pub data VfsError : Type 0 where
  success perm no_entry not_dir not_empty name_too_long : VfsError

-- The fields of all nodes, `dev` among them, the addresses of the two headers of a directory, and the pool:
-- `freeListHeader`, `allocatedCount` and, from `table` on, `fsDescTable`. `freed` are the names given back.
pub record Tree : Type 0 where
  pub links : Store
  pub bytes : Bytes
  pub name : ℕ → ℕ
  pub name_len : ℕ → ℕ
  pub parent : ℕ → ℕ
  pub kind : ℕ → Kind
  pub ref_count : ℕ → ℕ
  pub owner : ℕ → ℕ
  pub need_released : ℕ → Bool
  pub dir_list : ℕ → ℕ
  pub file_list : ℕ → ℕ
  pub node_id : ℕ → ℕ
  pub free_list : ℕ
  pub allocated : ℕ
  pub table : ℕ → ℕ
  pub desc_count : ℕ → ℕ
  pub force_close : ℕ → Bool
  pub dev : ℕ → ℕ
  pub freed : List ℕ

-- `_refCount` is a `ushort`.
abbrev pub ref_add : Tree → ℕ → ℕ → Tree
ref_add t n k = record t { ref_count = update t.ref_count n ((t.ref_count n + k) % 2 ^ 16) }

unfoldable pub ref : Tree → ℕ → Tree
ref t n = ref_add t n 1

unfoldable pub add_child : Tree → ℕ → ℕ → Tree
add_child t dir child =
    let t1 = ref_add t dir 1 in
    let header = if is_directory (t.kind child) then t.dir_list dir else t.file_list dir in
    record t1 { links = add_tail t.links header child }

unfoldable pub remove_child : Tree → ℕ → ℕ → Tree
remove_child t dir child =
    let t1 = ref_add t dir (2 ^ 16 - 1) in record t1 { links = del_node t.links child }

-- The search of the three find functions in one ring, on fuel.
unfoldable pub find_named : ℕ → Tree → ℕ → ℕ → ℕ → ℕ → Option ℕ
find_named zero t header p sub len = none
find_named (suc fuel) t header p sub len =
    let rest = find_named fuel t header (t.links.next p) sub len in
    if p == header
    then some 0
    else if (t.name_len p == len) && is_zero (strncmp t.bytes (t.name p) sub len)
    then some p
    else rest

unfoldable pub find_in : ℕ → Tree → ℕ → ℕ → ℕ → Option ℕ
find_in fuel t header sub len =
    let found = find_named fuel t header (t.links.next header) sub len in
    if (sub == 0) || (len == 0) then some 0 else found

unfoldable pub find_file_in_dir : ℕ → Tree → ℕ → ℕ → ℕ → Option ℕ
find_file_in_dir fuel t dir sub len = find_in fuel t (t.file_list dir) sub len

unfoldable pub find_dir_in_dir : ℕ → Tree → ℕ → ℕ → ℕ → Option ℕ
find_dir_in_dir fuel t dir sub len = find_in fuel t (t.dir_list dir) sub len

unfoldable pub find_all_in_dir : ℕ → Tree → ℕ → ℕ → ℕ → Option ℕ
find_all_in_dir fuel t dir sub len = do
  found ← find_in fuel t (t.file_list dir) sub len
  let dirs = find_in fuel t (t.dir_list dir) sub len
  if found == 0 then dirs else some found

-- KERNEL_PID is 0.
unfoldable pub can_remove : Tree → ℕ → ℕ → Bool
can_remove t pid n = (pid == 0) || not (t.owner n == 0)

unfoldable pub deallocate : Tree → ℕ → Tree
deallocate t n = record t {
  allocated = t.allocated - 1;
  links = add_tail t.links t.free_list n;
  kind = update t.kind n invalid;
  table = update t.table (t.node_id n) 0;
  desc_count = update t.desc_count (t.node_id n) 0;
}

unfoldable pub take_node : Tree → ℕ → Tree
take_node t p = record t {
  links = del_node t.links p;
  allocated = t.allocated + 1;
  table = update t.table (t.node_id p) p;
  desc_count = update t.desc_count (t.node_id p) 1;
  force_close = update t.force_close (t.node_id p) false;
}

-- The node and the pool without it, or NULL when the pool is empty.
unfoldable pub allocate_node : Tree → ℕ × Tree
allocate_node t =
    let p = t.links.next t.free_list in
    if is_empty t.links t.free_list then (0, t) else (p, take_node t p)

unfoldable pub detach : Tree → ℕ → Bool → Tree
detach t n force =
    let t1 = remove_child t (t.parent n) n in
    let t2 = record t1 { parent = update t.parent n 0; kind = update t.kind n invalid } in
    let t3 = record t2 { freed = t.name n ∷ t.freed; name = update t.name n 0 } in
    if (t.ref_count n == 0) || force then (if t.need_released n then t3 else t2) else t

-- `RingList_Foreach_Safe` over the directories of a directory: `n` was read before `p` went.
unfoldable pub remove_children : ℕ → (Tree → ℕ → Option Tree) → Tree → ℕ → ℕ → ℕ → Option Tree
remove_children zero drop_child t header p n = none
remove_children (suc fuel) drop_child t header p n =
    let rest = (do
      t1 ← drop_child t p
      remove_children fuel drop_child t1 header n (t1.links.next n)) in
    if p == header then some t else rest

-- On fuel for the depth and the width of the tree.
unfoldable pub do_unref : ℕ → Tree → ℕ → Bool → Option Tree
do_unref zero t n force = none
do_unref (suc fuel) t n force =
    let t1 = if force then record t { ref_count = update t.ref_count n 0 } else t in
    let header = t.dir_list n in
    let p = t.links.next header in
    let children =
      remove_children fuel (λ u c. do_unref fuel u c true) t1 header p (t.links.next p) in
    let gone = (do
      t2 ← if is_directory (t.kind n) then children else some t1
      some (deallocate (detach t2 n force) n)) in
    if t1.ref_count n == 0 then gone else some t1

unfoldable pub destroy : ℕ → Tree → ℕ → Option Tree
destroy fuel t n = do_unref fuel (record t { dev = update t.dev n 0 }) n true

unfoldable pub unref : ℕ → Tree → ℕ → Option Tree
unref fuel t n = do_unref fuel (ref_add t n (2 ^ 16 - 1)) n false

unfoldable pub unlink : ℕ → Tree → ℕ → ℕ → ℕ → Option (VfsError × Tree)
unlink fuel t pid dir name =
    let found = (do
      len ← strlen fuel t.bytes name
      n ← find_file_in_dir fuel t dir name len
      let drop = (do t1 ← destroy fuel (ref t n) n; t2 ← unref fuel t1 n; some (success, t2))
      if n == 0
          then some (no_entry, t)
          else if not (can_remove t pid n)
          then some (perm, t)
          else drop) in
    if is_directory (t.kind dir) then found else some (not_dir, t)

-- What rmdir does with the node that it has found and counted, up to the label `error`.
unfoldable pub rmdir_node : ℕ → Tree → ℕ → ℕ → Option (VfsError × Tree)
rmdir_node fuel t pid n =
    let drop = (do t1 ← destroy fuel t n; some (success, t1)) in
    if not (is_directory (t.kind n))
    then some (not_dir, t)
    else if (t.owner n == 0) || not (can_remove t pid n)
    then some (perm, t)
    else if is_empty t.links (t.dir_list n)
    then drop
    else some (not_empty, t)

unfoldable pub rmdir : ℕ → Tree → ℕ → ℕ → ℕ → Option (VfsError × Tree)
rmdir fuel t pid dir name =
    let found = (do
      len ← strlen fuel t.bytes name
      n ← find_file_in_dir fuel t dir name len
      let all = (do
        (res, t1) ← rmdir_node fuel (ref t n) pid n
        t2 ← unref fuel t1 n
        some (res, t2))
      if n == 0 then some (no_entry, t) else all) in
    if is_directory (t.kind dir) then found else some (not_dir, t)
