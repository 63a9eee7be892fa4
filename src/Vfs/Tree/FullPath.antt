-- ===== src/Vfs/Tree/FullPath.antt =====
-- getPathTo of kernel/src/vfs/vfsnode.cpp, and findSubDirFromCurDir of vfs.cpp.
pub mod Bounds
pub mod Descend
use power_pc_demo_os.Common.{
  ℕ, zero, suc, ◌+◌, ◌-◌, Option, none, some, ◌==◌, ltb, if◌then◌else◌, ◌>>=◌, update, ◌||◌, not,
}
use power_pc_demo_os.CString.{Bytes}
use power_pc_demo_os.CString.Block.{memcpy}
use power_pc_demo_os.CString.Length.{strlen}
use power_pc_demo_os.CString.Search.{strchr}
use power_pc_demo_os.Vfs.Tree.{Tree, VfsError, success, name_too_long, find_dir_in_dir}

-- The names up to the root, each with its separator.
unfoldable pub path_total : ℕ → Tree → ℕ → ℕ → Option ℕ
path_total zero t n total = none
path_total (suc fuel) t n total =
    let rest = path_total fuel t (t.parent n) (total + (t.name_len n + 1)) in
    if t.parent n == 0 then some total else rest

-- From the last name to the first.
unfoldable pub path_fill : ℕ → Tree → Bytes → ℕ → ℕ → ℕ → Option Bytes
path_fill zero t m dst n total = none
path_fill (suc fuel) t m dst n total =
    let nlen = t.name_len n + 1 in
    let m1 = update m (dst + total - nlen) b'/' in
    let m2 = memcpy m1 (dst + total + 1 - nlen) (t.name n) (nlen - 1) in
    let rest = path_fill fuel t m2 dst (t.parent n) (total - nlen) in
    if t.parent n == 0 then some m else rest

unfoldable pub get_path_to : ℕ → Tree → ℕ → ℕ → ℕ → Option (VfsError × Bytes)
get_path_to fuel t n dst size = do
  total ← path_total fuel t n 0
  let filled = (do
    m ← path_fill fuel t t.bytes dst n total
    some (success, update m (dst + total) 0))
  if ltb size total then some (name_too_long, t.bytes) else filled

unfoldable pub descend_loop : ℕ → Tree → ℕ → ℕ → Option ℕ
descend_loop zero t dir path = none
descend_loop (suc fuel) t dir path =
    let one = (do
      len ← strlen (suc fuel) t.bytes path
      find_dir_in_dir (suc fuel) t dir path len) in
    let down = (do
      sep ← strchr (suc fuel) t.bytes path b'/'
      let deeper = (do
        dir' ← find_dir_in_dir (suc fuel) t dir path (sep - path)
        descend_loop fuel t dir' (sep + 1))
      if sep == 0 then one else deeper) in
    if (t.bytes path == 0) || (dir == 0) then some 0 else down

unfoldable pub find_sub_dir : ℕ → Tree → ℕ → ℕ → Option ℕ
find_sub_dir fuel t dir path =
    descend_loop fuel t dir (if t.bytes path == b'/' then path + 1 else path)
