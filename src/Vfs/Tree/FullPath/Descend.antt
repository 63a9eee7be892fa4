-- ===== src/Vfs/Tree/FullPath/Descend.antt =====
-- What findSubDirFromCurDir makes of strchr: it never descends.
use power_pc_demo_os.Common.{ℕ, zero, suc, ◌<◌, ◌≡◌, ◌≢◌, refl, false, ◌||◌, ◌==◌, arith}
use power_pc_demo_os.CString.{IsString, head_char}
use power_pc_demo_os.CString.Length.{strlen_lem}
use power_pc_demo_os.CString.Search.{strchr-null}
use power_pc_demo_os.Vfs.Tree.{Tree, find_dir_in_dir}
use power_pc_demo_os.Vfs.Tree.FullPath.{descend_loop, find_sub_dir}

descend_loop-one :
    (fuel : ℕ) (t : Tree) (dir path n : ℕ)
    → dir ≢ 0
    → IsString t.bytes path (suc n)
    → suc n < fuel
    → descend_loop fuel t dir path ≡ find_dir_in_dir fuel t dir path (suc n)
unfolding descend_loop
descend_loop-one zero t dir path n d s f = absurd (omega arith)
descend_loop-one (suc fuel) t dir path n d s f =
    let nz = head_char t.bytes path n s in
    let both : ((t.bytes path == 0) || (dir == 0)) ≡ false = ground arith in
    let sep = strchr-null (suc fuel) t.bytes path b'/' nz (omega arith) in
    let len = strlen_lem (suc fuel) t.bytes path (suc n) s f in rw (both, sep, len) refl

-- From a directory, a path that does not begin with a separator and is not empty is taken for one name,
-- the separators in it included, with fuel above its length.
pub find_sub_dir-one :
    (fuel : ℕ) (t : Tree) (dir path n : ℕ)
    → dir ≢ 0
    → IsString t.bytes path (suc n)
    → t.bytes path ≢ b'/'
    → suc n < fuel
    → find_sub_dir fuel t dir path ≡ find_dir_in_dir fuel t dir path (suc n)
unfolding find_sub_dir
find_sub_dir-one fuel t dir path n d s c f =
    let first : (t.bytes path == b'/') ≡ false = ground arith in
    rw first (descend_loop-one fuel t dir path n d s f)
