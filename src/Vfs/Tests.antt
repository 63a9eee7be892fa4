-- ===== src/Vfs/Tests.antt =====
-- Runs of the virtual file system.
use power_pc_demo_os.Common.{
  ℕ, ◌+◌, ◌-◌, ◌<◌, ◌≤◌, ◌≡◌, ◌⊎◌, refl, inr, true, false, not, ◌&&◌, Option, none, some, List, [],
  ◌∷◌, ◌==◌, ltb, leb, get_or, if◌then◌else◌, arith,
}
use power_pc_demo_os.BitSearch.Highest.{all_below, all_below_at}
use power_pc_demo_os.CString.{Bytes, IsString, within}
use power_pc_demo_os.CString.Search.{IsLast, promote}
use power_pc_demo_os.RingList.{Store, add_tail, init_ring}
use power_pc_demo_os.RingList.Ring.{Ring}
use power_pc_demo_os.Vfs.Path.{
  compact_path, compact_loop, compact_step, back, file_name_is_legal, absolute_path, is_dots,
}
use power_pc_demo_os.Vfs.Path.Compact.{compact_path_lem}
use power_pc_demo_os.Vfs.Path.Legal.{file_name_is_legal_lem}
use power_pc_demo_os.Vfs.Path.Absolute.{absolute_path_lem}
use power_pc_demo_os.Vfs.Tree.{
  Tree, directory, file, success, name_too_long, find_all_in_dir, rmdir,
}
use power_pc_demo_os.Vfs.Tree.Find.{find_all_in_dir-Ring, first_named}
use power_pc_demo_os.Vfs.Tree.Remove.{rmdir-Refused, Refused, AreFiles}
use power_pc_demo_os.Vfs.Tree.FullPath.{get_path_to}
use power_pc_demo_os.Vfs.Tree.FullPath.Bounds.{get_path_to_lem, path_len}

-- "/a/../b" at 10, "a*b" at 20, "x" at 30, "a/b" at 40.
abbrev codes : List ℕ
codes =
    b'/' ∷ b'a' ∷ b'/' ∷ b'.' ∷ b'.' ∷ b'/' ∷ b'b' ∷ 0 ∷ 0 ∷ 0 ∷ b'a' ∷ b'*' ∷ b'b' ∷ 0 ∷ 0 ∷ 0 ∷ 0
    ∷ 0 ∷ 0 ∷ 0 ∷ b'x' ∷ 0 ∷ 0 ∷ 0 ∷ 0 ∷ 0 ∷ 0 ∷ 0 ∷ 0 ∷ 0 ∷ b'a' ∷ b'/' ∷ b'b' ∷ []

abbrev memory : Bytes
memory p = if ltb p 10 then 0 else get_or codes (p - 10) 0

IsString-at :
    (s n : ℕ)
    → memory (s + n) ≡ 0
    → all_below n (λ i. not (memory (s + i) == 0)) ≡ true
    → IsString memory s n
IsString-at s n e a =
    (e, λ i lt z. ground (arith, all_below_at n (λ i. not (memory (s + i) == 0)) i a lt))

dotted : IsString memory 10 7
unfolding all_below
dotted = IsString-at 10 7 refl refl

star : IsString memory 20 3
unfolding all_below
star = IsString-at 20 3 refl refl

x_name : IsString memory 30 1
unfolding all_below
x_name = IsString-at 30 1 refl refl

slashed : IsString memory 40 3
unfolding all_below
slashed = IsString-at 40 3 refl refl

compact_path_lem_example :
    (m' : Bytes) × (k : ℕ) × (compact_path 9 memory 10 ≡ some m')
    × (k ≤ 7)
    × (m' 10 ≡ b'/')
    × IsString m' 10 k
    × ((p : ℕ) → ((p < 10) ⊎ (10 + 7 < p)) → m' p ≡ memory p)
compact_path_lem_example =
    compact_path_lem 9 memory 10 7 (λ e. absurd (omega arith)) refl dotted (omega arith)

file_name_is_legal_lem_example :
    (last : ℕ) × IsLast (λ p. promote (memory p) == b'/') 20 3 last
    × (file_name_is_legal 9 memory 30 20
        ≡ some (not (not (last == 0) && is_dots memory (last + 1))))
file_name_is_legal_lem_example =
    file_name_is_legal_lem 9 memory 30 20 2 (λ e. absurd (omega arith)) (λ e. absurd (omega arith))
      star (omega arith)

absolute_path_lem_example :
    (r : ℕ) × (m' : Bytes) × (absolute_path 20 memory 100 6 20 30 ≡ some (r, m'))
    × (r ≡ (if leb 6 (3 + 1) then 0 else 100))
    × ((p : ℕ) → within 100 6 p ≡ false → m' p ≡ memory p)
absolute_path_lem_example =
    absolute_path_lem 20 memory 100 6 20 30 3 1 star x_name (omega arith) (omega arith)
      (inr (omega arith)) (inr (omega arith)) (omega arith)

-- A directory at 200 with the file "x" at 300 and the directory "a/b" at 310, below the root at 400.
abbrev links : Store
links =
    add_tail
      (init_ring (add_tail (init_ring (add_tail (init_ring empty 208) 208 310) 204) 204 300) 500)
      500 320
  where
    empty : Store
    empty = record { next = λ _. 0; prev = λ _. 0 }

abbrev tree : Tree
tree = record {
  links = links;
  bytes = memory;
  name = λ n. if n == 300 then 30 else if n == 310 then 40 else 20;
  name_len = λ n. if n == 300 then 1 else 3;
  parent = λ n. if n == 400 then 0 else if n == 200 then 400 else 200;
  kind = λ n. if n == 300 then file else directory;
  ref_count = λ _. 1;
  owner = λ _. 7;
  need_released = λ _. true;
  dir_list = λ n. n + 8;
  file_list = λ n. n + 4;
  node_id = λ n. n;
  free_list = 500;
  allocated = 199;
  table = λ n. n;
  desc_count = λ _. 1;
  force_close = λ _. false;
  dev = λ _. 0;
  freed = [];
}

files-Ring : Ring links 204 (300 ∷ [])
unfolding add_tail init_ring
files-Ring = record { links = (refl, refl, (refl, refl)); outside = refl; distinct = (refl, tt) }

dirs-Ring : Ring links 208 (310 ∷ [])
unfolding add_tail init_ring
dirs-Ring = record { links = (refl, refl, (refl, refl)); outside = refl; distinct = (refl, tt) }

free-Ring : Ring links 500 (320 ∷ [])
unfolding add_tail init_ring
free-Ring = record { links = (refl, refl, (refl, refl)); outside = refl; distinct = (refl, tt) }

tree-AreFiles : AreFiles tree (300 ∷ [])
tree-AreFiles n i = ground arith

find_all_in_dir-Ring_example :
    find_all_in_dir 9 tree 200 40 3 ≡ some (first_named tree 40 3 (300 ∷ 310 ∷ []))
find_all_in_dir-Ring_example =
    find_all_in_dir-Ring 9 tree 200 40 3 (300 ∷ []) (310 ∷ []) files-Ring dirs-Ring
      (λ e. absurd (omega arith)) (λ e. absurd (omega arith)) (omega arith) (omega arith) refl

rmdir-Refused_example : Refused tree (rmdir 9 tree 0 200 40)
rmdir-Refused_example =
    rmdir-Refused 9 tree 0 200 40 2 (300 ∷ []) files-Ring tree-AreFiles slashed
      (λ e. absurd (omega arith)) (omega arith) (omega arith)

get_path_to_lem_example :
    (m' : Bytes) × (get_path_to 9 tree 300 600 8
      ≡ some ((if ltb 8 (path_len tree 300 2) then name_too_long else success), m'))
    × ((p : ℕ)
        → (within 600 (path_len tree 300 2 + 1) p && not (ltb 8 (path_len tree 300 2))) ≡ false
        → m' p ≡ tree.bytes p)
    × (path_len tree 300 2 ≤ 8 → m' (600 + path_len tree 300 2) ≡ 0)
get_path_to_lem_example =
    get_path_to_lem 9 tree 300 600 8 2
      (λ e. absurd (omega arith), (λ e. absurd (omega arith), refl)) (omega arith)

abbrev byte_at : Option Bytes → ℕ → ℕ
byte_at none p = 0
byte_at (some m) p = m p

-- "/a/../b" becomes "/b".
compacted :
    (byte_at (compact_path 9 memory 10) 10 ≡ b'/')
    × (byte_at (compact_path 9 memory 10) 11 ≡ b'b')
    × (byte_at (compact_path 9 memory 10) 12 ≡ 0)
unfolding compact_path compact_loop compact_step back
compacted = (refl, refl, refl)
