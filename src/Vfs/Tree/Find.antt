-- ===== src/Vfs/Tree/Find.antt =====
-- The find functions against the children of a directory in order.
use power_pc_demo_os.Common.{
  ℕ, zero, suc, ◌<◌, ◌≡◌, ◌≢◌, refl, Bool, false, ◌&&◌, ◌||◌, some, List, [], ◌∷◌, ◌++◌, ◌==◌,
  ==_refl, if◌then◌else◌, length, has, Bool-cases, inl, inr, arith, is_zero,
}
use power_pc_demo_os.CString.Compare.{strncmp}
use power_pc_demo_os.RingList.Links.{Links}
use power_pc_demo_os.RingList.Ring.{Ring}
use power_pc_demo_os.Vfs.Tree.{
  Tree, find_named, find_in, find_file_in_dir, find_dir_in_dir, find_all_in_dir,
}

-- A node has the name of `len` characters at `sub`, as the source compares them.
abbrev pub is_named : Tree → ℕ → ℕ → ℕ → Bool
is_named t sub len n = (t.name_len n == len) && is_zero (strncmp t.bytes (t.name n) sub len)

-- The first node of a list that has it, or NULL.
abbrev pub first_named : Tree → ℕ → ℕ → List ℕ → ℕ
first_named t sub len [] = 0
first_named t sub len (x ∷ xs) = if is_named t sub len x then x else first_named t sub len xs

find_named-Links :
    (fuel : ℕ) (t : Tree) (h a sub len : ℕ) (xs : List ℕ)
    → Links t.links a xs h
    → has h xs ≡ false
    → length xs < fuel
    → find_named fuel t h (t.links.next a) sub len ≡ some (first_named t sub len xs)
unfolding find_named
find_named-Links zero t h a sub len xs l o f = absurd (omega arith)
find_named-Links (suc fuel) t h a sub len [] l o f = rw (l.0, ==_refl h) refl
find_named-Links (suc fuel) t h a sub len (x ∷ xs) l o f =
    let inside : (x == h) ≡ false = ground arith in
    elim (Bool-cases (is_named t sub len x)) [
      | inl hit ↦ rw (l.0, inside, hit) refl
      | inr miss ↦
          rw (l.0, inside, miss)
            (find_named-Links fuel t h x sub len xs l.2 (ground arith) (omega arith))
    ]

-- The search in one ring, for a name that is not NULL nor empty.
find_in-Ring :
    (fuel : ℕ) (t : Tree) (h sub len : ℕ) (xs : List ℕ)
    → Ring t.links h xs
    → sub ≢ 0
    → len ≢ 0
    → length xs < fuel
    → find_in fuel t h sub len ≡ some (first_named t sub len xs)
unfolding find_in
find_in-Ring fuel t h sub len xs r s n f =
    let given : ((sub == 0) || (len == 0)) ≡ false = ground arith in
    rw given (find_named-Links fuel t h h sub len xs r.links r.outside f)

-- findFileInDir returns the first child of the ring of files that has the name, and NULL when none has
-- it, with fuel above their number.
pub find_file_in_dir-Ring :
    (fuel : ℕ) (t : Tree) (dir sub len : ℕ) (xs : List ℕ)
    → Ring t.links (t.file_list dir) xs
    → sub ≢ 0
    → len ≢ 0
    → length xs < fuel
    → find_file_in_dir fuel t dir sub len ≡ some (first_named t sub len xs)
unfolding find_file_in_dir
find_file_in_dir-Ring fuel t dir sub len xs r s n f =
    find_in-Ring fuel t (t.file_list dir) sub len xs r s n f

-- findDirInDir the same in the ring of directories.
pub find_dir_in_dir-Ring :
    (fuel : ℕ) (t : Tree) (dir sub len : ℕ) (xs : List ℕ)
    → Ring t.links (t.dir_list dir) xs
    → sub ≢ 0
    → len ≢ 0
    → length xs < fuel
    → find_dir_in_dir fuel t dir sub len ≡ some (first_named t sub len xs)
unfolding find_dir_in_dir
find_dir_in_dir-Ring fuel t dir sub len xs r s n f =
    find_in-Ring fuel t (t.dir_list dir) sub len xs r s n f

-- findAllInDir returns the first child that has the name, the files before the directories, and NULL
-- when none has it, with fuel above the number of each.
pub find_all_in_dir-Ring :
    (fuel : ℕ) (t : Tree) (dir sub len : ℕ) (files dirs : List ℕ)
    → Ring t.links (t.file_list dir) files
    → Ring t.links (t.dir_list dir) dirs
    → sub ≢ 0
    → len ≢ 0
    → length files < fuel
    → length dirs < fuel
    → has 0 files ≡ false
    → find_all_in_dir fuel t dir sub len ≡ some (first_named t sub len (files ++ dirs))
unfolding find_all_in_dir
find_all_in_dir-Ring fuel t dir sub len files dirs rf rd s n ff fd z =
    let in_files = find_in-Ring fuel t (t.file_list dir) sub len files rf s n ff in
    let in_dirs = find_in-Ring fuel t (t.dir_list dir) sub len dirs rd s n fd in
    rw (in_files, in_dirs) (both files z)
  where
    both :
        (xs : List ℕ)
        → has 0 xs ≡ false
        → (if first_named t sub len xs == 0
            then some (first_named t sub len dirs)
            else some (first_named t sub len xs))
          ≡ some (first_named t sub len (xs ++ dirs))
    both [] z = refl
    both (x ∷ xs) z = elim (Bool-cases (is_named t sub len x)) [
      | inl hit ↦ let nz : (x == 0) ≡ false = ground arith in rw (hit, nz) refl
      | inr miss ↦ rw miss (both xs (ground arith))
    ]
