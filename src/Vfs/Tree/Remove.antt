-- ===== src/Vfs/Tree/Remove.antt =====
-- rmdir looks for the directory among the files, where no directory is.
use power_pc_demo_os.Common.{
  ℕ, zero, suc, ◌+◌, ◌-◌, ◌%◌, ◌^◌, ◌<◌, ◌≡◌, ◌≢◌, ◌⊎◌, refl, ap, ◌∙◌, true, false, Option, some,
  List, [], ◌∷◌, ◌==◌, ==_refl, length, has, Bool-cases, inl, inr, arith,
}
use power_pc_demo_os.CString.{IsString}
use power_pc_demo_os.CString.Length.{strlen_lem}
use power_pc_demo_os.RingList.Ring.{Ring}
use power_pc_demo_os.Vfs.Tree.{
  Tree, VfsError, no_entry, not_dir, is_directory, ref, ref_add, rmdir_node, rmdir, unref, do_unref,
}
use power_pc_demo_os.Vfs.Tree.Find.{find_file_in_dir-Ring, first_named, is_named}

-- The children on the ring of files, as addChild puts them there: none is a directory, and each is in
-- use.
abbrev pub AreFiles : Tree → List ℕ → Type 0
AreFiles t xs =
    (n : ℕ)
    → has n xs ≡ true
    → (is_directory (t.kind n) ≡ false) × (0 < t.ref_count n) × (t.ref_count n + 1 < 2 ^ 16)

first_named-has :
    (t : Tree) (sub len : ℕ) (xs : List ℕ)
    → (first_named t sub len xs ≡ 0) ⊎ (has (first_named t sub len xs) xs ≡ true)
first_named-has t sub len [] = inl refl
first_named-has t sub len (x ∷ xs) = elim (Bool-cases (is_named t sub len x)) [
  | inl hit ↦
      let e : first_named t sub len (x ∷ xs) ≡ x = rw hit refl in
      inr (ap (λ v. has v (x ∷ xs)) e ∙ (ground arith))
  | inr miss ↦
      let e : first_named t sub len (x ∷ xs) ≡ first_named t sub len xs = rw miss refl in
      elim (first_named-has t sub len xs) [
        | inl nothing ↦ inl (e ∙ nothing)
        | inr there ↦ inr (ap (λ v. has v (x ∷ xs)) e ∙ later (first_named t sub len xs) there)
      ]
]
  where
    later : (v : ℕ) → has v xs ≡ true → has v (x ∷ xs) ≡ true
    later v i = ground arith

-- A reference taken and given back.
unref-ref :
    (fuel : ℕ) (t : Tree) (n : ℕ)
    → 0 < fuel
    → 0 < t.ref_count n
    → t.ref_count n + 1 < 2 ^ 16
    → (t' : Tree) × (unref fuel (ref t n) n ≡ some t') × (t'.links ≡ t.links) × (t'.kind ≡ t.kind)
unfolding unref ref do_unref
unref-ref zero t n f pos small = absurd (omega arith)
unref-ref (suc fuel) t n f pos small =
    let c = t.ref_count n in
    let used : ((c + 1) % 2 ^ 16 + (2 ^ 16 - 1)) % 2 ^ 16 ≡ c = omega arith in
    let same : (n == n) ≡ true = ==_refl n in
    let some_left : (c == 0) ≡ false = ground arith in
    let t2 = ref_add (ref_add t n 1) n (2 ^ 16 - 1) in
    let z : (t2.ref_count n == 0) ≡ false = rw (same, used, some_left) refl in
    (t2, rw z refl, refl, refl)

rmdir_node-file :
    (fuel : ℕ) (t : Tree) (pid n : ℕ)
    → is_directory (t.kind n) ≡ false
    → rmdir_node fuel t pid n ≡ some (not_dir, t)
unfolding rmdir_node
rmdir_node-file fuel t pid n d = rw d refl

ref-kind :
    (t : Tree) (c : ℕ) → is_directory (t.kind c) ≡ false → is_directory ((ref t c).kind c) ≡ false
unfolding ref
ref-kind t c d = d

-- The answers of rmdir when the name is looked up among the files.
abbrev pub Refused : Tree → Option (VfsError × Tree) → Type 0
Refused t r =
    (res : VfsError) × (t' : Tree) × (r ≡ some (res, t'))
    × ((res ≡ no_entry) ⊎ (res ≡ not_dir))
    × (t'.links ≡ t.links)
    × (t'.kind ≡ t.kind)

-- In a directory whose files are none of them a directory, and in use, rmdir of any name that is not
-- empty, directories' too, answers ENOENT or ENOTDIR and removes nothing, with fuel above the files and the name.
pub rmdir-Refused :
    (fuel : ℕ) (t : Tree) (pid dir name n : ℕ) (files : List ℕ)
    → Ring t.links (t.file_list dir) files
    → AreFiles t files
    → IsString t.bytes name (suc n)
    → name ≢ 0
    → suc n < fuel
    → length files < fuel
    → Refused t (rmdir fuel t pid dir name)
unfolding rmdir
rmdir-Refused fuel t pid dir name n files r a s nz fn ff =
    elim (Bool-cases (is_directory (t.kind dir))) [
      | inr no_dir ↦ (not_dir, t, rw no_dir refl, inr refl, refl, refl)
      | inl is_dir ↦
          let c = first_named t name (suc n) files in
          let len = strlen_lem fuel t.bytes name (suc n) s fn in
          let found =
            find_file_in_dir-Ring fuel t dir name (suc n) files r nz (λ e. absurd (ground arith))
              ff in
          elim (Bool-cases (c == 0)) [
            | inl missing ↦
                (no_entry, t, rw (is_dir, len, found, missing) refl, inl refl, refl, refl)
            | inr there ↦
                let has_c : has c files ≡ true =
                  listed c there (first_named-has t name (suc n) files) in
                let (kind, used, small) = a c has_c in
                let (t', e, links, kinds) = unref-ref fuel t c (omega arith) used small in
                let node = rmdir_node-file fuel (ref t c) pid c (ref-kind t c kind) in
                (not_dir, t', rw (is_dir, len, found, there, node, e) refl, inr refl, links, kinds)
          ]
    ]
  where
    listed : (c : ℕ) → (c == 0) ≡ false → ((c ≡ 0) ⊎ (has c files ≡ true)) → has c files ≡ true
    listed c nz (inl z) = absurd (ground arith)
    listed c nz (inr i) = i
