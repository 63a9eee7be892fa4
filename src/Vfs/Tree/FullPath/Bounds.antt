-- ===== src/Vfs/Tree/FullPath/Bounds.antt =====
-- getPathTo against the sum of the names' lengths.
use power_pc_demo_os.Common.{
  ℕ, zero, suc, ◌+◌, ◌-◌, ◌≤◌, ◌<◌, ◌≡◌, ◌≢◌, refl, ap, ◌∙◌, true, false, not, ◌&&◌, Option, some,
  ◌==◌, ltb, if◌then◌else◌, bind_some, update, Bool-cases, inl, inr, arith,
}
use power_pc_demo_os.CString.{Bytes, within}
use power_pc_demo_os.CString.Block.{memcpy, memcpy-outside}
use power_pc_demo_os.Vfs.Tree.{Tree, VfsError, success, name_too_long}
use power_pc_demo_os.Vfs.Tree.FullPath.{path_total, path_fill, get_path_to}

-- The root, which has no parent, is `k` steps up.
abbrev pub IsDepth : Tree → ℕ → ℕ → Type 0
IsDepth t n zero = t.parent n ≡ 0
IsDepth t n (suc k) = (t.parent n ≢ 0) × IsDepth t (t.parent n) k

-- The length of the path of a node at that depth.
abbrev pub path_len : Tree → ℕ → ℕ → ℕ
path_len t n zero = 0
path_len t n (suc k) = t.name_len n + 1 + path_len t (t.parent n) k

path_total_lem :
    (fuel : ℕ) (t : Tree) (n total k : ℕ)
    → IsDepth t n k
    → k < fuel
    → path_total fuel t n total ≡ some (total + path_len t n k)
unfolding path_total
path_total_lem zero t n total k d f = absurd (omega arith)
path_total_lem (suc fuel) t n total zero d f =
    let root : (t.parent n == 0) ≡ true = ground arith in rw root (ap some (omega arith))
path_total_lem (suc fuel) t n total (suc k) (d, ds) f =
    let more : (t.parent n == 0) ≡ false = ground arith in
    rw more (
      path_total_lem fuel t (t.parent n) (total + (t.name_len n + 1)) k ds (omega arith)
      ∙ ap some (omega arith))

path_fill_lem :
    (fuel : ℕ) (t : Tree) (m : Bytes) (dst n k : ℕ)
    → IsDepth t n k
    → k < fuel
    → (m' : Bytes) × (path_fill fuel t m dst n (path_len t n k) ≡ some m')
      × ((p : ℕ) → within dst (path_len t n k) p ≡ false → m' p ≡ m p)
unfolding path_fill
path_fill_lem zero t m dst n k d f = absurd (omega arith)
path_fill_lem (suc fuel) t m dst n zero d f =
    let root : (t.parent n == 0) ≡ true = ground arith in (m, rw root refl, λ p o. refl)
path_fill_lem (suc fuel) t m dst n (suc k) (d, ds) f =
    let more : (t.parent n == 0) ≡ false = ground arith in
    let rest = path_len t (t.parent n) k in
    let total = t.name_len n + 1 + rest in
    let less : total - (t.name_len n + 1) ≡ rest = omega arith in
    let place = dst + total + 1 - (t.name_len n + 1) in
    let m1 = update m (dst + total - (t.name_len n + 1)) b'/' in
    let m2 = memcpy m1 place (t.name n) (t.name_len n + 1 - 1) in
    let (m', e, at) = path_fill_lem fuel t m2 dst (t.parent n) k ds (omega arith) in
    (
      m',
      next m2 m' more less e,
      λ p o.
          at p (ground arith)
          ∙ memcpy-outside m1 place (t.name n) (t.name_len n + 1 - 1) p (ground arith)
          ∙ (ground arith),
    )
  where
    next :
        (m2 m' : Bytes)
        → (t.parent n == 0) ≡ false
        → t.name_len n + 1 + path_len t (t.parent n) k - (t.name_len n + 1)
          ≡ path_len t (t.parent n) k
        → path_fill fuel t m2 dst (t.parent n) (path_len t (t.parent n) k) ≡ some m'
        → (if t.parent n == 0
            then some m
            else path_fill fuel t m2 dst
                (t.parent n)
                (t.name_len n + 1 + path_len t (t.parent n) k - (t.name_len n + 1)))
          ≡ some m'
    next m2 m' more less e = rw (more, less) e

-- getPathTo of a node at a depth below the fuel answers ENAMETOOLONG and writes nothing when the path is
-- longer than `size`; else it answers ENONE, changes no byte outside those of the path and the one
-- behind them, and puts EOS there, which is outside the buffer when the path is as long as it.
pub get_path_to_lem :
    (fuel : ℕ) (t : Tree) (n dst size k : ℕ)
    → IsDepth t n k
    → k < fuel
    → (m' : Bytes) × (get_path_to fuel t n dst size
        ≡ some ((if ltb size (path_len t n k) then name_too_long else success), m'))
      × ((p : ℕ)
          → (within dst (path_len t n k + 1) p && not (ltb size (path_len t n k))) ≡ false
          → m' p ≡ t.bytes p)
      × (path_len t n k ≤ size → m' (dst + path_len t n k) ≡ 0)
unfolding get_path_to
get_path_to_lem fuel t n dst size k d f =
    let total : path_total fuel t n 0 ≡ some (path_len t n k) =
      path_total_lem fuel t n 0 k d f ∙ ap some (omega arith) in
    let (m, e, at) = path_fill_lem fuel t t.bytes dst n k d f in
    elim (Bool-cases (ltb size (path_len t n k))) [
      | inl long ↦ (t.bytes, rw (total, long) refl, λ p o. refl, λ le. absurd (ground arith))
      | inr fits ↦ (
        update m (dst + path_len t n k) 0,
        answer m total fits e,
        λ p o. ground (arith, at p),
        λ le. ground arith,
      )
    ]
  where
    filled : Bytes → Option (VfsError × Bytes)
    filled m = some (success, update m (dst + path_len t n k) 0)

    answer :
        (m : Bytes)
        → path_total fuel t n 0 ≡ some (path_len t n k)
        → ltb size (path_len t n k) ≡ false
        → path_fill fuel t t.bytes dst n (path_len t n k) ≡ some m
        → get_path_to fuel t n dst size
          ≡ some (
            (if ltb size (path_len t n k) then name_too_long else success),
            update m (dst + path_len t n k) 0,
          )
    answer m total fits e = rw (total, fits) (bind_some filled e)
