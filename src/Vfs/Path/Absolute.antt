-- ===== src/Vfs/Path/Absolute.antt =====
-- absolutePath keeps to its buffer.
use power_pc_demo_os.Common.{
  ℕ, ◌+◌, ◌-◌, ◌≤◌, ◌<◌, ◌≡◌, ◌≢◌, ◌⊎◌, refl, sym, ap, ◌∙◌, true, false, Option, some, leb,
  if◌then◌else◌, ◌>>=◌, bind_some, Bool-cases, inl, inr, arith, min, word_size,
}
use power_pc_demo_os.CString.{Bytes, IsString, within}
use power_pc_demo_os.CString.Bounded.{terminated}
use power_pc_demo_os.CString.Cut.{strncat, sstrncpy, strncat_lem, sstrncpy_lem}
use power_pc_demo_os.Vfs.Path.{absolute_path}

-- A terminated copy is a string of its length.
terminated-IsString :
    (m m' : Bytes) (to from len k : ℕ)
    → IsString m from len
    → k ≤ len
    → ((p : ℕ) → m' p ≡ terminated m to from k p)
    → IsString m' to k
terminated-IsString m m' to from len k h le at = (at (to + k) ∙ (ground arith), inner)
  where
    inner : (i : ℕ) → i < k → m' (to + i) ≢ 0
    inner i lt =
        let e = ap m {x = from + (to + i - to)} {y = from + i} (omega arith) in
        ground (arith, at (to + i), h.1 i (omega arith))

-- A string that a terminated copy does not touch stays one.
kept-IsString :
    (m m' : Bytes) (to from k s n : ℕ)
    → IsString m s n
    → ((to + k < s) ⊎ (s + n < to))
    → ((p : ℕ) → m' p ≡ terminated m to from k p)
    → IsString m' s n
kept-IsString m m' to from k s n h a at =
    (same n (omega arith) ∙ h.0, λ i lt e. h.1 i lt (sym (same i (omega arith)) ∙ e))
  where
    same : (i : ℕ) → i ≤ n → m' (s + i) ≡ m (s + i)
    same i le = ground (arith, at (s + i))

-- absolutePath into a buffer that ends below 2 ^ 32 and overlaps neither the working directory nor the
-- relative path returns NULL or the buffer, and changes no byte outside it; it returns the buffer, with
-- a string in it, when the working directory and EOS are shorter than it. The fuel is above its size.
pub absolute_path_lem :
    (fuel : ℕ) (m : Bytes) (dst size cwd relative a b : ℕ)
    → IsString m cwd a
    → IsString m relative b
    → 0 < size
    → dst + size < word_size
    → ((dst + size ≤ cwd) ⊎ (cwd + a < dst))
    → ((dst + size ≤ relative) ⊎ (relative + b < dst))
    → size < fuel
    → (r : ℕ) × (m' : Bytes) × (absolute_path fuel m dst size cwd relative ≡ some (r, m'))
      × (r ≡ (if leb size (a + 1) then 0 else dst))
      × ((p : ℕ) → within dst size p ≡ false → m' p ≡ m p)
unfolding absolute_path
absolute_path_lem fuel m dst size cwd relative a b ha hb pos low ca cb f =
    let m1 = (sstrncpy m dst cwd size).0 in
    let k = min a (size - 1) in
    let (count, at1) = sstrncpy_lem m dst cwd size a ha pos low ca in
    elim (Bool-cases (leb size (a + 1))) [
      | inl cut ↦
          let over : leb size (sstrncpy m dst cwd size).1 ≡ true = ground (arith, count) in
          (0, m1, rw over refl, ground arith, λ p out. ground (arith, at1 p))
      | inr fits ↦
          let room : leb size (sstrncpy m dst cwd size).1 ≡ false = ground (arith, count) in
          let left : size - (sstrncpy m dst cwd size).1 ≡ size - (k + 1) = omega (arith, count) in
          let s1 = terminated-IsString m m1 dst cwd a k ha (omega arith) at1 in
          let s2 = kept-IsString m m1 dst cwd k relative b hb (ground arith) at1 in
          let (m2, e, at2) =
            strncat_lem fuel m1 dst relative (size - (k + 1)) k b s1 s2 (ground arith)
              (ground arith) (ground arith) in
          (
            dst,
            m2,
            joined m1 (sstrncpy m dst cwd size).1 m2 room
                (ap (strncat fuel m1 dst relative) left ∙ e),
            ground arith,
            λ p out. ground (arith, at1 p, at2 p),
          )
    ]
  where
    cut : Bytes → Option (ℕ × Bytes)
    cut m1 = some (0, m1)

    whole : Bytes → Option (ℕ × Bytes)
    whole m2 = some (dst, m2)

    joined :
        (m1 : Bytes) (n : ℕ) (m2 : Bytes)
        → leb size n ≡ false
        → strncat fuel m1 dst relative (size - n) ≡ some m2
        → (if leb size n then cut m1 else (strncat fuel m1 dst relative (size - n) >>= whole))
          ≡ some (dst, m2)
    joined m1 n m2 room e = rw room (bind_some whole e)
