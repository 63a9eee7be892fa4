-- ===== src/CString/Block.antt =====
-- memcpy, and memcpy_aligned and memcpy_cache_flush of kernel/src/arch/powerpc/string.cpp.
use power_pc_demo_os.Common.{
  false, ℕ, zero, suc, ◌+◌, ◌-◌, ◌*◌, ◌/◌, ◌%◌, ◌≡◌, inl, inr, refl, ap, ap₂, ◌∙◌, ◌&&◌, ◌==◌, ltb,
  if◌then◌else◌, arith, update, add_word, sub_word, List, [], ◌∷◌, Bool-cases,
}
use power_pc_demo_os.CString.{Bytes, copied, within}
use power_pc_demo_os.CString.Copy.{Apart, copied_step}

abbrev pub memcpy_bytes : ℕ → Bytes → ℕ → ℕ → ℕ → Bytes
memcpy_bytes zero m dst src index = m
memcpy_bytes (suc left) m dst src index =
    memcpy_bytes left (update m (dst + index) (m (src + index))) dst src (index + 1)

-- One word: its four bytes are read before they are written.
abbrev pub aligned_loop : ℕ → Bytes → ℕ → ℕ → ℕ → Bytes
aligned_loop zero m dst src i = m
aligned_loop (suc left) m dst src i =
    aligned_loop left (copied m (dst + 4 * i) (src + 4 * i) 4) dst src (i + 1)

unfoldable pub memcpy_aligned : Bytes → ℕ → ℕ → ℕ → Bytes
memcpy_aligned m dst src size = aligned_loop (size / 4) m dst src 0

unfoldable pub memcpy : Bytes → ℕ → ℕ → ℕ → Bytes
unfolding memcpy_aligned
memcpy m dst src size =
    if (dst % 4 == 0) && (src % 4 == 0) && (size % 4 == 0)
    then memcpy_aligned m dst src size
    else memcpy_bytes size m dst src 0

-- Two copies of adjacent blocks are one.
copied_add :
    (m : Bytes) (to from a b p : ℕ)
    → Apart to from (a + b)
    → copied (copied m to from a) (to + a) (from + a) b p ≡ copied m to from (a + b) p
copied_add m to from a b p out_of = elim (Bool-cases (within (to + a) b p)) [
  | inl in_rest ↦
      let e : from + a + (p - (to + a)) ≡ from + (p - to) = ground arith in
      let q = ap m e in ground arith
  | inr out ↦ ground arith
]

memcpy_bytes_lem :
    (left : ℕ) (m : Bytes) (dst src i p : ℕ)
    → Apart (dst + i) (src + i) left
    → memcpy_bytes left m dst src i p ≡ copied m (dst + i) (src + i) left p
memcpy_bytes_lem zero m dst src i p a = ground arith
memcpy_bytes_lem (suc left) m dst src i p a =
    let m1 = update m (dst + i) (m (src + i)) in
    let d : dst + (i + 1) ≡ dst + i + 1 = omega arith in
    let s : src + (i + 1) ≡ src + i + 1 = omega arith in
    memcpy_bytes_lem left m1 dst src (i + 1) p (ground arith)
    ∙ ap₂ (λ x y. copied m1 x y left p) d s
    ∙ copied_step m (dst + i) (src + i) left p (ground arith)

aligned_loop_lem :
    (left : ℕ) (m : Bytes) (dst src i p : ℕ)
    → Apart (dst + 4 * i) (src + 4 * i) (4 * left)
    → aligned_loop left m dst src i p ≡ copied m (dst + 4 * i) (src + 4 * i) (4 * left) p
aligned_loop_lem zero m dst src i p a = ground arith
aligned_loop_lem (suc left) m dst src i p a =
    let m1 = copied m (dst + 4 * i) (src + 4 * i) 4 in
    let d : dst + 4 * (i + 1) ≡ dst + 4 * i + 4 = omega arith in
    let s : src + 4 * (i + 1) ≡ src + 4 * i + 4 = omega arith in
    let l : 4 + 4 * left ≡ 4 * suc left = omega arith in
    aligned_loop_lem left m1 dst src (i + 1) p (ground arith)
    ∙ ap₂ (λ x y. copied m1 x y (4 * left) p) d s
    ∙ copied_add m (dst + 4 * i) (src + 4 * i) 4 (4 * left) p (ground arith)
    ∙ ap (λ x. copied m (dst + 4 * i) (src + 4 * i) x p) l

aligned_lem :
    (m : Bytes) (dst src size p : ℕ)
    → size % 4 ≡ 0
    → Apart dst src size
    → aligned_loop (size / 4) m dst src 0 p ≡ copied m dst src size p
aligned_lem m dst src size p whole a =
    let d : dst + 4 * 0 ≡ dst = omega arith in
    let s : src + 4 * 0 ≡ src = omega arith in
    let w : 4 * (size / 4) ≡ size = omega arith in
    aligned_loop_lem (size / 4) m dst src 0 p (ground arith)
    ∙ ap (λ n. copied m (dst + 4 * 0) (src + 4 * 0) n p) w
    ∙ ap₂ (λ x y. copied m x y size p) d s

-- memcpy of blocks that do not overlap, by words or by bytes, copies the `size` bytes and changes no
-- other.
pub memcpy_lem :
    (m : Bytes) (dst src size p : ℕ)
    → Apart dst src size
    → memcpy m dst src size p ≡ copied m dst src size p
unfolding memcpy memcpy_aligned
memcpy_lem m dst src size p a =
    let d : dst + 0 ≡ dst = omega arith in
    let s : src + 0 ≡ src = omega arith in
    elim (Bool-cases ((dst % 4 == 0) && (src % 4 == 0) && (size % 4 == 0))) [
      | inr odd ↦ rw odd (
          memcpy_bytes_lem size m dst src 0 p (ground arith) ∙ ap₂ (λ x y. copied m x y size p) d s)
      | inl even ↦ rw even (aligned_lem m dst src size p (ground arith) a)
    ]

-- Each word copied, and the addresses that cachePartialCodeSync is called with, the last one first.
flush_loop : ℕ → Bytes → ℕ → ℕ → ℕ → List ℕ → Bytes × List ℕ
flush_loop zero m dst src cnt synced = (m, synced)
flush_loop (suc left) m dst src cnt synced =
    let m1 = copied m (dst + 4 * cnt) (src + 4 * cnt) 4 in
    let synced' = if ltb 0 cnt && (cnt % 8 == 0) then add_word dst cnt ∷ synced else synced in
    flush_loop left m1 dst src (cnt + 1) synced'

-- The memory, and the addresses synchronized, with that of the last word in front.
unfoldable pub memcpy_cache_flush : Bytes → ℕ → ℕ → ℕ → Bytes × List ℕ
unfolding flush_loop
memcpy_cache_flush m dst src size =
    let cnt = size / 4 in
    let (m', synced) = flush_loop cnt m dst src 0 [] in (m', sub_word (dst + 4 * cnt) 4 ∷ synced)

flush_loop_lem :
    (left : ℕ) (m : Bytes) (dst src i : ℕ) (synced : List ℕ)
    → (flush_loop left m dst src i synced).0 ≡ aligned_loop left m dst src i
unfolding flush_loop
flush_loop_lem zero m dst src i synced = refl
flush_loop_lem (suc left) m dst src i synced = flush_loop_lem left _ dst src (i + 1) _

-- memcpy_cache_flush of blocks of whole words that do not overlap copies them and changes no other
-- byte.
pub memcpy_cache_flush_lem :
    (m : Bytes) (dst src size p : ℕ)
    → size % 4 ≡ 0
    → Apart dst src size
    → (memcpy_cache_flush m dst src size).0 p ≡ copied m dst src size p
unfolding memcpy_cache_flush
memcpy_cache_flush_lem m dst src size p whole a =
    ap (λ f. f p) (flush_loop_lem (size / 4) m dst src 0 []) ∙ aligned_lem m dst src size p whole a

memcpy_bytes-outside :
    (left : ℕ) (m : Bytes) (dst src i p : ℕ)
    → within (dst + i) left p ≡ false
    → memcpy_bytes left m dst src i p ≡ m p
memcpy_bytes-outside zero m dst src i p out = refl
memcpy_bytes-outside (suc left) m dst src i p out =
    memcpy_bytes-outside left (update m (dst + i) (m (src + i))) dst src (i + 1) p (ground arith)
    ∙ (ground arith)

aligned_loop-outside :
    (left : ℕ) (m : Bytes) (dst src i p : ℕ)
    → within (dst + 4 * i) (4 * left) p ≡ false
    → aligned_loop left m dst src i p ≡ m p
aligned_loop-outside zero m dst src i p out = refl
aligned_loop-outside (suc left) m dst src i p out =
    aligned_loop-outside left (copied m (dst + 4 * i) (src + 4 * i) 4) dst src (i + 1) p
      (ground arith)
    ∙ (ground arith)

-- memcpy changes no byte outside its destination, whether or not the blocks overlap.
pub memcpy-outside :
    (m : Bytes) (dst src size p : ℕ) → within dst size p ≡ false → memcpy m dst src size p ≡ m p
unfolding memcpy memcpy_aligned
memcpy-outside m dst src size p out =
    elim (Bool-cases ((dst % 4 == 0) && (src % 4 == 0) && (size % 4 == 0))) [
      | inr odd ↦ rw odd (memcpy_bytes-outside size m dst src 0 p (ground arith))
      | inl even ↦ rw even (aligned_loop-outside (size / 4) m dst src 0 p (ground arith))
    ]
