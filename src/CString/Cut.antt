-- ===== src/CString/Cut.antt =====
-- strncat, and sstrncpy of kernel/src/arch/powerpc/string.cpp.
use power_pc_demo_os.Common.{
  ℕ, zero, suc, ◌+◌, ◌-◌, ◌≤◌, ◌<◌, ◌≡◌, ◌≢◌, ◌⊎◌, refl, sym, ap, ap₂, ◌∙◌, false, Option, some,
  ◌==◌, ltb, leb, if◌then◌else◌, arith, update, ◌>>=◌, min, add_word, sub_word, word_size,
  add_word-small, sub_word-small,
}
use power_pc_demo_os.CString.{Bytes, IsString, copied, start, head_char}
use power_pc_demo_os.CString.Copy.{strcat_end, strcat_end_lem, update-IsString, copied_step}
use power_pc_demo_os.CString.Bounded.{terminated}

-- `while (((*d++ = *src++) != EOS) && (--n > 0))`: the memory, the end of the copy and `n`.
strncat_loop : ℕ → Bytes → ℕ → ℕ → Bytes × ℕ × ℕ
strncat_loop zero m d src = (m, d, 0)
strncat_loop (suc left) m d src =
    let m1 = update m d (m src) in
    let rest = strncat_loop left m1 (d + 1) (src + 1) in
    if m src == 0 then (m1, d + 1, suc left) else if ltb 0 left then rest else (m1, d + 1, 0)

strncat_finish : Bytes × ℕ × ℕ → Bytes
strncat_finish (m, d, n) = if n == 0 then update m d 0 else m

unfoldable pub strncat : ℕ → Bytes → ℕ → ℕ → ℕ → Option Bytes
unfolding strncat_loop strncat_finish strcat_end
strncat fuel m dst src n =
    let appended = do d ← strcat_end fuel m dst; some (strncat_finish (strncat_loop n m d src))
    in if n == 0 then some m else appended

-- `for index below n`: the memory and the index at the end.
sstrncpy_loop : ℕ → Bytes → ℕ → ℕ → ℕ → Bytes × ℕ
sstrncpy_loop zero m dst src index = (m, index)
sstrncpy_loop (suc left) m dst src index =
    let m1 = update m (dst + index) (m (src + index)) in
    let rest = sstrncpy_loop left m1 dst src (index + 1) in
    if m (src + index) == 0 then (m, index) else rest

-- The index and the number of bytes that it returns are words.
unfoldable pub sstrncpy : Bytes → ℕ → ℕ → ℕ → Bytes × ℕ
unfolding sstrncpy_loop
sstrncpy m dst src n =
    let (m', index) = sstrncpy_loop n m dst src 0 in
    let last = if leb n index then sub_word n 1 else index in
    (update m' (add_word dst last) 0, add_word last 1)

terminated_step :
    (m : Bytes) (to from k p : ℕ)
    → ((to ≤ from) ⊎ (from + k < to))
    → terminated (update m to (m from)) (to + 1) (from + 1) k p ≡ terminated m to from (suc k) p
terminated_step m to from k p a = ground (arith, copied_step m to from k p a)

strncat_more :
    (left : ℕ) (m : Bytes) (d src : ℕ)
    → m src ≢ 0
    → 0 < left
    → strncat_loop (suc left) m d src ≡ strncat_loop left (update m d (m src)) (d + 1) (src + 1)
unfolding strncat_loop
strncat_more left m d src nz pos = ground arith

strncat_loop_lem :
    (left : ℕ) (m : Bytes) (d src len p : ℕ)
    → IsString m src len
    → ((d ≤ src) ⊎ (src + len < d))
    → strncat_finish (strncat_loop (suc left) m d src) p ≡ terminated m d src (min len (suc left)) p
unfolding strncat_loop strncat_finish
strncat_loop_lem left m d src zero p h a = let z = sym (start m src) ∙ h.0 in ground arith
strncat_loop_lem zero m d src (suc len) p h a =
    let nz = head_char m src len h in
    let k : min (suc len) 1 ≡ 1 = omega arith in
    let one = terminated_step m d src 0 p (ground arith) in rw k (ground (arith, one))
strncat_loop_lem (suc left) m d src (suc len) p h a =
    let nz = head_char m src len h in
    let m1 = update m d (m src) in
    let again = strncat_more (suc left) m d src nz (omega arith) in
    let k : suc (min len (suc left)) ≡ min (suc len) (suc (suc left)) = omega arith in
    ap (λ r. strncat_finish r p) again
    ∙ strncat_loop_lem left m1 (d + 1) (src + 1) len p
        (update-IsString m d src len (m src) (ground arith) h) (ground arith)
    ∙ terminated_step m d src (min len (suc left)) p (ground arith)
    ∙ ap (λ x. terminated m d src x p) k

-- strncat of a positive number puts at most so many characters, and EOS, behind the string at `dst`.
pub strncat_lem :
    (fuel : ℕ) (m : Bytes) (dst src n k len : ℕ)
    → IsString m dst k
    → IsString m src len
    → 0 < n
    → ((dst + k ≤ src) ⊎ (src + len < dst + k))
    → k < fuel
    → (m' : Bytes) × (strncat fuel m dst src n ≡ some m')
      × ((p : ℕ) → m' p ≡ terminated m (dst + k) src (min len n) p)
unfolding strncat
strncat_lem fuel m dst src zero k len t h pos a f = absurd (omega arith)
strncat_lem fuel m dst src (suc left) k len t h pos a f =
    let m' = strncat_finish (strncat_loop (suc left) m (dst + k) src) in
    let more : (suc left == 0) ≡ false = ground arith in
    (
      m',
      rw (more, strcat_end_lem fuel m dst k t f) refl,
      λ p. strncat_loop_lem left m (dst + k) src len p h a,
    )

sstrncpy_loop_lem :
    (left : ℕ) (m : Bytes) (dst src i len : ℕ)
    → IsString m (src + i) len
    → ((dst + i + left ≤ src + i) ⊎ (src + i + len < dst + i))
    → let (m', last) = sstrncpy_loop left m dst src i in
      (last ≡ i + min len left) × ((p : ℕ) → m' p ≡ copied m (dst + i) (src + i) (min len left) p)
unfolding sstrncpy_loop
sstrncpy_loop_lem zero m dst src i len h a = (omega arith, λ p. ground arith)
sstrncpy_loop_lem (suc left) m dst src i zero h a =
    let z = sym (start m (src + i)) ∙ h.0 in rw z (omega arith, λ p. ground arith)
sstrncpy_loop_lem (suc left) m dst src i (suc len) h a =
    let nz : (m (src + i) == 0) ≡ false = ground (arith, head_char m (src + i) len h) in
    let m1 = update m (dst + i) (m (src + i)) in
    let d : dst + (i + 1) ≡ dst + i + 1 = omega arith in
    let s : src + i + 1 ≡ src + (i + 1) = omega arith in
    let kept : IsString m1 (src + i + 1) len =
      update-IsString m (dst + i) (src + i) len (m (src + i)) (ground arith) h in
    let (e, at) = sstrncpy_loop_lem left m1 dst src (i + 1) len (rw s at kept) (ground arith) in
    let k : suc (min len left) ≡ min (suc len) (suc left) = omega arith in
    rw nz (
      e ∙ (omega arith),
      λ p.
          at p
          ∙ ap₂ (λ x y. copied m1 x y (min len left) p) d (sym s)
          ∙ copied_step m (dst + i) (src + i) (min len left) p (ground arith)
          ∙ ap (λ x. copied m (dst + i) (src + i) x p) k,
    )

last_index :
    (n len index : ℕ)
    → index ≡ 0 + min len n
    → 0 < n
    → n < word_size
    → (if leb n index then sub_word n 1 else index) ≡ min len (n - 1)
last_index n len index e pos small = ground (arith, sub_word-small n 1 small (omega arith))

-- On a buffer of `n` bytes, not none, that ends below 2 ^ 32 and does not overlap the source,
-- sstrncpy copies what fits and EOS, changes no other byte, and returns the number of bytes of both.
pub sstrncpy_lem :
    (m : Bytes) (dst src n len : ℕ)
    → IsString m src len
    → 0 < n
    → dst + n < word_size
    → ((dst + n ≤ src) ⊎ (src + len < dst))
    → let (m', count) = sstrncpy m dst src n in
      (count ≡ min len (n - 1) + 1) × ((p : ℕ) → m' p ≡ terminated m dst src (min len (n - 1)) p)
unfolding sstrncpy
sstrncpy_lem m dst src n len h pos small a =
    let s0 : src ≡ src + 0 = omega arith in
    let (e, at) = sstrncpy_loop_lem n m dst src 0 len (rw s0 at h) (ground arith) in
    let k = min len (n - 1) in
    let d0 : dst + 0 ≡ dst = omega arith in
    let l = last_index n len (sstrncpy_loop n m dst src 0).1 e pos (omega arith) in
    let count = add_word-small k 1 (omega arith) in
    let place = add_word-small dst k (omega arith) in
    let at0 : (p : ℕ) → (sstrncpy_loop n m dst src 0).0 p ≡ copied m dst src (min len n) p =
      λ p. at p ∙ ap₂ (λ x y. copied m x y (min len n) p) d0 (sym s0) in
    rw (l, place) (count, λ p. ground (arith, at0 p))
