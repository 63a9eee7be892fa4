-- ===== src/CString/Bounded.antt =====
-- The copies of at most so many bytes: strlcpy, strncpy.
use power_pc_demo_os.Common.{
  ℕ, zero, suc, ◌+◌, ◌-◌, ◌≤◌, ◌<◌, ◌≡◌, ◌≢◌, ◌⊎◌, inl, inr, refl, sym, ap, ◌∙◌, false, not, ◌&&◌,
  Option, none, some, ◌==◌, ltb, if◌then◌else◌, arith, update, ◌>>=◌, Bool-cases, min,
}
use power_pc_demo_os.CString.{Bytes, IsString, copied, within, start, head_char}
use power_pc_demo_os.CString.Copy.{strcat_end, strcat_end_lem, update-IsString, copied_step}

-- The first loop of strlcpy: the memory, the end of the copy and what is left of the source.
strlcpy_loop : ℕ → Bytes → ℕ → ℕ → ℕ → Option (Bytes × ℕ × ℕ)
strlcpy_loop zero m dest src dest_size = none
strlcpy_loop (suc fuel) m dest src dest_size =
    let rest = strlcpy_loop fuel (update m dest (m src)) (dest + 1) (src + 1) (dest_size - 1) in
    if not (m src == 0) && ltb 1 dest_size then rest else some (m, dest, src)

-- The second loop of strlcpy only looks for the end, as the search of strcat does.
unfoldable pub strlcpy : ℕ → Bytes → ℕ → ℕ → ℕ → Option (Bytes × ℕ)
unfolding strlcpy_loop strcat_end
strlcpy fuel m dest src dest_size = do
  (m', dest', src') ← strlcpy_loop fuel m dest src dest_size
  let m'' = update m' dest' 0
  last ← strcat_end fuel m'' src'
  some (m'', last - src)

-- The memory with `n` bytes of `from` at `to`, and EOS behind them.
abbrev pub terminated : Bytes → ℕ → ℕ → ℕ → Bytes
terminated m to from n p = if p == to + n then 0 else copied m to from n p

strlcpy_loop_lem :
    (fuel : ℕ) (m : Bytes) (dest src size n : ℕ)
    → IsString m src n
    → 0 < size
    → ((dest < src) ⊎ (src + n < dest))
    → n < fuel
    → let k = min n (size - 1) in
      (m' : Bytes) × (strlcpy_loop fuel m dest src size ≡ some (m', dest + k, src + k))
      × ((p : ℕ) → m' p ≡ copied m dest src k p)
unfolding strlcpy_loop
strlcpy_loop_lem zero m dest src size n h z a f = absurd (omega arith)
strlcpy_loop_lem (suc fuel) m dest src size zero h z a f =
    let eos = sym (start m src) ∙ h.0 in (m, ground arith, λ p. ground arith)
strlcpy_loop_lem (suc fuel) m dest src size (suc n) h z a f = elim (Bool-cases (ltb 1 size)) [
  | inr one ↦ (m, ground arith, λ p. ground arith)
  | inl more ↦
      let nz = head_char m src n h in
      let m1 = update m dest (m src) in
      let (m', e, at) =
        strlcpy_loop_lem fuel m1 (dest + 1) (src + 1) (size - 1) n
          (update-IsString m dest src n (m src) (ground arith) h) (ground arith) (ground arith)
          (omega arith) in
      let k : suc (min n (size - 1 - 1)) ≡ min (suc n) (size - 1) = ground arith in
      (
        m',
        ground arith,
        λ p.
            at p
            ∙ copied_step m dest src (min n (size - 1 - 1)) p (ground arith)
            ∙ ap (λ x. copied m dest src x p) k,
      )
]

strlcpy_end :
    (m m' : Bytes) (dest src n k : ℕ)
    → IsString m src n
    → k ≤ n
    → ((dest < src) ⊎ (src + n < dest))
    → ((p : ℕ) → m' p ≡ copied m dest src k p)
    → IsString (update m' (dest + k) 0) (src + k) (n - k)
strlcpy_end m m' dest src n k h le a at = (
  kept (n - k) (omega arith) ∙ ap m (omega arith) ∙ h.0,
  λ i lt e. h.1 (k + i) (omega arith) (ap m (omega arith) ∙ sym (kept i (omega arith)) ∙ e),
)
  where
    kept : (i : ℕ) → k + i ≤ n → update m' (dest + k) 0 (src + k + i) ≡ m (src + k + i)
    kept i l = ground (arith, at (src + k + i))

-- Into a buffer of at least one byte that starts before the source or behind its end, with fuel above
-- its length, strlcpy copies what fits and EOS, changes no other byte, and returns the length of the
-- source.
pub strlcpy_lem :
    (fuel : ℕ) (m : Bytes) (dest src size n : ℕ)
    → IsString m src n
    → 0 < size
    → ((dest < src) ⊎ (src + n < dest))
    → n < fuel
    → (m' : Bytes) × (strlcpy fuel m dest src size ≡ some (m', n))
      × ((p : ℕ) → m' p ≡ terminated m dest src (min n (size - 1)) p)
unfolding strlcpy
strlcpy_lem fuel m dest src size n h z a f =
    let k = min n (size - 1) in
    let (m', e, at) = strlcpy_loop_lem fuel m dest src size n h z a f in
    let s = strlcpy_end m m' dest src n k h (omega arith) a at in
    let w = strcat_end_lem fuel (update m' (dest + k) 0) (src + k) (n - k) s (omega arith) in
    let l : src + k + (n - k) - src ≡ n = omega arith in
    (update m' (dest + k) 0, rw (e, w, l) refl, λ p. ground (arith, at p))

-- `while (--n > 0)`, which is reached with `n` positive.
strncpy_pad : ℕ → Bytes → ℕ → Bytes
strncpy_pad zero m d = m
strncpy_pad (suc left) m d =
    let rest = strncpy_pad left (update m d 0) (d + 1) in if ltb 0 left then rest else m

-- The loop makes at most `n` rounds: `n` is `suc left`.
strncpy_loop : ℕ → Bytes → ℕ → ℕ → Bytes
strncpy_loop zero m d s2 = m
strncpy_loop (suc left) m d s2 =
    let m1 = update m d (m s2) in
    let rest = strncpy_loop left m1 (d + 1) (s2 + 1) in
    if m s2 == 0 then strncpy_pad (suc left) m1 (d + 1) else if left == 0 then m1 else rest

unfoldable pub strncpy : Bytes → ℕ → ℕ → ℕ → Bytes
unfolding strncpy_loop strncpy_pad
strncpy m s1 s2 n = if n == 0 then m else strncpy_loop n m s1 s2

-- The memory with a string of length `len` at `to`, cut or filled up with EOS to `n` bytes.
abbrev pub padded : Bytes → ℕ → ℕ → ℕ → ℕ → Bytes
padded m to from len n p =
    if within to n p then (if ltb p (to + len) then m (from + (p - to)) else 0) else m p

strncpy_pad_lem :
    (left : ℕ) (m : Bytes) (d p : ℕ)
    → strncpy_pad (suc left) m d p ≡ (if within d left p then 0 else m p)
unfolding strncpy_pad
strncpy_pad_lem zero m d p = ground arith
strncpy_pad_lem (suc left) m d p = ground (arith, strncpy_pad_lem left (update m d 0) (d + 1) p)

strncpy_loop_more :
    (left : ℕ) (m : Bytes) (d s2 : ℕ)
    → m s2 ≢ 0
    → 0 < left
    → strncpy_loop (suc left) m d s2 ≡ strncpy_loop left (update m d (m s2)) (d + 1) (s2 + 1)
unfolding strncpy_loop
strncpy_loop_more left m d s2 nz pos = ground arith

padded_step :
    (m : Bytes) (to from len n p : ℕ)
    → ((to + suc n ≤ from) ⊎ (from + len < to))
    → padded (update m to (m from)) (to + 1) (from + 1) len n p
      ≡ padded m to from (suc len) (suc n) p
padded_step m to from len n p a = elim (Bool-cases (p == to)) [
  | inl same ↦ let e : from + (p - to) ≡ from = ground arith in let q = ap m e in ground arith
  | inr other ↦ elim (Bool-cases (within (to + 1) n p && ltb p (to + 1 + len))) [
    | inl inside ↦
        let e : from + 1 + (p - (to + 1)) ≡ from + (p - to) = ground arith in
        let q = ap m e in ground arith
    | inr outside ↦ ground arith
  ]
]

strncpy_loop_lem :
    (left : ℕ) (m : Bytes) (to from len p : ℕ)
    → IsString m from len
    → ((to + suc left ≤ from) ⊎ (from + len < to))
    → strncpy_loop (suc left) m to from p ≡ padded m to from len (suc left) p
unfolding strncpy_loop
strncpy_loop_lem left m to from zero p h a =
    let z = sym (start m from) ∙ h.0 in
    ground (arith, strncpy_pad_lem left (update m to (m from)) (to + 1) p)
strncpy_loop_lem zero m to from (suc len) p h a =
    let nz = head_char m from len h in ground (arith, padded_step m to from len 0 p)
strncpy_loop_lem (suc left) m to from (suc len) p h a =
    let nz = head_char m from len h in
    let m1 = update m to (m from) in
    let again = strncpy_loop_more (suc left) m to from nz (omega arith) in
    ap (λ f. f p) again
    ∙ strncpy_loop_lem left m1 (to + 1) (from + 1) len p
        (update-IsString m to from len (m from) (ground arith) h) (ground arith)
    ∙ padded_step m to from len (suc left) p (ground arith)

-- strncpy writes `n` bytes, the source cut or filled up with EOS, and changes no other.
pub strncpy_lem :
    (m : Bytes) (to from n len p : ℕ)
    → IsString m from len
    → ((to + n ≤ from) ⊎ (from + len < to))
    → strncpy m to from n p ≡ padded m to from len n p
unfolding strncpy
strncpy_lem m to from zero len p h a = ground arith
strncpy_lem m to from (suc left) len p h a =
    let pos : (suc left == 0) ≡ false = ground arith in
    rw pos (strncpy_loop_lem left m to from len p h a)
