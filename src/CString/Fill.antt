-- ===== src/CString/Fill.antt =====
-- The loops that fill memory: memset of generic/libc/string, and zero_block of
-- kernel/src/arch/powerpc/string.cpp (Zero).
pub mod Zero
use power_pc_demo_os.Common.{
  ℕ, zero, suc, ◌+◌, ◌-◌, ◌*◌, ◌/◌, ◌%◌, ◌^◌, ◌≤◌, ◌<◌, ◌≡◌, ◌≢◌, ◌⊎◌, ◌↔◌, inl, inr, refl, sym, ap,
  ap₂, ◌∙◌, Bool, true, false, not, ◌&&◌, ◌||◌, Option, none, some, ◌==◌, ==_iff, ltb, leb,
  if◌then◌else◌, arith, update, ◌>>=◌, Bool-cases, min, word_size,
}
use Prim.Native.Nat.{bit_or}
use power_pc_demo_os.CString.{Bytes, within}
use power_pc_demo_os.BitSearch.Highest.{all_below, all_below_at}

-- A word at `d`, its highest byte first.
abbrev pub store_word : Bytes → ℕ → ℕ → Bytes
store_word m d v =
    update
      (update (update (update m d (v / 2 ^ 24 % 256)) (d + 1) (v / 2 ^ 16 % 256)) (d + 2)
        (v / 2 ^ 8 % 256))
      (d + 3) (v % 256)

-- `val |= val << 8`, `val |= val << 16`, in 32 bits.
unfoldable pub spread : ℕ → ℕ
spread c =
    let val = c % 256 in
    let val' = bit_or val (val * 2 ^ 8 % word_size) in bit_or val' (val' * 2 ^ 16 % word_size)

-- The first loop stops at a word's address: four tests are enough.
align_loop : ℕ → Bytes → ℕ → ℕ → Option (Bytes × ℕ)
align_loop zero m d c = none
align_loop (suc fuel) m d c =
    let rest = align_loop fuel (update m d (c % 256)) (d + 1) c in
    if d % 4 == 0 then some (m, d) else rest

-- `do … while`.
word_loop : ℕ → Bytes → ℕ → ℕ → ℕ → Option (Bytes × ℕ)
word_loop zero m d last val = none
word_loop (suc fuel) m d last val =
    let m1 = store_word m d val in
    let rest = word_loop fuel m1 (d + 4) last val in
    if d + 4 == last then some (m1, d + 4) else rest

byte_loop : ℕ → Bytes → ℕ → ℕ → ℕ → Option Bytes
byte_loop zero m d last c = none
byte_loop (suc fuel) m d last c =
    let rest = byte_loop fuel (update m d (c % 256)) (d + 1) last c in
    if d == last then some m else rest

memset_words : ℕ → Bytes → ℕ → ℕ → ℕ → Option (Bytes × ℕ)
unfolding align_loop word_loop spread
memset_words fuel m dst c last = do
  (m', d) ← align_loop 4 m dst c
  word_loop fuel m' d (last - last % 4) (spread c)

unfoldable pub memset : ℕ → Bytes → ℕ → ℕ → ℕ → Option Bytes
unfolding memset_words byte_loop
memset fuel m dst c len = do
  (m', d) ← if leb 7 len then memset_words fuel m dst c (dst + len) else some (m, dst)
  byte_loop fuel m' d (dst + len) c

-- `n` bytes from `s` on that are all `v`.
abbrev pub filled : Bytes → ℕ → ℕ → ℕ → Bytes
filled m s n v p = if within s n p then v else m p

abbrev spread_right : ℕ → Bool
unfolding spread
spread_right c =
    (spread c / 2 ^ 24 % 256 == c)
    && (spread c / 2 ^ 16 % 256 == c)
    && (spread c / 2 ^ 8 % 256 == c)
    && (spread c % 256 == c)

spread_table : all_below 256 spread_right ≡ true
unfolding all_below spread
spread_table = refl

spread_low : (c : ℕ) → spread (c % 256) ≡ spread c
unfolding spread
spread_low c = let e : c % 256 % 256 ≡ c % 256 = omega arith in rw e refl

-- Each byte of the word is the character.
store_word-spread : (m : Bytes) (d c p : ℕ) → store_word m d (spread c) p ≡ filled m d 4 (c % 256) p
unfolding spread_right
store_word-spread m d c p =
    let e = all_below_at 256 spread_right (c % 256) spread_table (omega arith) in
    bytes (spread c) (rw (spread_low c) at e)
  where
    bytes :
        (w : ℕ)
        → ((w / 2 ^ 24 % 256 == c % 256)
            && (w / 2 ^ 16 % 256 == c % 256)
            && (w / 2 ^ 8 % 256 == c % 256)
            && (w % 256 == c % 256))
          ≡ true
        → store_word m d w p ≡ filled m d 4 (c % 256) p
    bytes w e = ground arith

-- Two adjacent blocks of the same bytes are one.
pub filled_add :
    (m m1 m2 : Bytes) (s a b v : ℕ)
    → ((p : ℕ) → m1 p ≡ filled m s a v p)
    → ((p : ℕ) → m2 p ≡ filled m1 (s + a) b v p)
    → (p : ℕ) → m2 p ≡ filled m s (a + b) v p
filled_add m m1 m2 s a b v at1 at2 p = ground (arith, at1 p, at2 p)

-- What a loop that starts at `d` and has `n` bytes to go leaves.
abbrev pub Filled : Bytes → ℕ → ℕ → ℕ → Option (Bytes × ℕ) → Type 0
Filled m d n v r = (m' : Bytes) × (r ≡ some (m', d + n)) × ((p : ℕ) → m' p ≡ filled m d n v p)

align_loop_lem :
    (fuel : ℕ) (m : Bytes) (d c : ℕ)
    → 3 - (d + 3) % 4 < fuel
    → Filled m d (3 - (d + 3) % 4) (c % 256) (align_loop fuel m d c)
unfolding align_loop
align_loop_lem zero m d c f = absurd (omega arith)
align_loop_lem (suc fuel) m d c f = elim (Bool-cases (d % 4 == 0)) [
  | inl stop ↦
      let e : 3 - (d + 3) % 4 ≡ 0 = ground arith in
      let e' : d ≡ d + 0 = omega arith in
      rw e (m, rw stop (ap (λ x. some (m, x)) e'), λ p. ground arith)
  | inr on ↦
      let m1 = update m d (c % 256) in
      let e : 1 + (3 - (d + 1 + 3) % 4) ≡ 3 - (d + 3) % 4 = ground arith in
      let (m', r, at) = align_loop_lem fuel m1 (d + 1) c (ground arith) in
      let k : d + 1 + (3 - (d + 1 + 3) % 4) ≡ d + (3 - (d + 3) % 4) = omega arith in
      (
        m',
        rw on (r ∙ ap (λ x. some (m', x)) k),
        λ p.
            filled_add m m1 m' d 1 (3 - (d + 1 + 3) % 4) (c % 256) (λ q. ground arith) at p
            ∙ ap (λ n. filled m d n (c % 256) p) e,
      )
]

word_loop_lem :
    (fuel : ℕ) (m : Bytes) (d k c : ℕ)
    → k < fuel
    → Filled m d (4 * suc k) (c % 256) (word_loop fuel m d (d + 4 * suc k) (spread c))
unfolding word_loop
word_loop_lem zero m d k c f = absurd (omega arith)
word_loop_lem (suc fuel) m d zero c f =
    let e : (d + 4 == d + 4 * 1) ≡ true = ground arith in
    (store_word m d (spread c), rw e refl, store_word-spread m d c)
word_loop_lem (suc fuel) m d (suc k) c f =
    let m1 = store_word m d (spread c) in
    let e : (d + 4 == d + 4 * suc (suc k)) ≡ false = ground arith in
    let next : d + 4 * suc (suc k) ≡ d + 4 + 4 * suc k = omega arith in
    let (m', r, at) = word_loop_lem fuel m1 (d + 4) k c (omega arith) in
    let n : 4 + 4 * suc k ≡ 4 * suc (suc k) = omega arith in
    (
      m',
      rw (e, next) r,
      λ p.
          filled_add m m1 m' d 4 (4 * suc k) (c % 256) (store_word-spread m d c) at p
          ∙ ap (λ n. filled m d n (c % 256) p) n,
    )

byte_loop_lem :
    (fuel : ℕ) (m : Bytes) (d n c : ℕ)
    → n < fuel
    → (m' : Bytes) × (byte_loop fuel m d (d + n) c ≡ some m')
      × ((p : ℕ) → m' p ≡ filled m d n (c % 256) p)
unfolding byte_loop
byte_loop_lem zero m d n c f = absurd (omega arith)
byte_loop_lem (suc fuel) m d zero c f =
    let e : (d == d + 0) ≡ true = ground arith in (m, rw e refl, λ p. ground arith)
byte_loop_lem (suc fuel) m d (suc n) c f =
    let m1 = update m d (c % 256) in
    let e : (d == d + suc n) ≡ false = ground arith in
    let next : d + suc n ≡ d + 1 + n = omega arith in
    let (m', r, at) = byte_loop_lem fuel m1 (d + 1) n c (omega arith) in
    let k : 1 + n ≡ suc n = omega arith in
    (
      m',
      rw (e, next) r,
      λ p.
          filled_add m m1 m' d 1 n (c % 256) (λ q. ground arith) at p
          ∙ ap (λ n. filled m d n (c % 256) p) k,
    )

memset_words_lem :
    (fuel : ℕ) (m : Bytes) (dst c len : ℕ)
    → 7 ≤ len
    → len < fuel
    → (n : ℕ) × (n ≤ len) × Filled m dst n (c % 256) (memset_words fuel m dst c (dst + len))
unfolding memset_words
memset_words_lem fuel m dst c len long f =
    let a = 3 - (dst + 3) % 4 in
    let last = dst + len in
    let k = (last - last % 4 - (dst + a)) / 4 - 1 in
    let (m1, r1, at1) = align_loop_lem 4 m dst c (omega arith) in
    let (m2, r2, at2) = word_loop_lem fuel m1 (dst + a) k c (omega arith) in
    let e : last - last % 4 ≡ dst + a + 4 * suc k = omega arith in
    (
      a + 4 * suc k,
      omega arith,
      (m2, whole a k m1 m2 r1 e r2, filled_add m m1 m2 dst a (4 * suc k) (c % 256) at1 at2),
    )
  where
    whole :
        (a k : ℕ) (m1 m2 : Bytes)
        → align_loop 4 m dst c ≡ some (m1, dst + a)
        → dst + len - (dst + len) % 4 ≡ dst + a + 4 * suc k
        → word_loop fuel m1 (dst + a) (dst + a + 4 * suc k) (spread c)
          ≡ some (m2, dst + a + 4 * suc k)
        → memset_words fuel m dst c (dst + len) ≡ some (m2, dst + (a + 4 * suc k))
    whole a k m1 m2 r1 e r2 =
        let w : dst + (a + 4 * suc k) ≡ dst + a + 4 * suc k = omega arith in rw (r1, e, w) r2

-- With fuel above the length, memset, by words or by bytes, sets the `len` bytes to the low byte of
-- `c` and changes no other.
pub memset_lem :
    (fuel : ℕ) (m : Bytes) (dst c len : ℕ)
    → len < fuel
    → (m' : Bytes) × (memset fuel m dst c len ≡ some m')
      × ((p : ℕ) → m' p ≡ filled m dst len (c % 256) p)
unfolding memset
memset_lem fuel m dst c len f = elim (Bool-cases (leb 7 len)) [
  | inr short ↦ rw short (byte_loop_lem fuel m dst len c f)
  | inl long ↦
      let (n, le, (m1, r1, at1)) = memset_words_lem fuel m dst c len (ground arith) f in
      let (m2, r2, at2) = byte_loop_lem fuel m1 (dst + n) (len - n) c (omega arith) in
      let e : dst + len ≡ dst + n + (len - n) = omega arith in
      let k : n + (len - n) ≡ len = omega arith in
      (
        m2,
        rw (long, r1) (rw (sym e) at r2),
        λ p.
            filled_add m m1 m2 dst n (len - n) (c % 256) at1 at2 p
            ∙ ap (λ n. filled m dst n (c % 256) p) k,
      )
]
