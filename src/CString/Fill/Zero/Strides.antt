-- ===== src/CString/Fill/Zero/Strides.antt =====
-- The loops of zero_block, by one stride each.
use power_pc_demo_os.Common.{
  ℕ, zero, suc, ◌+◌, ◌-◌, ◌*◌, ◌/◌, ◌%◌, ◌≤◌, ◌<◌, ◌≡◌, sym, ap, ◌∙◌, true, false, Option, some,
  ltb, arith, word_size, add_word-small,
}
use power_pc_demo_os.CString.{Bytes}
use power_pc_demo_os.CString.Fill.{filled, filled_add, Filled}
use native.Mathlib.Nat.{mul-suc}
use power_pc_demo_os.CString.Fill.Zero.{clear_loop, clear_byte, clear_word}

module _ (write : Bytes → ℕ → Bytes) (k : ℕ) (IsPlace : ℕ → Type 0)
    (next : (a : ℕ) → IsPlace a → IsPlace (a + k))
    (clears : (m : Bytes) (a : ℕ) → IsPlace a → (p : ℕ) → write m a p ≡ filled m a k 0 p) where
  clear_round :
      (fuel : ℕ) (m m' : Bytes) (s n : ℕ)
      → 0 < k
      → s + k * suc n < word_size
      → clear_loop fuel write k (write m s) (s + k) (s + k + k * n) ≡ some (m', s + k + k * n)
      → clear_loop (suc fuel) write k m s (s + k * suc n) ≡ some (m', s + k * suc n)
  unfolding clear_loop
  clear_round fuel m m' s n pos low r =
      let far = mul-suc k n in
      let on : ltb s (s + k * suc n) ≡ true = ground (arith, far) in
      let a = add_word-small s k (omega (arith, far)) in
      let e : s + k * suc n ≡ s + k + k * n = omega (arith, far) in rw (on, a, e) r

  clear_loop_lem :
      (fuel : ℕ) (m : Bytes) (s n : ℕ)
      → IsPlace s
      → 0 < k
      → s + k * n < word_size
      → n < fuel
      → Filled m s (k * n) 0 (clear_loop fuel write k m s (s + k * n))
  unfolding clear_loop
  clear_loop_lem zero m s n i pos low f = absurd (omega arith)
  clear_loop_lem (suc fuel) m s zero i pos low f =
      let stop : ltb s (s + k * 0) ≡ false = ground arith in
      let e : s ≡ s + k * 0 = omega arith in
      (m, rw stop (ap (λ x. some (m, x)) e), λ p. ground arith)
  clear_loop_lem (suc fuel) m s (suc n) i pos low f =
      let m1 = write m s in
      let far = mul-suc k n in
      let l : k + k * n ≡ k * suc n = omega (arith, far) in
      let (m', r, at) =
        clear_loop_lem fuel m1 (s + k) n (next s i) pos (omega (arith, far)) (omega arith) in
      (
        m',
        clear_round fuel m m' s n pos low r,
        λ p. filled_add m m1 m' s k (k * n) 0 (clears m s i) at p ∙ ap (λ x. filled m s x 0 p) l,
      )

-- A loop cleared up to `e`, where it ends.
abbrev pub Cleared : Bytes → ℕ → ℕ → Option (Bytes × ℕ) → Type 0
Cleared m s e r = (m' : Bytes) × (r ≡ some (m', e)) × ((p : ℕ) → m' p ≡ filled m s (e - s) 0 p)

reached :
    (loop : ℕ → Option (Bytes × ℕ)) (m : Bytes) (s n e : ℕ)
    → s + n ≡ e
    → Filled m s n 0 (loop (s + n))
    → Cleared m s e (loop e)
reached loop m s n e q (m', r, at) = (
  m',
  ap loop (sym q) ∙ r ∙ ap (λ x. some (m', x)) q,
  λ p. at p ∙ ap (λ x. filled m s x 0 p) (omega arith),
)

pub clear_bytes_lem :
    (fuel : ℕ) (m : Bytes) (s e : ℕ)
    → s ≤ e
    → e < word_size
    → e - s < fuel
    → Cleared m s e (clear_loop fuel clear_byte 1 m s e)
clear_bytes_lem fuel m s e le low f =
    reached (clear_loop fuel clear_byte 1 m s) m s (1 * (e - s)) e (omega arith) (
      clear_loop_lem clear_byte 1 (λ _. Unit {0}) (λ _ _. tt) (λ m a _ p. ground arith) fuel m s
        (e - s) tt (omega arith) (omega arith) f)

pub clear_words_lem :
    (fuel : ℕ) (m : Bytes) (s e : ℕ)
    → s ≤ e
    → s % 4 ≡ 0
    → e % 4 ≡ 0
    → e < word_size
    → e - s < fuel
    → Cleared m s e (clear_loop fuel clear_word 4 m s e)
clear_words_lem fuel m s e le s4 e4 low f =
    reached (clear_loop fuel clear_word 4 m s) m s (4 * ((e - s) / 4)) e (omega arith) (
      clear_loop_lem clear_word 4 (λ _. Unit {0}) (λ _ _. tt) (λ m a _ p. ground arith) fuel m s
        ((e - s) / 4) tt (omega arith) (omega arith) (omega arith))

-- The instruction clears the cache line that begins at a multiple of its size.
abbrev pub ClearsLine : (Bytes → ℕ → Bytes) → Type 0
ClearsLine zero_line =
    (m : Bytes) (a : ℕ) → a % 32 ≡ 0 → (p : ℕ) → zero_line m a p ≡ filled m a 32 0 p

pub clear_lines_lem :
    (zero_line : Bytes → ℕ → Bytes) (fuel : ℕ) (m : Bytes) (s e : ℕ)
    → ClearsLine zero_line
    → s ≤ e
    → s % 32 ≡ 0
    → e % 32 ≡ 0
    → e < word_size
    → e - s < fuel
    → Cleared m s e (clear_loop fuel zero_line 32 m s e)
clear_lines_lem zero_line fuel m s e c le s4 e4 low f =
    reached (clear_loop fuel zero_line 32 m s) m s (32 * ((e - s) / 32)) e (omega arith) (
      clear_loop_lem zero_line 32 (λ a. a % 32 ≡ 0) (λ a i. omega arith) c fuel m s ((e - s) / 32)
        s4 (omega arith) (omega arith) (omega arith))
