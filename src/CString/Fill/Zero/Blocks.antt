-- ===== src/CString/Fill/Zero/Blocks.antt =====
-- What zero_block clears, from its labels up.
use power_pc_demo_os.Common.{
  ℕ, ◌+◌, ◌-◌, ◌%◌, ◌≤◌, ◌<◌, ◌≡◌, inl, inr, refl, sym, ap, ◌∙◌, Option, some, leb, arith, update,
  ◌>>=◌, bind_some, Bool-cases, word_size, add_word, add_word-small, sub_word-small, align_down,
  align_down_four, align_down_line, align_up_four, align_up_line,
}
use power_pc_demo_os.CString.{Bytes}
use power_pc_demo_os.CString.Fill.{filled, filled_add}
use power_pc_demo_os.CString.Fill.Zero.{
  clear_loop, clear_word, zero_bytes, zero_words, zero_aligned, zero_to, zero_block,
}
use power_pc_demo_os.CString.Fill.Zero.Strides.{
  Cleared, clear_bytes_lem, clear_words_lem, clear_lines_lem, ClearsLine,
}

-- All cleared, with the byte at `e`.
abbrev Rest : Bytes → ℕ → ℕ → Option Bytes → Type 0
Rest m s e r = (m' : Bytes) × (r ≡ some m') × ((p : ℕ) → m' p ≡ filled m s (e - s + 1) 0 p)

bounded :
    (loop : ℕ → Option (Bytes × ℕ)) (m : Bytes) (s a b t : ℕ)
    → a ≡ b
    → Cleared m s t (loop b)
    → Cleared m s t (loop a)
bounded loop m s a b t q (m', r, at) = (m', ap loop q ∙ r, at)

-- One loop and what follows it.
follow :
    (r : Option (Bytes × ℕ)) (later : Bytes → ℕ → Option Bytes) (m : Bytes) (s t e : ℕ)
    → s ≤ t
    → t ≤ e
    → Cleared m s t r
    → ((m1 : Bytes) → Rest m1 t e (later m1 t))
    → Rest m s e (r >>= λ (m', s'). later m' s')
follow r later m s t e st te (m1, r1, at1) rest =
    let (m2, r2, at2) = rest m1 in
    let k : s + (t - s) ≡ t = omega arith in
    let n : t - s + (e - t + 1) ≡ e - s + 1 = omega arith in
    (
      m2,
      bind_some (λ (m', s'). later m' s') r1 ∙ r2,
      λ p.
          filled_add m m1 m2 s (t - s) (e - t + 1) 0 at1
            (λ q. at2 q ∙ ap (λ x. filled m1 x (e - t + 1) 0 q) (sym k)) p
          ∙ ap (λ x. filled m s x 0 p) n,
    )

zero_bytes_lem :
    (fuel : ℕ) (m : Bytes) (s e : ℕ)
    → s ≤ e
    → e < word_size
    → e - s < fuel
    → Rest m s e (zero_bytes fuel m s e)
unfolding zero_bytes
zero_bytes_lem fuel m s e le low f =
    let (m1, r, at) = clear_bytes_lem fuel m s e le low f in
    (update m1 e 0, rw r refl, λ p. ground (arith, at p))

zero_words_lem :
    (fuel : ℕ) (m : Bytes) (s e : ℕ)
    → s ≤ e
    → s % 4 ≡ 0
    → e < word_size
    → e - s < fuel
    → Rest m s e (zero_words fuel m s e)
unfolding zero_words
zero_words_lem fuel m s e le s4 low f =
    let t = e - e % 4 in
    follow _ (λ m' s'. zero_bytes fuel m' s' e) m s t e (omega arith) (omega arith)
      (bounded (clear_loop fuel clear_word 4 m s) m s (align_down e 4) t t (align_down_four e low)
        (clear_words_lem fuel m s t (omega arith) s4 (omega arith) (omega arith) (omega arith)))
      (λ m1. zero_bytes_lem fuel m1 t e (omega arith) low (omega arith))

zero_lines_lem :
    (zero_line : Bytes → ℕ → Bytes) (fuel : ℕ) (m : Bytes) (s e : ℕ)
    → ClearsLine zero_line
    → s ≤ e
    → s % 32 ≡ 0
    → e < word_size
    → e - s < fuel
    → Rest m s e
        (clear_loop fuel zero_line 32 m s (align_down e 32) >>= λ (m', s'). zero_words fuel m' s' e)
zero_lines_lem zero_line fuel m s e c le s4 low f =
    let t = e - e % 32 in
    follow _ (λ m' s'. zero_words fuel m' s' e) m s t e (omega arith) (omega arith)
      (bounded (clear_loop fuel zero_line 32 m s) m s (align_down e 32) t t (align_down_line e low)
        (clear_lines_lem zero_line fuel m s t c (omega arith) s4 (omega arith) (omega arith)
          (omega arith)))
      (λ m1. zero_words_lem fuel m1 t e (omega arith) (omega arith) low (omega arith))

zero_aligned_lem :
    (zero_line : Bytes → ℕ → Bytes) (fuel : ℕ) (m : Bytes) (s e : ℕ)
    → ClearsLine zero_line
    → s ≤ e
    → s % 4 ≡ 0
    → e + 31 < word_size
    → e - s < fuel
    → Rest m s e (zero_aligned zero_line fuel m s e)
unfolding zero_aligned
zero_aligned_lem zero_line fuel m s e c le s4 low f =
    let t = s + 31 - (s + 31) % 32 in
    let up = align_up_line s (omega arith) in
    elim (Bool-cases (leb e t)) [
      | inl near ↦ rw (up, near) (zero_words_lem fuel m s e le s4 (omega arith) f)
      | inr far ↦
          let in_between : t < e = ground arith in
          rw (up, far)
            (follow _
              (λ m' s'. clear_loop fuel zero_line 32 m' s' (align_down e 32) >>= λ (m3, s3).
                zero_words fuel m3 s3 e)
              m s t e (omega arith) (omega arith)
              (clear_words_lem fuel m s t (omega arith) s4 (omega arith) (omega arith)
                (omega arith))
              (λ m1.
                zero_lines_lem zero_line fuel m1 t e c (omega arith) (omega arith) (omega arith)
                  (omega arith)))
    ]

zero_to_lem :
    (zero_line : Bytes → ℕ → Bytes) (fuel : ℕ) (m : Bytes) (s e : ℕ)
    → ClearsLine zero_line
    → s ≤ e
    → e + 31 < word_size
    → e - s < fuel
    → Rest m s e (zero_to zero_line fuel m s e)
unfolding zero_to
zero_to_lem zero_line fuel m s e c le low f =
    let t = s + 3 - (s + 3) % 4 in
    let up = align_up_four s (omega arith) in
    elim (Bool-cases (leb e t)) [
      | inl near ↦ rw (up, near) (zero_bytes_lem fuel m s e le (omega arith) f)
      | inr far ↦
          let in_between : t < e = ground arith in
          rw (up, far)
            (follow _ (λ m' s'. zero_aligned zero_line fuel m' s' e) m s t e (omega arith)
              (omega arith) (clear_bytes_lem fuel m s t (omega arith) (omega arith) (omega arith))
              (λ m1.
                zero_aligned_lem zero_line fuel m1 t e c (omega arith) (omega arith) low
                  (omega arith)))
    ]

-- Where dcbz clears its line, zero_block of at least one byte, in a block that ends a line or more
-- below 2 ^ 32, clears the `size` bytes and changes no other, with fuel above the size.
pub zero_block_lem :
    (zero_line : Bytes → ℕ → Bytes) (fuel : ℕ) (m : Bytes) (dst size : ℕ)
    → ClearsLine zero_line
    → 0 < size
    → dst + size + 32 < word_size
    → size < fuel
    → (m' : Bytes) × (zero_block zero_line fuel m dst size ≡ some m')
      × ((p : ℕ) → m' p ≡ filled m dst size 0 p)
unfolding zero_block
zero_block_lem zero_line fuel m dst size c pos low f =
    let s1 = sub_word-small size 1 (omega arith) (omega arith) in
    let s2 = add_word-small dst (size - 1) (omega arith) in
    let n : dst + (size - 1) - dst + 1 ≡ size = omega arith in
    let (m', r, at) =
      zero_to_lem zero_line fuel m dst (dst + (size - 1)) c (omega arith) (omega arith)
        (omega arith) in
    (
      m',
      ap (λ x. zero_to zero_line fuel m dst (add_word dst x)) s1
          ∙ ap (zero_to zero_line fuel m dst) s2
          ∙ r,
      λ p. at p ∙ ap (λ x. filled m dst x 0 p) n,
    )
